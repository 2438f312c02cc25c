-- ===== src/Board/Single.antt =====
-- Arithmetic on `float`, IEEE 754 single precision rounding to nearest even, as main/board uses it. A
-- number is a sign and a size in units of 2^-40. Sizes of 2^-17 and more are exact or rounded as the
-- hardware does it; smaller ones, which do not occur, are rounded to the unit.
use satura_bridge.Prelude.{
  Bool, false, ltb, leb, true, not, zero, suc, ℕ, if◌then◌else◌, ◌+◌, ◌-◌, ◌*◌, ◌/◌, ◌%◌, ◌^◌, ◌==◌,
}

pub record Single : Type 0 where
  pub negative : Bool
  pub size : ℕ

abbrev pub unit : ℕ
unit = 2 ^ 40

-- The distance of neighbours around the quotient n / d: the least power of two, at least `ulp`, of which
-- the quotient holds fewer than 2^24.
unfoldable pub spacing : ℕ → ℕ → ℕ → ℕ → ℕ
spacing zero ulp n d = ulp
spacing (suc fuel) ulp n d = elim (ltb n (2 ^ 24 * (d * ulp))) [
  | true ↦ ulp
  | false ↦ spacing fuel (2 * ulp) n d
]

-- The multiple of `step` nearest to n / d, an even one on a tie.
unfoldable pub nearest_multiple : ℕ → ℕ → ℕ → ℕ
nearest_multiple n d step =
    let q = n / (d * step) in
    let rest = n % (d * step) in
    if ltb (2 * rest) (d * step)
    then q * step
    else (if ltb (d * step) (2 * rest) then (q + 1) * step else (q + q % 2) * step)

unfoldable pub nearest : ℕ → ℕ → ℕ
unfolding spacing nearest_multiple
nearest n d = nearest_multiple n d (spacing 128 1 n d)

abbrev pub positive : ℕ → Single
positive n = record { negative = false; size = n }

-- The literal n / d, and the conversion of an `int` that is not negative.
unfoldable pub literal : ℕ → ℕ → Single
unfolding nearest
literal n d = positive (nearest (n * unit) d)

abbrev pub of_int : ℕ → Single
of_int n = literal n 1

-- The products and quotients of the source have a right operand above zero.
unfoldable pub times : Single → Single → Single
unfolding nearest
times a b = record { negative = a.negative; size = nearest (a.size * b.size) unit }

unfoldable pub over : Single → Single → Single
unfolding nearest
over a b = record { negative = a.negative; size = nearest (a.size * unit) b.size }

-- The difference of two numbers that are not negative.
unfoldable pub minus : Single → Single → Single
unfolding nearest
minus a b =
    if leb b.size a.size
    then record { negative = false; size = nearest (a.size - b.size) 1 }
    else record { negative = true; size = nearest (b.size - a.size) 1 }

unfoldable pub less : Single → Single → Bool
less a b =
    if a.negative
    then (if b.negative then ltb b.size a.size else not (a.size + b.size == 0))
    else (if b.negative then false else ltb a.size b.size)

-- `(int)x` of a number that is not negative.
abbrev pub truncated : Single → ℕ
truncated x = x.size / unit

-- `if (pct > 100.0f) pct = 100.0f; if (pct < 0.0f) pct = 0.0f; return (int)pct;`.
unfoldable pub clamped_percent : Single → ℕ
unfolding less
clamped_percent pct =
    let capped = if less (positive (100 * unit)) pct then positive (100 * unit) else pct in
    truncated (if less capped (positive 0) then positive 0 else capped)
