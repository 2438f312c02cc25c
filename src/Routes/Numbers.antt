-- ===== src/Routes/Numbers.antt =====
-- The numbers that the forms of the portal carry are read back as they are printed.
use satura_bridge.Prelude.{
  ℕ, List, Bool-cases, [], ap, arith, decimal, digits, false, inl, inr, ltb, ltb→lt, lt→ltb, pos,
  refl, suc, true, zero, ◌%◌, ◌*◌, ◌+◌, ◌-◌, ◌/◌, ◌<◌, ◌^◌, ◌∙◌, ◌∷◌, ◌≡◌,
}
use native.Mathlib.Nat.{pow-suc}
use satura_bridge.Routes.{is_digit, is_digits_only, digits_value, atoi}

is_digits_only-digits :
    (fuel n : ℕ) (rest : List ℕ)
    → is_digits_only rest ≡ true
    → is_digits_only (digits fuel n rest) ≡ true
unfolding digits is_digits_only
is_digits_only-digits zero n rest h = h
is_digits_only-digits (suc fuel) n rest h =
    ground (arith, h, is_digits_only-digits fuel (n / 10) ((b'0' + n % 10) ∷ rest))

pub is_digits_only-decimal : (n : ℕ) → is_digits_only (decimal n) ≡ true
unfolding decimal is_digits_only
is_digits_only-decimal n = is_digits_only-digits 10 n [] refl

digits_value-digit :
    (m k : ℕ) (rest : List ℕ)
    → k < 10
    → digits_value m ((b'0' + k) ∷ rest) ≡ digits_value (m * 10 + k) rest
unfolding digits_value
digits_value-digit m k rest h =
    let digit : is_digit (b'0' + k) ≡ true = ground arith in
    let value : b'0' + k - b'0' ≡ k = omega arith in ground (arith, digit, value)

digits_value_first :
    (k : ℕ) (rest : List ℕ) → k < 10 → digits_value 0 ((b'0' + k) ∷ rest) ≡ digits_value k rest
digits_value_first k rest h =
    digits_value-digit 0 k rest h ∙ ap (λ m. digits_value m rest) (omega arith)

digits_small :
    (fuel n : ℕ) (rest : List ℕ) → ltb n 10 ≡ true → digits (suc fuel) n rest ≡ (b'0' + n) ∷ rest
unfolding digits
digits_small fuel n rest h = ground arith

digits_large :
    (fuel n : ℕ) (rest : List ℕ)
    → ltb n 10 ≡ false
    → digits (suc fuel) n rest ≡ digits fuel (n / 10) ((b'0' + n % 10) ∷ rest)
unfolding digits
digits_large fuel n rest h = ground arith

digits_value-digits :
    (fuel n : ℕ) (rest : List ℕ)
    → n < 10 ^ suc fuel
    → digits_value 0 (digits (suc fuel) n rest) ≡ digits_value n rest
digits_value-digits zero n rest h =
    let one = pow-suc 10 zero in
    ap (digits_value 0) (digits_small zero n rest (lt→ltb n 10 (omega (arith, h, one))))
    ∙ digits_value_first n rest (omega (arith, h, one))
digits_value-digits (suc fuel) n rest h = elim (Bool-cases (ltb n 10)) [
  | inl small ↦
      ap (digits_value 0) (digits_small (suc fuel) n rest small)
      ∙ digits_value_first n rest (ltb→lt n 10 small)
  | inr large ↦
      ap (digits_value 0) (digits_large (suc fuel) n rest large)
      ∙ digits_value-digits fuel (n / 10) ((b'0' + n % 10) ∷ rest)
          (omega (arith, h, pow-suc 10 (suc fuel)))
      ∙ digits_value-digit (n / 10) (n % 10) rest (omega arith)
      ∙ ap (λ k. digits_value k rest) (omega arith)
]

pub digits_value-decimal : (n : ℕ) → n < 4294967296 → digits_value 0 (decimal n) ≡ n
unfolding decimal digits_value
digits_value-decimal n h = digits_value-digits 9 n [] (omega (arith, h))

pub atoi-digits : (s : List ℕ) → is_digits_only s ≡ true → atoi s ≡ pos (digits_value 0 s)
unfolding atoi is_digits_only digits_value
atoi-digits [] h = refl
atoi-digits (c ∷ s) h = ground arith
