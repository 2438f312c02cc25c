-- ===== src/Buffer.antt =====
-- Pages that main/http_routes.c and main/clipboard.c print into a buffer piece by piece, with
-- `len += snprintf(page + len, cap - len, ...)`.
use satura_bridge.Prelude.{
  Bool, List, ℕ, [], append-nil, arith, decimal, false, if◌then◌else◌, leb, length, ltb, lt→ltb,
  refl, sym, take, take-all, true, ◌++◌, ◌+◌, ◌-◌, ◌<◌, ◌||◌, ◌∷◌, ◌≡◌, append_assoc, ◌∙◌, subst,
}

-- `bytes` is the text in the buffer, `len` the variable, and `overrun` whether `snprintf` was called with
-- a place behind the buffer: once `len` is above `cap`, the `size_t` difference wraps to a huge size. What
-- the C library then does is left open, and nothing is said of the page from there on.
pub record Page : Type 0 where
  pub bytes : List ℕ
  pub len : ℕ
  pub overrun : Bool

abbrev pub empty_page : Page
empty_page = record { bytes = []; len = 0; overrun = false }

-- The result of `snprintf` is the length of the whole piece, whatever fitted; a size of 0 writes nothing.
unfoldable pub print : ℕ → List ℕ → Page → Page
print limit text p = record {
  bytes = if ltb p.len limit then p.bytes ++ take (limit - p.len - 1) text else p.bytes;
  len = p.len + length text;
  overrun = p.overrun || ltb limit p.len;
}

unfoldable pub print_all : ℕ → List (List ℕ) → Page → Page
print_all limit [] p = p
print_all limit (t ∷ ts) p = print_all limit ts (print limit t p)

-- One `snprintf` into a buffer of n bytes.
abbrev pub printed : ℕ → List ℕ → List ℕ
printed n text = take (n - 1) text

-- A number from -128 to 127 as `%d` prints it; r dBm is kept as r + 128.
unfoldable pub dbm : ℕ → List ℕ
dbm r = if leb 128 r then decimal (r - 128) else b'-' ∷ decimal (128 - r)

abbrev pub total : List (List ℕ) → ℕ
total [] = 0
total (t ∷ ts) = length t + total ts

abbrev pub joined : List (List ℕ) → List ℕ
joined [] = []
joined (t ∷ ts) = t ++ joined ts

pub print_all-append :
    (limit : ℕ) (ts us : List (List ℕ)) (p : Page)
    → print_all limit (ts ++ us) p ≡ print_all limit us (print_all limit ts p)
unfolding print_all
print_all-append limit [] us p = refl
print_all-append limit (t ∷ ts) us p = print_all-append limit ts us (print limit t p)

-- The pieces that were printed count in full.
pub len-print_all :
    (limit : ℕ) (ts : List (List ℕ)) (p : Page) → (print_all limit ts p).len ≡ p.len + total ts
unfolding print_all print
len-print_all limit [] p = omega arith
len-print_all limit (t ∷ ts) p = omega (arith, len-print_all limit ts (print limit t p))

pub print-fits :
    (limit : ℕ) (t : List ℕ) (p : Page)
    → p.overrun ≡ false
    → p.len + length t < limit
    → print limit t p ≡ record { bytes = p.bytes ++ t; len = p.len + length t; overrun = false }
unfolding print
print-fits limit t p good h =
    let behind : ltb limit p.len ≡ false = ground arith in
    rw
      (good, behind, lt→ltb p.len limit (omega arith), take-all (limit - p.len - 1) t (omega arith))
      refl

-- A page that fits holds every piece in full, and no call is given a place behind the buffer.
pub print_all_fits :
    (limit : ℕ) (ts : List (List ℕ)) (p : Page)
    → p.overrun ≡ false
    → p.len + total ts < limit
    → ((print_all limit ts p).overrun ≡ false)
      × ((print_all limit ts p).bytes ≡ p.bytes ++ joined ts)
unfolding print_all
print_all_fits limit [] p good h = (good, sym (append-nil p.bytes))
print_all_fits limit (t ∷ ts) p good h =
    let q : Page = record { bytes = p.bytes ++ t; len = p.len + length t; overrun = false } in
    let rest = print_all_fits limit ts q refl (omega (arith, h)) in
    subst
      (λ r.
        ((print_all limit ts r).overrun ≡ false)
        × ((print_all limit ts r).bytes ≡ p.bytes ++ (t ++ joined ts)))
      (sym (print-fits limit t p good (omega (arith, h))))
      (rest.0, rest.1 ∙ append_assoc p.bytes t (joined ts))

overrun-print_all :
    (limit : ℕ) (ts : List (List ℕ)) (p : Page)
    → p.overrun ≡ true
    → (print_all limit ts p).overrun ≡ true
unfolding print_all print
overrun-print_all limit [] p h = h
overrun-print_all limit (t ∷ ts) p h = overrun-print_all limit ts (print limit t p) (ground arith)

-- Once the length is above the size, the next call is given a place behind the buffer.
pub overrun-print :
    (limit : ℕ) (t : List ℕ) (ts : List (List ℕ)) (p : Page)
    → limit < p.len
    → (print_all limit (t ∷ ts) p).overrun ≡ true
unfolding print_all print
overrun-print limit t ts p h = overrun-print_all limit ts (print limit t p) (ground arith)
