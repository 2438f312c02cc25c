-- ===== src/Relay/Lines.antt =====
-- How the loops of main/proxy_relay.c cut a head into its lines, and a line into its name and value.
use satura_bridge.Prelude.{
  All, All-append, List, [], ap, append_assoc, arith, get_or, map, refl, replicate, reverse, some,
  suc, sym, zero, ℕ, ◌++◌, ◌∙◌, ◌∷◌, ◌≡◌, ◌≢◌, append-nil,
}
use mathlib.Core.List.{reverse-cons}
use satura_bridge.Buffer.{joined}
use satura_bridge.Relay.{after_char, before_char, split_lines, until_blank, skip_spaces, crlf}

-- A header field, with the blanks in front of its value.
pub record Field : Type 0 where
  pub name : List ℕ
  pub blanks : ℕ
  pub value : List ℕ

-- The line of a field, without its end.
abbrev pub field_line : Field → List ℕ
field_line f = f.name ++ b':' ∷ (replicate f.blanks b' ' ++ f.value)

abbrev pub IsPlain : ℕ → Type 0
IsPlain c = c ≢ 13

-- The name holds no colon, the line no carriage return, and the blanks are all counted.
pub record IsField (f : Field) : Type 0 where
  pub plain_name : All (λ c. (c ≢ b':') × (c ≢ 13)) f.name
  pub plain_value : All IsPlain f.value
  pub counted : get_or f.value 0 0 ≢ b' '

split_step :
    (line : List ℕ) (x y : ℕ) (xs : List ℕ)
    → x ≢ 13
    → split_lines line (x ∷ y ∷ xs) ≡ split_lines (x ∷ line) (y ∷ xs)
unfolding split_lines
split_step line x y xs h = ground arith

pub split_line :
    (line l rest : List ℕ)
    → All IsPlain l
    → split_lines line (l ++ (13 ∷ 10 ∷ rest)) ≡ (reverse line ++ l) ∷ split_lines [] rest
unfolding split_lines
split_line line [] rest h = ap (λ t. t ∷ split_lines [] rest) (sym (append-nil (reverse line)))
split_line line (x ∷ []) rest h =
    split_step line x 13 (10 ∷ rest) h.0 ∙ ap (λ t. t ∷ split_lines [] rest) (reverse-cons x line)
split_line line (x ∷ y ∷ l) rest h =
    split_step line x y (l ++ (13 ∷ 10 ∷ rest)) h.0
    ∙ split_line (x ∷ line) (y ∷ l) rest h.1
    ∙ ap (λ t. t ∷ split_lines [] rest)
        (ap (λ t. t ++ y ∷ l) (reverse-cons x line) ∙ append_assoc (reverse line) (x ∷ []) (y ∷ l))

blanks-IsPlain : (n : ℕ) → All IsPlain (replicate n b' ')
blanks-IsPlain zero = tt
blanks-IsPlain (suc n) = ((omega arith), blanks-IsPlain n)

pub name-IsPlain : (name : List ℕ) → All (λ c. (c ≢ b':') × (c ≢ 13)) name → All IsPlain name
name-IsPlain [] h = tt
name-IsPlain (c ∷ cs) h = (h.0.1, name-IsPlain cs h.1)

line-IsPlain : (f : Field) → IsField f → All IsPlain (field_line f)
line-IsPlain f h = All-append IsPlain f.name _ (name-IsPlain f.name h.plain_name) (
  (omega arith),
  All-append IsPlain (replicate f.blanks b' ') f.value (blanks-IsPlain f.blanks) h.plain_value,
)

until_blank-line :
    (name more : List ℕ) (ls : List (List ℕ))
    → until_blank ((name ++ b':' ∷ more) ∷ ls) ≡ (name ++ b':' ∷ more) ∷ until_blank ls
unfolding until_blank
until_blank-line [] more ls = refl
until_blank-line (c ∷ cs) more ls = refl

pub split_fields :
    (fs : List Field) (rest : List ℕ)
    → All IsField fs
    → until_blank (split_lines [] (joined (map (λ f. field_line f ++ crlf) fs) ++ (13 ∷ 10 ∷ rest)))
      ≡ map field_line fs
unfolding split_lines until_blank
split_fields [] rest h = refl
split_fields (f ∷ fs) rest h =
    let later = joined (map (λ f. field_line f ++ crlf) fs) in
    ap (λ t. until_blank (split_lines [] t))
      (append_assoc (field_line f ++ crlf) later (13 ∷ 10 ∷ rest)
        ∙ append_assoc (field_line f) crlf (later ++ (13 ∷ 10 ∷ rest)))
    ∙ ap until_blank (split_line [] (field_line f) (later ++ (13 ∷ 10 ∷ rest)) (line-IsPlain f h.0))
    ∙ until_blank-line f.name (replicate f.blanks b' ' ++ f.value) _
    ∙ ap (λ t. field_line f ∷ t) (split_fields fs rest h.1)

pub before_colon :
    (name more : List ℕ)
    → All (λ c. (c ≢ b':') × (c ≢ 13)) name
    → (before_char b':' (name ++ b':' ∷ more) ≡ name)
      × (after_char b':' (name ++ b':' ∷ more) ≡ some more)
unfolding before_char after_char
before_colon [] more h = (refl, refl)
before_colon (c ∷ cs) more h =
    let (before, after) = before_colon cs more h.1 in ground (arith, h.0.0, before, after)

pub skip_blanks :
    (n : ℕ) (value : List ℕ)
    → get_or value 0 0 ≢ b' '
    → skip_spaces (replicate n b' ' ++ value) ≡ value
unfolding skip_spaces
skip_blanks zero [] h = refl
skip_blanks zero (c ∷ cs) h = ground (arith, h)
skip_blanks (suc n) value h = skip_blanks n value h
