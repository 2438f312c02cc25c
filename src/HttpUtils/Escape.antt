-- ===== src/HttpUtils/Escape.antt =====
-- html_escape keeps to its buffer, leaves no markup, and can be read back.
use satura_bridge.Prelude.{
  ℕ, suc, zero, ◌+◌, ◌*◌, ◌≤◌, ◌<◌, ◌≡◌, ◌≢◌, refl, Bool, true, false, ◌&&◌, ◌||◌, Option, none,
  some, List, [], ◌∷◌, ◌++◌, arith, ltb, ◌==◌, if◌then◌else◌, length, codes, All, All-append,
  length-append, ap, Bool-cases, lt→ltb, inl, inr,
}
use satura_bridge.HttpUtils.{escape_char, escape_loop, html_escape}

length-escape_char : (c : ℕ) → length (escape_char c) ≤ 6
unfolding escape_char
length-escape_char c = ground arith

escape_loop_bounds : (src : List ℕ) (w n : ℕ) → w < n → w + length (escape_loop src w n) < n
unfolding escape_loop
escape_loop_bounds [] w n h = omega arith
escape_loop_bounds (c ∷ p) w n h = ground (
  arith,
  length-escape_char c,
  length-append (escape_char c) (escape_loop p (w + length (escape_char c)) n),
  escape_loop_bounds p (w + length (escape_char c)) n,
)

-- For a buffer of at least one byte, the text and its terminating NUL fit into the buffer.
pub html_escape_bounds : (src : List ℕ) (n : ℕ) → 0 < n → length (html_escape src n) < n
unfolding html_escape
html_escape_bounds src n h = omega (arith, escape_loop_bounds src 0 n h)

-- A character that cannot end an element's text or a double-quoted attribute.
abbrev pub IsInert : ℕ → Type 0
IsInert c = (c ≢ b'<') × (c ≢ b'>') × (c ≢ b'"')

escape_char-IsInert : (c : ℕ) → All IsInert (escape_char c)
unfolding escape_char
escape_char-IsInert c = ground arith

escape_loop-IsInert : (src : List ℕ) (w n : ℕ) → All IsInert (escape_loop src w n)
unfolding escape_loop
escape_loop-IsInert [] w n = tt
escape_loop-IsInert (c ∷ p) w n = elim (Bool-cases (ltb (w + 7) n)) [
  | inl room ↦ rw room (
      All-append IsInert (escape_char c) _ (escape_char-IsInert c)
        (escape_loop-IsInert p (w + length (escape_char c)) n))
  | inr full ↦ rw full tt
]

-- Whatever the source and the size of the buffer, the text written holds no `<`, `>` or `"`.
pub html_escape-IsInert : (src : List ℕ) (n : ℕ) → All IsInert (html_escape src n)
unfolding html_escape
html_escape-IsInert src n = escape_loop-IsInert src 0 n

-- How a text is read back where `<`, `>` and `"` are markup: an entity stands for its character, and a
-- raw one of the three ends the text, which is `none`.
unfoldable pub starts_with : List ℕ → List ℕ → Bool
starts_with [] s = true
starts_with (p ∷ ps) [] = false
starts_with (p ∷ ps) (c ∷ s) = p == c && starts_with ps s

unfoldable pub entity_value : List ℕ → Option (ℕ × ℕ)
unfolding starts_with
entity_value s =
    if starts_with (codes "amp;") s
    then some (b'&', 4)
    else if starts_with (codes "lt;") s
    then some (b'<', 3)
    else if starts_with (codes "gt;") s
    then some (b'>', 3)
    else if starts_with (codes "quot;") s
    then some (b'"', 5)
    else none

-- A character in front of a text that could be read.
abbrev pub onto : ℕ → Option (List ℕ) → Option (List ℕ)
onto c none = none
onto c (some s) = some (c ∷ s)

-- `skip` counts the bytes of an entity that are still to be passed over.
unfoldable pub read_html : ℕ → List ℕ → Option (List ℕ)
unfolding entity_value
read_html skip [] = some []
read_html (suc skip) (c ∷ s) = read_html skip s
read_html zero (c ∷ s) =
    let next = read_html 0 s in
    if c == b'<' || c == b'>' || c == b'"' then none else elim (c == b'&') [
      | true ↦ elim (entity_value s) [ some (v, k) ↦ onto v (read_html k s) | none ↦ onto c next ]
      | false ↦ onto c next
    ]

read_html-escape_char :
    (c : ℕ) (s : List ℕ) → read_html 0 (escape_char c ++ s) ≡ onto c (read_html 0 s)
unfolding read_html escape_char entity_value
read_html-escape_char c s = ground arith

read_html-escape_loop :
    (src : List ℕ) (w n : ℕ)
    → w + 6 * length src + 1 < n
    → read_html 0 (escape_loop src w n) ≡ some src
unfolding escape_loop
read_html-escape_loop [] w n h = unfold read_html in refl
read_html-escape_loop (c ∷ p) w n h =
    rw (lt→ltb (w + 7) n (omega arith), read_html-escape_char)
      (ap (onto c) (read_html-escape_loop p _ n (omega (arith, length-escape_char c))))

-- Where the buffer has six bytes for each character and two more, nothing is cut off: the result holds
-- no markup, and with its entities replaced it is the source.
pub read_html-html_escape :
    (src : List ℕ) (n : ℕ) → 6 * length src + 1 < n → read_html 0 (html_escape src n) ≡ some src
unfolding html_escape
read_html-html_escape src n h = read_html-escape_loop src 0 n (omega arith)
