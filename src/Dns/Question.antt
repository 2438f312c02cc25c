-- ===== src/Dns/Question.antt =====
-- The captive reply of main/dns_server.c to a well-formed question.
use satura_bridge.Prelude.{
  All, List, [], arith, get_or, length, length-append, refl, some, suc, zero, ℕ, ◌++◌, ◌+◌, ◌<◌,
  ◌∷◌, ◌≡◌, ◌≤◌, ap, lt→ltb, sym, ◌-◌, ◌∙◌, append_assoc, if◌then◌else◌, ◌*◌, ◌==◌, drop,
  drop-append_left, false, ltb, min, take, take-all, ◌||◌,
}
use satura_bridge.Dns.{
  skip_name, captive_at, captive_answer, dns_make_captive_reply, answer_record, reply_header,
}

-- The labels of a name, each after its length.
unfoldable pub labels : List (List ℕ) → List ℕ
labels [] = []
labels (l ∷ ls) = length l ∷ l ++ labels ls

get_or-append : (xs ys : List ℕ) (y d : ℕ) → get_or (xs ++ y ∷ ys) (length xs) d ≡ y
get_or-append [] ys y d = refl
get_or-append (x ∷ xs) ys y d = get_or-append xs ys y d

get_or-shift :
    (xs ys : List ℕ) (k n : ℕ) → n ≡ length xs + k → get_or (xs ++ ys) n 0 ≡ get_or ys k 0
get_or-shift [] ys k n e = ap (λ m. get_or ys m 0) {x = n} {y = k} (omega arith)
get_or-shift (x ∷ xs) ys k zero e = absurd (omega arith)
get_or-shift (x ∷ xs) ys k (suc n) e = get_or-shift xs ys k n (omega arith)

skip-root :
    (q : List ℕ) (off fuel : ℕ)
    → off + 4 < length q
    → get_or q off 0 ≡ 0
    → skip_name (suc fuel) q off ≡ some (off + 1)
unfolding skip_name
skip-root q off fuel h z = rw (lt→ltb off (length q - 4) (omega arith), z) refl

skip-label :
    (q : List ℕ) (off fuel n : ℕ)
    → off + 4 < length q
    → get_or q off 0 ≡ n
    → 1 ≤ n
    → n ≤ 63
    → skip_name (suc fuel) q off ≡ skip_name fuel q (off + 1 + n)
unfolding skip_name
skip-label q off fuel n h z low high =
    rw (lt→ltb off (length q - 4) (omega arith), z) (ground arith)

-- From the start of a name to behind its root label.
skip_name-labels :
    (ls : List (List ℕ)) (pre rest : List ℕ) (fuel : ℕ)
    → All (λ l. (1 ≤ length l) × (length l ≤ 63)) ls
    → length rest ≡ 4
    → length ls < fuel
    → skip_name fuel (pre ++ (labels ls ++ 0 ∷ rest)) (length pre)
      ≡ some (length pre + length (labels ls) + 1)
unfolding labels
skip_name-labels ls pre rest zero h four f = absurd (omega arith)
skip_name-labels [] pre rest (suc fuel) h four f =
    skip-root (pre ++ 0 ∷ rest) (length pre) fuel (omega (arith, length-append pre (0 ∷ rest)))
      (get_or-append pre rest 0 0)
    ∙ ap some (omega arith)
skip_name-labels (l ∷ ls) pre rest (suc fuel) h four f =
    let shifted = pre ++ (length l ∷ l) in
    let moved = length-append pre (length l ∷ l) in
    let q = pre ++ (length l ∷ ((l ++ labels ls) ++ 0 ∷ rest)) in
    skip-label q (length pre) fuel (length l)
      (omega (
        arith,
        length-append pre (length l ∷ ((l ++ labels ls) ++ 0 ∷ rest)),
        length-append (l ++ labels ls) (0 ∷ rest),
      ))
      (get_or-append pre _ (length l) 0) h.0.0 h.0.1
    ∙ sym (
        ap (λ t. skip_name fuel t (length shifted))
          (append_assoc pre (length l ∷ l) (labels ls ++ 0 ∷ rest)
            ∙ ap (λ t. pre ++ (length l ∷ t)) (sym (append_assoc l (labels ls) (0 ∷ rest))))
        ∙ ap (skip_name fuel q) {x = length shifted} {y = length pre + 1 + length l}
            (omega (arith, moved)))
    ∙ skip_name-labels ls shifted rest fuel h.1 four (omega arith)
    ∙ ap some (omega (arith, moved, length-append l (labels ls)))

labels_longer : (ls : List (List ℕ)) → length ls ≤ length (labels ls)
unfolding labels
labels_longer [] = omega arith
labels_longer (l ∷ ls) = omega (arith, labels_longer ls, length-append l (labels ls))

drop-whole :
    (header question : List ℕ) → length header ≡ 12 → drop 12 (header ++ question) ≡ question
drop-whole header question h =
    ap (λ n. drop n (header ++ question)) (sym h) ∙ drop-append_left header question

-- A query: twelve bytes of header, the name, its root label, and the type and the class.
abbrev pub question_of : List ℕ → List (List ℕ) → ℕ → ℕ → List ℕ → List ℕ
question_of header ls hi lo cls = header ++ (labels ls ++ 0 ∷ hi ∷ lo ∷ cls)

captive_at-question :
    (q question : List ℕ) (off hi lo : ℕ)
    → drop 12 q ≡ question
    → length q ≡ 12 + length question
    → length q ≤ 200
    → length q ≡ off + 4
    → 4 ≤ length question
    → get_or q off 0 ≡ hi
    → get_or q (off + 1) 0 ≡ lo
    → captive_at (some off) q 512 ≡ (
        if hi * 256 + lo == 1
        then reply_header q 128 1 ++ question ++ answer_record
        else reply_header q 131 0 ++ question)
unfolding captive_at captive_answer
captive_at-question q question off hi lo body size small ends four ha la =
    let cut : take (min (length q) 200 - 12) (drop 12 q) ≡ question =
      ap (take (min (length q) 200 - 12)) body ∙ take-all _ question (omega arith) in
    let fits : ltb (length q) (off + 4) ≡ false = ground arith in
    rw (fits, ha, la, cut) (ground arith)

-- A query of at most 200 bytes that is a header of twelve bytes, labels of one to 63 bytes, the root
-- label, a type and a class, is answered under a reply header with the same question: for type A
-- with the address of the gateway, for every other type with no name found.
pub captive-question :
    (header : List ℕ) (ls : List (List ℕ)) (hi lo : ℕ) (cls : List ℕ)
    → length header ≡ 12
    → length cls ≡ 2
    → All (λ l. (1 ≤ length l) × (length l ≤ 63)) ls
    → length (question_of header ls hi lo cls) ≤ 200
    → let query = question_of header ls hi lo cls in
      let question = labels ls ++ 0 ∷ hi ∷ lo ∷ cls in
      dns_make_captive_reply query 512 ≡ (
        if hi * 256 + lo == 1
        then reply_header query 128 1 ++ question ++ answer_record
        else reply_header query 131 0 ++ question)
unfolding dns_make_captive_reply
captive-question header ls hi lo cls twelve two h small =
    let query = question_of header ls hi lo cls in
    let question = labels ls ++ 0 ∷ hi ∷ lo ∷ cls in
    let size = length-append header question in
    let rest = length-append (labels ls) (0 ∷ hi ∷ lo ∷ cls) in
    let ended =
      ap (skip_name (length query) query) (sym twelve)
      ∙ skip_name-labels ls header (hi ∷ lo ∷ cls) (length query) h (omega (arith, two))
          (omega (arith, labels_longer ls, size, rest))
      ∙ ap (λ n. some (n + length (labels ls) + 1)) twelve in
    let read : (k n : ℕ)
        → n ≡ 12 + length (labels ls) + k
        → get_or query n 0 ≡ get_or (0 ∷ hi ∷ lo ∷ cls) k 0 =
      λ k n e.
        get_or-shift header question (length (labels ls) + k) n (omega (arith, e, twelve))
        ∙ get_or-shift (labels ls) (0 ∷ hi ∷ lo ∷ cls) k _ refl in
    let long : (ltb (length query) 12 || ltb 512 28) ≡ false = ground (arith, size, twelve) in
    rw (long, ended)
      (captive_at-question query question (12 + length (labels ls) + 1) hi lo
        (drop-whole header question twelve) (omega (arith, size, twelve)) small
        (omega (arith, size, rest, two, twelve)) (omega (arith, rest, two))
        (read 1 (12 + length (labels ls) + 1) (omega arith))
        (read 2 (12 + length (labels ls) + 1 + 1) (omega arith)))
