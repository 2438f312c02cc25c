-- ===== src/Relay/Head.antt =====
-- The blank line behind the headers, which main/proxy_relay.c looks for chunk by chunk.
use satura_bridge.Prelude.{
  Bool, List, [], drop, false, length, refl, ℕ, ◌++◌, ◌-◌, ◌∷◌, ◌≡◌, Bool-cases, ap, append_assoc,
  arith, inl, inr, ltb, not, or_false, suc, ◌||◌, ◌∙◌, ◌⊎◌,
}
use satura_bridge.Relay.{read_head, has_terminator, starts_with, blank_line, head_buf_size}

-- Three bytes before the new ones are enough to find a blank line that was not there before.
pub has_terminator-append :
    (xs ys : List ℕ)
    → has_terminator xs ≡ false
    → has_terminator (xs ++ ys) ≡ has_terminator (drop (length xs - 3) (xs ++ ys))
unfolding has_terminator starts_with
has_terminator-append [] ys h = refl
has_terminator-append (a ∷ []) ys h = refl
has_terminator-append (a ∷ b ∷ []) ys h = refl
has_terminator-append (a ∷ b ∷ c ∷ []) ys h = refl
has_terminator-append (a ∷ b ∷ c ∷ d ∷ xs) ys h =
    let later = b ∷ c ∷ d ∷ xs in
    let parts = or_false (starts_with blank_line (a ∷ later)) (has_terminator later) h in
    rw (parts.0) (
      has_terminator-append (b ∷ c ∷ d ∷ xs) ys parts.1
      ∙ ap (λ n. has_terminator (drop n (a ∷ (later ++ ys)))) {x = suc (length later - 3)}
          (omega arith))

abbrev pub joined_chunks : List (List ℕ × Bool) → List ℕ
joined_chunks [] = []
joined_chunks ((chunk, ok) ∷ cs) = chunk ++ joined_chunks cs

-- What the loop does with a chunk depends on the test only.
more-cases :
    (head : List ℕ) (b : ℕ) (bs : List ℕ) (ok : Bool) (cs : List (List ℕ × Bool))
    → let r = read_head head (has_terminator head) (((b ∷ bs), ok) ∷ cs) in
      (r ≡ record {
        head = head;
        found_terminator = has_terminator head;
        unread = ((b ∷ bs), ok) ∷ cs;
      })
      ⊎ (r ≡ read_head (head ++ b ∷ bs) (has_terminator (head ++ b ∷ bs)) cs)
unfolding read_head
more-cases head b bs ok cs = elim (Bool-cases (has_terminator head)) [
  | inl seen ↦ rw seen (inl refl)
  | inr unseen ↦
      let scan = has_terminator-append head (b ∷ bs) unseen in
      elim (Bool-cases (ltb (length head) (head_buf_size - 1))) [
        | inl room ↦ rw (unseen, room, scan) (inr refl)
        | inr full ↦ rw (unseen, full) (inl refl)
      ]
]

-- The flag that the loop keeps by looking at the last chunk and three bytes before it is whether the
-- bytes read hold a blank line anywhere; the bytes read and those unread are what the upstream sent.
pub read_head-has_terminator :
    (chunks : List (List ℕ × Bool)) (head : List ℕ)
    → let r = read_head head (has_terminator head) chunks in
      (r.found_terminator ≡ has_terminator r.head)
      × (r.head ++ joined_chunks r.unread ≡ head ++ joined_chunks chunks)
unfolding read_head
read_head-has_terminator [] head = (refl, refl)
read_head-has_terminator (([], ok) ∷ cs) head =
    elim (Bool-cases (has_terminator head || not (ltb (length head) (head_buf_size - 1)))) [
      | inl stop ↦ rw stop (refl, refl)
      | inr go ↦ rw go (refl, refl)
    ]
read_head-has_terminator (((b ∷ bs), ok) ∷ cs) head =
    let ih = read_head-has_terminator cs (head ++ b ∷ bs) in
    elim (more-cases head b bs ok cs) [
      | inl stop ↦ rw stop (refl, refl)
      | inr go ↦ rw go (ih.0, ih.1 ∙ append_assoc head (b ∷ bs) (joined_chunks cs))
    ]
