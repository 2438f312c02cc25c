-- ===== src/Relay/Body.antt =====
-- The body that main/proxy_relay.c relays, against the bytes that the upstream sent.
use satura_bridge.Prelude.{
  All, Bool, List, Option, [], arith, length, some, ℕ, ◌+◌, ◌<◌, ◌∷◌, ◌≡◌, ◌≤◌, Bool-cases, false,
  inl, inr, length-append, ltb, ltb→lt, ◌⊎◌,
}
use satura_bridge.Relay.{BodyState, relay_body}

-- Once the length is reached nothing more is read, so the relayed bytes pass it by less than a chunk.
pub body_bounds :
    (n relayed : ℕ) (chunks : List (List ℕ × Bool))
    → All (λ c. length c.0 ≤ 512) chunks
    → relayed < n + 512
    → relayed + length (relay_body (some n) relayed chunks).sent < n + 512
unfolding relay_body
body_bounds n relayed [] h low = omega arith
body_bounds n relayed (([], ok) ∷ cs) h low = omega arith
body_bounds n relayed (((b ∷ bs), ok) ∷ cs) h low = elim (Bool-cases (ltb relayed n)) [
  | inr done ↦ rw done (omega arith)
  | inl more ↦ elim (Bool-cases ok) [
    | inr gone ↦ rw (more, gone) (omega (arith, ltb→lt _ _ more, h.0))
    | inl here ↦
        let rest = relay_body (some n) (relayed + length (b ∷ bs)) cs in
        rw (more, here)
          (omega (
            arith,
            body_bounds n (relayed + length (b ∷ bs)) cs h.1 (omega (arith, ltb→lt _ _ more, h.0)),
            length-append (b ∷ bs) rest.sent,
          ))
  ]
]

-- A chunk that a list of chunks marks as not taken.
unfoldable pub IsRefusedIn : List ℕ → List (List ℕ × Bool) → Type 0
IsRefusedIn c [] = ⊥
IsRefusedIn c ((d, ok) ∷ cs) = ((d ≡ c) × (ok ≡ false)) ⊎ IsRefusedIn c cs

-- The state is told apart by its refused chunk: none, or one of those that were to come.
abbrev IsRefusal : List (List ℕ × Bool) → BodyState → Type 0
IsRefusal chunks b = (b.refused ≡ []) ⊎ IsRefusedIn b.refused chunks
