-- ===== src/Dns/Reply.antt =====
-- The captive reply of main/dns_server.c, and the replies that it passes on.
use satura_bridge.Prelude.{
  Bool-cases, List, [], arith, drop, get_or, inl, inr, leb, length, length-append, ltb, min, refl,
  some, suc, take, zero, ℕ, ◌+◌, ◌-◌, ◌<◌, ◌==◌, ◌≡◌, ◌≤◌, ◌⊎◌, Option-cases, ◌*◌, ◌||◌,
  length-take, subst, sym, true,
}
use mathlib.Core.Option.{some-injective}
use satura_bridge.Dns.{
  accepts, skip_name, captive_at, captive_answer, dns_make_captive_reply, answer_record,
  dns_forward, SockAddr, Upstream,
}

-- A reply to the query: between a header and a whole packet long, and under the query's id.
unfoldable pub IsReplyTo : List ℕ → List ℕ → Type 0
IsReplyTo query reply =
    (12 ≤ length reply)
    × (length reply ≤ 512)
    × (get_or reply 0 0 ≡ get_or query 0 0)
    × (get_or reply 1 0 ≡ get_or query 1 0)

-- The fuel of one step for each byte from the offset on is enough.
skip_enough :
    (fuel : ℕ) (query : List ℕ) (off : ℕ)
    → 4 ≤ length query
    → length query < fuel + off + 4
    → 0 < fuel
    → (end : ℕ) × (skip_name fuel query off ≡ some end)
unfolding skip_name
skip_enough zero query off q h p = absurd (omega arith)
skip_enough (suc fuel) query off q h p = elim (Bool-cases (ltb off (length query - 4))) [
  | inr stop ↦ rw stop (off, refl)
  | inl go ↦ elim (Bool-cases (get_or query off 0 == 0)) [
    | inl root ↦ rw (go, root) (off + 1, refl)
    | inr label ↦ elim (Bool-cases (leb 192 (get_or query off 0))) [
      | inl pointer ↦ rw (go, label, pointer) (off + 2, refl)
      | inr plain ↦
          rw (go, label, plain)
            (skip_enough fuel query (off + 1 + get_or query off 0) q (omega arith) (ground arith))
    ]
  ]
]

-- The loop over the name of a query of at least a header's length ends within one step for each byte.
pub skip_name-ends :
    (query : List ℕ)
    → 12 ≤ length query
    → (end : ℕ) × (skip_name (length query) query 12 ≡ some end)
skip_name-ends query h =
    skip_enough (length query) query 12 (omega arith) (omega arith) (omega arith)

captive_answer-IsReplyTo :
    (qtype : ℕ) (query : List ℕ) (rmax : ℕ)
    → 28 ≤ rmax
    → rmax ≤ 512
    → (captive_answer qtype query rmax ≡ [])
      ⊎ ((length (captive_answer qtype query rmax) ≤ rmax)
          × IsReplyTo query (captive_answer qtype query rmax))
unfolding captive_answer IsReplyTo
captive_answer-IsReplyTo qtype query rmax low high =
    let question = take (min (length query) 200 - 12) (drop 12 query) in
    ground (arith, length-append question answer_record)

-- The captive reply fits the buffer of 28 to 512 bytes, and it is a reply to the query or none.
pub captive-IsReplyTo :
    (query : List ℕ) (rmax : ℕ)
    → rmax ≤ 512
    → (dns_make_captive_reply query rmax ≡ [])
      ⊎ ((length (dns_make_captive_reply query rmax) ≤ rmax)
          × IsReplyTo query (dns_make_captive_reply query rmax))
unfolding dns_make_captive_reply captive_at
captive-IsReplyTo query rmax high = elim (Bool-cases (ltb (length query) 12 || ltb rmax 28)) [
  | inl short ↦ rw short (inl refl)
  | inr long ↦ rw long (elim (Option-cases (skip_name (length query) query 12)) [
    | inl spent ↦ rw spent (inl refl)
    | inr (off, found) ↦ rw found (elim (Bool-cases (ltb (length query) (off + 4))) [
      | inl cut ↦ rw cut (inl refl)
      | inr whole ↦ rw whole (
          captive_answer-IsReplyTo (get_or query off 0 * 256 + get_or query (off + 1) 0) query rmax
            (ground arith) high)
    ])
  ])
]

-- A datagram of the upstream server.
pub IsFrom : SockAddr → Upstream → List ℕ → Type 0
IsFrom server up reply =
    (from : SockAddr) × (packet : List ℕ) × (up.received ≡ some (from, packet))
    × (from.addr ≡ server.addr)
    × (from.port ≡ server.port)
    × (reply ≡ take 512 packet)

accepted-facts :
    (from server : SockAddr) (query reply : List ℕ)
    → accepts from server query reply ≡ true
    → (12 ≤ length reply)
      × (get_or reply 0 0 ≡ get_or query 0 0)
      × (get_or reply 1 0 ≡ get_or query 1 0)
      × (from.addr ≡ server.addr)
      × (from.port ≡ server.port)
accepted-facts from server query reply h = ground arith

-- A reply that is passed on is what a datagram of the queried address and port holds, and a reply to
-- the query.
pub dns_forward-IsReplyTo :
    (ext_dns : SockAddr) (up : Upstream) (query reply : List ℕ)
    → dns_forward ext_dns up query ≡ some reply
    → IsReplyTo query reply × IsFrom ext_dns up reply
unfolding dns_forward IsReplyTo IsFrom
dns_forward-IsReplyTo ext_dns up query reply h = elim (Bool-cases up.sent) [
  | inr failed ↦ absurd (ground (arith, h, failed))
  | inl sent ↦ elim (Option-cases up.received) [
    | inl silent ↦ absurd (ground (arith, h, sent, silent))
    | inr ((from, packet), got) ↦ elim (Bool-cases (accepts from ext_dns query (take 512 packet))) [
      | inr refused ↦ absurd (ground (arith, simp (sent, got, refused) at h))
      | inl accepted ↦
          let same = some-injective _ _ (simp (sent, got, accepted) at h) in
          let facts = accepted-facts from ext_dns query (take 512 packet) accepted in
          (
            subst (IsReplyTo query) same
                (facts.0, (omega (arith, length-take 512 packet)), facts.1, facts.2),
            (from, packet, got, facts.3, facts.4, sym same),
          )
    ]
  ]
]
