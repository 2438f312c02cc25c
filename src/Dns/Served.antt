-- ===== src/Dns/Served.antt =====
-- What the server task of main/dns_server.c sends for a query, and where it has it from.
use satura_bridge.AppState.{same_state, bridge}
use satura_bridge.Prelude.{
  Bool-cases, List, [], arith, get_or, inl, inr, length, ltb, refl, some, ℕ, ◌<◌, ◌≡◌, ◌≤◌, ◌⊎◌,
  Option-cases, Bool, Option, if◌then◌else◌, none, subst, sym, true, ◌∷◌, false, length-drop, ◌&&◌,
}
use mathlib.Core.Option.{none-ne-some}
use satura_bridge.Dns.{
  dns_make_captive_reply, serve_query, resolve, Surroundings, Cache, dns_get_upstream,
  dns_cache_lookup, same_state, forwarded,
}
use satura_bridge.Dns.CacheLaws.{Stored, IsBacked, IsAnswer, lookup-answers, store-IsBacked}
use satura_bridge.Dns.Reply.{IsReplyTo, IsFrom, captive-IsReplyTo, dns_forward-IsReplyTo}

drop_size : {A B C : Type 0} → A ⊎ (B × C) → A ⊎ C
drop_size (inl a) = inl a
drop_size (inr (b, c)) = inr c

when-some :
    (linked : Bool) (o : Option (List ℕ)) {reply : List ℕ}
    → (if linked then o else none) ≡ some reply
    → o ≡ some reply
when-some true o h = h
when-some false o h = absurd (none-ne-some _ h)

-- An answer of the cache is a reply.
answer-IsReplyTo :
    (history : List Stored) (now : ℕ) (query reply : List ℕ)
    → IsAnswer history now query reply
    → IsReplyTo query reply
unfolding IsReplyTo
answer-IsReplyTo history now query reply a =
    subst
      (λ r.
        (12 ≤ length r)
        × (length r ≤ 512)
        × (get_or r 0 0 ≡ get_or query 0 0)
        × (get_or r 1 0 ≡ get_or query 1 0))
      (sym a.under_id)
      (
        (omega (arith, a.answer_size, length-drop 2 a.origin.answer)),
        (omega (arith, a.answer_size, length-drop 2 a.origin.answer)),
        refl,
        refl,
      )

-- A captive proxy answers every query itself.
abbrev pub is_captive : Surroundings → Bool
is_captive env = env.proxy_enabled && same_state env.app_state bridge

module _ (history : List Stored) (env : Surroundings) (query : List ℕ) (t : Cache × List ℕ) where
  -- The task's own answer: to a query that is too short, of a captive proxy, or where the upstream server
  -- gave none; it is a reply or nothing.
  pub record IsOwn : Type 0 where
    pub backed : IsBacked history t.0
    pub own : t.1 ≡ dns_make_captive_reply query 512
    pub proper : (t.1 ≡ []) ⊎ IsReplyTo query t.1
    pub why : (length query < 12) ⊎ ((is_captive env ≡ true) ⊎ (forwarded env query ≡ none))

  -- A stored answer to the same question, at most a minute old.
  pub record IsCached : Type 0 where
    pub backed : IsBacked history t.0
    pub bridged : is_captive env ≡ false
    pub answer : IsAnswer history env.now query t.1
    pub proper : IsReplyTo query t.1

  -- What the upstream server sent, from the address and the port that was asked, and it is stored.
  pub record IsForwarded : Type 0 where
    pub backed : IsBacked (record { at = env.now; asked = query; answer = t.1 } ∷ history) t.0
    pub bridged : is_captive env ≡ false
    pub linked : env.wifi_connected ≡ true
    pub origin : IsFrom (dns_get_upstream env.sta_dns) env.upstream t.1
    pub proper : IsReplyTo query t.1

  abbrev pub IsServed : Type 0
  IsServed = IsOwn ⊎ (IsCached ⊎ IsForwarded)

linked-of :
    (linked : Bool) (o : Option (List ℕ)) {reply : List ℕ}
    → (if linked then o else none) ≡ some reply
    → linked ≡ true
linked-of true o h = refl
linked-of false o h = absurd (none-ne-some _ h)

module _ (history : List Stored) (env : Surroundings) (query : List ℕ) where
  resolve-IsServed :
      (c : Cache) (o : Option (List ℕ))
      → is_captive env ≡ false
      → forwarded env query ≡ o
      → IsBacked history c
      → IsServed history env query (resolve env query c o)
  unfolding resolve
  resolve-IsServed c none f e h = inl (record {
    backed = h;
    own = refl;
    proper = drop_size (captive-IsReplyTo query 512 (omega arith));
    why = inr (inr e);
  })
  resolve-IsServed c (some reply) f e h =
      let passed = when-some env.wifi_connected _ e in
      let facts =
        dns_forward-IsReplyTo (dns_get_upstream env.sta_dns) env.upstream query reply passed in
      inr (
        inr (record {
          backed = store-IsBacked history env.now query reply c h;
          bridged = f;
          linked = linked-of env.wifi_connected _ e;
          origin = facts.1;
          proper = facts.0;
        }))

  -- From a cache of stored answers, a query of at most 512 bytes is met by one of three: the captive reply,
  -- where the query is too short, the proxy is captive, or the upstream server gave no answer; a stored
  -- answer to the same question, at most a minute old; or, while Wi-Fi is connected, what a datagram from
  -- the address and the port of the server holds. What is sent carries the id of the query and is 12 to 512
  -- bytes long, and the cache holds stored answers again, of which the forwarded one may be the newest.
  pub serve_query-IsServed :
      (c : Cache)
      → length query ≤ 512
      → IsBacked history c
      → IsServed history env query (serve_query env query c)
  unfolding serve_query
  serve_query-IsServed c high h =
      let looked = lookup-answers history env.now query c high h in
      elim (Bool-cases (ltb (length query) 12)) [
        | inl short ↦ rw short (
            inl (record {
              backed = h;
              own = unfold dns_make_captive_reply in rw short refl;
              proper = inl refl;
              why = inl (ground arith);
            }))
        | inr long ↦ elim (Bool-cases (is_captive env)) [
          | inl captured ↦
              rw (long, captured)
                (inl (record {
                  backed = h;
                  own = refl;
                  proper = drop_size (captive-IsReplyTo query 512 (omega arith));
                  why = inr (inl captured);
                }))
          | inr bridged ↦ elim (Option-cases (dns_cache_lookup env.now query c).1) [
            | inl missed ↦
                rw (long, bridged, missed)
                  (resolve-IsServed (dns_cache_lookup env.now query c).0 _ bridged refl looked.0)
            | inr (reply, hit) ↦
                rw (long, bridged, hit)
                  (inr (
                    inl (record {
                      backed = looked.0;
                      bridged = bridged;
                      answer = looked.1 reply hit;
                      proper = answer-IsReplyTo history env.now query reply (looked.1 reply hit);
                    })))
          ]
        ]
      ]
