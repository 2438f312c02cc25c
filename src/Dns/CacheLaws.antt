-- ===== src/Dns/CacheLaws.antt =====
-- What the cache of main/dns_server.c answers with.
use mathlib.Core.Option.{some-injective}
use mathlib.Core.List.{mem-cons_of_mem, Mem, mem-cons_self}
use satura_bridge.Prelude.{
  All, List, drop, get_or, length, take, true, ℕ, ◌+◌, ◌-◌, ◌≡◌, ◌≤◌, [], some, ◌∷◌, Bool-cases, ap,
  arith, false, inl, inr, ltb, not, refl, strcmp_eq, strcmp_eq_iff, suc, sym, take-append_left,
  zero, ◌%◌, ◌&&◌, ◌++◌, ◌∙◌, Bool, drop-drop, set, subst, ◌==◌, ◌||◌,
}
use satura_bridge.Dns.{
  CacheEntry, Cache, lookup_loop, dns_cache_lookup, dns_cache_store, u32, stored_entry, with_id,
  memcpy, dns_query_hash, cleared_entry,
}

-- A stored answer: when, for which query, with which reply.
pub record Stored : Type 0 where
  pub at : ℕ
  pub asked : List ℕ
  pub answer : List ℕ

-- A valid slot holds a stored answer of a legal size, without the id.
pub record IsHeld (history : List Stored) (e : CacheEntry) : Type 0 where
  pub origin : Stored
  pub known : Mem origin history
  pub time : e.saved_ms ≡ origin.at
  pub asked_length : e.qlen ≡ length origin.asked
  pub asked_bytes : take (length origin.asked - 12) (drop 12 e.query) ≡ drop 12 origin.asked
  pub answer_bytes : take e.rlen e.reply ≡ with_id 0 0 origin.answer
  pub answer_size : (12 ≤ length origin.answer) × (length origin.answer ≤ 512)

-- The slots that are valid hold stored answers.
abbrev pub IsBacked : List Stored → Cache → Type 0
IsBacked history c = All (λ e. e.valid ≡ true → IsHeld history e) c.dns_cache

-- The reply is a stored answer to the same question, at most a minute old, under the id of the query.
pub record IsAnswer (history : List Stored) (now : ℕ) (query reply : List ℕ) : Type 0 where
  pub origin : Stored
  pub known : Mem origin history
  pub fresh : u32 (now + 4294967296 - origin.at) ≤ 60000
  pub same_question : drop 12 origin.asked ≡ drop 12 query
  pub same_length : length origin.asked ≡ length query
  pub answer_size : (12 ≤ length origin.answer) × (length origin.answer ≤ 512)
  pub under_id : reply ≡ with_id (get_or query 0 0) (get_or query 1 0) origin.answer

take-drop_prefix :
    (k : ℕ) (xs ys : List ℕ) → k ≤ length xs → take (length xs - k) (drop k (xs ++ ys)) ≡ drop k xs
take-drop_prefix zero xs ys h = ap (λ n. take n (xs ++ ys)) (omega arith) ∙ take-append_left xs ys
take-drop_prefix (suc k) [] ys h = absurd (omega arith)
take-drop_prefix (suc k) (x ∷ xs) ys h =
    ap (λ n. take n (drop k (xs ++ ys))) (omega arith) ∙ take-drop_prefix k xs ys (omega arith)

drop-short : (k : ℕ) (xs : List ℕ) → length xs ≤ k → drop k xs ≡ []
drop-short zero [] h = refl
drop-short zero (x ∷ xs) h = absurd (omega arith)
drop-short (suc k) [] h = refl
drop-short (suc k) (x ∷ xs) h = drop-short k xs (omega arith)

-- What `memcmp` was asked for, when the loop did not go on.
same_question-of :
    (query asked held : List ℕ)
    → length asked ≡ length query
    → take (length asked - 12) held ≡ drop 12 asked
    → (ltb 12 (length query) && not (strcmp_eq (take (length query - 12) held) (drop 12 query)))
      ≡ false
    → drop 12 asked ≡ drop 12 query
same_question-of query asked held len bytes h =
    elim (Bool-cases (strcmp_eq (take (length query - 12) held) (drop 12 query))) [
      | inl same ↦ sym bytes ∙ ap (λ n. take (n - 12) held) len ∙ (strcmp_eq_iff _ _).0 same
      | inr differ ↦
          drop-short 12 asked (ground (arith, h, differ, len))
          ∙ sym (drop-short 12 query (ground (arith, h, differ)))
    ]

abbrev differs : List ℕ → CacheEntry → Bool
differs query e =
    ltb 12 (length query)
    && not (strcmp_eq (take (length query - 12) (drop 12 e.query)) (drop 12 query))

module _ (history : List Stored) where
  hit-IsAnswer :
      (now : ℕ) (query : List ℕ) (e : CacheEntry)
      → IsHeld history e
      → e.qlen ≡ length query % 65536
      → length query ≤ 512
      → u32 (now + 4294967296 - e.saved_ms) ≤ 60000
      → (ltb 12 (length query)
          && not (strcmp_eq (take (length query - 12) (drop 12 e.query)) (drop 12 query)))
        ≡ false
      → IsAnswer history now query
          (with_id (get_or query 0 0) (get_or query 1 0) (take e.rlen e.reply))
  hit-IsAnswer now query e held len high fresh same =
      let same_size = sym held.asked_length ∙ len ∙ (omega arith) in
      record {
        origin = held.origin;
        known = held.known;
        fresh = rw⁻¹ held.time fresh;
        same_question =
            same_question-of query held.origin.asked (drop 12 e.query) same_size held.asked_bytes
              same;
        same_length = same_size;
        answer_size = held.answer_size;
        under_id = ap (with_id (get_or query 0 0) (get_or query 1 0)) held.answer_bytes;
      }

  pub loop-answers :
      (now : ℕ) (query : List ℕ) (es : List CacheEntry)
      → 12 ≤ length query
      → length query ≤ 512
      → All (λ e. e.valid ≡ true → IsHeld history e) es
      → let t = lookup_loop now (dns_query_hash query) query es in
        All (λ e. e.valid ≡ true → IsHeld history e) t.0
        × ((reply : List ℕ) → t.1 ≡ some reply → IsAnswer history now query reply)
  unfolding lookup_loop
  loop-answers now query [] low high h = (tt, λ reply e. cc)
  loop-answers now query (e ∷ es) low high h =
      let rest = loop-answers now query es low high h.1 in
      elim (Bool-cases (
        not e.valid
        || not (e.hash == dns_query_hash query)
        || not (e.qlen == length query % 65536))) [
          | inl other ↦ rw other ((h.0, rest.0), rest.1)
          | inr same ↦ elim (Bool-cases (ltb 60000 (u32 (now + 4294967296 - e.saved_ms)))) [
            | inl old ↦ rw (same, old) (((λ v. cc), rest.0), rest.1)
            | inr young ↦ elim (Bool-cases (differs query e)) [
              | inl clash ↦ rw (same, young, clash) ((h.0, rest.0), rest.1)
              | inr match' ↦
                  rw (same, young, match')
                    (
                      h,
                      λ reply eq. subst (IsAnswer history now query) (some-injective _ _ eq) (
                          hit-IsAnswer now query e (h.0 (ground arith)) (ground arith) high
                            (ground arith) match'),
                    )
            ]
          ]
        ]

pub lookup-answers :
    (history : List Stored) (now : ℕ) (query : List ℕ) (c : Cache)
    → length query ≤ 512
    → IsBacked history c
    → IsBacked history (dns_cache_lookup now query c).0
      × ((reply : List ℕ)
          → (dns_cache_lookup now query c).1 ≡ some reply
          → IsAnswer history now query reply)
unfolding dns_cache_lookup
lookup-answers history now query c high h = elim (Bool-cases (ltb (length query) 12)) [
  | inl short ↦ rw short (h, λ reply e. cc)
  | inr long ↦ rw long (loop-answers history now query c.dns_cache (ground arith) high h)
]

-- If the valid slots hold stored answers, a reply that a lookup of a query of at most 512 bytes finds is
-- a stored answer to the same question, at most 60,000 ms old by the 32-bit clock, under the id of the
-- query, and the valid slots still hold stored answers.
pub lookup-IsAnswer :
    (history : List Stored) (now : ℕ) (query reply : List ℕ) (c : Cache)
    → length query ≤ 512
    → IsBacked history c
    → (dns_cache_lookup now query c).1 ≡ some reply
    → IsAnswer history now query reply × IsBacked history (dns_cache_lookup now query c).0
lookup-IsAnswer history now query reply c high h found =
    let both = lookup-answers history now query c high h in (both.1 reply found, both.0)

stored-IsHeld :
    (history : List Stored) (now : ℕ) (query reply : List ℕ) (old : CacheEntry)
    → 12 ≤ length query
    → length query ≤ 512
    → 12 ≤ length reply
    → length reply ≤ 512
    → IsHeld
        (record { at = now; asked = query; answer = reply } ∷ history)
        (stored_entry now query reply old)
unfolding memcpy
stored-IsHeld history now query reply old ql qh rl rh = record {
  origin = record { at = now; asked = query; answer = reply };
  known = mem-cons_self;
  time = refl;
  asked_length = omega arith;
  asked_bytes =
      ap (take (length query - 12)) (sym (drop-drop 2 10 (query ++ drop (length query) old.query)))
      ∙ take-drop_prefix 12 query _ ql;
  answer_bytes =
      ap (λ n. take n (with_id 0 0 (memcpy old.reply reply))) {x = length reply % 65536}
        {y = suc (suc (length reply - 2))} (omega arith)
      ∙ ap (λ (xs : List ℕ). 0 ∷ 0 ∷ xs) (take-drop_prefix 2 reply _ (omega arith));
  answer_size = (rl, rh);
}

All-set :
    (P : CacheEntry → Type 0) (es : List CacheEntry) (i : ℕ) (e : CacheEntry)
    → All P es
    → P e
    → All P (set es i e)
All-set P [] i e h p = tt
All-set P (x ∷ es) zero e h p = (p, h.1)
All-set P (x ∷ es) (suc i) e h p = (h.0, All-set P es i e h.1 p)

All-known :
    (history : List Stored) (s : Stored) (es : List CacheEntry)
    → All (λ e. e.valid ≡ true → IsHeld history e) es
    → All (λ e. e.valid ≡ true → IsHeld (s ∷ history) e) es
All-known history s [] h = tt
All-known history s (e ∷ es) h = (
  (λ v. record {
    origin = (h.0 v).origin;
    known = mem-cons_of_mem _ (h.0 v).known;
    time = (h.0 v).time;
    asked_length = (h.0 v).asked_length;
    asked_bytes = (h.0 v).asked_bytes;
    answer_bytes = (h.0 v).answer_bytes;
    answer_size = (h.0 v).answer_size;
  }),
  All-known history s es h.1,
)

-- If the valid slots hold stored answers, they do after a store, the stored answer included.
pub store-IsBacked :
    (history : List Stored) (now : ℕ) (query reply : List ℕ) (c : Cache)
    → IsBacked history c
    → IsBacked
        (record { at = now; asked = query; answer = reply } ∷ history)
        (dns_cache_store now query reply c)
unfolding dns_cache_store
store-IsBacked history now query reply c h =
    let known =
      All-known history (record { at = now; asked = query; answer = reply }) c.dns_cache h in
    elim (Bool-cases (
      ltb (length query) 12
      || ltb 512 (length query)
      || ltb (length reply) 12
      || ltb 512 (length reply))) [
        | inl illegal ↦ rw illegal known
        | inr legal ↦ rw legal (
            All-set _ c.dns_cache c.dns_cache_next _ known (λ v.
              stored-IsHeld history now query reply
                (get_or c.dns_cache c.dns_cache_next cleared_entry) (ground arith) (ground arith)
                (ground arith) (ground arith)))
      ]
