-- ===== src/Dns.antt =====
-- main/dns_server.c: the cache of answers, the captive reply, the forwarding to the upstream server, one
-- turn of the server task, and the watchdog. The clock is the number of milliseconds modulo 2^32.
pub mod CacheLaws
pub mod Handover
pub mod Takeover
pub mod Reply
pub mod Served
pub mod Question
pub mod Watchdog
use satura_bridge.AppState.{AppState, same_state, bridge}
use satura_bridge.Prelude.{
  Bool, List, Option, [], drop, false, get_or, if◌then◌else◌, leb, length, ltb, min, none, not,
  replicate, set, some, strcmp_eq, suc, take, true, zero, ℕ, ◌%◌, ◌&&◌, ◌*◌, ◌++◌, ◌+◌, ◌-◌, ◌/◌,
  ◌==◌, ◌||◌, ◌∷◌,
}

-- A packet is the list of the bytes that were received; `query[i]` below `qlen` reads it.
abbrev pub dns_cache_size : ℕ
dns_cache_size = 16

abbrev pub dns_max_packet : ℕ
dns_max_packet = 512

abbrev pub u32 : ℕ → ℕ
u32 n = n % 4294967296

-- `query` and `reply` are arrays of 512 bytes, of which `qlen` and `rlen` are in use.
pub record CacheEntry : Type 0 where
  pub valid : Bool
  pub hash : ℕ
  pub qlen : ℕ
  pub rlen : ℕ
  pub saved_ms : ℕ
  pub query : List ℕ
  pub reply : List ℕ

pub record Cache : Type 0 where
  pub dns_cache : List CacheEntry
  pub dns_cache_next : ℕ

abbrev pub cleared_entry : CacheEntry
cleared_entry = record {
  valid = false;
  hash = 0;
  qlen = 0;
  rlen = 0;
  saved_ms = 0;
  query = replicate dns_max_packet 0;
  reply = replicate dns_max_packet 0;
}

abbrev pub cleared_cache : Cache
cleared_cache = record { dns_cache = replicate dns_cache_size cleared_entry; dns_cache_next = 0 }

-- The exclusive or of the lowest n bits.
unfoldable pub bits_xor : ℕ → ℕ → ℕ → ℕ
bits_xor zero a b = 0
bits_xor (suc n) a b = (a % 2 + b % 2) % 2 + 2 * bits_xor n (a / 2) (b / 2)

unfoldable pub hash_loop : ℕ → List ℕ → ℕ
hash_loop h [] = h
hash_loop h (b ∷ bs) = hash_loop (u32 (h * 31 + b)) bs

-- The bytes 12 to 39, and the two halves of the sum folded together.
unfoldable pub dns_query_hash : List ℕ → ℕ
dns_query_hash q = let h = hash_loop 0 (take 28 (drop 12 q)) in bits_xor 16 h (h / 65536)

-- `memcpy(dst, src, len(src))` over the front of an array.
unfoldable pub memcpy : List ℕ → List ℕ → List ℕ
memcpy dst src = src ++ drop (length src) dst

-- The two bytes of the transaction id, and zero in their place.
abbrev pub with_id : ℕ → ℕ → List ℕ → List ℕ
with_id a b packet = a ∷ b ∷ drop 2 packet

unfoldable pub lookup_loop : ℕ → ℕ → List ℕ → List CacheEntry → List CacheEntry × Option (List ℕ)
lookup_loop now qhash query [] = ([], none)
lookup_loop now qhash query (e ∷ es) =
    let rest = lookup_loop now qhash query es in
    if not e.valid || not (e.hash == qhash) || not (e.qlen == length query % 65536)
    then (e ∷ rest.0, rest.1)
    else (if ltb 60000 (u32 (now + 4294967296 - e.saved_ms))
        then (record e { valid = false } ∷ rest.0, rest.1)
        else (if ltb 12 (length query)
              && not (strcmp_eq (take (length query - 12) (drop 12 e.query)) (drop 12 query))
            then (e ∷ rest.0, rest.1)
            else (
              e ∷ es,
              some (with_id (get_or query 0 0) (get_or query 1 0) (take e.rlen e.reply)),
            )))

unfoldable pub dns_cache_lookup : ℕ → List ℕ → Cache → Cache × Option (List ℕ)
dns_cache_lookup now query c =
    if ltb (length query) 12
    then (c, none)
    else (let found = lookup_loop now (dns_query_hash query) query c.dns_cache in
        (record c { dns_cache = found.0 }, found.1))

abbrev pub stored_entry : ℕ → List ℕ → List ℕ → CacheEntry → CacheEntry
stored_entry now query reply old = record {
  valid = true;
  hash = dns_query_hash query;
  qlen = length query % 65536;
  rlen = length reply % 65536;
  saved_ms = now;
  query = with_id 0 0 (memcpy old.query query);
  reply = with_id 0 0 (memcpy old.reply reply);
}

-- The slot at `dns_cache_next` is overwritten, the oldest one first.
unfoldable pub dns_cache_store : ℕ → List ℕ → List ℕ → Cache → Cache
dns_cache_store now query reply c =
    if ltb (length query) 12
      || ltb dns_max_packet (length query)
      || ltb (length reply) 12
      || ltb dns_max_packet (length reply)
    then c
    else record {
      dns_cache =
          set c.dns_cache c.dns_cache_next
            (stored_entry now query reply (get_or c.dns_cache c.dns_cache_next cleared_entry));
      dns_cache_next = (c.dns_cache_next + 1) % dns_cache_size;
    }

-- The loop over the labels of the name, on fuel: `none` is fuel spent.
unfoldable pub skip_name : ℕ → List ℕ → ℕ → Option ℕ
skip_name zero query off = none
skip_name (suc fuel) query off =
    let len = get_or query off 0 in
    let rest = skip_name fuel query (off + 1 + len) in
    if not (ltb off (length query - 4))
    then some off
    else (if len == 0 then some (off + 1) else (if leb 192 len then some (off + 2) else rest))

abbrev pub reply_header : List ℕ → ℕ → ℕ → List ℕ
reply_header query rcode answers =
    get_or query 0 0 ∷ get_or query 1 0 ∷ 129 ∷ rcode ∷ 0 ∷ 1 ∷ 0 ∷ answers ∷ 0 ∷ 0 ∷ 0 ∷ 0 ∷ []

-- A pointer to the name of the question, type A, class IN, one second, and the gateway's address.
abbrev pub answer_record : List ℕ
answer_record = 192 ∷ 12 ∷ 0 ∷ 1 ∷ 0 ∷ 1 ∷ 0 ∷ 0 ∷ 0 ∷ 1 ∷ 0 ∷ 4 ∷ 192 ∷ 168 ∷ 7 ∷ 1 ∷ []

-- No reply is the empty one. The question is cut at 200 bytes of the query.
unfoldable pub captive_answer : ℕ → List ℕ → ℕ → List ℕ
captive_answer qtype query rmax =
    let question = take (min (length query) 200 - 12) (drop 12 query) in
    if not (qtype == 1)
    then (if ltb 0 (length question) && leb (12 + length question) rmax
        then reply_header query 131 0 ++ question
        else reply_header query 131 0)
    else (if length question == 0 || ltb rmax (12 + length question + 16)
        then []
        else reply_header query 128 1 ++ question ++ answer_record)

unfoldable pub captive_at : Option ℕ → List ℕ → ℕ → List ℕ
captive_at none query rmax = []
captive_at (some off) query rmax =
    if ltb (length query) (off + 4)
    then []
    else captive_answer (get_or query off 0 * 256 + get_or query (off + 1) 0) query rmax

-- The fuel is one step for each byte of the query.
unfoldable pub dns_make_captive_reply : List ℕ → ℕ → List ℕ
dns_make_captive_reply query rmax =
    if ltb (length query) 12 || ltb rmax 28
    then []
    else captive_at (skip_name (length query) query 12) query rmax

pub record SockAddr : Type 0 where
  pub addr : ℕ
  pub port : ℕ

-- What the socket does: whether `sendto` takes the packet, and what `recvfrom` brings within its time.
pub record Upstream : Type 0 where
  pub sent : Bool
  pub received : Option (SockAddr × List ℕ)

-- The datagram must be long enough, carry the id of the query and come from the queried server.
abbrev pub accepts : SockAddr → SockAddr → List ℕ → List ℕ → Bool
accepts from ext_dns query reply =
    leb 12 (length reply)
    && (get_or reply 0 0 == get_or query 0 0)
    && (get_or reply 1 0 == get_or query 1 0)
    && (from.addr == ext_dns.addr)
    && (from.port == ext_dns.port)

unfoldable pub dns_forward : SockAddr → Upstream → List ℕ → Option (List ℕ)
dns_forward ext_dns up query = if not up.sent then none else elim up.received [
  | none ↦ none
  | some (from, packet) ↦
      let reply = take dns_max_packet packet in
      if accepts from ext_dns query reply then some reply else none
]

-- The station's first DNS server, if it has one, and 8.8.8.8; the address is a number in network order.
unfoldable pub dns_get_upstream : Option ℕ → SockAddr
dns_get_upstream none = record { addr = 134744072; port = 53 }
dns_get_upstream (some addr') =
    if addr' == 0
    then record { addr = 134744072; port = 53 }
    else record { addr = addr'; port = 53 }

-- What the task reads from the other components in one turn.
pub record Surroundings : Type 0 where
  pub now : ℕ
  pub proxy_enabled : Bool
  pub app_state : AppState
  pub wifi_connected : Bool
  pub sta_dns : Option ℕ
  pub upstream : Upstream

-- After the cache had no answer: what was forwarded is kept and passed on, else the reply is captive.
unfoldable pub resolve : Surroundings → List ℕ → Cache → Option (List ℕ) → Cache × List ℕ
resolve env query c (some reply) = (dns_cache_store env.now query reply c, reply)
resolve env query c none = (c, dns_make_captive_reply query dns_max_packet)

abbrev pub forwarded : Surroundings → List ℕ → Option (List ℕ)
forwarded env query =
    if env.wifi_connected
    then dns_forward (dns_get_upstream env.sta_dns) env.upstream query
    else none

-- One query of the loop of `dns_server_task`; an empty reply is not sent.
unfoldable pub serve_query : Surroundings → List ℕ → Cache → Cache × List ℕ
serve_query env query c =
    if ltb (length query) 12
    then (c, [])
    else (if env.proxy_enabled && same_state env.app_state bridge
        then (c, dns_make_captive_reply query dns_max_packet)
        else (let looked = dns_cache_lookup env.now query c in
            elim looked.1 [
              | some reply ↦ (looked.0, reply)
              | none ↦ resolve env query looked.0 (forwarded env query)
            ]))

-- The variables of the watchdog. `dns_task` is whether `dns_task_handle` is set.
pub record DnsState : Type 0 where
  pub cache : Cache
  pub dns_task : Bool
  pub dns_last_alive_ms : ℕ
  pub dns_restart_flag : Bool
  pub dns_stuck_count : ℕ

-- `created` is whether `safe_task_create` made the new task; the flag is cleared by the task itself.
unfoldable pub dns_server_watchdog_tick : ℕ → Bool → DnsState → DnsState
dns_server_watchdog_tick now_ms created s =
    if s.dns_task && ltb 15000 (u32 (now_ms + 4294967296 - s.dns_last_alive_ms))
    then (if leb 2 (u32 (s.dns_stuck_count + 1))
        then record {
          cache = cleared_cache;
          dns_task = created;
          dns_last_alive_ms = now_ms;
          dns_restart_flag = true;
          dns_stuck_count = 0;
        }
        else record s { dns_stuck_count = u32 (s.dns_stuck_count + 1) })
    else record s { dns_stuck_count = 0 }

-- The head of one turn of the task: the restart flag ends it, and the clock is noted.
unfoldable pub task_turn : ℕ → DnsState → Option DnsState
task_turn now s = if s.dns_restart_flag then none else some (record s { dns_last_alive_ms = now })
