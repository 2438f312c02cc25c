-- ===== src/Tests/Names.antt =====
-- The theorems on main/dns_server.c, at a query for the address of `a.b`.
use satura_bridge.Dns.Question.{labels, question_of, captive-question}
use satura_bridge.Dns.Reply.{skip_name-ends}
use satura_bridge.Dns.Served.{IsServed, serve_query-IsServed}
use satura_bridge.Dns.CacheLaws.{Stored, IsBacked, store-IsBacked, IsHeld}
use satura_bridge.AppState.{bridge}
use satura_bridge.Prelude.{
  List, [], arith, drop, false, if◌then◌else◌, length, refl, some, strcmp_eq, true, ℕ, ◌*◌, ◌++◌,
  ◌+◌, ◌==◌, ◌∷◌, ◌≡◌, All, replicate, suc, zero,
}
use satura_bridge.Dns.{
  cleared_entry, task_turn, Surroundings, Upstream, SockAddr, Cache, DnsState, dns_cache_store,
  dns_cache_lookup, cleared_cache, serve_query, dns_forward, dns_make_captive_reply, skip_name,
  dns_server_watchdog_tick, reply_header, answer_record, lookup_loop, dns_query_hash, hash_loop,
  bits_xor, memcpy,
}

abbrev header : List ℕ
header = 17 ∷ 34 ∷ 1 ∷ 0 ∷ 0 ∷ 1 ∷ 0 ∷ 0 ∷ 0 ∷ 0 ∷ 0 ∷ 0 ∷ []

abbrev query : List ℕ
query = header ++ (1 ∷ b'a' ∷ 1 ∷ b'b' ∷ 0 ∷ 0 ∷ 1 ∷ 0 ∷ 1 ∷ [])

abbrev reply : List ℕ
reply = query ++ answer_record

abbrev server : SockAddr
server = record { addr = 167772161; port = 53 }

abbrev answering : Upstream
answering = record { sent = true; received = some (server, reply) }

abbrev env : Surroundings
env = record {
  now = 1000;
  proxy_enabled = false;
  app_state = bridge;
  wifi_connected = true;
  sta_dns = some 167772161;
  upstream = answering;
}

abbrev asked_once : List Stored
asked_once = record { at = 1000; asked = query; answer = reply } ∷ []

abbrev filled : Cache
filled = dns_cache_store 1000 query reply cleared_cache

none_valid : (n : ℕ) → All (λ e. e.valid ≡ true → IsHeld [] e) (replicate n cleared_entry)
none_valid zero = tt
none_valid (suc n) = ((λ e. cc), none_valid n)

cleared-IsBacked : IsBacked [] cleared_cache
cleared-IsBacked = none_valid 16

filled-IsBacked : IsBacked asked_once filled
filled-IsBacked = store-IsBacked [] 1000 query reply cleared_cache cleared-IsBacked

hit : (dns_cache_lookup 2000 query filled).1 ≡ some reply
unfolding dns_cache_lookup lookup_loop dns_cache_store dns_query_hash hash_loop bits_xor memcpy
    strcmp_eq
hit = refl

skip_name-ends_example : (end : ℕ) × (skip_name (length query) query 12 ≡ some end)
skip_name-ends_example = skip_name-ends query (omega arith)

captive-question_example :
    dns_make_captive_reply
      (question_of header ((b'a' ∷ []) ∷ (b'b' ∷ []) ∷ []) 0 1 (0 ∷ 1 ∷ []))
      512
    ≡ (if 0 * 256 + 1 == 1
        then reply_header query 128 1 ++ drop 12 query ++ answer_record
        else reply_header query 131 0 ++ drop 12 query)
unfolding labels
captive-question_example =
    captive-question header ((b'a' ∷ []) ∷ (b'b' ∷ []) ∷ []) 0 1 (0 ∷ 1 ∷ []) refl refl
      ((omega arith, omega arith), ((omega arith, omega arith), tt)) (omega arith)

forwarded_reply : dns_forward server answering query ≡ some reply
unfolding dns_forward
forwarded_reply = refl

serve_query-IsServed_example : IsServed [] env query (serve_query env query cleared_cache)
serve_query-IsServed_example =
    serve_query-IsServed [] env query cleared_cache (omega arith) cleared-IsBacked

-- The task turned last at two seconds.
abbrev running : DnsState
running = record {
  cache = cleared_cache;
  dns_task = true;
  dns_last_alive_ms = 2000;
  dns_restart_flag = false;
  dns_stuck_count = 0;
}

abbrev turned : DnsState
turned = record running { dns_last_alive_ms = 5001 }

abbrev turned_again : DnsState
turned_again = record running { dns_last_alive_ms = 35001; dns_stuck_count = 1 }

turn : task_turn 5001 running ≡ some turned
unfolding task_turn
turn = refl

turn_again : task_turn 35001 (dns_server_watchdog_tick 5000 true turned) ≡ some turned_again
unfolding task_turn dns_server_watchdog_tick
turn_again = refl
