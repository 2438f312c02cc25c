-- ===== src/Dns/Watchdog.antt =====
-- When the watchdog of main/dns_server.c replaces the server task.
use satura_bridge.Prelude.{Bool, some, true, ℕ, ◌+◌, ◌-◌, ◌<◌, ◌≡◌, ◌≤◌, arith}
use satura_bridge.Dns.{DnsState, dns_server_watchdog_tick, cleared_cache, task_turn, u32}

-- The age of the last turn as the watchdog computes it.
abbrev pub age : ℕ → DnsState → ℕ
age now s = u32 (now + 4294967296 - s.dns_last_alive_ms)

-- A task that noted the clock at most fifteen seconds before a tick is left alone: the tick only
-- clears the count of late ticks.
pub watchdog_tick-alive :
    (now : ℕ) (created : Bool) (s : DnsState)
    → age now s ≤ 15000
    → dns_server_watchdog_tick now created s ≡ record s { dns_stuck_count = 0 }
unfolding dns_server_watchdog_tick
watchdog_tick-alive now created s h = ground arith

-- With a task and no late tick counted, two ticks in a row that find the task late replace it: the
-- flag is raised, the cache is empty, and the handle is that of the new task, if it could be
-- created.
pub watchdog_tick-twice :
    (now later : ℕ) (created again : Bool) (s : DnsState)
    → s.dns_stuck_count ≡ 0
    → s.dns_task ≡ true
    → 15000 < age now s
    → 15000 < age later s
    → dns_server_watchdog_tick later again (dns_server_watchdog_tick now created s) ≡ record {
      cache = cleared_cache;
      dns_task = again;
      dns_last_alive_ms = later;
      dns_restart_flag = true;
      dns_stuck_count = 0;
    }
unfolding dns_server_watchdog_tick
watchdog_tick-twice now later created again s zero' task late later' = ground arith

-- With a task and no late tick counted, if the task notes the clock one millisecond after each of
-- two ticks in a row read it, and the clock does not wrap in between, the second tick raises the
-- restart flag of a task that is alive: the age it computes wraps.
pub watchdog_tick-race :
    (now later : ℕ) (s t u : DnsState)
    → now < 4294967295
    → later < 4294967295
    → s.dns_task ≡ true
    → s.dns_stuck_count ≡ 0
    → task_turn (now + 1) s ≡ some t
    → task_turn (later + 1) (dns_server_watchdog_tick now true t) ≡ some u
    → (dns_server_watchdog_tick later true u).dns_restart_flag ≡ true
unfolding dns_server_watchdog_tick task_turn
watchdog_tick-race now later s t u hn hl task count h h' = ground arith
