-- ===== src/Dns/Handover.antt =====
-- main/dns_server.c: how the watchdog replaces a server task, with the variables that the old and the
-- new task share. What the task system and the sockets answer are arguments of the steps.
use satura_bridge.Dns.{DnsState, cleared_cache, dns_server_watchdog_tick}
use satura_bridge.Prelude.{
  Bool, List, Option, [], if◌then◌else◌, none, some, ℕ, ◌==◌, ◌++◌, ◌∷◌, false, true,
}

-- A socket is the number of its descriptor, none for -1; `running` lists the tasks in their loop, and
-- `closed` what was given to `close`.
pub record Server : Type 0 where
  pub dns : DnsState
  pub dns_srv_sock : Option ℕ
  pub dns_ext_sock : Option ℕ
  pub running : List ℕ
  pub closed : List (Option ℕ)

pub data DnsStep : Type 0 where
  -- The task with this number starts, with the sockets that it gets and whether `bind` succeeds.
  start : ℕ → Option ℕ → Option ℕ → Bool → DnsStep
  -- The task takes the turn of its loop at this time.
  turn : ℕ → ℕ → DnsStep
  -- The three parts of a tick that replaces the task, and a whole tick that does not.
  signal : DnsStep
  renew : ℕ → DnsStep
  assign : Bool → DnsStep
  tick : ℕ → DnsStep

unfoldable pub without : ℕ → List ℕ → List ℕ
without id [] = []
without id (t ∷ ts) = let rest = without id ts in if t == id then rest else t ∷ rest

-- The exits of `dns_server_task`: what is left in the two variables, and what was closed.
unfoldable pub task_exit : ℕ → Option ℕ → Option ℕ → List (Option ℕ) → Server → Server
task_exit id srv ext shut s = record {
  dns = record s.dns { dns_task = false };
  dns_srv_sock = srv;
  dns_ext_sock = ext;
  running = without id s.running;
  closed = s.closed ++ shut;
}

-- The head of `dns_server_task`, up to its loop.
unfoldable pub task_start : ℕ → Option ℕ → Option ℕ → Bool → Server → Server
task_start id none ext bound s =
    task_exit id none s.dns_ext_sock []
      (record s { dns = record s.dns { dns_restart_flag = false } })
task_start id (some a) none bound s =
    task_exit id none none (some a ∷ [])
      (record s { dns = record s.dns { dns_restart_flag = false } })
task_start id (some a) (some b) bound s =
    let cleared = record s { dns = record s.dns { dns_restart_flag = false } } in
    if bound
    then record cleared { dns_srv_sock = some a; dns_ext_sock = some b; running = id ∷ s.running }
    else task_exit id none none (some a ∷ some b ∷ []) cleared

-- One turn: the flag ends the task, which closes what the variables hold; else the clock is noted.
unfoldable pub loop_turn : ℕ → ℕ → Server → Server
loop_turn id now s =
    if s.dns.dns_restart_flag
    then task_exit id none none (s.dns_srv_sock ∷ s.dns_ext_sock ∷ []) s
    else record s { dns = record s.dns { dns_last_alive_ms = now } }

-- The flag is raised and the handle taken back, before the wait of 1.5 seconds.
unfoldable pub tick_signal : Server → Server
tick_signal s = record s { dns = record s.dns { dns_restart_flag = true; dns_task = false } }

-- After the wait: the cache is cleared, and the new task is created.
unfoldable pub tick_renew : ℕ → Server → Server
tick_renew now s = record s {
  dns = record s.dns { cache = cleared_cache; dns_last_alive_ms = now };
}

-- The handle of the new task is stored, if it was created.
unfoldable pub tick_assign : Bool → Server → Server
tick_assign created s = record s { dns = record s.dns { dns_task = created; dns_stuck_count = 0 } }

-- The first start at boot, where the new task runs only after its handle is stored.
unfoldable pub dns_server_start : ℕ → Bool → Server → Server
dns_server_start now created s = record s {
  dns = record s.dns { dns_last_alive_ms = now; dns_task = created };
}

unfoldable pub dns_step : DnsStep → Server → Server
dns_step (start id srv ext bound) s = task_start id srv ext bound s
dns_step (turn id now) s = loop_turn id now s
dns_step signal s = tick_signal s
dns_step (renew now) s = tick_renew now s
dns_step (assign created) s = tick_assign created s
dns_step (tick now) s = record s { dns = dns_server_watchdog_tick now true s.dns }

unfoldable pub dns_steps : List DnsStep → Server → Server
dns_steps [] s = s
dns_steps (c ∷ cs) s = dns_steps cs (dns_step c s)
