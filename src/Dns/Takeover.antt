-- ===== src/Dns/Takeover.antt =====
-- What becomes of the server of main/dns_server.c when the watchdog replaces its task.
use satura_bridge.Prelude.{
  All, Bool, List, Option, [], arith, false, none, refl, some, true, ℕ, ◌++◌, ◌+◌, ◌<◌, ◌∷◌, ◌≡◌,
  ◌≢◌, ◌≤◌, sym, subst,
}
use satura_bridge.Dns.{cleared_cache, dns_server_watchdog_tick, u32}
use satura_bridge.Dns.Watchdog.{age, watchdog_tick-alive}
use satura_bridge.Dns.Handover.{
  Server, DnsStep, start, turn, signal, renew, assign, tick, without, task_exit, task_start,
  loop_turn, tick_signal, tick_renew, tick_assign, dns_step, dns_steps,
}

-- A tick that replaces a task does what its three parts do in a row.
pub watchdog_tick-dns_steps :
    (now : ℕ) (created : Bool) (s : Server)
    → s.dns.dns_task ≡ true
    → 15000 < age now s.dns
    → 2 ≤ u32 (s.dns.dns_stuck_count + 1)
    → dns_server_watchdog_tick now created s.dns
      ≡ (dns_steps (signal ∷ (renew now ∷ (assign created ∷ []))) s).dns
unfolding dns_server_watchdog_tick dns_steps dns_step tick_signal tick_renew tick_assign
watchdog_tick-dns_steps now created s task late twice = ground arith

pub replaced : ℕ → ℕ → ℕ → ℕ → Server → Server
replaced now new a b s = record {
  dns = record {
    cache = cleared_cache;
    dns_task = true;
    dns_last_alive_ms = now;
    dns_restart_flag = false;
    dns_stuck_count = 0;
  };
  dns_srv_sock = some a;
  dns_ext_sock = some b;
  running = new ∷ [];
  closed = s.closed ++ s.dns_srv_sock ∷ s.dns_ext_sock ∷ [];
}

-- If the one task that runs takes a turn while the watchdog waits, it closes its sockets and ends, and the
-- new task is the only one, with its own two sockets, whether it starts before its handle is stored or
-- after.
pub dns_steps-replaced :
    (old new now t a b : ℕ) (s : Server)
    → s.running ≡ old ∷ []
    → (dns_steps
          (signal
            ∷ (turn old t ∷ (renew now ∷ (start new (some a) (some b) true ∷ (assign true ∷ [])))))
          s
        ≡ replaced now new a b s)
      × (dns_steps
            (signal
              ∷ (turn old t
                  ∷ (renew now ∷ (assign true ∷ (start new (some a) (some b) true ∷ [])))))
            s
          ≡ replaced now new a b s)
unfolding dns_steps dns_step tick_signal loop_turn task_exit tick_renew tick_assign task_start
    replaced without
dns_steps-replaced old new now t a b s alone =
    let gone : without old s.running ≡ [] = rw alone (ground arith) in rw gone (refl, refl)

-- From then on the old task takes turns, each at the first time of a pair, and the watchdog ticks at the second.
unfoldable pub rounds : ℕ → List (ℕ × ℕ) → List DnsStep
rounds old [] = []
rounds old ((t, u) ∷ ts) = turn old t ∷ (tick u ∷ rounds old ts)

-- The watchdog ticks at most fifteen seconds after the turn, and the clock does not wrap in between.
abbrev pub IsRound : ℕ × ℕ → Type 0
IsRound (t, u) = (t ≤ u) × (u ≤ t + 15000) × (u < 4294967296)

-- The loop of the old task goes on, with no sockets.
pub record IsOrphaned (old : ℕ) (closed : List (Option ℕ)) (s : Server) : Type 0 where
  pub alone : s.running ≡ old ∷ []
  pub no_server : s.dns_srv_sock ≡ none
  pub no_upstream : s.dns_ext_sock ≡ none
  pub no_flag : s.dns.dns_restart_flag ≡ false
  pub as_before : s.closed ≡ closed

loop_turn_goes_on :
    (old t : ℕ) (s : Server)
    → s.dns.dns_restart_flag ≡ false
    → loop_turn old t s ≡ record s { dns = record s.dns { dns_last_alive_ms = t } }
unfolding loop_turn
loop_turn_goes_on old t s h = ground arith

round-IsOrphaned :
    (old t u : ℕ) (closed : List (Option ℕ)) (s : Server)
    → IsRound (t, u)
    → IsOrphaned old closed s
    → IsOrphaned old closed (dns_step (tick u) (dns_step (turn old t) s))
unfolding dns_step
round-IsOrphaned old t u closed s timely orphaned =
    let d = record s.dns { dns_last_alive_ms = t } in
    let on = loop_turn_goes_on old t s orphaned.no_flag in
    let quiet = watchdog_tick-alive u true d (omega (arith, timely)) in
    subst (λ v. IsOrphaned old closed (record v { dns = dns_server_watchdog_tick u true v.dns }))
      (sym on)
      (subst (λ e. IsOrphaned old closed (record s { dns = e })) (sym quiet)
        (record {
          alone = orphaned.alone;
          no_server = orphaned.no_server;
          no_upstream = orphaned.no_upstream;
          no_flag = orphaned.no_flag;
          as_before = orphaned.as_before;
        }))

rounds-IsOrphaned :
    (old : ℕ) (ts : List (ℕ × ℕ)) (closed : List (Option ℕ)) (s : Server)
    → All IsRound ts
    → IsOrphaned old closed s
    → IsOrphaned old closed (dns_steps (rounds old ts) s)
unfolding dns_steps rounds
rounds-IsOrphaned old [] closed s small orphaned = orphaned
rounds-IsOrphaned old ((t, u) ∷ ts) closed s small orphaned =
    rounds-IsOrphaned old ts closed _ small.1 (round-IsOrphaned old t u closed s small.0 orphaned)

-- If the one task that runs takes no turn while the watchdog waits, it still holds the port. When another
-- task can then not bind, the old one goes on with no socket to receive from, however often it takes its
-- turn afterwards, with a tick of the watchdog at most fifteen seconds after each and before the clock
-- wraps, and its own two sockets are never closed.
pub dns_steps-IsOrphaned :
    (old new now a b : ℕ) (ts : List (ℕ × ℕ)) (s : Server)
    → s.running ≡ old ∷ []
    → new ≢ old
    → All IsRound ts
    → IsOrphaned old (s.closed ++ (some a ∷ some b ∷ [])) (
        dns_steps (rounds old ts) (
          dns_steps
            (signal ∷ (renew now ∷ (start new (some a) (some b) false ∷ (assign true ∷ []))))
            s))
unfolding dns_steps dns_step tick_signal task_exit tick_renew tick_assign task_start without
dns_steps-IsOrphaned old new now a b ts s alone other small =
    let kept : without new s.running ≡ old ∷ [] = rw alone (ground arith) in
    rounds-IsOrphaned old ts _ _ small (record {
      alone = kept;
      no_server = refl;
      no_upstream = refl;
      no_flag = refl;
      as_before = refl;
    })
