-- ===== src/Watchdog/Laws.antt =====
-- How often main/watchdog.c asks for a recovery.
use satura_bridge.Prelude.{
  List, [], arith, ℕ, ◌*◌, ◌++◌, ◌+◌, ◌/◌, ◌<◌, ◌∷◌, ◌≡◌, Bool, Option, false, if◌then◌else◌, leb,
  ltb, none, refl, some, true, ◌∙◌, Bool-cases, inl, inr,
}
use satura_bridge.AppState.{Shared, same_state, state_number, bridge_no_wifi, AppState}
use satura_bridge.Watchdog.{
  WatchState, Reading, WatchCall, rssi_poll, schedule_recovery, restart, watchdog_round,
  watchdog_run, heap_reboot_threshold, u32, poll_rssi, restarts,
}

abbrev is_recovery : WatchCall → ℕ
is_recovery schedule_recovery = 1
is_recovery _ = 0

abbrev pub recoveries : List WatchCall → ℕ
recoveries [] = 0
recoveries (c ∷ cs) = is_recovery c + recoveries cs

recoveries-append : (cs ds : List WatchCall) → recoveries (cs ++ ds) ≡ recoveries cs + recoveries ds
recoveries-append [] ds = omega arith
recoveries-append (c ∷ cs) ds = omega (arith, recoveries-append cs ds)

state-poll_rssi : (s : Shared) (o : Option ℕ) → (poll_rssi o s).current_state ≡ s.current_state
unfolding poll_rssi
state-poll_rssi s (some rssi) = refl
state-poll_rssi s none = refl

recoveries_restart : (b : Bool) → recoveries (if b then restart ∷ [] else []) ≡ 0
recoveries_restart true = refl
recoveries_restart false = refl

stuck-same_state : (s : AppState) → s ≡ bridge_no_wifi → same_state s bridge_no_wifi ≡ true
unfolding same_state state_number
stuck-same_state s h = rw h refl

-- What a round that finds Wi-Fi lost adds, by whether the count reaches ten.
count-calls :
    (recover : Bool) (cs after : List WatchCall)
    → recoveries after ≡ 0
    → recoveries (cs ++ rssi_poll ∷ ((if recover then schedule_recovery ∷ [] else []) ++ after))
      ≡ recoveries cs + (if recover then 1 else 0)
count-calls true cs after h =
    omega (arith, recoveries-append cs (rssi_poll ∷ (schedule_recovery ∷ after)), h)
count-calls false cs after h = omega (arith, recoveries-append cs (rssi_poll ∷ after), h)

round-recoveries :
    (r : Reading) (s : WatchState)
    → s.shared.current_state ≡ bridge_no_wifi
    → s.wifi_stuck_count < 10
    → let t = watchdog_round r s in
      (t.shared.current_state ≡ bridge_no_wifi)
      × (t.wifi_stuck_count < 10)
      × (recoveries t.calls * 10 + t.wifi_stuck_count
          ≡ recoveries s.calls * 10 + s.wifi_stuck_count + 1)
unfolding watchdog_round
round-recoveries r s lost low =
    let stuck = stuck-same_state s.shared.current_state lost in
    let after = if ltb r.free_heap heap_reboot_threshold then restart ∷ [] else [] in
    let added =
      count-calls (leb 10 (u32 (s.wifi_stuck_count + 1))) s.calls after
        (recoveries_restart (ltb r.free_heap heap_reboot_threshold)) in
    (state-poll_rssi s.shared r.ap_rssi ∙ lost, rw stuck (ground arith), rw stuck (ground arith))

-- How many of the rounds are run: up to the first one that restarts the chip.
unfoldable pub rounds_run : List Reading → ℕ
rounds_run [] = 0
rounds_run (r ∷ rs) = let rest = rounds_run rs in if restarts r then 1 else rest + 1

run-recoveries :
    (rs : List Reading) (s : WatchState)
    → s.shared.current_state ≡ bridge_no_wifi
    → s.wifi_stuck_count < 10
    → let t = watchdog_run rs s in
      (t.wifi_stuck_count < 10)
      × (recoveries t.calls * 10 + t.wifi_stuck_count
          ≡ recoveries s.calls * 10 + s.wifi_stuck_count + rounds_run rs)
unfolding watchdog_run rounds_run
run-recoveries [] s lost low = (low, omega arith)
run-recoveries (r ∷ rs) s lost low =
    let one = round-recoveries r s lost low in
    let rest = run-recoveries rs (watchdog_round r s) one.0 one.1 in
    elim (Bool-cases (restarts r)) [
      | inl last ↦ rw last (one.1, omega (arith, one.2))
      | inr more ↦ rw more (rest.0, omega (arith, rest.1, one.2))
    ]

-- While the bridge has lost Wi-Fi, every tenth round asks for a recovery, and no other one does, up to the
-- first round that restarts the chip.
pub recoveries-watchdog_run :
    (rs : List Reading) (s : WatchState)
    → s.shared.current_state ≡ bridge_no_wifi
    → s.wifi_stuck_count ≡ 0
    → recoveries (watchdog_run rs s).calls ≡ recoveries s.calls + rounds_run rs / 10
recoveries-watchdog_run rs s lost fresh =
    let run = run-recoveries rs s lost (omega arith) in omega (arith, run.0, run.1, fresh)
