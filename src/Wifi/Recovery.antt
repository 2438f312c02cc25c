-- ===== src/Wifi/Recovery.antt =====
-- Where the connection machine does not do what its comments say: a wait that is not armed, and what a
-- recovery request leaves behind.
use satura_bridge.Wifi.Candidates.{build_candidate_list}
use satura_bridge.Wifi.Ranking.{reachable, build_candidate_list-IsBuilt}
use satura_bridge.Wifi.Invariant.{scan_keeps}
use satura_bridge.Wifi.Steady.{IsSteady, all_in_bounds, out_of_bounds-last}
use satura_bridge.Networks.{WifiNetwork}
use satura_bridge.Wifi.Scan.{run_blocking_scan}
use satura_bridge.Wifi.State.{
  Driver, NetworkStore, Wifi, Candidate, ScanOutcome, retry_wait, connecting, disconnected,
  start_failed, connected, idle, recovery_request, connect_request, FsmState, WifiEvt,
  initial_failed, soft_reset, driver_connect,
}
use satura_bridge.Prelude.{
  List, Option, [], ap, arith, false, get_elem?, inl, inr, length, map, none, refl, some, true, ◌+◌,
  ◌∙◌, ◌∷◌, ◌≡◌, ◌≢◌, ◌⊎◌, ltb, suc, zero, ℕ, ◌≤◌, subst, sym, ◌++◌,
}
use satura_bridge.AppState.{app_state_set, wifi_connecting, wifi_failed}
use satura_bridge.Wifi.Machine.{
  on_attempt_failed, connect_to_candidate, connect_slot, start_connect_cycle, worker_run,
  worker_round, handle_event, set_app, dispatch, recover, has_credentials, go_to,
}

module _ {S : Type 0} where
  connect_keeps :
      (d : Driver) (w : Wifi S)
      → let t = connect_to_candidate d w in
        (t.next_wait_ms ≡ w.next_wait_ms) × (t.shared ≡ w.shared) × (t.fsm_state ≡ w.fsm_state)
  unfolding connect_to_candidate
  connect_keeps d w = slot (get_elem? w.candidate_list w.candidate_index)
    where
      slot :
          (o : Option Candidate)
          → let t = connect_slot d o w in
            (t.next_wait_ms ≡ w.next_wait_ms) × (t.shared ≡ w.shared) × (t.fsm_state ≡ w.fsm_state)
      slot none = unfold connect_slot in (refl, refl, refl)
      slot (some c) = unfold connect_slot in (refl, refl, refl)

module _ {S : Type 0} (store : NetworkStore S) where
  scan_wait :
      (w : Wifi S) (o : ScanOutcome) → (run_blocking_scan store w o).next_wait_ms ≡ w.next_wait_ms
  unfolding run_blocking_scan
  scan_wait w start_failed = refl
  scan_wait w _ = refl

  scan_flash : (w : Wifi S) (o : ScanOutcome) → (run_blocking_scan store w o).flash ≡ w.flash
  unfolding run_blocking_scan
  scan_flash w start_failed = refl
  scan_flash w _ = refl

  -- The saved networks that a cycle starting now would find in reach.
  abbrev pub in_reach : Driver → Wifi S → List WifiNetwork
  in_reach d w =
      let scanned = run_blocking_scan store (set_app wifi_connecting w) d.scan in
      reachable scanned.scan_results (store.load scanned.flash 6)

  empty_cycle :
      (d : Driver) (w : Wifi S)
      → length w.candidate_list ≡ 6
      → in_reach d w ≡ []
      → let t = start_connect_cycle store d w in
        (t.fsm_state ≡ retry_wait) × (t.next_wait_ms ≡ w.next_wait_ms)
  unfolding start_connect_cycle
  empty_cycle d w six none' =
      let scanned = run_blocking_scan store (set_app wifi_connecting w) d.scan in
      let kept = scan_keeps store (set_app wifi_connecting w) d.scan in
      let built =
        build_candidate_list-IsBuilt store scanned (ap length kept.3 ∙ (unfold set_app in six)) in
      let zero' : (build_candidate_list store scanned).candidate_count ≡ 0 =
        built.size ∙ ap length none' in
      rw zero' (
        unfold build_candidate_list set_app in (refl, scan_wait (set_app wifi_connecting w) d.scan))

  -- A round in a known state.
  round_in :
      (st : FsmState) (e : WifiEvt) (d : Driver) (w : Wifi S)
      → w.fsm_state ≡ st
      → worker_round store (some e) d w ≡ dispatch store st e d w
  unfolding worker_round handle_event
  round_in st e d w at = ap (λ st'. dispatch store st' e d w) at

  endless :
      (w : Wifi S) (waits : List Driver)
      → w.next_wait_ms ≡ 0
      → worker_run store (map (λ e. (none, e)) waits) w ≡ w
  unfolding worker_run worker_round
  endless w [] h = refl
  endless w (e ∷ waits) h =
      let still : worker_round store none e w ≡ w = unfold worker_round in ground arith in
      ap (worker_run store (map (λ e. (none, e)) waits)) still ∙ endless w waits h

  -- From a steady state, when saved credentials exist but no saved network is in reach, a connect request in `idle` ends in
  -- `retry_wait` with no wait armed, and then no number of waits changes the state: the promised retry
  -- does not come.
  pub idle_cycle_unarmed :
      (d : Driver) (w : Wifi S) (waits : List Driver)
      → IsSteady w
      → w.fsm_state ≡ idle
      → has_credentials store w ≡ true
      → in_reach d w ≡ []
      → let t = worker_round store (some connect_request) d w in
        (t.fsm_state ≡ retry_wait)
        × (t.next_wait_ms ≡ 0)
        × (worker_run store (map (λ e. (none, e)) waits) t ≡ t)
  idle_cycle_unarmed d w waits v at creds none' =
      let cycle = empty_cycle d w v.slots none' in
      let wait : (start_connect_cycle store d w).next_wait_ms ≡ 0 = cycle.1 ∙ v.idle_waits at in
      rw (round_in idle connect_request d w at) (
        unfold dispatch in
        rw creds (cycle.0, wait, endless (start_connect_cycle store d w) waits wait))

  get_elem?-none : {A : Type 0} (xs : List A) (i : ℕ) → length xs ≤ i → get_elem? xs i ≡ none
  get_elem?-none [] i h = refl
  get_elem?-none (x ∷ xs) zero h = absurd (omega arith)
  get_elem?-none (x ∷ xs) (suc i) h = get_elem?-none xs i (omega arith)

  -- The wait after the last failure, with the index behind the last candidate.
  abbrev spent : Wifi S → Wifi S
  spent w = go_to retry_wait 15000 (
      set_app wifi_failed (record w {
        candidate_attempt = 0;
        candidate_index = w.candidate_index + 1;
        candidate_count = 0;
        retry_reason = initial_failed;
      }))

  last_failure :
      (d : Driver) (w : Wifi S)
      → w.candidate_attempt ≡ 1
      → w.candidate_count ≤ w.candidate_index + 1
      → on_attempt_failed d w ≡ spent w
  unfolding on_attempt_failed
  last_failure d w second last =
      let no_more : ltb (w.candidate_attempt + 1) 2 ≡ false = ground arith in
      let no_other : ltb (w.candidate_index + 1) w.candidate_count ≡ false = ground arith in
      rw (no_more, no_other)

  abbrev IsOut : Wifi S → Type 0
  IsOut t = (t.fsm_state ≡ connecting) × (all_in_bounds t.calls ≡ false)

  -- A first failure after a recovery tries the slot at the index, whatever the count is.
  failed_after_recovery :
      (d : Driver) (w : Wifi S)
      → length w.candidate_list ≤ w.candidate_index + 1
      → IsOut (on_attempt_failed d (recover (spent w)))
  unfolding on_attempt_failed recover
  failed_after_recovery d w behind =
      let none' = get_elem?-none w.candidate_list (w.candidate_index + 1) behind in
      rw none' (refl, out_of_bounds-last (w.calls ++ soft_reset ∷ driver_connect ∷ []))

  -- From a steady connecting state with six candidates of which the last one's last attempt fails, a recovery during the wait and one
  -- more disconnection make the machine read the candidate array behind its end.
  pub recovery_out_of_bounds :
      (d e f : Driver) (w : Wifi S)
      → IsSteady w
      → w.fsm_state ≡ connecting
      → w.candidate_count ≡ 6
      → w.candidate_index ≡ 5
      → w.candidate_attempt ≡ 1
      → let t =
          worker_run store
            ((some disconnected, d) ∷ (some recovery_request, e) ∷ (some disconnected, f) ∷ [])
            w in
        (t.fsm_state ≡ connecting) × (all_in_bounds t.calls ≡ false)
  unfolding worker_run
  recovery_out_of_bounds d e f w v at six last second =
      let first : worker_round store (some disconnected) d w ≡ spent w =
        round_in connecting disconnected d w at
        ∙ (unfold dispatch in last_failure d w second (omega arith)) in
      let again : worker_round store (some recovery_request) e (spent w) ≡ recover (spent w) =
        round_in retry_wait recovery_request e (spent w) (unfold go_to in refl)
        ∙ (unfold dispatch in refl) in
      let third : worker_round store (some disconnected) f (recover (spent w))
          ≡ on_attempt_failed f (recover (spent w)) =
        round_in connecting disconnected f (recover (spent w)) (unfold recover in refl)
        ∙ (unfold dispatch in refl) in
      subst
        (λ t. IsOut (worker_run store ((some recovery_request, e) ∷ (some disconnected, f) ∷ []) t))
        (sym first)
        (subst (λ t. IsOut (worker_run store ((some disconnected, f) ∷ []) t)) (sym again)
          (subst IsOut (sym third) (failed_after_recovery f w (omega (arith, v.slots)))))

  -- The link flag after a recovery of a connected machine: it is still set, however many attempts fail.
  abbrev IsStale : Wifi S → Type 0
  IsStale w =
      (w.shared.wifi_link ≡ true) × ((w.fsm_state ≡ connecting) ⊎ (w.fsm_state ≡ retry_wait))

  attempt-IsStale :
      (d : Driver) (w : Wifi S)
      → w.fsm_state ≡ connecting
      → w.shared.wifi_link ≡ true
      → IsStale (on_attempt_failed d w)
  unfolding on_attempt_failed app_state_set
  attempt-IsStale d w at up = ground (
    arith,
    connect_keeps d (record w { candidate_attempt = w.candidate_attempt + 1 }),
    connect_keeps d (record w { candidate_attempt = 0; candidate_index = w.candidate_index + 1 }),
  )

  failures-IsStale :
      (ds : List Driver) (w : Wifi S)
      → IsStale w
      → IsStale (worker_run store (map (λ d. (some disconnected, d)) ds) w)
  unfolding worker_run
  failures-IsStale [] w h = h
  failures-IsStale (d ∷ ds) w h = failures-IsStale ds _ (one h.1)
    where
      one :
          (w.fsm_state ≡ connecting) ⊎ (w.fsm_state ≡ retry_wait)
          → IsStale (worker_round store (some disconnected) d w)
      one (inl at) =
          rw (round_in connecting disconnected d w at)
            (unfold dispatch in attempt-IsStale d w at h.0)
      one (inr at) = rw (round_in retry_wait disconnected d w at) (unfold dispatch in h)

  -- From a steady state, after a recovery of a connected machine and any number of failed attempts,
  -- the machine is not connected and the link flag is still set: the uplink counts as connected
  -- throughout.
  pub recovery_link_stale :
      (e : Driver) (ds : List Driver) (w : Wifi S)
      → IsSteady w
      → w.fsm_state ≡ connected
      → let t =
          worker_run store
            (map (λ d. (some disconnected, d)) ds)
            (worker_round store (some recovery_request) e w) in
        (t.fsm_state ≢ connected) × (t.shared.wifi_link ≡ true)
  recovery_link_stale e ds w v at =
      let begun : IsStale (dispatch store connected recovery_request e w) =
        unfold dispatch recover in (v.unlinked at, inl refl) in
      let stale = failures-IsStale ds (dispatch store connected recovery_request e w) begun in
      rw (round_in connected recovery_request e w at) ((λ up. other stale.1 up), stale.0)
    where
      other : {st : FsmState} → (st ≡ connecting) ⊎ (st ≡ retry_wait) → st ≡ connected → ⊥
      other h up = ground arith
