-- ===== src/Wifi/Invariant.antt =====
-- The Wi-Fi worker of main/wifi_manager.c keeps its invariant over every round without a recovery.
use satura_bridge.Wifi.Steady.{
  IsSteady, all_in_bounds, all_in_bounds-append, emit-IsSteady, connect-IsSteady, set_app-IsSteady,
  link-set_app, link_down, go_to-IsSteady, on_attempt_failed-IsSteady, on_got_ip-IsSteady,
}
use satura_bridge.Wifi.Machine.{
  connect_to_candidate, emit, set_app, go_to, start_connect_cycle, on_connection_lost,
  clear_networks, dispatch, timeout_in, worker_round, worker_run, has_credentials, handle_event,
  handle_timeout,
}
use satura_bridge.Prelude.{
  All, List, [], arith, length, refl, some, true, ◌∷◌, ◌≡◌, ◌≢◌, ◌≤◌, Bool-cases, inl, inr, false,
  ap, if◌then◌else◌, ◌==◌, ◌∙◌, Option, none,
}
use satura_bridge.AppState.{
  app_state_set, set_wifi_connected, uplink_down, wifi_disconnected, wifi_failed, wifi_connecting,
  Shared, no_wifi,
}
use satura_bridge.Wifi.State.{
  Wifi, Driver, NetworkStore, WifiEvt, idle, connected, recovery_request, connecting, FsmState,
  ScanOutcome, publish, start_failed, retry_wait, initial_failed, driver_disconnect, got_ip,
  connect_request, scan_request, forget_request, disconnected,
}
use satura_bridge.Wifi.Scan.{run_blocking_scan}
use satura_bridge.Wifi.Candidates.{build_candidate_list}
use satura_bridge.Wifi.Ranking.{build_candidate_list-IsBuilt}

module _ {S : Type 0} (store : NetworkStore S) where
  scan-IsSteady :
      (w : Wifi S) (o : ScanOutcome) → IsSteady w → IsSteady (run_blocking_scan store w o)
  unfolding run_blocking_scan
  scan-IsSteady w start_failed v = ground arith
  scan-IsSteady w _ v = ground arith

  -- After a rebuild: the first candidate, if there is one, is tried.
  first_attempt-IsSteady :
      (d : Driver) (t : Wifi S)
      → length t.candidate_list ≡ 6
      → t.candidate_count ≤ 6
      → t.candidate_index ≡ 0
      → all_in_bounds t.calls ≡ true
      → (1000 ≤ t.retry_delay_ms) × (t.retry_delay_ms ≤ 30000)
      → t.shared.wifi_link ≡ false
      → let ready = record t { candidate_attempt = 0 } in
        IsSteady (
          if ready.candidate_count == 0
          then record (set_app wifi_failed ready) {
            fsm_state = retry_wait;
            retry_reason = initial_failed;
          }
          else connect_to_candidate d (record ready { fsm_state = connecting }))
  unfolding set_app app_state_set
  first_attempt-IsSteady d t slots few first calls delay down =
      elim (Bool-cases (t.candidate_count == 0)) [
        | inl empty ↦ rw empty (ground arith)
        | inr some' ↦ rw some' (
            connect-IsSteady d (record t { candidate_attempt = 0; fsm_state = connecting })
              (omega arith) (ground arith))
      ]

  -- A scan writes to the table of results and to its own flag only.
  pub scan_keeps :
      (w : Wifi S) (o : ScanOutcome)
      → let t = run_blocking_scan store w o in
        (t.calls ≡ w.calls)
        × (t.retry_delay_ms ≡ w.retry_delay_ms)
        × (t.shared ≡ w.shared)
        × (t.candidate_list ≡ w.candidate_list)
  unfolding run_blocking_scan
  scan_keeps w start_failed = (refl, refl, refl, refl)
  scan_keeps w _ = (refl, refl, refl, refl)

  start_connect_cycle-IsSteady :
      (d : Driver) (w : Wifi S)
      → w.shared.wifi_link ≡ false
      → IsSteady w
      → IsSteady (start_connect_cycle store d w)
  unfolding start_connect_cycle
  start_connect_cycle-IsSteady d w down v =
      let asked = set_app wifi_connecting w in
      let scanned = run_blocking_scan store asked d.scan in
      let kept = scan_keeps asked d.scan in
      let begun = set_app-IsSteady wifi_connecting w v in
      let built = build_candidate_list-IsBuilt store scanned (ap length kept.3 ∙ begun.slots) in
      first_attempt-IsSteady d (build_candidate_list store scanned) built.same_size built.at_most
        built.restarted (unfold build_candidate_list in ap all_in_bounds kept.0 ∙ begun.in_bounds)
        (unfold build_candidate_list in
          (omega (arith, kept.1, begun.delay_low), omega (arith, kept.1, begun.delay_high)))
        (unfold build_candidate_list in
          ap (λ (sh : Shared). sh.wifi_link) kept.2 ∙ link-set_app wifi_connecting w ∙ down)

  on_connection_lost-IsSteady :
      (w : Wifi S) → w.fsm_state ≡ connected → IsSteady w → IsSteady (on_connection_lost store w)
  unfolding on_connection_lost app_state_set set_wifi_connected all_in_bounds
  on_connection_lost-IsSteady w at v = ground (
    arith,
    all_in_bounds-append w.calls (publish uplink_down ∷ []),
    all_in_bounds-append w.calls (publish wifi_disconnected ∷ publish uplink_down ∷ []),
  )

  clear-IsSteady : (w : Wifi S) → IsSteady w → IsSteady (clear_networks store w)
  unfolding clear_networks
  clear-IsSteady w v = ground arith

  forget-IsSteady :
      (w : Wifi S) → IsSteady w → IsSteady (emit (driver_disconnect ∷ []) (clear_networks store w))
  forget-IsSteady w v =
      emit-IsSteady (driver_disconnect ∷ []) (clear_networks store w) (unfold all_in_bounds in refl)
        (clear-IsSteady w v)

  to_idle-IsSteady :
      (w : Wifi S) → w.shared.wifi_link ≡ false → IsSteady w → IsSteady (go_to idle 0 w)
  to_idle-IsSteady w down v =
      go_to-IsSteady idle 0 w v (λ e. cc) (λ e. cc) (λ _. refl) (λ up. cc) (λ e. cc)

  dispatch-IsSteady :
      (st : FsmState) (e : WifiEvt) (d : Driver) (w : Wifi S)
      → w.fsm_state ≡ st
      → e ≢ recovery_request
      → IsSteady w
      → IsSteady (dispatch store st e d w)
  unfolding dispatch
  dispatch-IsSteady idle connect_request d w at n v = elim (Bool-cases (has_credentials store w)) [
    | inl yes' ↦ rw yes' (start_connect_cycle-IsSteady d w (link_down w (λ e. cc) v) v)
    | inr no' ↦ rw no' (set_app-IsSteady no_wifi w v)
  ]
  dispatch-IsSteady idle scan_request d w at n v = scan-IsSteady w d.scan v
  dispatch-IsSteady idle forget_request d w at n v =
      set_app-IsSteady no_wifi _ (forget-IsSteady w v)
  dispatch-IsSteady connecting (got_ip ip) d w at n v = on_got_ip-IsSteady d ip w at v
  dispatch-IsSteady connecting disconnected d w at n v = on_attempt_failed-IsSteady d w at v
  dispatch-IsSteady connecting forget_request d w at n v =
      let left = emit (driver_disconnect ∷ []) (clear_networks store w) in
      to_idle-IsSteady (set_app no_wifi left)
        (link-set_app no_wifi left ∙ (unfold emit clear_networks in link_down w (λ e. cc) v))
        (set_app-IsSteady no_wifi left (forget-IsSteady w v))
  dispatch-IsSteady connected disconnected d w at n v = on_connection_lost-IsSteady w at v
  dispatch-IsSteady connected scan_request d w at n v = scan-IsSteady w d.scan v
  dispatch-IsSteady connected forget_request d w at n v = forget-IsSteady w v
  dispatch-IsSteady connected recovery_request d w at n v = absurd (n refl)
  dispatch-IsSteady retry_wait connect_request d w at n v =
      start_connect_cycle-IsSteady d w (link_down w (λ e. cc) v) v
  dispatch-IsSteady retry_wait forget_request d w at n v =
      let left = clear_networks store w in
      to_idle-IsSteady (set_app no_wifi left)
        (link-set_app no_wifi left ∙ (unfold clear_networks in link_down w (λ e. cc) v))
        (set_app-IsSteady no_wifi left (clear-IsSteady w v))
  dispatch-IsSteady retry_wait recovery_request d w at n v = absurd (n refl)
  dispatch-IsSteady st e d w at n v = v

  timeout-IsSteady :
      (st : FsmState) (d : Driver) (w : Wifi S)
      → w.fsm_state ≡ st
      → IsSteady w
      → IsSteady (timeout_in store st d w)
  unfolding timeout_in
  timeout-IsSteady retry_wait d w at v = elim (Bool-cases (has_credentials store w)) [
    | inl yes' ↦ rw yes' (start_connect_cycle-IsSteady d w (link_down w (λ e. cc) v) v)
    | inr no' ↦ rw no' (to_idle-IsSteady w (link_down w (λ e. cc) v) v)
  ]
  timeout-IsSteady st d w at v = v

  round-IsSteady :
      (e : Option WifiEvt) (d : Driver) (w : Wifi S)
      → e ≢ some recovery_request
      → IsSteady w
      → IsSteady (worker_round store e d w)
  unfolding worker_round handle_event handle_timeout
  round-IsSteady (some e) d w n v =
      dispatch-IsSteady w.fsm_state e d w refl (λ same. n (ap some same)) v
  round-IsSteady none d w n v = elim (Bool-cases (w.next_wait_ms == 0)) [
    | inl endless ↦ rw endless v
    | inr armed ↦ rw armed (timeout-IsSteady w.fsm_state d w refl v)
  ]

  -- From a steady state, any sequence of events and expired waits that holds no recovery request ends
  -- in a steady state.
  pub worker_run-IsSteady :
      (rounds : List (Option WifiEvt × Driver)) (w : Wifi S)
      → All (λ r. r.0 ≢ some recovery_request) rounds
      → IsSteady w
      → IsSteady (worker_run store rounds w)
  unfolding worker_run
  worker_run-IsSteady [] w h v = v
  worker_run-IsSteady ((e, d) ∷ rounds) w h v =
      worker_run-IsSteady rounds (worker_round store e d w) h.1 (round-IsSteady e d w h.0 v)
