-- ===== src/Wifi/Machine.antt =====
-- The worker task of main/wifi_manager.c: one function for each handler, as it changes the state.
use satura_bridge.Prelude.{
  Bool, List, Option, [], codes, false, get_elem?, if◌then◌else◌, length, ltb, map, none, some,
  take, true, ℕ, ◌*◌, ◌++◌, ◌+◌, ◌-◌, ◌==◌, ◌∷◌,
}
use satura_bridge.AppState.{
  AppState, wait_bt, no_wifi, wifi_connecting, wifi_failed, bridge, bridge_no_wifi, uplink_up,
  uplink_down, app_state_set, same_state, set_wifi_connected, set_wifi_rssi, Shared,
}
use satura_bridge.Wifi.State.{
  FsmState, idle, connecting, connected, retry_wait, WifiEvt, connect_request, scan_request,
  forget_request, recovery_request, disconnected, got_ip, initial_failed, lost_connection,
  Candidate, Call, set_config, driver_connect, driver_disconnect, set_power_save, soft_reset,
  out_of_bounds, publish, Driver, NetworkStore, Wifi, wifi_retry_base_ms, wifi_retry_max_ms,
  wifi_full_retry_delay_ms, cand_max_attempts,
}
use satura_bridge.Wifi.Scan.{run_blocking_scan}
use satura_bridge.Wifi.Candidates.{build_candidate_list}

module _ {S : Type 0} where
  unfoldable pub emit : List Call → Wifi S → Wifi S
  emit cs w = record w { calls = w.calls ++ cs }

  unfoldable pub set_app : AppState → Wifi S → Wifi S
  set_app st w = record w { shared = app_state_set w.shared st }

  -- The assignments to `fsm_state` and `next_wait_ms` that end most branches.
  unfoldable pub go_to : FsmState → ℕ → Wifi S → Wifi S
  go_to st wait w = record w { fsm_state = st; next_wait_ms = wait }

  -- The slot may be one behind the array: the read is then marked, and nothing is said of the rest.
  unfoldable pub connect_slot : Driver → Option Candidate → Wifi S → Wifi S
  unfolding emit
  connect_slot d none w = emit (out_of_bounds ∷ []) w
  connect_slot d (some c) w =
      emit
        (set_config (take (d.ssid_size - 1) c.network.ssid) (take (d.pass_size - 1) c.network.pass)
          ∷ driver_connect
          ∷ [])
        (record w { wifi_ssid = take 63 c.network.ssid; wifi_pass = take 63 c.network.pass })

  unfoldable pub connect_to_candidate : Driver → Wifi S → Wifi S
  unfolding connect_slot
  connect_to_candidate d w = connect_slot d (get_elem? w.candidate_list w.candidate_index) w

  -- WEVT_GOT_IP while connecting.
  unfoldable pub on_got_ip : Driver → List ℕ → Wifi S → Wifi S
  unfolding emit set_app go_to
  on_got_ip d ip w =
      let near : Shared = elim d.ap_rssi [
        | some rssi ↦ set_wifi_rssi w.shared rssi
        | none ↦ w.shared
      ] in
      let (linked, events) = set_wifi_connected near true in
      let up =
        emit (set_power_save ∷ map publish events ++ publish uplink_up ∷ [])
          (record w { wifi_ip = ip; shared = linked; retry_delay_ms = wifi_retry_base_ms }) in
      go_to connected 0 (set_app (if linked.bt_link then bridge else wait_bt) up)

  -- WEVT_DISCONNECTED while connecting: the next attempt, the next candidate, or a wait.
  unfoldable pub on_attempt_failed : Driver → Wifi S → Wifi S
  unfolding set_app go_to connect_to_candidate
  on_attempt_failed d w =
      if ltb (w.candidate_attempt + 1) cand_max_attempts
      then connect_to_candidate d (record w { candidate_attempt = w.candidate_attempt + 1 })
      else (if ltb (w.candidate_index + 1) w.candidate_count
          then connect_to_candidate d
              (record w { candidate_attempt = 0; candidate_index = w.candidate_index + 1 })
          else go_to retry_wait wifi_full_retry_delay_ms (
              set_app wifi_failed (record w {
                candidate_attempt = 0;
                candidate_index = w.candidate_index + 1;
                candidate_count = 0;
                retry_reason = initial_failed;
              })))

  -- wifi_soft_reset, run synchronously: the driver is torn down, set up again with the configuration
  -- that it had, and told to connect.
  unfoldable pub recover : Wifi S → Wifi S
  unfolding emit go_to
  recover w = go_to connecting 0 (emit (soft_reset ∷ driver_connect ∷ []) w)

module _ {S : Type 0} (store : NetworkStore S) where
  unfoldable pub has_credentials : Wifi S → Bool
  has_credentials w = ltb 0 (length (store.load w.flash 1))

  unfoldable pub clear_networks : Wifi S → Wifi S
  clear_networks w = record w { flash = store.clear w.flash }

  -- `next_wait_ms` is not written here, on either branch.
  unfoldable pub start_connect_cycle : Driver → Wifi S → Wifi S
  unfolding set_app connect_to_candidate
  start_connect_cycle d w =
      let scanned = run_blocking_scan store (set_app wifi_connecting w) d.scan in
      let ready = record (build_candidate_list store scanned) { candidate_attempt = 0 } in
      if ready.candidate_count == 0
      then record (set_app wifi_failed ready) {
        fsm_state = retry_wait;
        retry_reason = initial_failed;
      }
      else connect_to_candidate d (record ready { fsm_state = connecting })

  -- WEVT_DISCONNECTED while connected.
  unfoldable pub on_connection_lost : Wifi S → Wifi S
  unfolding emit set_app go_to has_credentials
  on_connection_lost w =
      let (unlinked, events) = set_wifi_connected w.shared false in
      let down =
        emit (map publish events ++ publish uplink_down ∷ [])
          (record w { shared = unlinked; wifi_ip = codes "--" }) in
      if has_credentials down
      then go_to retry_wait down.retry_delay_ms
          (record (if same_state down.shared.current_state bridge
            then set_app bridge_no_wifi down
            else down) {
              retry_reason = lost_connection;
              retry_delay_ms =
                  if ltb wifi_retry_max_ms (down.retry_delay_ms * 2)
                  then wifi_retry_max_ms
                  else down.retry_delay_ms * 2;
            })
      else go_to idle 0 (set_app no_wifi down)

  -- The `switch` of `handle_event`, on the state and the event; the last clause is every `default`.
  unfoldable pub dispatch : FsmState → WifiEvt → Driver → Wifi S → Wifi S
  unfolding emit set_app go_to clear_networks has_credentials
  dispatch idle connect_request d w =
      if has_credentials w then start_connect_cycle d w else set_app no_wifi w
  dispatch idle scan_request d w = run_blocking_scan store w d.scan
  dispatch idle forget_request d w =
      set_app no_wifi (emit (driver_disconnect ∷ []) (clear_networks w))
  dispatch connecting (got_ip ip) d w = on_got_ip d ip w
  dispatch connecting disconnected d w = on_attempt_failed d w
  dispatch connecting forget_request d w =
      go_to idle 0 (set_app no_wifi (emit (driver_disconnect ∷ []) (clear_networks w)))
  dispatch connected disconnected d w = on_connection_lost w
  dispatch connected scan_request d w = run_blocking_scan store w d.scan
  dispatch connected forget_request d w = emit (driver_disconnect ∷ []) (clear_networks w)
  dispatch connected recovery_request d w = recover w
  dispatch retry_wait connect_request d w = start_connect_cycle d w
  dispatch retry_wait forget_request d w = go_to idle 0 (set_app no_wifi (clear_networks w))
  dispatch retry_wait recovery_request d w = recover w
  dispatch st e d w = w

  unfoldable pub handle_event : WifiEvt → Driver → Wifi S → Wifi S
  unfolding dispatch
  handle_event e d w = dispatch w.fsm_state e d w

  unfoldable pub timeout_in : FsmState → Driver → Wifi S → Wifi S
  unfolding go_to has_credentials
  timeout_in retry_wait d w = if has_credentials w then start_connect_cycle d w else go_to idle 0 w
  timeout_in st d w = w

  unfoldable pub handle_timeout : Driver → Wifi S → Wifi S
  unfolding timeout_in
  handle_timeout d w = timeout_in w.fsm_state d w

  -- One round of `wifi_worker_task`: an event, or the end of the wait where one is armed.
  -- `wait_ticks` makes a wait of 0 endless.
  unfoldable pub worker_round : Option WifiEvt → Driver → Wifi S → Wifi S
  worker_round (some e) d w = handle_event e d w
  worker_round none d w = if w.next_wait_ms == 0 then w else handle_timeout d w

  unfoldable pub worker_run : List (Option WifiEvt × Driver) → Wifi S → Wifi S
  worker_run [] w = w
  worker_run ((e, d) ∷ es) w = worker_run es (worker_round e d w)
