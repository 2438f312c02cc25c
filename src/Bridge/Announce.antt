-- ===== src/Bridge/Announce.antt =====
-- main/wifi_manager.c: a change of the link flag by the worker is always followed by an event.
use satura_bridge.AppState.{
  EventType, uplink_up, uplink_down, downlink_up, downlink_down, Shared, app_state_set,
  set_wifi_connected, AppState, wifi_failed, wifi_connecting, no_wifi,
}
use satura_bridge.Bridge.{published, Call}
use satura_bridge.Prelude.{
  List, Option, ℕ, [], suc, none, some, ◌+◌, ◌≡◌, ◌≤◌, ◌⊎◌, ◌∷◌, inl, inr, refl, arith, Bool-cases,
  get_elem?, ltb, subst, sym, ap, ◌==◌,
}
use satura_bridge.Wifi.State.{
  Driver, NetworkStore, Wifi, WifiEvt, FsmState, ScanOutcome, start_failed, Candidate,
  cand_max_attempts, Call, retry_wait, connecting, got_ip, idle, connected, connect_request,
  scan_request, forget_request, disconnected,
}
use satura_bridge.Wifi.Machine.{
  worker_round, handle_event, handle_timeout, timeout_in, dispatch, start_connect_cycle, emit,
  set_app, go_to, connect_to_candidate, connect_slot, on_got_ip, on_attempt_failed, recover,
  clear_networks, on_connection_lost, has_credentials,
}
use satura_bridge.Wifi.Scan.{run_blocking_scan}
use satura_bridge.Wifi.Candidates.{build_candidate_list}

-- The events that the NAT listens to.
unfoldable pub nat_events : List EventType → ℕ
nat_events [] = 0
nat_events (uplink_up ∷ es) = suc (nat_events es)
nat_events (uplink_down ∷ es) = suc (nat_events es)
nat_events (downlink_up ∷ es) = suc (nat_events es)
nat_events (downlink_down ∷ es) = suc (nat_events es)
nat_events (e ∷ es) = nat_events es

-- Neither link flag changed.
unfoldable pub IsQuiet : Shared → Shared → Type 0
IsQuiet before after = (after.wifi_link ≡ before.wifi_link) × (after.bt_link ≡ before.bt_link)

-- A change of the Wi-Fi flag is announced.
unfoldable pub IsAnnounced : Shared → Shared → List Call → Type 0
IsAnnounced before after calls =
    (after.bt_link ≡ before.bt_link)
    × ((after.wifi_link ≡ before.wifi_link) ⊎ (1 ≤ nat_events (published calls)))

pub app_state_set-IsQuiet :
    (st : AppState) (before s : Shared) → IsQuiet before s → IsQuiet before (app_state_set s st)
unfolding app_state_set IsQuiet
app_state_set-IsQuiet st before s h = ground arith

module _ {S : Type 0} where
  connect-shared :
      (d : Driver) (o : Option Candidate) (w : Wifi S) → (connect_slot d o w).shared ≡ w.shared
  unfolding connect_slot emit
  connect-shared d none w = refl
  connect-shared d (some c) w = refl

  connect-IsQuiet :
      (d : Driver) (before : Shared) (w : Wifi S)
      → IsQuiet before w.shared
      → IsQuiet before (connect_to_candidate d w).shared
  unfolding connect_to_candidate
  connect-IsQuiet d before w h =
      subst (IsQuiet before)
        (sym (connect-shared d (get_elem? w.candidate_list w.candidate_index) w)) h

  on_attempt_failed-IsQuiet :
      (d : Driver) (w : Wifi S) → IsQuiet w.shared (on_attempt_failed d w).shared
  unfolding on_attempt_failed set_app go_to
  on_attempt_failed-IsQuiet d w =
      elim (Bool-cases (ltb (w.candidate_attempt + 1) cand_max_attempts)) [
        | inl again ↦ rw again (
            connect-IsQuiet d w.shared (record w { candidate_attempt = w.candidate_attempt + 1 })
              (unfold IsQuiet in (refl, refl)))
        | inr spent ↦ elim (Bool-cases (ltb (w.candidate_index + 1) w.candidate_count)) [
          | inl next ↦
              rw (spent, next)
                (connect-IsQuiet d w.shared
                  (record w { candidate_attempt = 0; candidate_index = w.candidate_index + 1 })
                  (unfold IsQuiet in (refl, refl)))
          | inr last ↦
              rw (spent, last)
                (app_state_set-IsQuiet wifi_failed w.shared w.shared
                  (unfold IsQuiet in (refl, refl)))
        ]
      ]

  on_got_ip-IsAnnounced :
      (d : Driver) (ip : List ℕ) (w : Wifi S)
      → w.calls ≡ []
      → IsAnnounced w.shared (on_got_ip d ip w).shared (on_got_ip d ip w).calls
  unfolding on_got_ip emit set_app go_to IsAnnounced set_wifi_connected app_state_set published
      nat_events
  on_got_ip-IsAnnounced d ip w e = ground arith

module _ {S : Type 0} (store : NetworkStore S) where
  scan-shared : (w : Wifi S) (o : ScanOutcome) → (run_blocking_scan store w o).shared ≡ w.shared
  unfolding run_blocking_scan
  scan-shared w start_failed = refl
  scan-shared w _ = refl

  start_connect_cycle-IsQuiet :
      (d : Driver) (w : Wifi S) → IsQuiet w.shared (start_connect_cycle store d w).shared
  unfolding start_connect_cycle set_app build_candidate_list
  start_connect_cycle-IsQuiet d w =
      let asked = record w { shared = app_state_set w.shared wifi_connecting } in
      let scanned = run_blocking_scan store asked d.scan in
      let ready = record (build_candidate_list store scanned) { candidate_attempt = 0 } in
      let quiet : IsQuiet w.shared scanned.shared =
        subst (IsQuiet w.shared) (sym (scan-shared asked d.scan)) (
          app_state_set-IsQuiet wifi_connecting w.shared w.shared
            (unfold IsQuiet in (refl, refl))) in
      elim (Bool-cases (ready.candidate_count == 0)) [
        | inl empty ↦ rw empty (app_state_set-IsQuiet wifi_failed w.shared scanned.shared quiet)
        | inr found ↦
            rw found (connect-IsQuiet d w.shared (record ready { fsm_state = connecting }) quiet)
      ]

  on_connection_lost-IsAnnounced :
      (w : Wifi S)
      → w.calls ≡ []
      → IsAnnounced w.shared (on_connection_lost store w).shared (on_connection_lost store w).calls
  unfolding on_connection_lost emit set_app go_to IsAnnounced set_wifi_connected app_state_set
      published nat_events
  on_connection_lost-IsAnnounced w e = ground arith

  quiet-IsAnnounced :
      (before after : Shared) (calls : List Call)
      → IsQuiet before after
      → IsAnnounced before after calls
  unfolding IsQuiet IsAnnounced
  quiet-IsAnnounced before after calls (wifi, bt) = (bt, inl wifi)

  -- Setting the state of the bridge is quiet.
  app-IsAnnounced :
      (st : AppState) (s : Shared) (calls : List Call) → IsAnnounced s (app_state_set s st) calls
  app-IsAnnounced st s calls =
      quiet-IsAnnounced s _ calls (app_state_set-IsQuiet st s s (unfold IsQuiet in (refl, refl)))

  same-IsAnnounced :
      (before after : Shared) (calls : List Call) → after ≡ before → IsAnnounced before after calls
  unfolding IsAnnounced
  same-IsAnnounced before after calls e =
      (ap (λ (s : Shared). s.bt_link) e, inl (ap (λ (s : Shared). s.wifi_link) e))

  dispatch-IsAnnounced :
      (st : FsmState) (e : WifiEvt) (d : Driver) (w : Wifi S)
      → w.calls ≡ []
      → let t = dispatch store st e d w in IsAnnounced w.shared t.shared t.calls
  unfolding dispatch emit set_app go_to clear_networks recover
  dispatch-IsAnnounced idle connect_request d w h = elim (Bool-cases (has_credentials store w)) [
    | inl saved ↦ rw saved (quiet-IsAnnounced _ _ _ (start_connect_cycle-IsQuiet d w))
    | inr bare ↦ rw bare (app-IsAnnounced no_wifi w.shared w.calls)
  ]
  dispatch-IsAnnounced idle scan_request d w h = same-IsAnnounced _ _ _ (scan-shared w d.scan)
  dispatch-IsAnnounced idle forget_request d w h = app-IsAnnounced no_wifi w.shared _
  dispatch-IsAnnounced connecting (got_ip ip) d w h = on_got_ip-IsAnnounced d ip w h
  dispatch-IsAnnounced connecting disconnected d w h =
      quiet-IsAnnounced _ _ _ (on_attempt_failed-IsQuiet d w)
  dispatch-IsAnnounced connecting forget_request d w h = app-IsAnnounced no_wifi w.shared _
  dispatch-IsAnnounced connected disconnected d w h = on_connection_lost-IsAnnounced w h
  dispatch-IsAnnounced connected scan_request d w h = same-IsAnnounced _ _ _ (scan-shared w d.scan)
  dispatch-IsAnnounced retry_wait connect_request d w h =
      quiet-IsAnnounced _ _ _ (start_connect_cycle-IsQuiet d w)
  dispatch-IsAnnounced retry_wait forget_request d w h = app-IsAnnounced no_wifi w.shared _
  dispatch-IsAnnounced _ _ d w h = same-IsAnnounced _ _ _ refl

  timeout-IsAnnounced :
      (st : FsmState) (d : Driver) (w : Wifi S)
      → let t = timeout_in store st d w in IsAnnounced w.shared t.shared t.calls
  unfolding timeout_in go_to
  timeout-IsAnnounced retry_wait d w = elim (Bool-cases (has_credentials store w)) [
    | inl saved ↦ rw saved (quiet-IsAnnounced _ _ _ (start_connect_cycle-IsQuiet d w))
    | inr bare ↦ rw bare (same-IsAnnounced _ _ _ refl)
  ]
  timeout-IsAnnounced _ d w = same-IsAnnounced _ _ _ refl

  -- A round of the worker leaves the Bluetooth flag alone, and publishes an event of the uplink if it
  -- changes the Wi-Fi flag.
  pub worker_round-IsAnnounced :
      (e : Option WifiEvt) (d : Driver) (w : Wifi S)
      → w.calls ≡ []
      → let t = worker_round store e d w in IsAnnounced w.shared t.shared t.calls
  unfolding worker_round handle_event handle_timeout
  worker_round-IsAnnounced (some e) d w h = dispatch-IsAnnounced w.fsm_state e d w h
  worker_round-IsAnnounced none d w h = elim (Bool-cases (w.next_wait_ms == 0)) [
    | inl endless ↦ rw endless (same-IsAnnounced _ _ _ refl)
    | inr over ↦ rw over (timeout-IsAnnounced w.fsm_state d w)
  ]
