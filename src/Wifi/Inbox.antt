-- ===== src/Wifi/Inbox.antt =====
-- How other tasks reach the worker in main/wifi_manager.c: the event queue of eight, the flag that the
-- web page reads while a scan is asked for, the one-at-a-time settle task, and the progress getter.
use satura_bridge.Wifi.Scan.{run_blocking_scan}
use satura_bridge.Wifi.Machine.{handle_event, has_credentials, set_app, dispatch}
use satura_bridge.Wifi.State.{
  WifiEvt, Wifi, NetworkStore, scan_request, Driver, idle, connected, ScanOutcome, FsmState,
  start_failed, connecting, retry_wait, recovering,
}
use satura_bridge.Prelude.{
  Bool, List, Option, [], arith, false, if◌then◌else◌, inl, inr, leb, length, ltb, none, refl, some,
  true, ℕ, ◌++◌, ◌+◌, ◌-◌, ◌<◌, ◌==◌, ◌||◌, ◌∷◌, ◌≡◌, ◌≢◌, ◌≤◌, ◌⊎◌, ap, ◌∙◌,
}
use satura_bridge.AppState.{
  bt_connected, set_wifi_rssi, EventType, wifi_connecting, same_state, no_wifi, state_number,
  AppState, wait_bt, wifi_failed, bridge, bridge_no_wifi,
}

abbrev pub queue_size : ℕ
queue_size = 8

-- The settle tasks: whether `bt_settle_running` is set, and how many tasks are alive.
pub record Settle : Type 0 where
  pub running : Bool
  pub tasks : ℕ

module _ {S : Type 0} where
  -- `none` is a queue that was not created yet. A full queue drops the event, and the scan flag is
  -- taken back if the event asked for a scan.
  unfoldable pub wifi_post_evt :
      WifiEvt → Option (List WifiEvt) × Wifi S → Option (List WifiEvt) × Wifi S
  wifi_post_evt e (none, w) = (none, w)
  wifi_post_evt e (some queue, w) =
      if ltb (length queue) queue_size
      then (some (queue ++ e ∷ []), w)
      else (some queue, elim e [ scan_request ↦ record w { scan_in_progress = false } | _ ↦ w ])

  unfoldable pub wifi_manager_scan_start :
      Option (List WifiEvt) × Wifi S → Option (List WifiEvt) × Wifi S
  unfolding wifi_post_evt
  wifi_manager_scan_start (queue, w) =
      wifi_post_evt scan_request (queue, record w { scan_in_progress = true })

  -- `*current` and `*total`.
  unfoldable pub wifi_manager_get_progress : Wifi S → ℕ × ℕ
  wifi_manager_get_progress w =
      let cnt = if w.candidate_count == 0 then 1 else w.candidate_count in
      (if leb cnt w.candidate_index then cnt - 1 else w.candidate_index, cnt)

module _ {S : Type 0} (store : NetworkStore S) where
  -- `created` is whether `safe_task_create` made the task.
  unfoldable pub on_bt_event : Bool → EventType → Wifi S × Settle → Wifi S × Settle
  on_bt_event created bt_connected (w, s) =
      if w.shared.wifi_link || same_state w.shared.current_state wifi_connecting
      then (w, s)
      else (if has_credentials store w
          then (if s.running
              then (w, s)
              else (w, record { running = true; tasks = if created then s.tasks + 1 else s.tasks }))
          else (let refused = set_app no_wifi w in
              (record refused { shared = set_wifi_rssi refused.shared 28 }, s)))
  on_bt_event created e (w, s) = (w, s)

-- The end of one settle task, after its delay: the flag is cleared and the task is gone.
unfoldable pub settle_done : Settle → Settle
settle_done s = record { running = false; tasks = s.tasks - 1 }

-- After a scan was asked for, the flag says whether the request waits in the queue, for a queue that
-- exists.
pub scan_start_flag :
    {S : Type 0} (queue : List WifiEvt) (w : Wifi S)
    → let t = wifi_manager_scan_start (some queue, w) in
      ((length queue < 8)
        × (t.0 ≡ some (queue ++ scan_request ∷ []))
        × (t.1.scan_in_progress ≡ true))
      ⊎ ((8 ≤ length queue) × (t.0 ≡ some queue) × (t.1.scan_in_progress ≡ false))
unfolding wifi_manager_scan_start
scan_start_flag queue w = ground arith

-- The worker clears the flag of a scan request in `idle` and `connected`, whatever the scan brings; in
-- every other state it ignores the request and the flag stays as it is.
pub scan_request_flag :
    {S : Type 0} (store : NetworkStore S) (d : Driver) (w : Wifi S)
    → let t = handle_event store scan_request d w in
      (((w.fsm_state ≡ idle) ⊎ (w.fsm_state ≡ connected)) × (t.scan_in_progress ≡ false))
      ⊎ ((w.fsm_state ≢ idle) × (w.fsm_state ≢ connected) × (t ≡ w))
unfolding handle_event
scan_request_flag store d w = by_state w.fsm_state refl
  where
    cleared : (o : ScanOutcome) → (run_blocking_scan store w o).scan_in_progress ≡ false
    cleared start_failed = unfold run_blocking_scan in refl
    cleared _ = unfold run_blocking_scan in refl

    by_state :
        (st : FsmState)
        → w.fsm_state ≡ st
        → let t = dispatch store st scan_request d w in
          (((st ≡ idle) ⊎ (st ≡ connected)) × (t.scan_in_progress ≡ false))
          ⊎ ((st ≢ idle) × (st ≢ connected) × (t ≡ w))
    by_state idle e = inl (inl refl, unfold dispatch in cleared d.scan)
    by_state connected e = inl (inr refl, unfold dispatch in cleared d.scan)
    by_state connecting e = inr ((λ p. cc), (λ p. cc), unfold dispatch in refl)
    by_state retry_wait e = inr ((λ p. cc), (λ p. cc), unfold dispatch in refl)
    by_state recovering e = inr ((λ p. cc), (λ p. cc), unfold dispatch in refl)

-- The page is always shown a network below the total, and a total of at least one.
pub get_progress_bounds :
    {S : Type 0} (w : Wifi S)
    → let (current, total) = wifi_manager_get_progress w in (current < total) × (1 ≤ total)
unfolding wifi_manager_get_progress
get_progress_bounds w = ground arith

-- The flag stands for the one task in flight.
abbrev pub IsOneTask : Settle → Type 0
IsOneTask s = s.tasks ≡ (if s.running then 1 else 0)

-- If tasks can be created, a Bluetooth event and the end of a task keep the flag equal to the task in
-- flight, so there is never more than one.
pub settle-IsOneTask :
    {S : Type 0} (store : NetworkStore S) (e : EventType) (w : Wifi S) (s : Settle)
    → IsOneTask s
    → IsOneTask (on_bt_event store true e (w, s)).1 × IsOneTask (settle_done s)
unfolding on_bt_event settle_done
settle-IsOneTask store bt_connected w s h = ground arith
settle-IsOneTask store _ w s h = ground arith

not_connecting : (st : AppState) → st ≢ wifi_connecting → same_state st wifi_connecting ≡ false
unfolding same_state state_number
not_connecting wifi_connecting n = absurd (n refl)
not_connecting wait_bt n = refl
not_connecting no_wifi n = refl
not_connecting wifi_failed n = refl
not_connecting bridge n = refl
not_connecting bridge_no_wifi n = refl

task_failed :
    {S : Type 0} (store : NetworkStore S) (w : Wifi S)
    → w.shared.wifi_link ≡ false
    → same_state w.shared.current_state wifi_connecting ≡ false
    → has_credentials store w ≡ true
    → (on_bt_event store false bt_connected (w, record { running = false; tasks = 0 })).1
      ≡ record { running = true; tasks = 0 }
unfolding on_bt_event
task_failed store w down idle' creds = ground arith

none_started :
    {S : Type 0} (store : NetworkStore S) (v : Wifi S) (e : EventType)
    → (on_bt_event store true e (v, record { running = true; tasks = 0 })).1.tasks ≡ 0
unfolding on_bt_event
none_started store v bt_connected = ground arith
none_started store v _ = refl

-- If a phone connects while the Wi-Fi link is down, no connection is being made, credentials are saved
-- and no settle task is in flight, but the task cannot be created, then the flag stays set with no task
-- alive, and the next event, in any state of the worker, starts none.
pub settle_blocked :
    {S : Type 0} (store : NetworkStore S) (w : Wifi S)
    → w.shared.wifi_link ≡ false
    → w.shared.current_state ≢ wifi_connecting
    → has_credentials store w ≡ true
    → (v : Wifi S) (e : EventType)
    → let s = (on_bt_event store false bt_connected (w, record { running = false; tasks = 0 })).1 in
      (s.running ≡ true) × ((on_bt_event store true e (v, s)).1.tasks ≡ 0)
settle_blocked store w down busy creds v e =
    let failed = task_failed store w down (not_connecting w.shared.current_state busy) creds in
    (
      ap (λ (s : Settle). s.running) failed,
      ap (λ s. (on_bt_event store true e (v, s)).1.tasks) failed ∙ none_started store v e,
    )
