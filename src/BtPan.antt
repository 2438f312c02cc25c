-- ===== src/BtPan.antt =====
-- main/bt_pan.c: the handlers of the Bluetooth stack's events, the polling of the signal strength, and
-- the timer that makes the bridge visible again. BTstack and the timer are parameters: an event is the
-- values that the handler reads from the packet, and `armed` is whether the timer could be started.
pub mod Netif
pub mod Setup
pub mod Laws
use satura_bridge.AppState.{
  Shared, set_bt_rssi, set_bt_connected, EventType, app_state_set, bridge, wait_bt, downlink_up,
  downlink_down,
}
use satura_bridge.Prelude.{
  Bool, List, Option, ℕ, [], false, if◌then◌else◌, none, not, some, true, ◌&&◌, ◌++◌, ◌+◌, ◌-◌,
  ◌==◌, ◌∷◌, codes,
}

-- The answers to a phone that pairs, with its address.
pub data BtReply : Type 0 where
  pin_code_response : List ℕ → List ℕ → BtReply
  ssp_confirmation_response : List ℕ → BtReply

abbrev pub bt_legacy_pin : List ℕ
bt_legacy_pin = codes "0000"

-- `bt_handle` is `none` for HCI_CON_HANDLE_INVALID, which no event carries. `timers` counts the timers
-- that were started and did not fire, `visible` is what the stack was told last, and `events` and
-- `dropped` are what was published and how many channels were refused, and `replies` what was answered.
pub record BtPan : Type 0 where
  pub shared : Shared
  pub bt_handle : Option ℕ
  pub bt_reopen_running : Bool
  pub bt_reopen_counter : ℕ
  pub timers : ℕ
  pub visible : Bool
  pub events : List EventType
  pub dropped : ℕ
  pub replies : List BtReply

-- The events with an effect, with their handle; an RSSI of r dBm is the number r + 128.
pub data BtEvent : Type 0 where
  disconnection_complete : ℕ → BtEvent
  rssi_measurement : ℕ → ℕ → BtEvent
  channel_opened : ℕ → ℕ → BtEvent
  pin_code_request user_confirmation_request : List ℕ → BtEvent
  channel_closed reopen_fired other_event : BtEvent

abbrev pub is_handle : ℕ → Option ℕ → Bool
is_handle h none = false
is_handle h (some k) = h == k

abbrev pub set_visible : Bool → BtPan → BtPan
set_visible v s = record s { visible = v }

unfoldable pub schedule_reopen : Bool → BtPan → BtPan
schedule_reopen armed s =
    if armed then record s { timers = s.timers + 1 } else record s { bt_reopen_running = false }

unfoldable pub reopen_main : BtPan → BtPan
reopen_main s =
    let shown = if s.shared.bt_link then s else set_visible true s in
    record shown { bt_reopen_running = false; timers = s.timers - 1 }

-- The guard around a schedule, which both handlers share: at most one at a time.
unfoldable pub reopen_once : Bool → BtPan → BtPan
reopen_once armed s =
    if s.bt_reopen_running then s else schedule_reopen armed (record s { bt_reopen_running = true })

unfoldable pub hci_disconnected : Bool → ℕ → BtPan → BtPan
hci_disconnected armed h s =
    if not s.shared.bt_link && is_handle h s.bt_handle
    then reopen_once armed (record s { bt_handle = none })
    else s

-- 0 dBm, the number 128, counts as no reading.
unfoldable pub rssi_measured : ℕ → ℕ → BtPan → BtPan
rssi_measured h rssi s =
    if is_handle h s.bt_handle && not (rssi == 128)
    then record s { shared = set_bt_rssi s.shared rssi }
    else s

-- BNEP_EVENT_CHANNEL_OPENED: a failed one is ignored, a second one is refused.
unfoldable pub opened : ℕ → ℕ → BtPan → BtPan
opened status h s =
    if not (status == 0)
    then s
    else (if s.shared.bt_link
        then record s { dropped = s.dropped + 1 }
        else (let (linked, published) = set_bt_connected s.shared true in
            record s {
              shared = if linked.wifi_link then app_state_set linked bridge else linked;
              events = s.events ++ published ++ downlink_up ∷ [];
              bt_handle = some h;
              visible = false;
            }))

unfoldable pub closed : Bool → BtPan → BtPan
closed armed s =
    let (unlinked, published) = set_bt_connected s.shared false in
    let down : BtPan = record s {
      shared = app_state_set (set_bt_rssi unlinked 28) wait_bt;
      events = s.events ++ published ++ downlink_down ∷ [];
      bt_handle = none;
      bt_reopen_counter =
          if s.bt_reopen_running then s.bt_reopen_counter else s.bt_reopen_counter + 1;
    } in
    reopen_once armed down

abbrev pub answer : BtReply → BtPan → BtPan
answer reply s = record s { replies = s.replies ++ reply ∷ [] }

unfoldable pub bt_step : Bool → BtEvent → BtPan → BtPan
bt_step armed (disconnection_complete h) s = hci_disconnected armed h s
bt_step armed (rssi_measurement h rssi) s = rssi_measured h rssi s
bt_step armed (channel_opened status h) s = opened status h s
bt_step armed channel_closed s = closed armed s
bt_step armed (pin_code_request addr) s = answer (pin_code_response addr bt_legacy_pin) s
bt_step armed (user_confirmation_request addr) s = answer (ssp_confirmation_response addr) s
bt_step armed reopen_fired s = reopen_main s
bt_step armed other_event s = s

unfoldable pub bt_run : List (Bool × BtEvent) → BtPan → BtPan
bt_run [] s = s
bt_run ((armed, e) ∷ es) s = bt_run es (bt_step armed e s)
