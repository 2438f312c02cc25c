-- ===== src/AppState.antt =====
-- main/app_state.c and the enum of main/app_state.h: the state that all tasks share, and the events
-- that its setters publish. Each critical section is one step of the model.
pub mod Changes
use satura_bridge.Prelude.{Bool, List, codes, false, ℕ, [], if◌then◌else◌, ◌==◌, ◌∷◌}
use mathlib.Core.Bool.{xor}

pub data AppState : Type 0 where
  wait_bt no_wifi wifi_connecting wifi_failed bridge bridge_no_wifi : AppState

-- The number of the enum constant, by which C compares.
unfoldable pub state_number : AppState → ℕ
state_number wait_bt = 0
state_number no_wifi = 1
state_number wifi_connecting = 2
state_number wifi_failed = 3
state_number bridge = 4
state_number bridge_no_wifi = 5

unfoldable pub same_state : AppState → AppState → Bool
unfolding state_number
same_state a b = state_number a == state_number b

-- main/event_bus.h.
pub data EventType : Type 0 where
  wifi_connected wifi_disconnected bt_connected bt_disconnected : EventType
  downlink_up downlink_down uplink_up uplink_down : EventType

-- The shared variables. An `int8_t` RSSI of r dBm is the number r + 128, which keeps the order.
pub record Shared : Type 0 where
  pub current_state : AppState
  pub bt_link : Bool
  pub wifi_link : Bool
  pub bt_rssi : ℕ
  pub wifi_rssi : ℕ

abbrev pub boot_state : Shared
boot_state = record {
  current_state = wait_bt;
  bt_link = false;
  wifi_link = false;
  bt_rssi = 28;
  wifi_rssi = 28;
}

unfoldable pub app_state_to_str : AppState → List ℕ
app_state_to_str wait_bt = codes "WAIT_BT"
app_state_to_str no_wifi = codes "NO_WIFI"
app_state_to_str wifi_connecting = codes "WIFI_CONN"
app_state_to_str wifi_failed = codes "WIFI_FAIL"
app_state_to_str bridge = codes "BRIDGE_ACTIVE"
app_state_to_str bridge_no_wifi = codes "BRIDGE_LOST_WIFI"

unfoldable pub app_state_set : Shared → AppState → Shared
unfolding same_state
app_state_set s new_state =
    if same_state s.current_state new_state then s else record s { current_state = new_state }

-- The two setters of a connection flag publish an event if the flag changed.
unfoldable pub set_bt_connected : Shared → Bool → Shared × List EventType
set_bt_connected s connected = (
  record s { bt_link = connected },
  if xor s.bt_link connected
      then (if connected then bt_connected else bt_disconnected) ∷ []
      else [],
)

unfoldable pub set_wifi_connected : Shared → Bool → Shared × List EventType
set_wifi_connected s connected = (
  record s { wifi_link = connected },
  if xor s.wifi_link connected
      then (if connected then wifi_connected else wifi_disconnected) ∷ []
      else [],
)

abbrev pub set_bt_rssi : Shared → ℕ → Shared
set_bt_rssi s rssi = record s { bt_rssi = rssi }

abbrev pub set_wifi_rssi : Shared → ℕ → Shared
set_wifi_rssi s rssi = record s { wifi_rssi = rssi }
