-- ===== src/Wifi/State.antt =====
-- The types and the state of main/wifi_manager.c, with the calls that the worker task makes.
use satura_bridge.Prelude.{Bool, List, Option, length, take, ℕ, ◌≡◌, ◌≤◌}
use satura_bridge.AppState.{Shared, EventType}
use satura_bridge.Networks.{WifiNetwork}

pub data FsmState : Type 0 where
  idle connecting connected retry_wait recovering : FsmState

-- The address that WEVT_GOT_IP carries is kept as the text that IPSTR prints.
pub data WifiEvt : Type 0 where
  connect_request scan_request forget_request recovery_request disconnected : WifiEvt
  got_ip : List ℕ → WifiEvt

pub data RetryReason : Type 0 where
  no_reason initial_failed lost_connection : RetryReason

-- An RSSI of r dBm is the number r + 128 here and below.
pub record ScanResult : Type 0 where
  pub ssid : List ℕ
  pub rssi : ℕ
  pub saved : Bool

pub record ApRecord : Type 0 where
  pub ssid : List ℕ
  pub rssi : ℕ

-- One slot of `candidate_list` with that of `candidate_rssi`.
pub record Candidate : Type 0 where
  pub network : WifiNetwork
  pub rssi : ℕ

-- What the task asks of the driver and of the event bus. `out_of_bounds` marks a read behind the end
-- of `candidate_list`.
pub data Call : Type 0 where
  set_config : List ℕ → List ℕ → Call
  driver_connect driver_disconnect set_power_save soft_reset out_of_bounds : Call
  publish : EventType → Call

-- What a scan brings: each error path of the driver, no access point, or the records.
pub data ScanOutcome : Type 0 where
  start_failed count_failed no_access_points alloc_failed records_failed : ScanOutcome
  records : List ApRecord → ScanOutcome

-- The answers of the driver while one event is handled, and the sizes of the fields `sta.ssid` and
-- `sta.password` of its `wifi_config_t`.
pub record Driver : Type 0 where
  pub scan : ScanOutcome
  pub ap_rssi : Option ℕ
  pub ssid_size : ℕ
  pub pass_size : ℕ

-- The storage of networks as this module uses it, over the contents `S` of the flash.
pub record NetworkStore (S : Type 0) : Type 0 where
  pub load : S → ℕ → List WifiNetwork
  pub clear : S → S
  pub load_bounds : (s : S) → length (load s 6) ≤ 6
  pub load_prefix : (s : S) (n : ℕ) → load s n ≡ take n (load s 6)

-- `candidate_list` is the whole array, of six slots; `scan_results` its live entries.
pub record Wifi (S : Type 0) : Type 0 where
  pub fsm_state : FsmState
  pub retry_reason : RetryReason
  pub retry_delay_ms : ℕ
  pub candidate_list : List Candidate
  pub candidate_count : ℕ
  pub candidate_index : ℕ
  pub candidate_attempt : ℕ
  pub scan_results : List ScanResult
  pub scan_in_progress : Bool
  pub wifi_ssid : List ℕ
  pub wifi_pass : List ℕ
  pub wifi_ip : List ℕ
  pub next_wait_ms : ℕ
  pub shared : Shared
  pub flash : S
  pub calls : List Call

abbrev pub wifi_retry_base_ms : ℕ
wifi_retry_base_ms = 1000

abbrev pub wifi_retry_max_ms : ℕ
wifi_retry_max_ms = 30000

abbrev pub wifi_full_retry_delay_ms : ℕ
wifi_full_retry_delay_ms = 15000

abbrev pub cand_max_attempts : ℕ
cand_max_attempts = 2

abbrev pub wifi_max_scan_results : ℕ
wifi_max_scan_results = 20

-- A hidden or absent network counts as -127 dBm.
abbrev pub lowest_rssi : ℕ
lowest_rssi = 1
