-- ===== src/Wifi/Scan.antt =====
-- run_blocking_scan_and_store_results of main/wifi_manager.c: the driver's records become at most
-- twenty results, one for each SSID, with the strongest signal seen.
use satura_bridge.Prelude.{
  Bool, List, Option, [], ap, false, if◌then◌else◌, leb, length, ltb, none, some, strcmp_eq, take,
  ℕ, ◌++◌, ◌||◌, ◌∷◌,
}
use satura_bridge.Networks.{WifiNetwork}
use satura_bridge.Wifi.State.{
  Wifi, ScanResult, ApRecord, ScanOutcome, start_failed, count_failed, no_access_points,
  alloc_failed, records_failed, records, NetworkStore, wifi_max_scan_results,
}

-- The inner loop over the results: the first one with this SSID takes the stronger signal.
unfoldable pub merge_duplicate : List ℕ → ℕ → List ScanResult → Option (List ScanResult)
merge_duplicate ssid rssi [] = none
merge_duplicate ssid rssi (r ∷ rs) =
    if strcmp_eq r.ssid ssid
    then some ((if ltb r.rssi rssi then record r { rssi = rssi } else r) ∷ rs)
    else elim (merge_duplicate ssid rssi rs) [ some ms ↦ some (r ∷ ms) | none ↦ none ]

unfoldable pub is_saved : List ℕ → List WifiNetwork → Bool
is_saved ssid [] = false
is_saved ssid (n ∷ ns) = strcmp_eq n.ssid ssid || is_saved ssid ns

-- One round of the outer loop; a full table ends it, so later rounds change nothing.
unfoldable pub store_record : List WifiNetwork → List ScanResult → ApRecord → List ScanResult
unfolding merge_duplicate is_saved
store_record saved rs ap =
    if leb wifi_max_scan_results (length rs)
    then rs
    else elim (merge_duplicate ap.ssid ap.rssi rs) [
      | some ms ↦ ms
      | none ↦
          rs
          ++ record { ssid = take 32 ap.ssid; rssi = ap.rssi; saved = is_saved ap.ssid saved } ∷ []
    ]

unfoldable pub store_records : List WifiNetwork → List ScanResult → List ApRecord → List ScanResult
store_records saved rs [] = rs
store_records saved rs (ap ∷ aps) = store_records saved (store_record saved rs ap) aps

module _ {S : Type 0} (store : NetworkStore S) where
  unfoldable pub run_blocking_scan : Wifi S → ScanOutcome → Wifi S
  run_blocking_scan w start_failed = record w { scan_in_progress = false }
  run_blocking_scan w count_failed = record w { scan_in_progress = false }
  run_blocking_scan w no_access_points = record w { scan_results = []; scan_in_progress = false }
  run_blocking_scan w alloc_failed = record w { scan_in_progress = false }
  run_blocking_scan w records_failed = record w { scan_in_progress = false }
  run_blocking_scan w (records aps) = record w {
    scan_results = store_records (store.load w.flash 6) [] (take 32 aps);
    scan_in_progress = false;
  }
