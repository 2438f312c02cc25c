-- ===== src/Wifi/Candidates.antt =====
-- build_candidate_list of main/wifi_manager.c: the saved networks worth an attempt, strongest first.
use satura_bridge.Prelude.{
  List, Option, [], drop, if◌then◌else◌, length, ltb, none, reverse, some, strcmp_eq, ℕ, ◌++◌, ◌∷◌,
}
use satura_bridge.Networks.{WifiNetwork}
use satura_bridge.Wifi.State.{Wifi, ScanResult, Candidate, NetworkStore, lowest_rssi}

-- The strongest result with this SSID, from the best so far; `none` while none is visible.
unfoldable pub best_rssi : List ℕ → Option ℕ → List ScanResult → Option ℕ
best_rssi ssid best [] = best
best_rssi ssid best (r ∷ rs) =
    best_rssi ssid
      (if strcmp_eq ssid r.ssid
        then some (elim best [
          | none ↦ (if ltb lowest_rssi r.rssi then r.rssi else lowest_rssi)
          | some b ↦ (if ltb b r.rssi then r.rssi else b)
        ])
        else best)
      rs

unfoldable pub as_candidate : WifiNetwork → Option ℕ → List Candidate
as_candidate n (some rssi) = record { network = n; rssi = rssi } ∷ []
as_candidate n none = if n.hidden then record { network = n; rssi = lowest_rssi } ∷ [] else []

unfoldable pub select_candidates : List ScanResult → List WifiNetwork → List Candidate
unfolding as_candidate best_rssi
select_candidates rs [] = []
select_candidates rs (n ∷ ns) = as_candidate n (best_rssi n.ssid none rs) ++ select_candidates rs ns

-- The inner loop of the insertion sort, over the sorted part of the array read from its end: slots
-- with a weaker signal move up by one, and the key goes behind the first that is not weaker.
unfoldable pub shift_in : Candidate → List Candidate → List Candidate
shift_in key [] = key ∷ []
shift_in key (x ∷ xs) = if ltb x.rssi key.rssi then x ∷ shift_in key xs else key ∷ x ∷ xs

-- The outer loop: `sorted` is the part of the array below `i`, from its end.
unfoldable pub insertion_sort : List Candidate → List Candidate → List Candidate
unfolding shift_in
insertion_sort sorted [] = reverse sorted
insertion_sort sorted (key ∷ rest) = insertion_sort (shift_in key sorted) rest

module _ {S : Type 0} (store : NetworkStore S) where
  -- The slots behind the candidates keep what they held.
  unfoldable pub build_candidate_list : Wifi S → Wifi S
  unfolding select_candidates insertion_sort
  build_candidate_list w =
      let chosen = insertion_sort [] (select_candidates w.scan_results (store.load w.flash 6)) in
      record w {
        candidate_list = chosen ++ drop (length chosen) w.candidate_list;
        candidate_count = length chosen;
        candidate_index = 0;
      }
