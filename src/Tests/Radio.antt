-- ===== src/Tests/Radio.antt =====
-- The theorems on main/wifi_manager.c, over a flash that is the list of the saved networks.
use satura_bridge.Wifi.Recovery.{in_reach}
use satura_bridge.Wifi.Invariant.{worker_run-IsSteady}
use satura_bridge.AppState.{boot_state}
use satura_bridge.Wifi.Cycle.{
  IsExhausted, failures, attempts_left, connects, worker_run-IsExhausted,
}
use satura_bridge.Wifi.Ranking.{IsBuilt, build_candidate_list-IsBuilt}
use satura_bridge.Wifi.ScanLaws.{count_result, run_blocking_scan_unique}
use satura_bridge.Wifi.Scan.{
  run_blocking_scan, store_records, store_record, merge_duplicate, is_saved,
}
use satura_bridge.Wifi.Steady.{IsSteady, all_in_bounds}
use satura_bridge.Prelude.{
  List, [], ap, arith, codes, false, length, length-take, none, refl, replicate, some, sym, take,
  take-all, true, ℕ, ◌+◌, ◌-◌, ◌<◌, ◌∷◌, ◌≡◌, ◌≤◌, strcmp_eq,
}
use satura_bridge.Networks.{WifiNetwork}
use satura_bridge.Wifi.State.{
  Wifi, NetworkStore, Driver, Candidate, ApRecord, idle, connecting, connected, no_access_points,
  connect_request, no_reason, records,
}
use satura_bridge.Wifi.Machine.{worker_run, has_credentials, set_app}
use satura_bridge.Wifi.Candidates.{build_candidate_list}
use satura_bridge.Wifi.Inbox.{Settle}

abbrev home : WifiNetwork
home = record { ssid = codes "home"; pass = codes "pw"; hidden = false }

abbrev networks : NetworkStore (List WifiNetwork)
networks = record {
  load = λ s n. take n (take 6 s);
  clear = λ s. [];
  load_bounds = λ s. omega (arith, length-take 6 (take 6 s), length-take 6 s);
  load_prefix = λ s n. sym (ap (take n) (take-all 6 (take 6 s) (omega (arith, length-take 6 s))));
}

abbrev pub slot : Candidate
slot = record { network = home; rssi = 60 }

-- A board that has just booted with one saved network.
abbrev pub booted : Wifi (List WifiNetwork)
booted = record {
  fsm_state = idle;
  retry_reason = no_reason;
  retry_delay_ms = 1000;
  candidate_list = replicate 6 slot;
  candidate_count = 0;
  candidate_index = 0;
  candidate_attempt = 0;
  scan_results = [];
  scan_in_progress = false;
  wifi_ssid = [];
  wifi_pass = [];
  wifi_ip = codes "--";
  next_wait_ms = 0;
  shared = boot_state;
  flash = home ∷ [];
  calls = [];
}

-- The last attempt at the last of six candidates.
abbrev last_try : Wifi (List WifiNetwork)
last_try = record booted {
  fsm_state = connecting;
  candidate_count = 6;
  candidate_index = 5;
  candidate_attempt = 1;
}

abbrev online : Wifi (List WifiNetwork)
online = record booted {
  fsm_state = connected;
  candidate_count = 1;
  shared = record boot_state { wifi_link = true };
}

abbrev silent : Driver
silent = record { scan = no_access_points; ap_rssi = none; ssid_size = 32; pass_size = 64 }

abbrev seen : List ApRecord
seen = record { ssid = codes "home"; rssi = 60 } ∷ record { ssid = codes "home"; rssi = 70 } ∷ []

booted-IsSteady : IsSteady booted
unfolding all_in_bounds
booted-IsSteady = record {
  slots = refl;
  live = omega arith;
  in_range = λ e. cc;
  attempts = omega arith;
  in_bounds = refl;
  delay_low = omega arith;
  delay_high = omega arith;
  settled = λ e. cc;
  idle_waits = λ e. refl;
  linked = λ e. cc;
  unlinked = λ e. cc;
}

last_try-IsSteady : IsSteady last_try
unfolding all_in_bounds
last_try-IsSteady = record {
  slots = refl;
  live = omega arith;
  in_range = λ e. omega arith;
  attempts = omega arith;
  in_bounds = refl;
  delay_low = omega arith;
  delay_high = omega arith;
  settled = λ e. cc;
  idle_waits = λ e. refl;
  linked = λ e. cc;
  unlinked = λ e. cc;
}

online-IsSteady : IsSteady online
unfolding all_in_bounds
online-IsSteady = record {
  slots = refl;
  live = omega arith;
  in_range = λ e. cc;
  attempts = omega arith;
  in_bounds = refl;
  delay_low = omega arith;
  delay_high = omega arith;
  settled = λ e. cc;
  idle_waits = λ e. refl;
  linked = λ e. refl;
  unlinked = λ e. refl;
}

has_saved : has_credentials networks booted ≡ true
unfolding has_credentials
has_saved = refl

none_seen : in_reach networks silent booted ≡ []
unfolding run_blocking_scan set_app
none_seen = refl

run_blocking_scan_unique_example :
    let t = run_blocking_scan networks booted (records seen) in
    (t.scan_in_progress ≡ false)
    × (length t.scan_results ≤ 20)
    × ((j : List ℕ) → count_result j t.scan_results ≤ 1)
run_blocking_scan_unique_example =
    run_blocking_scan_unique networks booted seen (omega arith, (omega arith, tt))

room : length (run_blocking_scan networks booted (records seen)).scan_results < 20
unfolding run_blocking_scan store_records store_record merge_duplicate is_saved strcmp_eq
room = omega arith

build_candidate_list-IsBuilt_example :
    IsBuilt networks booted (build_candidate_list networks booted)
build_candidate_list-IsBuilt_example = build_candidate_list-IsBuilt networks booted refl

worker_run-IsSteady_example :
    IsSteady (worker_run networks ((some connect_request, silent) ∷ (none, silent) ∷ []) booted)
worker_run-IsSteady_example =
    worker_run-IsSteady networks ((some connect_request, silent) ∷ (none, silent) ∷ []) booted
      ((λ e. cc), ((λ e. cc), tt)) booted-IsSteady

worker_run-IsExhausted_example :
    IsExhausted
      (worker_run networks (failures networks silent (attempts_left last_try)) last_try)
      (connects last_try.calls + (attempts_left last_try - 1))
worker_run-IsExhausted_example =
    worker_run-IsExhausted networks silent last_try refl last_try-IsSteady

abbrev no_task : Settle
no_task = record { running = false; tasks = 0 }
