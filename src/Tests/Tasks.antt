-- ===== src/Tests/Tasks.antt =====
-- The theorems on the tasks: main/watchdog.c, the hand-over in main/dns_server.c, the driver events of
-- main/wifi_manager.c, and main/device_name.c.
use satura_bridge.Prelude.{
  [], ◌∷◌, ◌++◌, ◌≡◌, ◌+◌, ◌/◌, codes, true, false, refl, some, none, arith, replicate,
}
use satura_bridge.AppState.{boot_state, bridge_no_wifi}
use satura_bridge.Dns.{DnsState, cleared_cache}
use satura_bridge.Dns.Handover.{Server, start, turn, signal, renew, assign, dns_steps}
use satura_bridge.Dns.Takeover.{
  IsOrphaned, rounds, dns_steps-IsOrphaned, replaced, dns_steps-replaced,
}
use satura_bridge.Watchdog.{WatchState, Reading, watchdog_run}
use satura_bridge.Watchdog.Laws.{rounds_run, recoveries, recoveries-watchdog_run}
use satura_bridge.Wifi.State.{disconnected}
use satura_bridge.Wifi.Radio.{deliver, soft_resets, wifi_manager_init, powered_on, sta_disconnected}
use satura_bridge.Wifi.RadioLaws.{deliver-soft_resets}
use satura_bridge.DeviceName.{NameState, device_name_get, device_name_set}
use satura_bridge.DeviceName.Laws.{device_name_get-device_name_set}
use satura_bridge.Storage.{storage_set_str, write_with, commit_and_close}
use satura_bridge.Tests.Flash.{tables, tables-laws, blank}
use satura_bridge.Tests.Radio.{booted}

abbrev serving : DnsState
serving = record {
  cache = cleared_cache;
  dns_task = true;
  dns_last_alive_ms = 5;
  dns_restart_flag = false;
  dns_stuck_count = 1;
}

abbrev lost : WatchState
lost = record {
  shared = record boot_state { current_state = bridge_no_wifi };
  dns = serving;
  wifi_stuck_count = 0;
  calls = [];
}

abbrev reading : Reading
reading = record { free_heap = 60000; ap_rssi = none; now = 6; dns_created = true }

recoveries-watchdog_run_example :
    recoveries (watchdog_run (replicate 23 reading) lost).calls
    ≡ recoveries lost.calls + rounds_run (replicate 23 reading) / 10
recoveries-watchdog_run_example = recoveries-watchdog_run (replicate 23 reading) lost refl refl

abbrev server : Server
server = record {
  dns = serving;
  dns_srv_sock = some 4;
  dns_ext_sock = some 5;
  running = 1 ∷ [];
  closed = [];
}

dns_steps-IsOrphaned_example : IsOrphaned 1 ([] ++ (some 6 ∷ some 7 ∷ [])) (
    dns_steps (rounds 1 ((20000, 30000) ∷ (40000, 41000) ∷ [])) (
      dns_steps
        (signal ∷ (renew 9000 ∷ (start 2 (some 6) (some 7) false ∷ (assign true ∷ []))))
        server))
dns_steps-IsOrphaned_example =
    dns_steps-IsOrphaned 1 2 9000 6 7 ((20000, 30000) ∷ (40000, 41000) ∷ []) server refl
      (λ e. ground arith)
      ((omega arith, omega arith, omega arith), ((omega arith, omega arith, omega arith), tt))

dns_steps-replaced_example :
    (dns_steps
        (signal
          ∷ (turn 1 8000 ∷ (renew 9000 ∷ (start 2 (some 6) (some 7) true ∷ (assign true ∷ [])))))
        server
      ≡ replaced 9000 2 6 7 server)
    × (dns_steps
          (signal
            ∷ (turn 1 8000 ∷ (renew 9000 ∷ (assign true ∷ (start 2 (some 6) (some 7) true ∷ [])))))
          server
        ≡ replaced 9000 2 6 7 server)
dns_steps-replaced_example = dns_steps-replaced 1 2 9000 8000 6 7 server refl

deliver-soft_resets_example :
    deliver sta_disconnected
      (soft_resets ((3, 4) ∷ (5, 6) ∷ []) (wifi_manager_init 1 2 powered_on)).registered
      (some [], booted)
    ≡ (some ([] ++ disconnected ∷ []), booted)
deliver-soft_resets_example = deliver-soft_resets 1 2 ((3, 4) ∷ (5, 6) ∷ []) [] booted (omega arith)

abbrev pub unnamed : NameState
unnamed = record { g_name = []; g_loaded = false }

pub named : (device_name_set tables (codes "Car") (blank, unnamed)).1 ≡ true
unfolding device_name_set storage_set_str write_with commit_and_close
named = refl

device_name_get-device_name_set_example :
    let (g, t) = (device_name_set tables (codes "Car") (blank, unnamed)).0 in
    let restarted : NameState = record { g_name = []; g_loaded = false } in
    ((device_name_get tables 1 2 (g, t)).1 ≡ codes "Car")
    × ((device_name_get tables 1 2 (g, restarted)).1 ≡ codes "Car")
device_name_get-device_name_set_example =
    device_name_get-device_name_set tables tables-laws (codes "Car") blank unnamed 1 2 named
