-- ===== src/Watchdog.antt =====
-- main/watchdog.c: one round of the loop of `watchdog_task`. The readings of the heap, of the driver and of
-- the clock are arguments; the logging and the stack reading change nothing.
pub mod Laws
use satura_bridge.Prelude.{
  Bool, List, Option, [], if◌then◌else◌, leb, ltb, none, some, ℕ, ◌&&◌, ◌++◌, ◌+◌, ◌∷◌,
}
use satura_bridge.AppState.{Shared, set_wifi_rssi, same_state, bridge_no_wifi}
use satura_bridge.Dns.{DnsState, dns_server_watchdog_tick, u32}

abbrev pub heap_reboot_threshold : ℕ
heap_reboot_threshold = 8192

-- What the task asks of the other components.
pub data WatchCall : Type 0 where
  rssi_poll schedule_recovery restart : WatchCall

pub record WatchState : Type 0 where
  pub shared : Shared
  pub dns : DnsState
  pub wifi_stuck_count : ℕ
  pub calls : List WatchCall

pub record Reading : Type 0 where
  pub free_heap : ℕ
  pub ap_rssi : Option ℕ
  pub now : ℕ
  pub dns_created : Bool

abbrev pub is_stuck : WatchState → Bool
is_stuck s = same_state s.shared.current_state bridge_no_wifi

-- The RSSI is stored only when the driver answers.
unfoldable pub poll_rssi : Option ℕ → Shared → Shared
poll_rssi (some rssi) s = set_wifi_rssi s rssi
poll_rssi none s = s

unfoldable pub watchdog_round : Reading → WatchState → WatchState
watchdog_round r s =
    let count = u32 (s.wifi_stuck_count + 1) in
    let recover = is_stuck s && leb 10 count in
    record {
      shared = poll_rssi r.ap_rssi s.shared;
      dns = dns_server_watchdog_tick r.now r.dns_created s.dns;
      wifi_stuck_count = if is_stuck s then (if recover then 0 else count) else 0;
      calls =
          s.calls
          ++ rssi_poll
            ∷ ((if recover then schedule_recovery ∷ [] else [])
                ++ (if ltb r.free_heap heap_reboot_threshold then restart ∷ [] else []));
    }

-- `esp_restart` does not return.
abbrev pub restarts : Reading → Bool
restarts r = ltb r.free_heap heap_reboot_threshold

unfoldable pub watchdog_run : List Reading → WatchState → WatchState
watchdog_run [] s = s
watchdog_run (r ∷ rs) s =
    let after = watchdog_round r s in
    let rest = watchdog_run rs after in if restarts r then after else rest
