-- ===== src/Tests/System.antt =====
-- The theorems on the boards, the start, and the whole bridge.
use satura_bridge.AppState.{bt_connected, boot_state, wait_bt, bridge, bridge_no_wifi, no_wifi}
use satura_bridge.Board.Core2.{Axp192, Core2, core2}
use satura_bridge.Board.Laws.{core2_reading, plus_two_reading, plus_two_voltage}
use satura_bridge.Board.PlusTwo.{Adc, PlusTwo, plus_two}
use satura_bridge.Board.Tables.{core2_percent, plus_two_percent}
use satura_bridge.Board.Core2
use satura_bridge.Board.PlusTwo
use satura_bridge.Boot.{initial_bt, initial_wifi, Answers, app_main, btstack_main}
use satura_bridge.Boot.Laws.{wired_handlers, IsReady, btstack_main-IsReady}
use satura_bridge.Boot.Restart.{names_told, reboot_connects, reboot_name}
use satura_bridge.Boot.System.{system_run}
use satura_bridge.Bridge.{
  Bridge, BridgeEvent, bluetooth, bridge_run, wifi_uplink_link, bt_pan_link, interfaces,
  lwip_callback, radio, scan_asked, worker,
}
use satura_bridge.Bridge.Nat.{HasBridge, IsInSync, IsWired, KeepsBridge}
use satura_bridge.Bridge.Parts.{IsOrderly, IsOrdinary}
use satura_bridge.Bridge.Service.{bridge_serves, settled_nat, HasNat}
use satura_bridge.Bridge.Arrivals.{arrivals}
use satura_bridge.Wifi.Machine.{has_credentials}
use satura_bridge.BtPan.{channel_opened}
use satura_bridge.BtPan.Netif.{IsOnePoll, PollStep, poll_run, poll_run-IsOnePoll, polled, requested}
use satura_bridge.Chip.{
  Partition, app_main_flash, btstack_flash, flash_ok, is_ok, must_erase, no_free_pages,
}
use satura_bridge.Chip.Laws.{flash_erased_once}
use satura_bridge.DeviceName.{device_name_set}
use satura_bridge.Links.Netif.{Netif, find_netif, gateway}
use satura_bridge.Networks.{nvs_storage_save_networks}
use satura_bridge.Prelude.{
  All, Bool, List, ℕ, [], codes, decimal, ◌++◌, false, none, some, true, ◌%◌, ◌*◌, ◌+◌, ◌/◌, ◌∷◌,
  ◌≡◌, ◌≤◌, ◌⊎◌, refl, arith, if◌then◌else◌,
}
use satura_bridge.Routes.Battery.{IsByte, charging_words, battery_shown, battery_shown-core2}
use mathlib.Core.Option.{some-injective}
use satura_bridge.Tests.Flash.{Tables, blank, home, tables, tables-laws, home-IsNetwork, saved}
use satura_bridge.Tests.Tasks.{named, unnamed}
use satura_bridge.Wifi.Flash.{flash_networks}
use satura_bridge.Wifi.Radio.{sta_disconnected}
use satura_bridge.Wifi.State.{NetworkStore, connecting, Driver, connect_request, no_access_points}

-- A battery of 4.0 V on the Core2, and one of 3.9 V on the Plus2.
abbrev full : Axp192
full = record {
  bus_ready = true;
  device_added = true;
  voltage_bytes = some (227, 4);
  status_byte = some 4;
}

abbrev off : Core2
off = record { bus = false; dev = false }

core2_reading_example :
    let ready = Core2.board_init full off in
    let mv = (227 * 16 + 4 % 16) * 11 / 10 in
    (Core2.board_get_battery_voltage_mv full ready ≡ some mv)
    × (Core2.board_get_battery_percent full ready ≡ some (core2_percent mv))
core2_reading_example = core2_reading full full off 227 4 refl refl refl (omega arith)

abbrev half : Adc
half = record {
  unit_ready = true;
  cali_ready = true;
  raw = some 2500;
  raw_to_voltage = λ raw. some 1950;
}

abbrev dark : PlusTwo
dark = record { adc_handle = false; cali_ok = false; held = false }

plus_two_reading_example :
    let ready = PlusTwo.board_init half dark in
    let mv = plus_two_voltage true (some 1950) 2500 in
    (PlusTwo.board_get_battery_voltage_mv half ready ≡ some mv)
    × (PlusTwo.board_get_battery_percent half ready ≡ some (PlusTwo.percent_of mv))
    × (PlusTwo.percent_of mv ≤ plus_two_percent mv)
    × (plus_two_percent mv ≤ PlusTwo.percent_of mv + 1)
plus_two_reading_example =
    plus_two_reading half half dark 2500 refl refl (omega arith) (λ mv e. ground arith)

status-IsByte : IsByte full.status_byte
unfolding IsByte
status-IsByte n e = ground (arith, some-injective _ _ e)

battery_shown-core2_example :
    let ready = Core2.board_init full off in
    let percent = core2_percent ((227 * 16 + 4 % 16) * 11 / 10) in
    (battery_shown core2 full ready
      ≡ codes "<br><b>Battery:</b> "
        ++ (decimal percent ++ (b'%' ∷ charging_words full.status_byte)))
    × (battery_shown core2 (record full { voltage_bytes = none }) ready ≡ [])
battery_shown-core2_example =
    battery_shown-core2 full full off 227 4 refl refl refl (omega arith) status-IsByte

-- A partition that is worn out until it is erased, and one that is in order.
abbrev worn : Partition Bool
worn = record {
  nvs_flash_init = λ f. if f then no_free_pages else flash_ok;
  nvs_flash_erase = λ f. (false, true);
}

flash_erased_once_example :
    (((false ≡ true) × (must_erase (worn.nvs_flash_init true) ≡ false))
      ⊎ ((false ≡ (worn.nvs_flash_erase true).0)
          × (must_erase (worn.nvs_flash_init true) ≡ true)
          × (is_ok (worn.nvs_flash_init false) ≡ true)))
    × (btstack_flash worn false ≡ false)
flash_erased_once_example = flash_erased_once worn true false (unfold app_main_flash in refl)

abbrev sound : Partition Tables
sound = record { nvs_flash_init = λ f. flash_ok; nvs_flash_erase = λ f. (blank, true) }

abbrev answers : Answers Adc
answers = record {
  drivers = half;
  now_us = 900000;
  wifi_instance = 1;
  ip_instance = 2;
  mac4 = 171;
  mac5 = 205;
  queue_created = true;
  dns_created = true;
  clip_read = none;
}

btstack_main-IsReady_example :
    let s = btstack_main sound tables [] plus_two answers dark blank in
    IsReady (flash_networks tables []) s.bridge
    × (s.handlers bt_connected ≡ wired_handlers (flash_networks tables []) bt_connected)
    × (s.links ≡ wifi_uplink_link ∷ bt_pan_link ∷ [])
btstack_main-IsReady_example =
    btstack_main-IsReady sound tables [] plus_two answers dark blank bt_connected

reboot_connects_example :
    let g = (nvs_storage_save_networks tables blank (home ∷ [])).0 in
    let s = btstack_main sound tables [] plus_two answers (plus_two.board_power_hold dark) g in
    (app_main sound tables [] plus_two answers dark g ≡ some s)
    × (s.bridge.queue ≡ some (connect_request ∷ []))
    × (s.bridge.bt.shared.current_state ≡ wait_bt)
reboot_connects_example =
    reboot_connects sound tables [] plus_two answers dark tables-laws blank (home ∷ [])
      (home-IsNetwork, tt) saved refl refl

reboot_name_example :
    let g = (device_name_set tables (codes "Car") (blank, unnamed)).0.0 in
    names_told (btstack_main sound tables [] plus_two answers dark g).bt_calls
    ≡ codes "Car" ∷ codes "Car" ∷ []
reboot_name_example =
    reboot_name sound tables [] plus_two answers dark tables-laws (codes "Car") blank unnamed named
      refl

-- An interface of the bridge's own subnet, and a phone that connects while no network is in reach.
abbrev interface : Netif
interface = record { number = 3; ip = gateway }

abbrev silent : Driver
silent = record { scan = no_access_points; ap_rssi = none; ssid_size = 32; pass_size = 64 }

abbrev events : List (BridgeEvent Tables)
events =
    bluetooth true true (channel_opened 0 64)
    ∷ lwip_callback
    ∷ scan_asked
    ∷ radio sta_disconnected
    ∷ worker silent
    ∷ []

has_interface : HasBridge (interface ∷ [])
unfolding HasBridge find_netif
has_interface = (3, refl)

keeps_interface : All KeepsBridge events
unfolding KeepsBridge
keeps_interface = (refl, (refl, (refl, (refl, (refl, tt)))))

system_run_example :
    let b' =
      bridge_run
        (flash_networks tables [])
        (interfaces (interface ∷ []) none ∷ events)
        (btstack_main sound tables [] plus_two answers dark blank).bridge in
    IsInSync b' × (All IsOrdinary events → IsOrderly b')
system_run_example =
    system_run sound tables [] plus_two answers dark blank (interface ∷ []) none events
      has_interface keeps_interface

-- The worker has been told to connect, and no phone is there yet.
abbrev waiting : Bridge Tables
waiting = record {
  bt = initial_bt boot_state;
  wifi = record (initial_wifi boot_state blank) { fsm_state = connecting };
  settle = record { running = false; tasks = 0 };
  queue = some [];
  created = true;
  callbacks = 0;
  netif_list = interface ∷ [];
  sta_ip = none;
  cached_netif = none;
  napt = λ n. false;
}

waiting-IsWired : IsWired waiting
unfolding IsInSync
waiting-IsWired = record { has_bridge = has_interface; in_sync = λ done up. absurd cc }

abbrev home_store : NetworkStore Tables
home_store = flash_networks tables []

abbrev while_up : Bridge Tables
while_up =
    settled_nat home_store
      (bridge_run home_store (arrivals true true true 64 (codes "10.0.0.9") silent) waiting)

abbrev after_loss : Bridge Tables
after_loss =
    settled_nat home_store
      (bridge_run home_store (radio sta_disconnected ∷ worker silent ∷ []) while_up)

bridge_serves_example :
    (n : ℕ) × (while_up.bt.shared.current_state ≡ bridge)
    × HasNat n true while_up
    × (after_loss.bt.shared.current_state
        ≡ (if has_credentials home_store while_up.wifi then bridge_no_wifi else no_wifi))
    × HasNat n false after_loss
bridge_serves_example =
    bridge_serves home_store true true true 64 (codes "10.0.0.9") silent silent waiting
      waiting-IsWired refl refl refl

abbrev polls : List PollStep
polls = requested ∷ requested ∷ polled (some 64) ∷ requested ∷ []

poll_run-IsOnePoll_example :
    IsOnePoll (poll_run polls (record { rssi_poll_pending = false; queued = 0; asked = [] }))
poll_run-IsOnePoll_example =
    poll_run-IsOnePoll polls (record { rssi_poll_pending = false; queued = 0; asked = [] })
      (unfold IsOnePoll in refl)
