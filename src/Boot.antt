-- ===== src/Boot.antt =====
-- main/main.c and main/app_bootstrap.c: the start, from the first call to the state in which the events
-- begin. Tasks that are created here run when the start is over.
pub mod Laws
pub mod Restart
pub mod System
use mathlib.Core.Option
use satura_bridge.AppState.{Shared, boot_state, app_state_set, no_wifi, EventType, bt_connected}
use satura_bridge.Chip.{
  FlashInit, Partition, app_main_flash, btstack_flash, uptime_init, DhcpConfig, dhcp_config,
  must_erase, is_ok, uptime_seconds, DhcpEntry, flash_ok,
}
use satura_bridge.Board.{Board}
use satura_bridge.Bridge.{Bridge, bt_pan_link, wifi_uplink_link, nat_bridge_update, settle_handler}
use satura_bridge.BtPan.{BtPan}
use satura_bridge.BtPan.Setup.{BtCall, bt_pan_init, bt_pan_start}
use satura_bridge.Clipboard.{ClipBlob, ClipStore, clipboard_init}
use satura_bridge.DeviceName.{NameState, device_name_init}
use satura_bridge.Dns.{DnsState, cleared_cache}
use satura_bridge.Dns.Handover.{Server, dns_server_start}
use satura_bridge.Links.{
  LinkIface, event_bus_subscribe, nat_bridge_subscribe, link_registry_register,
}
use satura_bridge.Links.Netif.{Ip4, gateway}
use satura_bridge.Prelude.{
  Bool, List, Option, ℕ, [], codes, false, true, none, some, replicate, if◌then◌else◌, ◌+◌, ◌-◌,
  ◌/◌, ◌%◌, ◌^◌, ◌++◌, ◌∷◌, map,
}
use satura_bridge.Storage.{Nvs}
use satura_bridge.Wifi.Flash.{flash_networks}
use satura_bridge.Wifi.Inbox.{Settle, wifi_post_evt}
use satura_bridge.Wifi.Machine.{has_credentials}
use satura_bridge.Wifi.Radio.{Radio, powered_on, wifi_manager_init}
use satura_bridge.Wifi.State.{
  Candidate, Wifi, WifiEvt, idle, no_reason, connect_request, wifi_retry_base_ms, lowest_rssi,
}
use satura_bridge.Networks.{WifiNetwork}

-- What the rest of the chip answers during the start: the board's drivers, the clock, the numbers of the
-- two handler registrations, the end of the Bluetooth address, whether the queue and the DNS task could
-- be created, and the stored clipboard.
pub record Answers (W : Type 0) : Type 0 where
  pub drivers : W
  pub now_us : ℕ
  pub wifi_instance : ℕ
  pub ip_instance : ℕ
  pub mac4 : ℕ
  pub mac5 : ℕ
  pub queue_created : Bool
  pub dns_created : Bool
  pub clip_read : Option ClipBlob

-- The modules after the start. `handlers` and `links` are the tables of the bus and of the registry.
pub record Started (F W B : Type 0) : Type 0 where
  pub board : B
  pub boot_us : ℕ
  pub bridge : Bridge F
  pub radio : Radio
  pub handlers : EventType → List (Bridge F → Bridge F)
  pub links : List (LinkIface (Bridge F))
  pub dhcp : DhcpConfig
  pub dns : Server
  pub clip : ClipStore
  pub name : NameState
  pub bt_calls : List BtCall

-- The variables of wifi_manager.c before anything ran. A slot that was never written is all zeros.
abbrev pub empty_slot : Candidate
empty_slot = record { network = record { ssid = []; pass = []; hidden = false }; rssi = 128 }

abbrev pub initial_wifi : {F : Type 0} → Shared → F → Wifi F
initial_wifi shared flash = record {
  fsm_state = idle;
  retry_reason = no_reason;
  retry_delay_ms = wifi_retry_base_ms;
  candidate_list = replicate 6 empty_slot;
  candidate_count = 0;
  candidate_index = 0;
  candidate_attempt = 0;
  scan_results = [];
  scan_in_progress = false;
  wifi_ssid = [];
  wifi_pass = [];
  wifi_ip = codes "--";
  next_wait_ms = 0;
  shared = shared;
  flash = flash;
  calls = [];
}

-- Those of bt_pan.c, with what the stack is told at the end of the set-up.
abbrev pub initial_bt : Shared → BtPan
initial_bt shared = record {
  shared = shared;
  bt_handle = none;
  bt_reopen_running = false;
  bt_reopen_counter = 0;
  timers = 0;
  visible = true;
  events = [];
  dropped = 0;
  replies = [];
}

abbrev pub initial_dns : Server
initial_dns = record {
  dns = record {
    cache = cleared_cache;
    dns_task = false;
    dns_last_alive_ms = 0;
    dns_restart_flag = false;
    dns_stuck_count = 0;
  };
  dns_srv_sock = none;
  dns_ext_sock = none;
  running = [];
  closed = [];
}

-- `xQueueCreate` leaves a null pointer where it fails.
abbrev pub created_queue : Bool → Option (List WifiEvt)
created_queue created = if created then some [] else none

module _ {F : Type 0} (nvs : Nvs F) (stack : List ℕ) where
  -- Either a connection is asked for at once, or the state says that there is no network.
  unfoldable pub first_connect : Option (List WifiEvt) × Wifi F → Option (List WifiEvt) × Wifi F
  unfolding has_credentials wifi_post_evt app_state_set
  first_connect (queue, w) =
      if has_credentials (flash_networks nvs stack) w
      then wifi_post_evt connect_request (queue, w)
      else (queue, record w { shared = app_state_set w.shared no_wifi })

module _ {F W B : Type 0} (nvs : Nvs F) (stack : List ℕ) (board : Board W B) where
  -- `btstack_main` behind the second `nvs_flash_init`, with the queue that was created and the flash.
  unfoldable pub start_services : Answers W → B → Option (List WifiEvt) → F → Started F W B
  unfolding first_connect event_bus_subscribe nat_bridge_subscribe link_registry_register
      wifi_manager_init device_name_init bt_pan_init dns_server_start clipboard_init settle_handler
  start_services a b queue ready =
      let (posted, wifi) = first_connect nvs stack (queue, initial_wifi boot_state ready) in
      let named =
        device_name_init nvs a.mac4 a.mac5 (ready, record { g_name = []; g_loaded = false }) in
      let ((flash, name), calls) = bt_pan_init nvs a.mac4 a.mac5 named in
      record {
        board = board.board_init a.drivers b;
        boot_us = uptime_init a.now_us;
        bridge = record {
          bt = initial_bt wifi.shared;
          wifi = record wifi { flash = flash };
          settle = record { running = false; tasks = 0 };
          queue = posted;
          created = true;
          callbacks = 0;
          netif_list = [];
          sta_ip = none;
          cached_netif = none;
          napt = λ n. false;
        };
        radio = wifi_manager_init a.wifi_instance a.ip_instance powered_on;
        handlers =
            event_bus_subscribe bt_connected (settle_handler (flash_networks nvs stack))
              (nat_bridge_subscribe nat_bridge_update (λ t. []));
        links =
            link_registry_register (some bt_pan_link)
              (link_registry_register (some wifi_uplink_link) []);
        dhcp = dhcp_config;
        dns = dns_server_start (a.now_us / 1000 % 2 ^ 32) a.dns_created initial_dns;
        clip = clipboard_init a.clip_read;
        name = name;
        bt_calls = calls ++ bt_pan_start;
      }

module _ {F W B : Type 0} (p : Partition F) (nvs : Nvs F) (stack : List ℕ) (board : Board W B) where
  unfoldable pub btstack_main : Answers W → B → F → Started F W B
  unfolding btstack_flash start_services
  btstack_main a b f =
      start_services nvs stack board a b (created_queue a.queue_created) (btstack_flash p f)

  -- The power is held before anything else; `none` is the abort.
  unfoldable pub app_main : Answers W → B → F → Option (Started F W B)
  unfolding app_main_flash btstack_main
  app_main a b f = Option.map (btstack_main a (board.board_power_hold b)) (app_main_flash p f)
