-- ===== src/Chip.antt =====
-- main/main.c, main/uptime.c and the constants of main/app_bootstrap.c: the flash at the start, the clock of
-- the pages, and the addresses that phones are given.
pub mod Laws
use mathlib.Core.Option
use satura_bridge.AppState.{Shared, boot_state, app_state_set, no_wifi, EventType, bt_connected}
use satura_bridge.Board.{Board}
use satura_bridge.Bridge.{Bridge, bt_pan_link, wifi_uplink_link, nat_bridge_update, settle_handler}
use satura_bridge.BtPan.{BtPan}
use satura_bridge.BtPan.Setup.{BtCall, bt_pan_init, bt_pan_start}
use satura_bridge.Clipboard.{ClipBlob, ClipStore, clipboard_init}
use satura_bridge.DeviceName.{NameState, device_name_init}
use satura_bridge.Dns.{DnsState, cleared_cache}
use satura_bridge.Dns.Handover.{Server, dns_server_start}
use satura_bridge.Links.{
  LinkIface, event_bus_subscribe, nat_bridge_subscribe, link_registry_register,
}
use satura_bridge.Links.Netif.{Ip4, gateway}
use satura_bridge.Prelude.{
  Bool, List, Option, ℕ, [], codes, false, true, none, some, replicate, if◌then◌else◌, ◌+◌, ◌-◌,
  ◌/◌, ◌%◌, ◌^◌, ◌++◌, ◌∷◌, map,
}
use satura_bridge.Storage.{Nvs}
use satura_bridge.Wifi.Flash.{flash_networks}
use satura_bridge.Wifi.Inbox.{Settle, wifi_post_evt}
use satura_bridge.Wifi.Machine.{has_credentials}
use satura_bridge.Wifi.Radio.{Radio, powered_on, wifi_manager_init}
use satura_bridge.Wifi.State.{
  Candidate, Wifi, WifiEvt, idle, no_reason, connect_request, wifi_retry_base_ms, lowest_rssi,
}
use satura_bridge.Networks.{WifiNetwork}

-- What `nvs_flash_init` returns.
pub data FlashInit : Type 0 where
  flash_ok no_free_pages new_version_found other_error : FlashInit

pub record Partition (F : Type 0) : Type 0 where
  pub nvs_flash_init : F → FlashInit
  pub nvs_flash_erase : F → F × Bool

abbrev pub is_ok : FlashInit → Bool
is_ok flash_ok = true
is_ok _ = false

abbrev pub must_erase : FlashInit → Bool
must_erase no_free_pages = true
must_erase new_version_found = true
must_erase _ = false

module _ {F : Type 0} (p : Partition F) where
  -- The head of `app_main`: `none` is the abort of ESP_ERROR_CHECK. Another error is not looked at.
  unfoldable pub app_main_flash : F → Option F
  app_main_flash f =
      if must_erase (p.nvs_flash_init f)
      then (let (g, erased) = p.nvs_flash_erase f in
          if erased then (if is_ok (p.nvs_flash_init g) then some g else none) else none)
      else some f

  -- The same in `btstack_main`, where nothing aborts.
  unfoldable pub btstack_flash : F → F
  btstack_flash f = if must_erase (p.nvs_flash_init f) then (p.nvs_flash_erase f).0 else f

-- uptime.c; the clock counts microseconds, and the difference is taken in 64 bits.
abbrev pub uptime_init : ℕ → ℕ
uptime_init now_us = now_us

unfoldable pub uptime_seconds : ℕ → ℕ → ℕ
uptime_seconds boot_us now_us = (now_us + 2 ^ 64 - boot_us) % 2 ^ 64 / 1000000 % 2 ^ 32

-- `dhcp_entries` with the lease in seconds, and the rest of `dhcp_config`.
pub record DhcpEntry : Type 0 where
  pub addr : Ip4
  pub subnet : Ip4
  pub lease : ℕ

pub record DhcpConfig : Type 0 where
  pub router : Ip4
  pub port : ℕ
  pub dns : Ip4
  pub entries : List DhcpEntry

abbrev pub dhcp_entry : ℕ → DhcpEntry
dhcp_entry last = record {
  addr = record gateway { fourth = last };
  subnet = record { first = 255; second = 255; third = 255; fourth = 0 };
  lease = 86400;
}

abbrev pub dhcp_config : DhcpConfig
dhcp_config = record {
  router = gateway;
  port = 67;
  dns = gateway;
  entries = dhcp_entry 2 ∷ dhcp_entry 3 ∷ dhcp_entry 4 ∷ dhcp_entry 5 ∷ [];
}
