-- ===== src/Wifi/Netif.antt =====
-- main/wifi_manager.c: the interface of the Wi-Fi link, found by its address, and the functions that pass
-- a call on to the storage of networks or to the queue.
use satura_bridge.Prelude.{Bool, List, Option, ℕ, none, some, if◌then◌else◌, take}
use satura_bridge.Links.Netif.{Netif, Ip4, find_netif, same_ip}
use satura_bridge.Wifi.State.{Wifi, WifiEvt, ScanResult, recovery_request}
use satura_bridge.Wifi.Inbox.{wifi_post_evt}

abbrev pub no_address : Ip4
no_address = record { first = 0; second = 0; third = 0; fourth = 0 }

-- `sta_ip` is what `esp_netif_get_ip_info` answers for `sta_netif`, if that exists.
unfoldable pub wifi_link_get_netif : List Netif → Option Ip4 → Option ℕ
unfolding find_netif same_ip
wifi_link_get_netif netif_list none = none
wifi_link_get_netif netif_list (some sta_ip) =
    if same_ip sta_ip no_address then none else find_netif (λ p. same_ip p.ip sta_ip) netif_list

module _ {S : Type 0} where
  abbrev pub wifi_manager_scan_in_progress : Wifi S → Bool
  wifi_manager_scan_in_progress w = w.scan_in_progress

  abbrev pub wifi_manager_get_scan_results : Wifi S → ℕ → List ScanResult
  wifi_manager_get_scan_results w max_count = take max_count w.scan_results

  unfoldable pub wifi_manager_schedule_recovery :
      Option (List WifiEvt) × Wifi S → Option (List WifiEvt) × Wifi S
  unfolding wifi_post_evt
  wifi_manager_schedule_recovery q = wifi_post_evt recovery_request q
