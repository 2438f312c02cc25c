-- ===== src/Routes/Views.antt =====
-- The handlers of main/http_routes.c that show a page, and the redirect of the captive portal.
use satura_bridge.Prelude.{
  Bool, List, Option, [], ◌∷◌, codes, some, none, true, false, decimal, if◌then◌else◌, ltb, take, ℕ,
  ◌%◌, ◌&&◌, ◌++◌, ◌+◌, ◌-◌, ◌/◌, ◌||◌,
}
use satura_bridge.Buffer.{printed, dbm}
use satura_bridge.AppState.{
  AppState, wait_bt, no_wifi, wifi_connecting, wifi_failed, bridge, bridge_no_wifi, same_state,
}
use satura_bridge.HttpUtils.{html_escape, host_matches_bridge, is_foreign_host, before_colon}
use satura_bridge.Wifi.State.{Wifi}
use satura_bridge.Wifi.Inbox.{wifi_manager_get_progress}
use satura_bridge.Proxy.{proxy_gateway_is_enabled, load_locked}
use satura_bridge.DeviceName.{device_name_get}
use satura_bridge.Storage.{Nvs}
use satura_bridge.Routes.{
  HttpLib, PortalRequest, Response, no_memory, relay, found, page, Device, Display, decoded,
}
use satura_bridge.Routes.Pages.{page_setup, page_setup_failed, page_status, page_no_wifi}
use satura_bridge.Routes.Forms.{page_name, page_proxy, page_connect_prompt, page_connecting}

abbrev pub portal_url : List ℕ
portal_url = codes "http://192.168.7.1/"

-- Whether the page may be shown: a host that is neither the bridge nor an address is sent to the portal.
unfoldable pub captive_check : HttpLib → AppState → List ℕ → Option (List ℕ) → Bool
captive_check lib st wifi_ip none = true
captive_check lib st wifi_ip (some host) =
    let name = before_colon (take 63 host) in
    same_state st bridge || host_matches_bridge name wifi_ip || lib.is_address name

-- A page that is printed into a buffer from `malloc`.
abbrev pub printed_page : Bool → ℕ → List ℕ → Response
printed_page allocated n text = if allocated then page (printed n text) else no_memory

module _ {F : Type 0} where
  abbrev pub wifi_manager_get_ssid : Wifi F → ℕ → List ℕ
  wifi_manager_get_ssid w n = take (n - 1) w.wifi_ssid

  abbrev pub wifi_manager_get_ip : Wifi F → ℕ → List ℕ
  wifi_manager_get_ip w n = take (n - 1) w.wifi_ip

abbrev pub two_digits : ℕ → List ℕ
two_digits n = if ltb n 10 then b'0' ∷ decimal n else decimal n

abbrev pub charging_text : Option Bool → List ℕ
charging_text none = []
charging_text (some true) = codes " (charging)"
charging_text (some false) = []

unfoldable pub battery_text : ℕ → Option Bool → List ℕ
battery_text percent charging =
    codes "<br><b>Battery:</b> " ++ (decimal percent ++ (b'%' ∷ charging_text charging))

-- `battery_line`, an array of 48 bytes.
unfoldable pub battery_line : Option ℕ → Option Bool → List ℕ
battery_line none charging = []
battery_line (some percent) charging = printed 48 (battery_text percent charging)

module _ {F : Type 0} (d : Display) (proxy_on : Bool) (w : Wifi F) where
  unfoldable pub status_page : Response
  status_page = printed_page d.allocated 3072 (
      page_status (html_escape (wifi_manager_get_ssid w 64) 64) (wifi_manager_get_ip w 16)
        (dbm w.shared.wifi_rssi) (dbm w.shared.bt_rssi) (decimal (d.up / 86400))
        (two_digits (d.up % 86400 / 3600)) (two_digits (d.up % 3600 / 60)) (two_digits (d.up % 60))
        (decimal (d.free_heap / 1024)) (if proxy_on then codes "Enabled" else codes "Disabled")
        (battery_line d.battery d.charging))

  unfoldable pub connecting_page : Response
  connecting_page =
      let (current, total) = wifi_manager_get_progress w in
      printed_page d.allocated 2048 (
        page_connecting (html_escape (wifi_manager_get_ssid w 64) 64) (decimal (current + 1))
          (decimal total))

  unfoldable pub lost_page : Response
  lost_page =
      printed_page d.allocated 1024 (page_no_wifi (decimal ((wifi_manager_get_progress w).0 + 1)))

  -- The `switch` of `handler_root`, with the test of `show_status` on the states that it concerns.
  unfoldable pub root_page : AppState → Response
  root_page bridge = status_page
  root_page wait_bt = if w.shared.wifi_link then status_page else page page_setup
  root_page no_wifi = page page_setup
  root_page wifi_failed = page page_setup_failed
  root_page wifi_connecting = connecting_page
  root_page bridge_no_wifi = lost_page

module _ {F : Type 0} (nvs : Nvs F) (lib : HttpLib) (d : Display) where
  -- The host of the request is looked at only where the proxy is enabled.
  unfoldable pub handler_root : PortalRequest → Device F → Device F × Response
  handler_root req s =
      let (proxy, on) = proxy_gateway_is_enabled nvs s.wifi.flash s.proxy in
      let t = record s { proxy = proxy } in
      let st = s.wifi.shared.current_state in
      if on && is_foreign_host (req.host 128) s.wifi.wifi_ip
      then (t, relay)
      else (if captive_check lib st s.wifi.wifi_ip (req.host 64)
          then (t, root_page d on s.wifi st)
          else (t, found portal_url))

  unfoldable pub handler_name_get : ℕ → ℕ → Device F → Device F × Response
  handler_name_get mac4 mac5 s =
      let ((f, name), text) = device_name_get nvs mac4 mac5 (s.wifi.flash, s.name) in
      (
        record s { wifi = record s.wifi { flash = f }; name = name },
        printed_page d.allocated 1024 (page_name (html_escape text 64)),
      )

  unfoldable pub handler_proxy_get : Device F → Device F × Response
  handler_proxy_get s =
      let proxy = load_locked nvs s.wifi.flash s.proxy in
      let cfg = proxy.g_cfg in
      (
        record s { proxy = proxy },
        printed_page d.allocated 1536
            (page_proxy (if cfg.enabled then codes "checked" else []) cfg.host (decimal cfg.port)),
      )

  -- The SSID that the query asks for, empty where there is none.
  abbrev pub asked_ssid : Option (List ℕ) → List ℕ
  asked_ssid none = []
  asked_ssid (some query) =
      let ssid_enc = lib.query_value query (codes "ssid") 100 in
      if ssid_enc.0 then decoded ssid_enc.1 100 else []

  unfoldable pub prompt_for : List ℕ → Response
  prompt_for [] = found (codes "/networks")
  prompt_for (c ∷ s) =
      let esc = html_escape (c ∷ s) 64 in
      printed_page d.allocated 1536 (page_connect_prompt esc esc)

  unfoldable pub handler_networks_connect_get : PortalRequest → Device F → Device F × Response
  handler_networks_connect_get req s = (s, prompt_for (asked_ssid (req.query 128)))
