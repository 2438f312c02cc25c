-- ===== src/Routes/Handlers.antt =====
-- The handlers of main/http_routes.c that change the device. Where a write to NVS fails, what it reports
-- is ignored as the handlers ignore it.
use satura_bridge.Prelude.{
  Bool, List, Option, [], codes, some, none, if◌then◌else◌, ltb, negsuc, pos, take, ℕ, ℤ, ◌&&◌,
  ◌++◌, ◌+◌,
}
use satura_bridge.AppState.{AppState, no_wifi, wifi_connecting}
use satura_bridge.Storage.{Nvs}
use satura_bridge.Networks.{nvs_storage_add_network, nvs_storage_remove_network}
use satura_bridge.HttpUtils.{gw_ip_str}
use satura_bridge.Wifi.State.{WifiEvt, connect_request, forget_request}
use satura_bridge.Wifi.Machine.{set_app}
use satura_bridge.Wifi.Inbox.{wifi_post_evt, wifi_manager_scan_start}
use satura_bridge.Proxy.{ProxyConfig, proxy_gateway_save, proxy_gateway_invalidate_cache}
use satura_bridge.DeviceName.{device_name_set}
use satura_bridge.Routes.{
  HttpLib, PortalRequest, Response, silence, failed, no_content, found, plain, Device,
  is_digits_only, atoi, decoded,
}

-- A form of the pages with a network. The password is used whatever its reading returned.
pub record NetworkForm : Type 0 where
  pub ssid : List ℕ
  pub pass : List ℕ
  pub hidden : Bool

-- The port that is saved; 0 stands for the default.
abbrev pub port_number : ℤ → ℕ
port_number (pos n) = if ltb 0 n && ltb n 65536 then n else 0
port_number (negsuc n) = 0

module _ (lib : HttpLib) where
  -- None where there is no SSID that fits.
  unfoldable pub read_network : List ℕ → Option NetworkForm
  read_network buf =
      let ssid_enc = lib.query_value buf (codes "ssid") 128 in
      if ssid_enc.0
      then some (record {
        ssid = decoded ssid_enc.1 64;
        pass = decoded (lib.query_value buf (codes "pass") 128).1 64;
        hidden = (lib.query_value buf (codes "hidden") 8).0;
      })
      else none

  -- The configuration that the form asks for.
  unfoldable pub form_config : List ℕ → ProxyConfig
  form_config buf = record {
    enabled = (lib.query_value buf (codes "en") 8).0;
    host = take 63 (lib.query_value buf (codes "host") 64).1;
    port = port_number (atoi (lib.query_value buf (codes "port") 16).1);
    resolved_ip = [];
  }

module _ {F : Type 0} where
  -- What a handler does with the body of its request, if it comes.
  unfoldable pub with_form :
      Option (List ℕ) → (List ℕ → Device F × Response) → Device F → Device F × Response
  with_form none handle s = (s, failed)
  with_form (some buf) handle s = handle buf

  unfoldable pub post : WifiEvt → Device F → Device F
  post e s =
      let (queue, wifi) = wifi_post_evt e (s.queue, s.wifi) in
      record s { queue = queue; wifi = wifi }

  unfoldable pub show_app : AppState → Device F → Device F
  show_app st s = record s { wifi = set_app st s.wifi }

  abbrev pub wifi_manager_start_connect : Device F → Device F
  wifi_manager_start_connect s = post connect_request s

  abbrev pub wifi_manager_clear_credentials : Device F → Device F
  wifi_manager_clear_credentials s = post forget_request s

  unfoldable pub handler_reset : Device F → Device F × Response
  handler_reset s = (show_app no_wifi (wifi_manager_clear_credentials s), found (codes "/"))

  unfoldable pub handler_setup_get : Device F → Device F × Response
  handler_setup_get s = (s, found (codes "/"))

  unfoldable pub handler_networks_scan : Device F → Device F × Response
  handler_networks_scan s =
      let (queue, wifi) = wifi_manager_scan_start (s.queue, s.wifi) in
      (record s { queue = queue; wifi = wifi }, found (codes "/networks"))

  unfoldable pub start_reboot : Device F → Device F
  start_reboot s = record s { reboots = s.reboots + 1 }

  unfoldable pub handler_reboot : Device F → Device F × Response
  handler_reboot s = (start_reboot s, plain (codes "<html><body><p>Rebooting...</p></body></html>"))

  unfoldable pub handler_favicon : Device F → Device F × Response
  handler_favicon s = (s, no_content)

  unfoldable pub handler_404 : Device F → Device F × Response
  handler_404 s = (s, found (codes "http://" ++ (gw_ip_str ++ codes "/")))

module _ {F : Type 0} (nvs : Nvs F) (lib : HttpLib) (stack : List ℕ) where
  -- The part that the two forms with a network share: the network is stored, if it can be, and a
  -- connection is asked for whether it was or not.
  unfoldable pub save_and_connect : NetworkForm → Device F → Device F
  save_and_connect form s =
      let stored =
        (nvs_storage_add_network nvs s.wifi.flash stack form.ssid form.pass form.hidden).0 in
      wifi_manager_start_connect
        (show_app wifi_connecting (record s { wifi = record s.wifi { flash = stored } }))

  -- Without an SSID there is no reply.
  unfoldable pub setup_with : Option NetworkForm → Device F → Device F × Response
  setup_with none s = (s, silence)
  setup_with (some form) s = (save_and_connect form s, found (codes "/"))

  unfoldable pub handler_setup_post : PortalRequest → Device F → Device F × Response
  handler_setup_post req s =
      with_form (req.received 255) (λ buf. setup_with (read_network lib buf) s) s

  unfoldable pub add_with : Option NetworkForm → Device F → Device F × Response
  add_with none s = (s, found (codes "/"))
  add_with (some form) s = (save_and_connect form s, found (codes "/"))

  unfoldable pub handler_networks_add_post : PortalRequest → Device F → Device F × Response
  handler_networks_add_post req s =
      with_form (req.received 255) (λ buf. add_with (read_network lib buf) s) s

  unfoldable pub delete_with : Option (List ℕ) → Device F → Device F
  delete_with none s = s
  delete_with (some query) s =
      let idx_s = lib.query_value query (codes "idx") 8 in
      if idx_s.0
      then record s {
        wifi = record s.wifi {
          flash = (nvs_storage_remove_network nvs s.wifi.flash stack (atoi idx_s.1)).0;
        };
      }
      else s

  unfoldable pub handler_networks_delete : PortalRequest → Device F → Device F × Response
  handler_networks_delete req s = (delete_with (req.query 64) s, found (codes "/networks"))

  unfoldable pub proxy_with : List ℕ → Device F → Device F
  proxy_with buf s =
      if is_digits_only (lib.query_value buf (codes "port") 16).1
      then (let saved = proxy_gateway_save nvs (form_config lib buf) (s.wifi.flash, s.proxy) in
          record s {
            wifi = record s.wifi { flash = saved.0.0 };
            proxy = proxy_gateway_invalidate_cache saved.0.1;
          })
      else s

  unfoldable pub handler_proxy_post : PortalRequest → Device F → Device F × Response
  handler_proxy_post req s =
      with_form (req.received 255) (λ buf. (proxy_with buf s, found (codes "/proxy"))) s

  -- The name is set, if it may be: then the chip restarts.
  unfoldable pub rename : List ℕ → Device F → Device F × Response
  rename text s =
      let done = device_name_set nvs text (s.wifi.flash, s.name) in
      let t = record s { wifi = record s.wifi { flash = done.0.0 }; name = done.0.1 } in
      if done.1
      then (start_reboot t, plain (codes "<html><body><p>Saved. Rebooting...</p></body></html>"))
      else (t, found (codes "/name"))

  unfoldable pub name_with : List ℕ → Device F → Device F × Response
  name_with buf s =
      let raw = lib.query_value buf (codes "name") 128 in
      if raw.0 then rename (decoded raw.1 33) s else (s, found (codes "/name"))

  unfoldable pub handler_name_post : PortalRequest → Device F → Device F × Response
  handler_name_post req s = with_form (req.received 127) (λ buf. name_with buf s) s
