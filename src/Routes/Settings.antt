-- ===== src/Routes/Settings.antt =====
-- What the forms of main/http_routes.c for the proxy, the name and the saved networks store.
use satura_bridge.HttpUtils.Encode.{url_decode_bounds}
use satura_bridge.HttpUtils.{url_decode}
use satura_bridge.Prelude.{
  List, [], ◌∷◌, ℕ, ◌≤◌, ◌<◌, ◌≡◌, ◌≢◌, ◌+◌, arith, length, true, false, sym, ap, ◌∙◌, refl, some,
  decimal, pos, codes, c_string, leb, subst, take-all, ◌==◌, ◌||◌,
}
use satura_bridge.Routes.Numbers.{is_digits_only-decimal, digits_value-decimal, atoi-digits}
use satura_bridge.Storage.{Nvs, storage_set_str, device_name}
use satura_bridge.Networks.{nvs_storage_remove_network}
use satura_bridge.Proxy.{
  proxy_gateway_save, proxy_gateway_invalidate_cache, ProxyConfig, ProxyState,
}
use satura_bridge.DeviceName.{device_name_set, NameState, name_size}
use satura_bridge.Routes.{
  HttpLib, PortalRequest, Device, is_digits_only, digits_value, atoi, decoded, url_decode,
}
use satura_bridge.Routes.Handlers.{
  form_config, proxy_with, handler_proxy_post, with_form, port_number, handler_name_post, name_with,
  rename, start_reboot, handler_networks_delete, delete_with,
}

length-c_string : (text : List ℕ) → length (c_string text) ≤ length text
unfolding c_string
length-c_string [] = omega arith
length-c_string (c ∷ text) = ground (arith, length-c_string text)

length-decoded : (raw : List ℕ) → length (decoded raw 33) ≤ 32
length-decoded raw =
    omega (arith, length-c_string (url_decode raw 33), url_decode_bounds raw 33 (omega arith))

atoi_letter : (c : ℕ) (s : List ℕ) → b'9' < c → atoi (c ∷ s) ≡ pos 0
unfolding atoi digits_value
atoi_letter c s h = ground arith

module _ {F : Type 0} (nvs : Nvs F) (lib : HttpLib) (stack : List ℕ) where
  -- If the port of the form has a character that is no digit, nothing of the form is applied: the device
  -- stays as it was.
  pub handler_proxy_post_refused :
      (req : PortalRequest) (buf : List ℕ) (s : Device F)
      → req.received 255 ≡ some buf
      → is_digits_only (lib.query_value buf (codes "port") 16).1 ≡ false
      → (handler_proxy_post nvs lib stack req s).0 ≡ s
  unfolding handler_proxy_post proxy_with with_form
  handler_proxy_post_refused req buf s got bad = rw (got, bad) refl

  form_config_port :
      (buf : List ℕ) (n : ℕ)
      → (lib.query_value buf (codes "port") 16).1 ≡ decimal n
      → 0 < n
      → n < 65536
      → (form_config lib buf).port ≡ n
  unfolding form_config
  form_config_port buf n port low high =
      ap (λ text. port_number (atoi text)) port
      ∙ ap port_number (atoi-digits (decimal n) (is_digits_only-decimal n))
      ∙ ap (λ k. port_number (pos k)) (digits_value-decimal n (omega (arith, high)))
      ∙ (ground arith)

  proxy_posted :
      (req : PortalRequest) (buf : List ℕ) (s : Device F)
      → req.received 255 ≡ some buf
      → is_digits_only (lib.query_value buf (codes "port") 16).1 ≡ true
      → let saved = proxy_gateway_save nvs (form_config lib buf) (s.wifi.flash, s.proxy) in
        (handler_proxy_post nvs lib stack req s).0 ≡ record s {
          wifi = record s.wifi { flash = saved.0.0 };
          proxy = proxy_gateway_invalidate_cache saved.0.1;
        }
  unfolding handler_proxy_post proxy_with with_form
  proxy_posted req buf s got good = rw (got, good) refl

  saved_port :
      (cfg : ProxyConfig) (f : F) (p : ProxyState) (n : ℕ)
      → cfg.port ≡ n
      → 0 < n
      → (proxy_gateway_save nvs cfg (f, p)).1 ≡ true
      → (proxy_gateway_invalidate_cache (proxy_gateway_save nvs cfg (f, p)).0.1).g_cfg.port ≡ n
  unfolding proxy_gateway_save proxy_gateway_invalidate_cache
  saved_port cfg f p n port low saved = ground arith

  -- A port from 1 to 65535, written as the page writes it, is the port that the gateway uses after the form was
  -- saved, if NVS took the form.
  pub handler_proxy_post-decimal :
      (req : PortalRequest) (buf : List ℕ) (n : ℕ) (s : Device F)
      → req.received 255 ≡ some buf
      → (lib.query_value buf (codes "port") 16).1 ≡ decimal n
      → 0 < n
      → n < 65536
      → (proxy_gateway_save nvs (form_config lib buf) (s.wifi.flash, s.proxy)).1 ≡ true
      → (handler_proxy_post nvs lib stack req s).0.proxy.g_cfg.port ≡ n
  handler_proxy_post-decimal req buf n s got port low high saved =
      let value : (form_config lib buf).port ≡ n = form_config_port buf n port low high in
      let digits_only : is_digits_only (lib.query_value buf (codes "port") 16).1 ≡ true =
        ap is_digits_only port ∙ is_digits_only-decimal n in
      ap (λ (t : Device F). t.proxy.g_cfg.port) (proxy_posted req buf s got digits_only)
      ∙ saved_port (form_config lib buf) s.wifi.flash s.proxy n value low saved

  set_name :
      (name : List ℕ) (f : F) (n : NameState)
      → length name ≢ 0
      → length name ≤ 32
      → (storage_set_str nvs f device_name name).1 ≡ true
      → device_name_set nvs name (f, n) ≡ (
        ((storage_set_str nvs f device_name name).0, record { g_name = name; g_loaded = true }),
        true,
      )
  unfolding device_name_set
  set_name name f n some_name short stored =
      let fits : (length name == 0 || leb name_size (length name)) ≡ false = ground arith in
      rw (fits, stored, take-all 32 name short) refl

  renamed :
      (name : List ℕ) (s : Device F)
      → length name ≢ 0
      → length name ≤ 32
      → (storage_set_str nvs s.wifi.flash device_name name).1 ≡ true
      → let t = (rename nvs lib stack name s).0 in
        (t.name ≡ record { g_name = name; g_loaded = true }) × (t.reboots ≡ s.reboots + 1)
  unfolding rename start_reboot
  renamed name s some_name short stored =
      rw (set_name name s.wifi.flash s.name some_name short stored) (refl, refl)

  posted_name :
      (req : PortalRequest) (buf raw : List ℕ) (s : Device F)
      → req.received 127 ≡ some buf
      → lib.query_value buf (codes "name") 128 ≡ (true, raw)
      → handler_name_post nvs lib stack req s ≡ rename nvs lib stack (decoded raw 33) s
  unfolding handler_name_post name_with with_form
  posted_name req buf raw s got named = rw (got, named) refl

  -- A name that is not empty once it is decoded and cut to 32 bytes is set, and the chip is restarted, if NVS
  -- takes it: a longer name is not refused but cut.
  pub handler_name_post_cut :
      (req : PortalRequest) (buf raw : List ℕ) (s : Device F)
      → req.received 127 ≡ some buf
      → lib.query_value buf (codes "name") 128 ≡ (true, raw)
      → length (decoded raw 33) ≢ 0
      → (storage_set_str nvs s.wifi.flash device_name (decoded raw 33)).1 ≡ true
      → let t = (handler_name_post nvs lib stack req s).0 in
        (t.name ≡ record { g_name = decoded raw 33; g_loaded = true }) × (t.reboots ≡ s.reboots + 1)
  handler_name_post_cut req buf raw s got named some_name stored =
      let same = posted_name req buf raw s got named in
      subst
        (λ (t : Device F).
          (t.name ≡ record { g_name = decoded raw 33; g_loaded = true })
          × (t.reboots ≡ s.reboots + 1))
        (sym (ap (λ r. r.0) same))
        (renamed (decoded raw 33) s some_name (length-decoded raw) stored)

  deleted :
      (query : List ℕ) (c : ℕ) (rest : List ℕ) (s : Device F)
      → lib.query_value query (codes "idx") 8 ≡ (true, c ∷ rest)
      → b'9' < c
      → (delete_with nvs lib stack (some query) s).wifi.flash
        ≡ (nvs_storage_remove_network nvs s.wifi.flash stack (pos 0)).0
  unfolding delete_with
  deleted query c rest s value letter = rw (value, atoi_letter c rest letter) refl

  -- An index without a number removes the first of the saved networks.
  pub handler_networks_delete_first :
      (req : PortalRequest) (query : List ℕ) (c : ℕ) (rest : List ℕ) (s : Device F)
      → req.query 64 ≡ some query
      → lib.query_value query (codes "idx") 8 ≡ (true, c ∷ rest)
      → b'9' < c
      → (handler_networks_delete nvs lib stack req s).0.wifi.flash
        ≡ (nvs_storage_remove_network nvs s.wifi.flash stack (pos 0)).0
  unfolding handler_networks_delete
  handler_networks_delete_first req query c rest s asked value letter =
      rw asked (deleted query c rest s value letter)
