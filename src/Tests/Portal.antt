-- ===== src/Tests/Portal.antt =====
-- The theorems on main/http_routes.c, main/http_server.c and the pages of main/clipboard.c, on a device
-- whose flash is two tables.
use satura_bridge.Prelude.{
  Bool, List, [], ◌∷◌, ℕ, ◌≡◌, ◌≤◌, ◌+◌, codes, true, false, refl, some, none, arith, length,
  replicate, strcmp_eq, c_string, decimal, digits, map, if◌then◌else◌, ◌||◌,
}
use satura_bridge.Buffer.{joined, total, dbm}
use satura_bridge.HttpUtils.{
  url_decode, decode_loop, plain_char, escape_value, hex_val, hex_pair, url_encode, encode_loop,
  encode_char, is_unreserved, hex_digit, html_escape, escape_loop, escape_char, entity,
}
use satura_bridge.Storage.{
  storage_set_u8, storage_set_str, storage_set_u16, write_with, commit_and_close,
}
use satura_bridge.Wifi.State.{Wifi, connect_request, Driver, ScanResult, connected}
use satura_bridge.Wifi.Flash.{flash_networks}
use satura_bridge.Wifi.Machine.{worker_run}
use satura_bridge.Proxy.{set_defaults, proxy_gateway_save, write_config}
use satura_bridge.Clipboard.{ClipStore, ClipEntry, pin, serve}
use satura_bridge.Clipboard.Actions.{handler_clip_action_get, handler_clip_action_get-decimal}
use satura_bridge.Clipboard.PageFit.{IsShort}
use satura_bridge.Routes.{HttpLib, PortalRequest, Device, found, atoi, digits_value}
use satura_bridge.Routes.Pages.{page_networks_header}
use satura_bridge.Routes.NetworksPage.{networks_page, found_text, result_text}
use satura_bridge.Routes.PageFit.{page_pieces, networks_page_fits}
use satura_bridge.Routes.Handlers.{
  NetworkForm, read_network, handler_networks_add_post, handler_proxy_post, form_config,
}
use satura_bridge.Routes.Connect.{IsHidden, networks_add_post_hides_link}
use satura_bridge.Routes.Settings.{handler_proxy_post-decimal}
use satura_bridge.Routes.Table.{find_handler, get, uris}
use satura_bridge.Routes.Dispatch.{
  is_plain, MatchLaws, find_exact, or_relay, portal, find_handler-find_exact,
}
use satura_bridge.Tests.Flash.{Tables, tables, blank, home}
use satura_bridge.Tests.Radio.{slot}

-- A library whose queries are the value itself, for the keys of one form.
abbrev echo : HttpLib
echo = record {
  query_value = λ text key size.
      if strcmp_eq key (codes "host") || strcmp_eq key (codes "op")
      then (true, codes "pin")
      else (true, text);
  is_address = λ text. false;
}

abbrev sent : List ℕ → PortalRequest
sent text = record { host = λ n. none; query = λ n. some text; received = λ n. some text }

abbrev device : Device Tables
device = record {
  wifi = record {
    fsm_state = connected;
    retry_reason = satura_bridge.Wifi.State.no_reason;
    retry_delay_ms = 1000;
    candidate_list = replicate 6 slot;
    candidate_count = 1;
    candidate_index = 0;
    candidate_attempt = 0;
    scan_results = [];
    scan_in_progress = false;
    wifi_ssid = codes "home";
    wifi_pass = [];
    wifi_ip = codes "10.0.0.2";
    next_wait_ms = 0;
    shared = satura_bridge.AppState.boot_state;
    flash = blank;
    calls = [];
  };
  queue = some [];
  proxy = record { g_cfg = set_defaults; g_loaded = true };
  name = record { g_name = []; g_loaded = false };
  reboots = 0;
}

abbrev quiet : Driver
quiet = record {
  scan = satura_bridge.Wifi.State.no_access_points;
  ap_rssi = none;
  ssid_size = 32;
  pass_size = 64;
}

abbrev cafe : NetworkForm
cafe = record { ssid = codes "cafe"; pass = codes "cafe"; hidden = true }

reads : read_network echo (codes "cafe") ≡ some cafe
unfolding read_network url_decode decode_loop plain_char escape_value hex_val hex_pair c_string
    strcmp_eq
reads = refl

networks_add_post_hides_link_example : IsHidden (
    worker_run
      (flash_networks tables [])
      ((some connect_request, quiet) ∷ (none, quiet) ∷ [])
      (handler_networks_add_post tables echo [] (sent (codes "cafe")) device).0.wifi)
networks_add_post_hides_link_example =
    networks_add_post_hides_link tables echo [] (flash_networks tables [])
      ((some connect_request, quiet) ∷ (none, quiet) ∷ []) (sent (codes "cafe")) (codes "cafe") cafe
      device refl refl reads (refl, (refl, tt))

abbrev seen : ScanResult
seen = record { ssid = codes "home"; rssi = 60; saved = true }

networks_page_fits_example :
    ((networks_page false (seen ∷ []) (home ∷ [])).overrun ≡ false)
    × ((networks_page false (seen ∷ []) (home ∷ [])).bytes
        ≡ joined (page_pieces false (seen ∷ []) (home ∷ [])))
networks_page_fits_example =
    networks_page_fits false (seen ∷ []) (home ∷ []) (omega arith) (omega arith)

-- An SSID of 32 bytes that are no ASCII letters.
abbrev far : ScanResult
far = record { ssid = replicate 32 200; rssi = 60; saved = false }

wide : length (result_text far) ≡ 180
unfolding result_text url_encode encode_loop encode_char is_unreserved hex_digit html_escape
    escape_loop escape_char entity dbm decimal digits
wide = refl

many :
    3600
    ≤ length page_networks_header + length found_text + total (map result_text (replicate 20 far))
unfolding page_networks_header found_text
many = omega (arith, wide)

saved : (proxy_gateway_save tables (form_config echo (codes "8080")) (blank, device.proxy)).1 ≡ true
unfolding proxy_gateway_save write_config storage_set_u8 storage_set_str storage_set_u16 write_with
    commit_and_close form_config atoi digits_value strcmp_eq
saved = refl

port : (echo.query_value (codes "8080") (codes "port") 16).1 ≡ decimal 8080
unfolding decimal digits strcmp_eq
port = refl

handler_proxy_post-decimal_example :
    (handler_proxy_post tables echo [] (sent (codes "8080")) device).0.proxy.g_cfg.port ≡ 8080
handler_proxy_post-decimal_example =
    handler_proxy_post-decimal tables echo [] (sent (codes "8080")) (codes "8080") 8080 device refl
      port (omega arith) (omega arith) saved

-- The matcher that the documentation describes, for the templates of the table.
abbrev matches : List ℕ → List ℕ → Bool
matches t p = if is_plain t then strcmp_eq t p else true

matches-laws : MatchLaws matches
unfolding is_plain
matches-laws = record { plain = λ t p h. rw h refl; below = λ p. refl }

find_handler-find_exact_example :
    find_handler matches get (codes "/reset") uris
    ≡ some (or_relay (find_exact get (codes "/reset") portal))
find_handler-find_exact_example = find_handler-find_exact matches matches-laws get (codes "reset")

abbrev note : ClipEntry
note = record { text = codes "code 1234"; is_link = false; id = 7 }

abbrev notes : ClipStore
notes = record { next_id = 8; ring = note ∷ []; favorites = note ∷ [] }

op : (echo.query_value (codes "7") (codes "op") 16).1 ≡ codes "pin"
unfolding strcmp_eq
op = refl

number : (echo.query_value (codes "7") (codes "id") 16).1 ≡ decimal 7
unfolding decimal digits strcmp_eq
number = refl

handler_clip_action_get-decimal_example :
    handler_clip_action_get echo (sent (codes "7")) (record { store = notes; saved = notes })
    ≡ (serve (record { store = notes; saved = notes }) (pin 7), found (codes "/clip"))
handler_clip_action_get-decimal_example =
    handler_clip_action_get-decimal echo (sent (codes "7")) (codes "7") (pin 7)
      (record { store = notes; saved = notes }) refl (omega arith) refl op number

note-IsShort : IsShort note
unfolding IsShort html_escape escape_loop escape_char entity
note-IsShort = omega arith
