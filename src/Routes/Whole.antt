-- ===== src/Routes/Whole.antt =====
-- The pages of main/http_routes.c that one `snprintf` prints are not cut.
use satura_bridge.HttpUtils.Escape.{html_escape_bounds}
use satura_bridge.Buffer.{dbm, printed}
use satura_bridge.Wifi.Inbox.{wifi_manager_get_progress}
use satura_bridge.HttpUtils.{html_escape}
use satura_bridge.Wifi.State.{Wifi}
use satura_bridge.Routes.PageSize.{length-decimal, length-dbm}
use satura_bridge.Routes.{Display, Wifi, page}
use satura_bridge.Routes.Views.{
  two_digits, battery_line, battery_text, status_page, connecting_page, lost_page,
}
use satura_bridge.Prelude.{
  List, [], ℕ, ◌≤◌, ◌<◌, arith, length, length-append, Bool, Option, codes, decimal, if◌then◌else◌,
  length-take, none, some, take, true, ◌%◌, ◌+◌, ◌/◌, ◌≡◌, ap, take-all, ◌-◌,
}
use satura_bridge.Routes.Pages.{page_footer, page_status, page_no_wifi}
use satura_bridge.Routes.Forms.{page_name, page_proxy, page_connect_prompt, page_connecting}

page_status_fits :
    (ssid ip a b days h m s heap proxy battery : List ℕ)
    → length ssid ≤ 63
    → length ip ≤ 15
    → length a ≤ 11
    → length b ≤ 11
    → length days ≤ 10
    → length h ≤ 11
    → length m ≤ 11
    → length s ≤ 11
    → length heap ≤ 10
    → length proxy ≤ 8
    → length battery ≤ 47
    → length (page_status ssid ip a b days h m s heap proxy battery) < 3072
unfolding page_status page_footer
page_status_fits ssid ip a b days h m s heap proxy battery e0 e1 e2 e3 e4 e5 e6 e7 e8 e9 e10 =
    grind (arith, length-append)

page_no_wifi_fits : (n : List ℕ) → length n ≤ 10 → length (page_no_wifi n) < 1024
unfolding page_no_wifi page_footer
page_no_wifi_fits n e = grind (arith, length-append)

page_connecting_fits :
    (ssid a b : List ℕ)
    → length ssid ≤ 63
    → length a ≤ 10
    → length b ≤ 10
    → length (page_connecting ssid a b) < 2048
unfolding page_connecting page_footer
page_connecting_fits ssid a b e0 e1 e2 = grind (arith, length-append)

page_name_fits : (name : List ℕ) → length name ≤ 63 → length (page_name name) < 1024
unfolding page_name page_footer
page_name_fits name e = grind (arith, length-append)

page_connect_prompt_fits :
    (esc : List ℕ) → length esc ≤ 63 → length (page_connect_prompt esc esc) < 1536
unfolding page_connect_prompt page_footer
page_connect_prompt_fits esc e = grind (arith, length-append)

page_proxy_fits :
    (checked host port : List ℕ)
    → length checked ≤ 7
    → length host ≤ 63
    → length port ≤ 10
    → length (page_proxy checked host port) < 1536
unfolding page_proxy page_footer
page_proxy_fits checked host port e0 e1 e2 = grind (arith, length-append)

length-two_digits : (n : ℕ) → length (two_digits n) ≤ 11
length-two_digits n = ground (arith, length-decimal n)

length-battery_line :
    (o : Option ℕ) (charging : Option Bool) → length (battery_line o charging) ≤ 47
unfolding battery_line
length-battery_line none charging = omega arith
length-battery_line (some percent) charging =
    omega (arith, length-take 47 (battery_text percent charging))

escaped : (text : List ℕ) → length (html_escape text 64) ≤ 63
escaped text = omega (arith, html_escape_bounds text 64 (omega arith))

printed_whole : (n : ℕ) (text : List ℕ) → length text < n → printed n text ≡ text
printed_whole n text h = take-all (n - 1) text (omega (arith, h))

-- Whatever is asked and whatever is stored, no page that one `snprintf` prints is cut by its buffer, for a proxy
-- host that fits its array and a port.
pub forms_whole :
    (name ssid : List ℕ) (checked : Bool) (host : List ℕ) (port : ℕ)
    → length host ≤ 63
    → let text = page_name (html_escape name 64) in
      let prompt = page_connect_prompt (html_escape ssid 64) (html_escape ssid 64) in
      let proxy = page_proxy (if checked then codes "checked" else []) host (decimal port) in
      (printed 1024 text ≡ text) × (printed 1536 prompt ≡ prompt) × (printed 1536 proxy ≡ proxy)
forms_whole name ssid checked host port fits = (
  printed_whole 1024 _ (page_name_fits (html_escape name 64) (escaped name)),
  printed_whole 1536 _ (page_connect_prompt_fits (html_escape ssid 64) (escaped ssid)),
  printed_whole 1536 _ (
      page_proxy_fits (if checked then codes "checked" else []) host (decimal port) (ground arith)
        fits (length-decimal port)),
)

module _ {F : Type 0} (d : Display) (on : Bool) (w : Wifi F) where
  -- If memory for a page is there, the three pages of `handler_root` that are printed are not cut by their
  -- buffers: what stands in them was cut or escaped into small buffers before.
  pub root_pages_whole :
      d.allocated ≡ true
      → let esc = html_escape (take 63 w.wifi_ssid) 64 in
        let (current, count) = wifi_manager_get_progress w in
        (status_page d on w
          ≡ page (
              page_status esc
                (take 15 w.wifi_ip)
                (dbm w.shared.wifi_rssi)
                (dbm w.shared.bt_rssi)
                (decimal (d.up / 86400))
                (two_digits (d.up % 86400 / 3600))
                (two_digits (d.up % 3600 / 60))
                (two_digits (d.up % 60))
                (decimal (d.free_heap / 1024))
                (if on then codes "Enabled" else codes "Disabled")
                (battery_line d.battery d.charging)))
        × (connecting_page d on w
            ≡ page (page_connecting esc (decimal (current + 1)) (decimal count)))
        × (lost_page d on w ≡ page (page_no_wifi (decimal (current + 1))))
  unfolding status_page connecting_page lost_page
  root_pages_whole allocated =
      let (current, count) = wifi_manager_get_progress w in
      rw allocated (
        ap page (
            printed_whole 3072 _ (
              page_status_fits _ _ _ _ _ _ _ _ _ _ _ (escaped (take 63 w.wifi_ssid))
                (omega (arith, length-take 15 w.wifi_ip)) (length-dbm w.shared.wifi_rssi)
                (length-dbm w.shared.bt_rssi) (length-decimal (d.up / 86400))
                (length-two_digits (d.up % 86400 / 3600)) (length-two_digits (d.up % 3600 / 60))
                (length-two_digits (d.up % 60)) (length-decimal (d.free_heap / 1024)) (ground arith)
                (length-battery_line d.battery d.charging))),
        ap page (
            printed_whole 2048 _ (
              page_connecting_fits _ _ _ (escaped (take 63 w.wifi_ssid))
                (length-decimal (current + 1)) (length-decimal count))),
        ap page (printed_whole 1024 _ (page_no_wifi_fits _ (length-decimal (current + 1)))),
      )
