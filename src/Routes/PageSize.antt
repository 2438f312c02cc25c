-- ===== src/Routes/PageSize.antt =====
-- How long the pieces of the page of the networks are (main/http_routes.c).
use satura_bridge.Prelude.{
  List, [], ◌∷◌, ◌++◌, ℕ, ◌≤◌, ◌≡◌, ◌+◌, ◌*◌, arith, length, length-append, decimal, digits, map,
  suc, zero, ◌%◌, ◌-◌, ◌/◌,
}
use satura_bridge.Buffer.{joined, total, dbm}
use satura_bridge.HttpUtils.Escape.{html_escape_bounds}
use satura_bridge.HttpUtils.Encode.{url_encode_bounds}
use satura_bridge.Wifi.State.{ScanResult}
use satura_bridge.Networks.{WifiNetwork}
use satura_bridge.Routes.Pages.{page_networks_header, page_networks_footer, page_footer}
use satura_bridge.Routes.NetworksPage.{
  result_text, saved_text, saved_texts, saved_head, add_form, found_text, rescan_text,
  none_yet_text, scanning_text, no_results_text,
}

pub length-joined : (ts : List (List ℕ)) → length (joined ts) ≡ total ts
length-joined [] = omega arith
length-joined (t ∷ ts) = omega (arith, length-append t (joined ts), length-joined ts)

pub total-append : (ts us : List (List ℕ)) → total (ts ++ us) ≡ total ts + total us
total-append [] us = omega arith
total-append (t ∷ ts) us = omega (arith, total-append ts us)

length-digits : (fuel n : ℕ) (rest : List ℕ) → length (digits fuel n rest) ≤ fuel + length rest
unfolding digits
length-digits zero n rest = omega arith
length-digits (suc fuel) n rest =
    ground (arith, length-digits fuel (n / 10) ((b'0' + n % 10) ∷ rest))

pub length-decimal : (n : ℕ) → length (decimal n) ≤ 10
unfolding decimal
length-decimal n = omega (arith, length-digits 10 n [])

pub length-dbm : (r : ℕ) → length (dbm r) ≤ 11
unfolding dbm
length-dbm r = ground (arith, length-decimal (r - 128), length-decimal (128 - r))

pub length-result_text : (r : ScanResult) → length (result_text r) ≤ 245
unfolding result_text
length-result_text r =
    let link = url_encode_bounds r.ssid 100 (omega arith) in
    let text = html_escape_bounds r.ssid 64 (omega arith) in
    let db = length-dbm r.rssi in grind (arith, length-append)

length-saved_text : (i : ℕ) (n : WifiNetwork) → length (saved_text i n) ≤ 170
unfolding saved_text
length-saved_text i n =
    let text = html_escape_bounds n.ssid 64 (omega arith) in
    let number = length-decimal i in grind (arith, length-append)

pub total-results : (rs : List ScanResult) → total (map result_text rs) ≤ 245 * length rs
total-results [] = omega arith
total-results (r ∷ rs) = omega (arith, length-result_text r, total-results rs)

pub total-saved_texts : (i : ℕ) (ns : List WifiNetwork) → total (saved_texts i ns) ≤ 170 * length ns
unfolding saved_texts
total-saved_texts i [] = omega arith
total-saved_texts i (n ∷ ns) = omega (arith, length-saved_text i n, total-saved_texts (i + 1) ns)

pub length-saved_head : (n : ℕ) → (70 ≤ length (saved_head n)) × (length (saved_head n) ≤ 120)
unfolding saved_head decimal digits
length-saved_head n =
    let number = length-decimal n in (grind (arith, length-append), grind (arith, length-append))

pub length-add_form : (400 ≤ length add_form) × (length add_form ≤ 460)
unfolding add_form
length-add_form = (omega arith, omega arith)

pub length-header : length page_networks_header ≤ 290
unfolding page_networks_header
length-header = omega arith

pub length-footer : length page_networks_footer ≤ 190
unfolding page_networks_footer page_footer
length-footer = omega arith

pub length-results_frame :
    (length found_text + length rescan_text ≤ 220)
    × (length no_results_text ≤ 40)
    × (length scanning_text ≤ 60)
    × (length none_yet_text ≤ 30)
    × (50 ≤ length rescan_text)
unfolding found_text rescan_text no_results_text scanning_text none_yet_text
length-results_frame = (omega arith, omega arith, omega arith, omega arith, omega arith)
