-- ===== src/Routes/NetworksPage.antt =====
-- `handler_networks_get` of main/http_routes.c: the page of the networks, printed piece by piece into
-- 4096 bytes.
use satura_bridge.Prelude.{
  Bool, List, [], ◌∷◌, codes, decimal, if◌then◌else◌, length, ltb, take, ℕ, ◌++◌, ◌+◌, ◌==◌,
}
use satura_bridge.Buffer.{Page, print, print_all, empty_page, dbm, joined}
use satura_bridge.HttpUtils.{html_escape, url_encode}
use satura_bridge.Networks.{WifiNetwork, wifi_max_saved_networks, nvs_storage_load_networks}
use satura_bridge.Storage.{Nvs}
use satura_bridge.Wifi.State.{ScanResult, wifi_max_scan_results}
use satura_bridge.Routes.{Response, page, no_memory, Device}
use satura_bridge.Routes.Pages.{page_networks_header, page_networks_footer}

abbrev pub page_size : ℕ
page_size = 4096

unfoldable pub scanning_text : List ℕ
scanning_text = codes "<p>Scanning...</p>" ++ codes "<meta http-equiv='refresh' content='2'>"

unfoldable pub found_text : List ℕ
found_text =
    codes "<div style='text-align:left;background:#ecf0f1;padding:10px;'>"
    ++ codes "<b>Found nearby:</b> &nbsp; <a href='/networks/scan'>[scan again]</a><br>"

unfoldable pub no_results_text : List ℕ
no_results_text = codes "<i>No scan results yet</i><br>"

unfoldable pub rescan_text : List ℕ
rescan_text = codes "</div>" ++ codes "<p><a href='/networks/scan'>Scan again</a></p><hr>"

unfoldable pub result_text : ScanResult → List ℕ
result_text r = joined (
    codes "<a href='/networks/connect?ssid="
    ∷ url_encode r.ssid 100
    ∷ codes "'>"
    ∷ html_escape r.ssid 64
    ∷ codes " ("
    ∷ dbm r.rssi
    ∷ codes " dBm)</a>"
    ∷ (if r.saved then codes " &nbsp;<i>saved</i>" else [])
    ∷ codes "<br>"
    ∷ [])

unfoldable pub saved_head : ℕ → List ℕ
saved_head count = joined (
    codes "<div style='text-align:left;background:#ecf0f1;padding:10px;'>"
    ∷ codes "<b>Saved ("
    ∷ decimal count
    ∷ codes "/"
    ∷ decimal wifi_max_saved_networks
    ∷ codes "):</b><br>"
    ∷ [])

unfoldable pub none_yet_text : List ℕ
none_yet_text = codes "<i>None yet</i><br>"

unfoldable pub saved_text : ℕ → WifiNetwork → List ℕ
saved_text i n = joined (
    html_escape n.ssid 64
    ∷ (if n.hidden then codes " <i>(hidden)</i>" else [])
    ∷ codes " &nbsp; <a href='/networks/delete?idx="
    ∷ decimal i
    ∷ codes "' style='color:#e74c3c;'>[remove]</a><br>"
    ∷ [])

unfoldable pub add_form : List ℕ
add_form = joined (
    codes "<form action='/networks/add' method='post'>"
    ∷ codes "<p>SSID:<br><input type='text' name='ssid' size='20' maxlength='32'></p>"
    ∷ codes
        "<p>Password: (optional)<br><input type='password' name='pass' size='20' maxlength='63'></p>"
    ∷ codes "<p><label><input type='checkbox' name='hidden' value='1'> "
    ∷ codes "This network is hidden (not broadcasting its name)</label></p>"
    ∷ codes "<p><input type='submit' value='Add Network' style='font-size:110%;'></p>"
    ∷ codes "</form>"
    ∷ [])

-- The loop over the scan results, which stops once 3600 bytes are reached.
unfoldable pub print_results : List ScanResult → Page → Page
print_results [] p = p
print_results (r ∷ rs) p =
    let rest = print_results rs (print page_size (result_text r) p) in
    if ltb p.len 3600 then rest else p

unfoldable pub saved_texts : ℕ → List WifiNetwork → List (List ℕ)
saved_texts i [] = []
saved_texts i (n ∷ ns) = saved_text i n ∷ saved_texts (i + 1) ns

abbrev pub results_part : List ScanResult → Page → Page
results_part rs p =
    let shown = take wifi_max_scan_results rs in
    let opened = print page_size found_text p in
    let noted = if length shown == 0 then print page_size no_results_text opened else opened in
    print page_size rescan_text (print_results shown noted)

-- The pieces behind the results, in one list.
unfoldable pub saved_part : List WifiNetwork → List (List ℕ)
saved_part ns =
    saved_head (length ns)
    ∷ ((if length ns == 0 then none_yet_text ∷ [] else [])
        ++ (saved_texts 0 ns ++ codes "</div><br>" ∷ (add_form ∷ (page_networks_footer ∷ []))))

unfoldable pub networks_page : Bool → List ScanResult → List WifiNetwork → Page
networks_page scanning results saved =
    let headed = print page_size page_networks_header empty_page in
    print_all page_size (saved_part saved)
      (if scanning then print page_size scanning_text headed else results_part results headed)

module _ {F : Type 0} (nvs : Nvs F) (stack : List ℕ) (allocated : Bool) where
  unfoldable pub handler_networks_get : Device F → Device F × Response
  handler_networks_get s =
      let saved = nvs_storage_load_networks nvs s.wifi.flash stack 6 in
      (
        s,
        if allocated
            then page (networks_page s.wifi.scan_in_progress s.wifi.scan_results saved).bytes
            else no_memory,
      )
