-- ===== src/Routes/Pages.antt =====
-- The page texts of main/http_routes.c: the constants, and what the `snprintf` calls make of the templates
-- before they are cut to their buffers.
use satura_bridge.Prelude.{List, ℕ, [], codes, ◌∷◌}
use satura_bridge.Buffer.{joined}

unfoldable pub page_footer : List ℕ
page_footer = joined (
    codes "<hr><p>"
    ∷ codes "Community: <a href='https://t.me/nnmidletschat'>t.me/nnmidletschat</a>"
    ∷ codes "<br>Author: @sigdev"
    ∷ codes " | v0.0.16"
    ∷ codes "</p>"
    ∷ [])

unfoldable pub page_setup : List ℕ
page_setup = joined (
    codes "<html><head><title>Satura Bridge Setup</title>"
    ∷ codes "<meta charset='utf-8'>"
    ∷ codes "<meta name='viewport' content='width=device-width,initial-scale=1'>"
    ∷ codes "<meta name='format-detection' content='telephone=no'>"
    ∷ codes "</head>"
    ∷ codes "<body style='font-family:sans-serif;padding:20px;text-align:center;'>"
    ∷ codes "<h2>Satura Bridge Setup</h2><hr>"
    ∷ codes "<p><a href='/networks'>Scan for networks</a></p>"
    ∷ codes "<p>...or enter manually:</p>"
    ∷ codes "<form action='/setup' method='post'>"
    ∷ codes "<p>SSID:<br>"
    ∷ codes "<input type='text' name='ssid' size='20' maxlength='32'></p>"
    ∷ codes "<p>Password: (optional)<br>"
    ∷ codes "<input type='password' name='pass' size='20' maxlength='63'></p>"
    ∷ codes "<p><label><input type='checkbox' name='hidden' value='1'> "
    ∷ codes "This network is hidden (not broadcasting its name)</label></p>"
    ∷ codes "<p><input type='submit' value='Connect' style='font-size:110%;'></p>"
    ∷ codes "</form><hr>"
    ∷ codes "<a href='/'>Reload</a><br>"
    ∷ codes "<a href='/reboot' style='color:#e74c3c;'>Reboot</a>"
    ∷ codes "<br><br><small>"
    ∷ page_footer
    ∷ codes "</small>"
    ∷ codes "</body></html>"
    ∷ [])

unfoldable pub page_status :
    List ℕ
    → List ℕ
    → List ℕ
    → List ℕ
    → List ℕ
    → List ℕ
    → List ℕ
    → List ℕ
    → List ℕ
    → List ℕ
    → List ℕ
    → List ℕ
page_status ssid ip wifi_db bt_db days hours minutes seconds heap proxy battery = joined (
    codes "<html><head><title>Satura Bridge Status</title>"
    ∷ codes "<meta charset='utf-8'>"
    ∷ codes "<meta http-equiv='refresh' content='30'>"
    ∷ codes "<meta name='viewport' content='width=device-width,initial-scale=1'>"
    ∷ codes "<meta name='format-detection' content='telephone=no'>"
    ∷ codes "</head>"
    ∷ codes "<body style='font-family:sans-serif;padding:20px;text-align:center;'>"
    ∷ codes "<h2>Satura Bridge</h2><hr>"
    ∷ codes "<div style='text-align:left;background:#ecf0f1;padding:15px;'>"
    ∷ codes "<b>WiFi:</b> "
    ∷ ssid
    ∷ codes "<br>"
    ∷ codes "<b>IP:</b> "
    ∷ ip
    ∷ codes "<br>"
    ∷ codes "<b>WiFi RSSI:</b> "
    ∷ wifi_db
    ∷ codes " dBm<br>"
    ∷ codes "<b>BT RSSI:</b> "
    ∷ bt_db
    ∷ codes " dBm<br>"
    ∷ codes "<b>Uptime:</b> "
    ∷ days
    ∷ codes "d "
    ∷ hours
    ∷ codes ":"
    ∷ minutes
    ∷ codes ":"
    ∷ seconds
    ∷ codes "<br>"
    ∷ codes "<b>Free heap:</b> "
    ∷ heap
    ∷ codes " KB<br>"
    ∷ codes "<b>Proxy:</b> "
    ∷ proxy
    ∷ battery
    ∷ codes "</div><hr>"
    ∷ codes "<a href='/'>Reload</a><br>"
    ∷ codes "<a href='/reset'>Forget WiFi</a><br>"
    ∷ codes "<a href='/networks'>Manage Networks</a><br>"
    ∷ codes "<a href='/proxy'>Proxy Gateway</a><br>"
    ∷ codes "<a href='/clip'>Clipboard</a><br>"
    ∷ codes "<a href='/name'>Device Name</a><br>"
    ∷ codes "<a href='/reboot' style='color:#e74c3c;'>Reboot</a>"
    ∷ codes "<br><br><small>"
    ∷ page_footer
    ∷ codes "</small>"
    ∷ codes "</body></html>"
    ∷ [])

unfoldable pub page_no_wifi : List ℕ → List ℕ
page_no_wifi attempt = joined (
    codes "<html><head><title>WiFi Lost</title>"
    ∷ codes "<meta charset='utf-8'>"
    ∷ codes "<meta http-equiv='refresh' content='5'>"
    ∷ codes "<meta name='viewport' content='width=device-width,initial-scale=1'>"
    ∷ codes "<meta name='format-detection' content='telephone=no'>"
    ∷ codes "</head>"
    ∷ codes "<body style='font-family:sans-serif;padding:20px;text-align:center;'>"
    ∷ codes "<h2>WiFi Lost</h2><hr>"
    ∷ codes "<p>Reconnecting...</p>"
    ∷ codes "<p>Attempt "
    ∷ attempt
    ∷ codes "</p>"
    ∷ codes "<small>This page refreshes automatically.</small><hr>"
    ∷ codes "<a href='/'>Reload</a><br>"
    ∷ codes "<a href='/reset'>Forget WiFi</a>"
    ∷ codes "<br><small>"
    ∷ page_footer
    ∷ codes "</small>"
    ∷ codes "</body></html>"
    ∷ [])

unfoldable pub page_setup_failed : List ℕ
page_setup_failed = joined (
    codes "<html><head><title>Connection Failed</title>"
    ∷ codes "<meta charset='utf-8'>"
    ∷ codes "<meta name='viewport' content='width=device-width,initial-scale=1'>"
    ∷ codes "<meta name='format-detection' content='telephone=no'>"
    ∷ codes "</head>"
    ∷ codes "<body style='font-family:sans-serif;padding:20px;text-align:center;'>"
    ∷ codes "<h2>Connection Failed</h2><hr>"
    ∷ codes "<p style='color:#e74c3c;'>Could not connect.<br>Check SSID and password.</p>"
    ∷ codes "<p><a href='/networks'>Manage networks</a></p>"
    ∷ codes "<form action='/setup' method='post'>"
    ∷ [])

unfoldable pub page_networks_header : List ℕ
page_networks_header = joined (
    codes "<html><head><title>Wi-Fi Networks</title>"
    ∷ codes "<meta charset='utf-8'>"
    ∷ codes "<meta name='viewport' content='width=device-width,initial-scale=1'>"
    ∷ codes "<meta name='format-detection' content='telephone=no'>"
    ∷ codes "</head>"
    ∷ codes "<body style='font-family:sans-serif;padding:20px;text-align:center;'>"
    ∷ codes "<h2>Wi-Fi Networks</h2><hr>"
    ∷ [])

unfoldable pub page_networks_footer : List ℕ
page_networks_footer = joined (
    codes "<a href='/'>Back</a>"
    ∷ codes "<br><br><small>"
    ∷ page_footer
    ∷ codes "</small>"
    ∷ codes "</body></html>"
    ∷ [])
