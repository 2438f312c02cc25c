-- ===== src/Routes/Forms.antt =====
-- The templates of main/http_routes.c with a form, and that of the page shown while a connection is made.
use satura_bridge.Prelude.{List, ℕ, [], codes, ◌∷◌}
use satura_bridge.Buffer.{joined}
use satura_bridge.Routes.Pages.{page_footer}

unfoldable pub page_name : List ℕ → List ℕ
page_name name = joined (
    codes "<html><head><title>Device Name</title>"
    ∷ codes "<meta charset='utf-8'>"
    ∷ codes "<meta name='viewport' content='width=device-width,initial-scale=1'>"
    ∷ codes "<meta name='format-detection' content='telephone=no'>"
    ∷ codes "</head>"
    ∷ codes "<body style='font-family:sans-serif;padding:20px;text-align:center;'>"
    ∷ codes "<h2>Device Name</h2><hr>"
    ∷ codes "<p style='text-align:left;'>This is the name your phone sees when "
    ∷ codes "pairing or scanning for Bluetooth devices. Takes effect on the next "
    ∷ codes "reboot.</p>"
    ∷ codes "<form action='/name' method='post'>"
    ∷ codes "<p><input type='text' name='name' size='24' maxlength='32' value='"
    ∷ name
    ∷ codes "'></p>"
    ∷ codes "<p><input type='submit' value='Save &amp; Reboot' style='font-size:110%;'></p>"
    ∷ codes "</form><hr>"
    ∷ codes "<a href='/'>Back</a>"
    ∷ codes "<br><br><small>"
    ∷ page_footer
    ∷ codes "</small>"
    ∷ codes "</body></html>"
    ∷ [])

unfoldable pub page_proxy : List ℕ → List ℕ → List ℕ → List ℕ
page_proxy checked host port = joined (
    codes "<html><head><title>Proxy Gateway</title>"
    ∷ codes "<meta charset='utf-8'>"
    ∷ codes "<meta name='viewport' content='width=device-width,initial-scale=1'>"
    ∷ codes "<meta name='format-detection' content='telephone=no'>"
    ∷ codes "</head>"
    ∷ codes "<body style='font-family:sans-serif;padding:20px;text-align:center;'>"
    ∷ codes "<h2>HTTP Proxy Gateway</h2><hr>"
    ∷ codes "<p style='text-align:left;'>Redirects outgoing HTTP (port 80) connections "
    ∷ codes "to an external gateway or domain (e.g. a WAP compression gateway like 15pmm01.com). "
    ∷ codes "HTTPS traffic is not affected.</p>"
    ∷ codes "<form action='/proxy' method='post'>"
    ∷ codes "<p><label><input type='checkbox' name='en' value='1' "
    ∷ checked
    ∷ codes "> Enabled</label></p>"
    ∷ codes "<p>Gateway/domain host:<br>"
    ∷ codes "<input type='text' name='host' size='24' maxlength='63' value='"
    ∷ host
    ∷ codes "'></p>"
    ∷ codes "<p>Gateway/domain port:<br>"
    ∷ codes
        "<input type='number' inputmode='numeric' pattern='[0-9]*' name='port' size='10' maxlength='5' value='"
    ∷ port
    ∷ codes "'></p>"
    ∷ codes "<p><input type='submit' value='Save' style='font-size:110%;'></p>"
    ∷ codes "</form><hr>"
    ∷ codes "<a href='/'>Back</a>"
    ∷ codes "<br><br><small>"
    ∷ page_footer
    ∷ codes "</small>"
    ∷ codes "</body></html>"
    ∷ [])

unfoldable pub page_connect_prompt : List ℕ → List ℕ → List ℕ
page_connect_prompt shown value = joined (
    codes "<html><head><title>Connect</title>"
    ∷ codes "<meta charset='utf-8'>"
    ∷ codes "<meta name='viewport' content='width=device-width,initial-scale=1'>"
    ∷ codes "<meta name='format-detection' content='telephone=no'>"
    ∷ codes "</head>"
    ∷ codes "<body style='font-family:sans-serif;padding:20px;text-align:center;'>"
    ∷ codes "<h2>Connect to network</h2><hr>"
    ∷ codes "<p><b>"
    ∷ shown
    ∷ codes "</b></p>"
    ∷ codes "<form action='/networks/add' method='post'>"
    ∷ codes "<input type='hidden' name='ssid' value=\""
    ∷ value
    ∷ codes "\">"
    ∷ codes "<p>Password: (leave empty if open)<br>"
    ∷ codes "<input type='password' name='pass' size='20' maxlength='63' autofocus></p>"
    ∷ codes "<p><input type='submit' value='Add &amp; Connect' style='font-size:110%;'></p>"
    ∷ codes "</form><hr>"
    ∷ codes "<a href='/networks'>Cancel</a>"
    ∷ codes "<br><br><small>"
    ∷ page_footer
    ∷ codes "</small>"
    ∷ codes "</body></html>"
    ∷ [])

unfoldable pub page_connecting : List ℕ → List ℕ → List ℕ → List ℕ
page_connecting ssid current total = joined (
    codes "<html><head><title>Connecting...</title>"
    ∷ codes "<meta charset='utf-8'>"
    ∷ codes "<meta http-equiv='refresh' content='5'>"
    ∷ codes "<meta name='viewport' content='width=device-width,initial-scale=1'>"
    ∷ codes "<meta name='format-detection' content='telephone=no'>"
    ∷ codes "</head>"
    ∷ codes "<body style='font-family:sans-serif;padding:20px;text-align:center;'>"
    ∷ codes "<h2>Connecting</h2><hr>"
    ∷ codes "<p>Network:</p><div style='word-wrap:break-word;'><b>"
    ∷ ssid
    ∷ codes "</b></div>"
    ∷ codes "<p>Trying network "
    ∷ current
    ∷ codes " of "
    ∷ total
    ∷ codes "</p>"
    ∷ codes "<small>This page refreshes automatically.</small><hr>"
    ∷ codes "<a href='/'>Reload</a><br>"
    ∷ codes "<a href='/reset'>Forget WiFi</a>"
    ∷ codes "<br><small>"
    ∷ page_footer
    ∷ codes "</small>"
    ∷ codes "</body></html>"
    ∷ [])
