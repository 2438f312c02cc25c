-- ===== src/Tests/Text.antt =====
-- The theorems on the texts of main/http_utils.c and on the events of main/app_state.c, at small inputs.
use satura_bridge.AppState.{boot_state}
use satura_bridge.AppState.Changes.{follow, set_all, follow-set_all}
use satura_bridge.HttpUtils.Encode.{url_decode-url_encode}
use satura_bridge.HttpUtils.Escape.{read_html, read_html-html_escape}
use satura_bridge.Prelude.{List, [], arith, codes, false, some, true, ℕ, ◌∷◌, ◌≡◌}
use satura_bridge.HttpUtils.{html_escape, url_encode, url_decode}

abbrev markup : List ℕ
markup = codes "<a>&"

read_html-html_escape_example : read_html 0 (html_escape markup 64) ≡ some markup
read_html-html_escape_example = read_html-html_escape markup 64 (omega arith)

url_decode-url_encode_example : url_decode (url_encode markup 40) 10 ≡ markup
url_decode-url_encode_example =
    url_decode-url_encode markup 40 10
      (omega arith, (omega arith, (omega arith, (omega arith, tt)))) (omega arith) (omega arith)

follow-set_all_example :
    follow false (set_all boot_state (true ∷ true ∷ false ∷ [])).1
    ≡ some (set_all boot_state (true ∷ true ∷ false ∷ [])).0.wifi_link
follow-set_all_example = follow-set_all (true ∷ true ∷ false ∷ []) boot_state
