-- ===== src/Clipboard/Page.antt =====
-- `handler_clip_get` of main/clipboard.c: the page of the clipboard, printed piece by piece into 8192 bytes.
use satura_bridge.Prelude.{
  Bool, List, [], ◌∷◌, ◌++◌, ℕ, codes, decimal, if◌then◌else◌, length, ltb, ◌==◌, false, true, ◌-◌,
}
use satura_bridge.Buffer.{Page, print, print_all, empty_page, joined}
use satura_bridge.HttpUtils.{html_escape}
use satura_bridge.Routes.{Response, page, no_memory}
use satura_bridge.Clipboard.{ClipEntry, ClipStore, clip_ring_max}

abbrev pub page_buf : ℕ
page_buf = 8192

unfoldable pub clip_head : List ℕ
clip_head = joined (
    codes "<html><head><title>Clipboard</title>"
    ∷ codes "<meta charset='utf-8'>"
    ∷ codes "<meta name='viewport' content='width=device-width,initial-scale=1'>"
    ∷ codes "<meta name='format-detection' content='telephone=no'>"
    ∷ codes "</head>"
    ∷ codes "<body style='font-family:sans-serif;padding:20px;text-align:center;'>"
    ∷ codes "<h2>Clipboard</h2>"
    ∷ codes "<p style='font-size:90%;color:#555;'>Paste from a computer, read or "
    ∷ codes "tap on the phone. Text is kept as-is; anything starting with http(s)"
    ∷ codes "&#58;// becomes a clickable link.</p>"
    ∷ codes "<form action='/clip/add' method='post'>"
    ∷ codes "<textarea name='text' rows='4' style='width:95%;' "
    ∷ codes "placeholder='Paste text or a link...'></textarea>"
    ∷ codes "<p><input type='submit' value='Add' style='font-size:110%;'></p>"
    ∷ codes "</form><hr>"
    ∷ [])

-- The three calls of `render_entry`; a link is put into its attribute as it is.
unfoldable pub entry_frame : Bool → List ℕ
entry_frame is_fav = joined (
    codes "<div style='background:"
    ∷ (if is_fav then codes "#fff3cd" else codes "#ecf0f1")
    ∷ codes ";padding:8px;margin:6px 0;text-align:left;'>"
    ∷ [])

unfoldable pub entry_text : ClipEntry → List ℕ
entry_text e =
    let esc = html_escape e.text 512 in
    if e.is_link
    then joined (
        codes "<a href='"
        ∷ e.text
        ∷ codes "' style='word-wrap:break-word;'>"
        ∷ esc
        ∷ codes "</a>"
        ∷ [])
    else joined (codes "<textarea rows='3' style='width:95%;'>" ∷ esc ∷ codes "</textarea>" ∷ [])

abbrev pub pin_op : Bool → List ℕ
pin_op is_fav = if is_fav then codes "unpin" else codes "pin"

unfoldable pub entry_links : Bool → ClipEntry → List ℕ
entry_links is_fav e = joined (
    codes "<br><a href='/clip/action?op="
    ∷ pin_op is_fav
    ∷ codes "&id="
    ∷ decimal e.id
    ∷ codes "'>["
    ∷ pin_op is_fav
    ∷ codes "]</a>"
    ∷ codes " &nbsp; <a href='/clip/action?op=delete&id="
    ∷ decimal e.id
    ∷ codes "' style='color:#e74c3c;'>[delete]</a>"
    ∷ codes "</div>"
    ∷ [])

unfoldable pub render_entry : Bool → ClipEntry → Page → Page
render_entry is_fav e p =
    print_all page_buf (entry_frame is_fav ∷ (entry_text e ∷ (entry_links is_fav e ∷ []))) p

-- Both loops stop once less than 700 bytes are left.
unfoldable pub render_entries : Bool → List ClipEntry → Page → Page
render_entries is_fav [] p = p
render_entries is_fav (e ∷ es) p =
    let rest = render_entries is_fav es (render_entry is_fav e p) in
    if ltb p.len (page_buf - 700) then rest else p

unfoldable pub favorites_title : List ℕ
favorites_title = codes "<h3>Favorites</h3>"

unfoldable pub recent_title : ℕ → List ℕ
recent_title count =
    joined (
      codes "<h3>Recent ("
      ∷ decimal count
      ∷ codes "/"
      ∷ decimal clip_ring_max
      ∷ codes ")</h3>"
      ∷ [])

unfoldable pub nothing_text : List ℕ
nothing_text = codes "<p><i>Nothing yet</i></p>"

unfoldable pub clip_foot : List ℕ
clip_foot = codes "<hr><a href='/'>Back</a></body></html>"

unfoldable pub favorites_part : List ClipEntry → Page → Page
favorites_part [] p = p
favorites_part (e ∷ es) p =
    print page_buf (codes "<hr>") (render_entries true (e ∷ es) (print page_buf favorites_title p))

-- The order of the second loop.
unfoldable pub newest_first : List ClipEntry → List ClipEntry
newest_first [] = []
newest_first (e ∷ es) = newest_first es ++ e ∷ []

unfoldable pub recent_part : List ClipEntry → Page → Page
recent_part ring p =
    let titled = print page_buf (recent_title (length ring)) p in
    let noted = if length ring == 0 then print page_buf nothing_text titled else titled in
    render_entries false (newest_first ring) noted

unfoldable pub clip_page : ClipStore → Page
clip_page s =
    print page_buf clip_foot
      (recent_part s.ring (favorites_part s.favorites (print page_buf clip_head empty_page)))

-- The store was loaded before, and the mutex is obtained.
unfoldable pub handler_clip_get : Bool → ClipStore → Response
handler_clip_get allocated s = if allocated then page (clip_page s).bytes else no_memory
