-- ===== src/Clipboard/PageFit.antt =====
-- When the page of main/clipboard.c fits its 8192 bytes.
use satura_bridge.Prelude.{
  codes, if◌then◌else◌, ◌==◌, All-append, All, Bool, List, [], ◌∷◌, ℕ, ◌≡◌, ◌≤◌, ◌<◌, ◌+◌, arith,
  length, length-append, true, false, refl, Bool-cases, inl, inr, ltb, ltb→lt,
}
use satura_bridge.Buffer.{Page, print, print_all, empty_page}
use satura_bridge.HttpUtils.{html_escape}
use satura_bridge.Clipboard.{ClipEntry, ClipStore}
use satura_bridge.Routes.PageSize.{length-decimal}
use satura_bridge.Clipboard.Page.{
  page_buf, clip_head, entry_frame, entry_text, entry_links, render_entry, render_entries,
  favorites_title, recent_title, nothing_text, clip_foot, newest_first, favorites_part, recent_part,
  clip_page,
}

-- An entry whose text and escaped text have at most 250 bytes together.
unfoldable pub IsShort : ClipEntry → Type 0
IsShort e = length e.text + length (html_escape e.text 512) ≤ 250

length-entry :
    (is_fav : Bool) (e : ClipEntry)
    → IsShort e
    → length (entry_frame is_fav) + length (entry_text e) + length (entry_links is_fav e) ≤ 590
unfolding entry_frame entry_text entry_links IsShort
length-entry is_fav e h = let number = length-decimal e.id in grind (arith, length-append)

-- Room is left, and no call so far was given a place behind the buffer.
pub record HasRoom (limit : ℕ) (p : Page) : Type 0 where
  pub before : p.overrun ≡ false
  pub room : p.len ≤ limit

widen : (a b : ℕ) (p : Page) → a ≤ b → HasRoom a p → HasRoom b p
widen a b p le h = let low = h.room in record { before = h.before; room = omega (arith, low, le) }

print-HasRoom :
    (limit : ℕ) (t : List ℕ) (p : Page)
    → limit ≤ 8192
    → HasRoom limit p
    → HasRoom (limit + length t) (print page_buf t p)
unfolding print
print-HasRoom limit t p small h =
    let good = h.before in
    let low = h.room in record { before = ground arith; room = omega (arith, low) }

render_entry-HasRoom :
    (is_fav : Bool) (e : ClipEntry) (p : Page)
    → IsShort e
    → p.len < 7492
    → p.overrun ≡ false
    → HasRoom 8081 (render_entry is_fav e p)
unfolding render_entry print_all
render_entry-HasRoom is_fav e p short low good =
    let size = length-entry is_fav e short in
    let a =
      print-HasRoom p.len (entry_frame is_fav) p (omega (arith, low))
        (record { before = good; room = omega arith }) in
    let b = print-HasRoom _ (entry_text e) _ (omega (arith, low, size)) a in
    let c = print-HasRoom _ (entry_links is_fav e) _ (omega (arith, low, size)) b in
    record { before = c.before; room = omega (arith, c.room, size, low) }

render_entries-HasRoom :
    (is_fav : Bool) (es : List ClipEntry) (limit : ℕ) (p : Page)
    → 8081 ≤ limit
    → All IsShort es
    → HasRoom limit p
    → HasRoom limit (render_entries is_fav es p)
unfolding render_entries
render_entries-HasRoom is_fav [] limit p high short h = h
render_entries-HasRoom is_fav (e ∷ es) limit p high short h = elim (Bool-cases (ltb p.len 7492)) [
  | inl on ↦
      let next = render_entry-HasRoom is_fav e p short.0 (ltb→lt p.len 7492 on) h.before in
      rw on (
        render_entries-HasRoom is_fav es limit (render_entry is_fav e p) high short.1
          (record { before = next.before; room = omega (arith, next.room, high) }))
  | inr off ↦ rw off h
]

newest_first-IsShort : (es : List ClipEntry) → All IsShort es → All IsShort (newest_first es)
unfolding newest_first
newest_first-IsShort [] h = h
newest_first-IsShort (e ∷ es) h =
    All-append IsShort (newest_first es) (e ∷ []) (newest_first-IsShort es h.1) (h.0, tt)

length-titles :
    (n : ℕ)
    → (length favorites_title ≤ 20)
      × (length (recent_title n) ≤ 40)
      × (length nothing_text ≤ 25)
      × (length clip_foot ≤ 40)
      × (length clip_head ≤ 1000)
unfolding favorites_title recent_title nothing_text clip_foot clip_head
length-titles n =
    let number = length-decimal n in
    let most = length-decimal 15 in
    (omega arith, grind (arith, length-append), omega arith, omega arith, omega arith)

favorites_part-HasRoom :
    (es : List ClipEntry) (p : Page)
    → All IsShort es
    → HasRoom 1000 p
    → HasRoom 8085 (favorites_part es p)
unfolding favorites_part
favorites_part-HasRoom [] p short h = widen 1000 8085 p (omega arith) h
favorites_part-HasRoom (e ∷ es) p short h =
    let titled = print-HasRoom 1000 favorites_title p (omega arith) h in
    print-HasRoom 8081 (codes "<hr>") _ (omega arith) (
      render_entries-HasRoom true (e ∷ es) 8081 _ (omega arith) short
        (widen _ 8081 _ (omega (arith, length-titles 0)) titled))

noted-HasRoom :
    (b : Bool) (p : Page)
    → HasRoom 8125 p
    → HasRoom 8150 (if b then print page_buf nothing_text p else p)
noted-HasRoom true p h =
    widen _ 8150 _ (omega (arith, length-titles 0))
      (print-HasRoom 8125 nothing_text p (omega arith) h)
noted-HasRoom false p h = widen 8125 8150 p (omega arith) h

recent_part-HasRoom :
    (es : List ClipEntry) (p : Page)
    → All IsShort es
    → HasRoom 8085 p
    → HasRoom 8150 (recent_part es p)
unfolding recent_part
recent_part-HasRoom es p short h =
    render_entries-HasRoom false (newest_first es) 8150 _ (omega arith)
      (newest_first-IsShort es short)
      (noted-HasRoom (length es == 0) _ (
        widen _ 8125 _ (omega (arith, length-titles (length es)))
          (print-HasRoom 8085 (recent_title (length es)) p (omega arith) h)))

-- If no entry is long, the page of the clipboard fits, however many entries there are: no call is given a place
-- behind the buffer, and nothing that was printed is cut.
pub clip_page_fits :
    (s : ClipStore) → All IsShort s.favorites → All IsShort s.ring → HasRoom 8191 (clip_page s)
unfolding clip_page
clip_page_fits s favorites ring =
    let headed =
      print-HasRoom 0 clip_head empty_page (omega arith)
        (record { before = refl; room = omega arith }) in
    let opened =
      favorites_part-HasRoom s.favorites _ favorites
        (widen _ 1000 _ (omega (arith, length-titles 0)) headed) in
    widen _ 8191 _ (omega (arith, length-titles 0))
      (print-HasRoom 8150 clip_foot _ (omega arith) (recent_part-HasRoom s.ring _ ring opened))
