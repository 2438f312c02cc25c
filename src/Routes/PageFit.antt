-- ===== src/Routes/PageFit.antt =====
-- When the page of the networks in main/http_routes.c fits its 4096 bytes, and when it does not.
use satura_bridge.Prelude.{
  Bool, List, [], ◌∷◌, ◌++◌, ℕ, take-all, lt→ltb, Bool-cases, inl, inr, subst, ◌≤◌, ◌<◌, ◌≡◌, ◌+◌,
  ◌*◌, arith, length, true, false, map, sym, ap, ◌∙◌, refl, append_assoc, if◌then◌else◌, ltb, codes,
  suc, take, ◌==◌,
}
use satura_bridge.Buffer.{
  Page, print, print_all, empty_page, total, joined, print_all-append, len-print_all,
  print_all_fits, overrun-print,
}
use satura_bridge.Networks.{WifiNetwork}
use satura_bridge.Wifi.State.{ScanResult}
use satura_bridge.Routes.Pages.{page_networks_header, page_networks_footer}
use satura_bridge.Routes.NetworksPage.{
  page_size, networks_page, print_results, results_part, saved_part, result_text, saved_head,
  saved_texts, none_yet_text, add_form, found_text, rescan_text, no_results_text, scanning_text,
}
use satura_bridge.Routes.PageSize.{
  total-append, total-results, length-result_text, total-saved_texts, length-saved_head,
  length-add_form, length-header, length-footer, length-results_frame,
}

-- The pieces of the part with the scan results, when all are printed.
pub results_pieces : List ScanResult → List (List ℕ)
results_pieces [] = found_text ∷ no_results_text ∷ rescan_text ∷ []
results_pieces (r ∷ rs) = found_text ∷ (map result_text (r ∷ rs) ++ rescan_text ∷ [])

-- The whole page, piece by piece.
pub page_pieces : Bool → List ScanResult → List WifiNetwork → List (List ℕ)
page_pieces scanning rs ns =
    page_networks_header
    ∷ ((if scanning then scanning_text ∷ [] else results_pieces rs) ++ saved_part ns)

length-print : (p : Page) (t : List ℕ) → (print page_size t p).len ≡ p.len + length t
unfolding print
length-print p t = refl

-- Below the limit of the loop, every result is printed.
print_results_all :
    (rs : List ScanResult) (p : Page)
    → p.len + 245 * length rs < 3600
    → print_results rs p ≡ print_all page_size (map result_text rs) p
unfolding print_results print_all
print_results_all [] p h = refl
print_results_all (r ∷ rs) p h =
    let size = length-result_text r in
    let q = print page_size (result_text r) p in
    let next = print_results_all rs q (omega (arith, h, size, length-print p (result_text r))) in
    rw (lt→ltb p.len 3600 (omega (arith, h))) next

results_part_pieces :
    (rs : List ScanResult) (p : Page)
    → length rs ≤ 7
    → p.len ≤ 290
    → results_part rs p ≡ print_all page_size (results_pieces rs) p
unfolding print_all results_pieces
results_part_pieces [] p few low = unfold print_results in refl
results_part_pieces (r ∷ rs) p few low =
    let head = length-results_frame in
    let q = print page_size found_text p in
    let all =
      print_results_all (r ∷ rs) q (omega (arith, few, low, head.0, length-print p found_text)) in
    let shown = take-all 20 (r ∷ rs) (omega (arith, few)) in
    let more : (suc (length (take 19 rs)) == 0) ≡ false = ground arith in
    rw more (
      subst
        (λ us.
          print page_size rescan_text (print_results us q)
          ≡ print_all page_size (results_pieces (r ∷ rs)) p)
        (sym shown)
        (ap (print page_size rescan_text) all
          ∙ sym (print_all-append page_size (map result_text (r ∷ rs)) (rescan_text ∷ []) q)))

networks_page_pieces :
    (scanning : Bool) (rs : List ScanResult) (ns : List WifiNetwork)
    → length rs ≤ 7
    → networks_page scanning rs ns ≡ print_all page_size (page_pieces scanning rs ns) empty_page
unfolding networks_page page_pieces print_all
networks_page_pieces true rs ns few = refl
networks_page_pieces false rs ns few =
    let headed = print page_size page_networks_header empty_page in
    ap (print_all page_size (saved_part ns)) (
      results_part_pieces rs headed few
        (omega (arith, length-header, length-print empty_page page_networks_header)))
    ∙ sym (print_all-append page_size (results_pieces rs) (saved_part ns) headed)

total-results_pieces : (rs : List ScanResult) → length rs ≤ 7 → total (results_pieces rs) ≤ 1935
unfolding results_pieces
total-results_pieces [] few = let frame = length-results_frame in omega (arith, frame.0, frame.1)
total-results_pieces (r ∷ rs) few =
    let frame = length-results_frame in
    omega (
      arith,
      few,
      frame.0,
      total-append (map result_text (r ∷ rs)) (rescan_text ∷ []),
      total-results (r ∷ rs),
    )

-- What stands behind the saved networks.
abbrev page_end : List (List ℕ)
page_end = codes "</div><br>" ∷ (add_form ∷ (page_networks_footer ∷ []))

total-saved_part : (ns : List WifiNetwork) → length ns ≤ 6 → total (saved_part ns) ≤ 1830
unfolding saved_part
total-saved_part ns six =
    let frame = length-results_frame in
    let none_yet = if length ns == 0 then none_yet_text ∷ [] else [] in
    let few : total none_yet ≤ 30 = ground (arith, frame.3) in
    omega (
      arith,
      few,
      six,
      length-saved_head (length ns),
      length-add_form,
      length-footer,
      total-append none_yet (saved_texts 0 ns ++ page_end),
      total-append (saved_texts 0 ns) page_end,
      total-saved_texts 0 ns,
    )

total-page_pieces :
    (scanning : Bool) (rs : List ScanResult) (ns : List WifiNetwork)
    → length rs ≤ 7
    → length ns ≤ 6
    → total (page_pieces scanning rs ns) < 4096
unfolding page_pieces
total-page_pieces true rs ns few six =
    let frame = length-results_frame in
    omega (arith, length-header, total-saved_part ns six, frame.2, few)
total-page_pieces false rs ns few six = omega (
  arith,
  length-header,
  total-saved_part ns six,
  total-results_pieces rs few,
  total-append (results_pieces rs) (saved_part ns),
)

-- With at most seven scan results and six saved networks the page is whole: every piece in its order, and
-- no call is given a place behind the buffer.
pub networks_page_fits :
    (scanning : Bool) (rs : List ScanResult) (ns : List WifiNetwork)
    → length rs ≤ 7
    → length ns ≤ 6
    → ((networks_page scanning rs ns).overrun ≡ false)
      × ((networks_page scanning rs ns).bytes ≡ joined (page_pieces scanning rs ns))
networks_page_fits scanning rs ns few six =
    let fits =
      print_all_fits page_size (page_pieces scanning rs ns) empty_page refl
        (omega (arith, total-page_pieces scanning rs ns few six)) in
    subst (λ (p : Page). (p.overrun ≡ false) × (p.bytes ≡ joined (page_pieces scanning rs ns)))
      (sym (networks_page_pieces scanning rs ns few)) fits

-- The loop stops only once 3600 bytes are there.
print_results_reach :
    (rs : List ScanResult) (p : Page)
    → 3600 ≤ p.len + total (map result_text rs)
    → 3600 ≤ (print_results rs p).len
unfolding print_results print
print_results_reach [] p h = omega (arith, h)
print_results_reach (r ∷ rs) p h = elim (Bool-cases (ltb p.len 3600)) [
  | inl on ↦ rw on (print_results_reach rs (print page_size (result_text r) p) (omega (arith, h)))
  | inr off ↦ rw off (ground arith)
]

results_part_reach :
    (rs : List ScanResult) (p : Page)
    → length rs ≤ 20
    → 3600 ≤ p.len + length found_text + total (map result_text rs)
    → 3650 ≤ (results_part rs p).len
results_part_reach rs p few long =
    let opened = print page_size found_text p in
    let noted =
      if length (take 20 rs) == 0 then print page_size no_results_text opened else opened in
    let whole = ap (λ us. total (map result_text us)) (take-all 20 rs few) in
    let frame = length-results_frame in
    let above : p.len + length found_text ≤ noted.len =
      ground (arith, length-print p found_text, length-print opened no_results_text) in
    let reached = print_results_reach (take 20 rs) noted (omega (arith, long, above, whole)) in
    omega (arith, reached, frame.4, length-print (print_results (take 20 rs) noted) rescan_text)

-- When the scan results of the page come to 3600 bytes with what stands above them, the last `snprintf` is
-- given a place behind the buffer and a size that wrapped: the limit of the loop leaves too little for
-- the fixed parts behind it.
pub networks_page_overrun :
    (rs : List ScanResult) (ns : List WifiNetwork)
    → length rs ≤ 20
    → 3600 ≤ length page_networks_header + length found_text + total (map result_text rs)
    → (networks_page false rs ns).overrun ≡ true
unfolding networks_page saved_part
networks_page_overrun rs ns few long =
    let q = results_part rs (print page_size page_networks_header empty_page) in
    let none_yet = if length ns == 0 then none_yet_text ∷ [] else [] in
    let before =
      saved_head (length ns)
      ∷ (none_yet ++ (saved_texts 0 ns ++ (codes "</div><br>" ∷ (add_form ∷ [])))) in
    let split : saved_part ns ≡ before ++ page_networks_footer ∷ [] = simp append_assoc in
    let reached =
      results_part_reach rs (print page_size page_networks_header empty_page) few
        (omega (arith, long, length-print empty_page page_networks_header)) in
    ap (λ ts. (print_all page_size ts q).overrun) split
    ∙ ap (λ (p : Page). p.overrun) (print_all-append page_size before (page_networks_footer ∷ []) q)
    ∙ overrun-print page_size page_networks_footer [] (print_all page_size before q) (
        omega (
          arith,
          reached,
          length-saved_head (length ns),
          length-add_form,
          len-print_all page_size before q,
          total-append none_yet (saved_texts 0 ns ++ (codes "</div><br>" ∷ (add_form ∷ []))),
          total-append (saved_texts 0 ns) (codes "</div><br>" ∷ (add_form ∷ [])),
        ))
