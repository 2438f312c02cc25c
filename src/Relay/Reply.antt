-- ===== src/Relay/Reply.antt =====
-- The head that main/proxy_relay.c sends to the phone, against a description by lines.
use satura_bridge.Prelude.{
  List, [], append-nil, arith, codes, false, length, length-append, lt→ltb, refl, sym, ℕ, ◌++◌, ◌+◌,
  ◌<◌, ◌∷◌, ◌≡◌, ap, append_assoc, none, ◌∙◌, ◌≤◌, length-take, take,
}
use satura_bridge.Buffer.{Page, print, total, joined, print-fits, empty_page}
use satura_bridge.Relay.{
  built_head, LineKind, dropped, copied, content_length, classify, ReplyHead, add_line, head_lines,
  header_lines, reply_head, print_guarded, length_line, closing, status_of, crlf, head_buf_size,
}

-- What a header line of the upstream becomes.
unfoldable pub forwarded_as : LineKind → List ℕ → List ℕ
forwarded_as dropped line = []
forwarded_as copied line = line ++ crlf
forwarded_as (content_length value) line = length_line (take 31 value)

unfoldable pub forwarded_lines : List (List ℕ) → List (List ℕ)
forwarded_lines [] = []
forwarded_lines (l ∷ ls) = forwarded_as (classify l) l ∷ forwarded_lines ls

abbrev pub status_line : List ℕ → List ℕ
status_line text = codes "HTTP/1.0 " ++ (status_of text ++ crlf)

-- The buffer after a text that fits.
abbrev pub grown : Page → List ℕ → Page
grown p t = record { bytes = p.bytes ++ t; len = p.len + length t; overrun = false }

line_fits :
    (k : LineKind) (strtoul : List ℕ → ℕ) (line : List ℕ) (h : ReplyHead)
    → h.out.overrun ≡ false
    → h.out.len + length (forwarded_as k line) + 2 < 2048
    → (add_line strtoul k line h).out.overrun ≡ false
      × ((add_line strtoul k line h).out.len ≡ h.out.len + length (forwarded_as k line))
      × ((add_line strtoul k line h).out.bytes ≡ h.out.bytes ++ forwarded_as k line)
unfolding add_line forwarded_as
line_fits dropped strtoul line h good fits = (good, (omega arith), sym (append-nil h.out.bytes))
line_fits (content_length value) strtoul line h good fits =
    rw
      (
        lt→ltb h.out.len head_buf_size (omega arith),
        print-fits 2048 (length_line (take 31 value)) h.out good (omega arith),
      )
      (refl, refl, refl)
line_fits copied strtoul line h good fits =
    rw
      (
        lt→ltb (h.out.len + length line + 4) head_buf_size
            (omega (arith, fits, length-append line crlf)),
        print-fits 2048 (line ++ crlf) h.out good (omega (arith, fits)),
      )
      (refl, refl, refl)

lines_fit :
    (ls : List (List ℕ)) (strtoul : List ℕ → ℕ) (h : ReplyHead)
    → h.out.overrun ≡ false
    → h.out.len + total (forwarded_lines ls) + 2 < 2048
    → let t = head_lines strtoul ls h in
      (t.out.overrun ≡ false)
      × (t.out.len ≡ h.out.len + total (forwarded_lines ls))
      × (t.out.bytes ≡ h.out.bytes ++ joined (forwarded_lines ls))
unfolding head_lines forwarded_lines
lines_fit [] strtoul h good fits = (good, (omega arith), sym (append-nil h.out.bytes))
lines_fit (l ∷ ls) strtoul h good fits =
    let one = line_fits (classify l) strtoul l h good (omega arith) in
    let rest =
      lines_fit ls strtoul (add_line strtoul (classify l) l h) one.0 (omega (arith, one.1)) in
    (
      rest.0,
      (omega (arith, rest.1, one.1)),
      rest.2
          ∙ ap (λ b. b ++ joined (forwarded_lines ls)) one.2
          ∙ append_assoc h.out.bytes (forwarded_as (classify l) l) (joined (forwarded_lines ls)),
    )

-- The length of the status line and of what the header lines become.
unfoldable pub block_length : List ℕ → ℕ
block_length text = length (status_line text) + total (forwarded_lines (header_lines text))

block_fits :
    (strtoul : List ℕ → ℕ) (text : List ℕ)
    → block_length text + 2 < 2048
    → let t = (built_head strtoul text).out in
      (t.overrun ≡ false)
      × (t.len ≡ block_length text)
      × (t.bytes ≡ status_line text ++ joined (forwarded_lines (header_lines text)))
unfolding block_length built_head
block_fits strtoul text fits =
    let begun : Page = grown empty_page (status_line text) in
    let fit =
      lines_fit (header_lines text) strtoul (record { out = begun; length_known = none }) refl
        (omega arith) in
    rw (print-fits 2048 (status_line text) empty_page refl (omega arith))
      (fit.0, (omega (arith, fit.1)), fit.2)

-- Where the status line, the forwarded header lines and the closing lines fit into the buffer, the
-- client is sent exactly these: every header line but those of the framing and those without a name of
-- at most 63 bytes is forwarded as it is, in order, and a length is repeated.
pub reply_head-forwarded_lines :
    (strtoul : List ℕ → ℕ) (text : List ℕ)
    → block_length text + 21 < 2048
    → let out = (reply_head strtoul text).out in
      (out.bytes ≡ (status_line text ++ joined (forwarded_lines (header_lines text))) ++ closing)
      × (out.len ≡ block_length text + length closing)
unfolding reply_head
reply_head-forwarded_lines strtoul text fits =
    let t = (built_head strtoul text).out in
    let fit = block_fits strtoul text (omega (arith, fits)) in
    rw
      (
        lt→ltb t.len head_buf_size (omega (arith, fit.1, fits)),
        print-fits 2048 closing t fit.0 (omega (arith, fit.1, fits)),
      )
      (ap (λ b. b ++ closing) fit.2, omega (arith, fit.1))

-- Where the forwarded lines leave less room than the closing lines need, `send` is asked for more bytes
-- than the buffer has.
pub reply_head_overread :
    (strtoul : List ℕ → ℕ) (text : List ℕ)
    → 2028 ≤ block_length text
    → block_length text + 2 < 2048
    → 2048 < (reply_head strtoul text).out.len
unfolding reply_head
reply_head_overread strtoul text full fits =
    let t = (built_head strtoul text).out in
    let fit = block_fits strtoul text fits in
    rw (lt→ltb t.len head_buf_size (omega (arith, fit.1, fits)))
      (unfold print in omega (arith, fit.1, full))

-- A buffer that was only written within its size, with the length at most 48 above it.
abbrev IsBounded : Page → Type 0
IsBounded p = (p.overrun ≡ false) × (p.len ≤ 2096)

guarded-IsBounded :
    (text : List ℕ) (p : Page) → length text ≤ 49 → IsBounded p → IsBounded (print_guarded text p)
unfolding print
guarded-IsBounded text p h v = ground arith

line-IsBounded :
    (k : LineKind) (strtoul : List ℕ → ℕ) (line : List ℕ) (h : ReplyHead)
    → IsBounded h.out
    → IsBounded (add_line strtoul k line h).out
unfolding add_line
line-IsBounded dropped strtoul line h v = v
line-IsBounded (content_length value) strtoul line h v =
    guarded-IsBounded (length_line (take 31 value)) h.out
      (omega (arith, length-append (take 31 value) crlf, length-take 31 value)) v
line-IsBounded copied strtoul line h v = unfold print in ground (arith, length-append line crlf)

lines-IsBounded :
    (ls : List (List ℕ)) (strtoul : List ℕ → ℕ) (h : ReplyHead)
    → IsBounded h.out
    → IsBounded (head_lines strtoul ls h).out
unfolding head_lines
lines-IsBounded [] strtoul h v = v
lines-IsBounded (l ∷ ls) strtoul h v =
    lines-IsBounded ls strtoul (add_line strtoul (classify l) l h)
      (line-IsBounded (classify l) strtoul l h v)

status_short : (text : List ℕ) → length (status_of text) ≤ 31
unfolding status_of
status_short text = ground arith

-- Whatever the upstream sends, nothing is written behind the buffer, and `send` is asked for at most 48
-- bytes more than it holds.
pub reply_head_bounds :
    (strtoul : List ℕ → ℕ) (text : List ℕ)
    → let out = (reply_head strtoul text).out in (out.overrun ≡ false) × (out.len ≤ 2096)
unfolding reply_head built_head
reply_head_bounds strtoul text =
    let short = status_short text in
    guarded-IsBounded closing _ (omega arith) (
      lines-IsBounded (header_lines text) strtoul
        (record { out = print head_buf_size (status_line text) empty_page; length_known = none })
        (unfold print in (refl, omega (arith, short, length-append (status_of text) crlf))))
