-- ===== src/Relay.antt =====
-- main/proxy_relay.c: a request of the phone is rewritten for the upstream proxy, and the reply is
-- relayed. The sockets are parameters: what each `recv` brings is a list of chunks, of which the empty
-- one stands for the end, an error or a timeout, each with whether the client would take it; `strtoul` is a
-- function.
pub mod Head
pub mod Reply
pub mod Body
pub mod Request
pub mod Lines
pub mod Fields
pub mod Sent
use satura_bridge.Buffer.{Page, print, empty_page}
use satura_bridge.Prelude.{
  Bool, List, Option, ℕ, [], c_string, codes, drop, false, if◌then◌else◌, length, ltb, none, not,
  reverse, some, strcasecmp_eq, take, true, ◌&&◌, ◌++◌, ◌+◌, ◌-◌, ◌==◌, ◌||◌, ◌∷◌,
}

abbrev pub head_buf_size : ℕ
head_buf_size = 2048

-- Is `prefix` at the front?
unfoldable pub starts_with : List ℕ → List ℕ → Bool
starts_with [] s = true
starts_with (p ∷ ps) [] = false
starts_with (p ∷ ps) (c ∷ s) = p == c && starts_with ps s

abbrev pub crlf : List ℕ
crlf = 13 ∷ 10 ∷ []

abbrev pub blank_line : List ℕ
blank_line = 13 ∷ 10 ∷ 13 ∷ 10 ∷ []

-- The scan for the blank line that ends the headers, from the front of a list.
unfoldable pub has_terminator : List ℕ → Bool
has_terminator [] = false
has_terminator (c ∷ cs) = starts_with blank_line (c ∷ cs) || has_terminator cs

-- The text behind the first blank line.
unfoldable pub body_start : List ℕ → Option (List ℕ)
body_start [] = none
body_start (c ∷ cs) =
    if starts_with blank_line (c ∷ cs) then some (drop 4 (c ∷ cs)) else body_start cs

-- The bytes read so far, whether the blank line was seen, and the chunks that are not read yet.
pub record HeadState : Type 0 where
  pub head : List ℕ
  pub found_terminator : Bool
  pub unread : List (List ℕ × Bool)

-- The first loop: each round scans only from three bytes before its chunk.
unfoldable pub read_head : List ℕ → Bool → List (List ℕ × Bool) → HeadState
read_head head found [] = record { head = head; found_terminator = found; unread = [] }
read_head head found (([], ok) ∷ cs) = record {
  head = head;
  found_terminator = found;
  unread = if found || not (ltb (length head) (head_buf_size - 1)) then ([], ok) ∷ cs else cs;
}
read_head head found (((b ∷ bs), ok) ∷ cs) =
    let longer = head ++ (b ∷ bs) in
    let rest = read_head longer (has_terminator (drop (length head - 3) longer)) cs in
    if found || not (ltb (length head) (head_buf_size - 1))
    then record { head = head; found_terminator = found; unread = ((b ∷ bs), ok) ∷ cs }
    else rest

-- `strchr(s, c)`: the text behind the first `c`, and the text before it.
unfoldable pub after_char : ℕ → List ℕ → Option (List ℕ)
after_char c [] = none
after_char c (x ∷ xs) = if x == c then some xs else after_char c xs

unfoldable pub before_char : ℕ → List ℕ → List ℕ
before_char c [] = []
before_char c (x ∷ xs) = if x == c then [] else x ∷ before_char c xs

-- The lines that `strstr(s, "\r\n")` finds one after the other, without what is behind the last one;
-- `line` holds the bytes of the current line, the last one first.
unfoldable pub split_lines : List ℕ → List ℕ → List (List ℕ)
split_lines line [] = []
split_lines line (x ∷ []) = []
split_lines line (x ∷ y ∷ xs) = elim (x == 13 && y == 10) [
  | true ↦ reverse line ∷ split_lines [] xs
  | false ↦ split_lines (x ∷ line) (y ∷ xs)
]

-- The header lines: up to the first empty one.
unfoldable pub until_blank : List (List ℕ) → List (List ℕ)
until_blank [] = []
until_blank ([] ∷ ls) = []
until_blank ((c ∷ cs) ∷ ls) = (c ∷ cs) ∷ until_blank ls

-- The status of the reply, "200 OK" if there is none that fits.
unfoldable pub status_of : List ℕ → List ℕ
status_of text = elim (after_char b' ' text) [
  | none ↦ codes "200 OK"
  | some behind ↦ elim (split_lines [] behind) [
    | [] ↦ codes "200 OK"
    | line ∷ ls ↦ if ltb (length line) 32 then line else codes "200 OK"
  ]
]

unfoldable pub is_hop_by_hop_header : List ℕ → Bool
is_hop_by_hop_header name =
    strcasecmp_eq name (codes "Content-Length")
    || strcasecmp_eq name (codes "Transfer-Encoding")
    || strcasecmp_eq name (codes "Connection")

unfoldable pub skip_spaces : List ℕ → List ℕ
skip_spaces [] = []
skip_spaces (c ∷ cs) = if c == b' ' then skip_spaces cs else c ∷ cs

-- What becomes of a header line: dropped, copied, or sent anew as a length.
pub data LineKind : Type 0 where
  dropped copied : LineKind
  content_length : List ℕ → LineKind

unfoldable pub classify : List ℕ → LineKind
classify line = elim (after_char b':' line) [
  | none ↦ dropped
  | some value ↦
      let name = before_char b':' line in
      if ltb (length name) 64
      then (if strcasecmp_eq name (codes "Content-Length")
          then content_length (skip_spaces value)
          else (if is_hop_by_hop_header name then dropped else copied))
      else dropped
]

-- The head that is sent: the buffer `out` with `out_len`, and the length of the body if one is known.
pub record ReplyHead : Type 0 where
  pub out : Page
  pub length_known : Option ℕ

abbrev pub length_line : List ℕ → List ℕ
length_line value = codes "Content-Length: " ++ (value ++ crlf)

-- `snprintf(out + out_len, HEAD_BUF_SIZE - out_len, ...)` under `if (out_len < HEAD_BUF_SIZE)`.
abbrev pub print_guarded : List ℕ → Page → Page
print_guarded text p = if ltb p.len head_buf_size then print head_buf_size text p else p

unfoldable pub add_line : (List ℕ → ℕ) → LineKind → List ℕ → ReplyHead → ReplyHead
add_line strtoul dropped line h = h
add_line strtoul (content_length value) line h =
    let lenbuf = take 31 value in
    record { out = print_guarded (length_line lenbuf) h.out; length_known = some (strtoul lenbuf) }
add_line strtoul copied line h =
    if ltb (h.out.len + length line + 4) head_buf_size
    then record h { out = print head_buf_size (line ++ crlf) h.out }
    else h

unfoldable pub head_lines : (List ℕ → ℕ) → List (List ℕ) → ReplyHead → ReplyHead
head_lines strtoul [] h = h
head_lines strtoul (l ∷ ls) h = head_lines strtoul ls (add_line strtoul (classify l) l h)

-- The lines behind the status line.
unfoldable pub header_lines : List ℕ → List (List ℕ)
header_lines text = until_blank (drop 1 (split_lines [] text))

abbrev pub closing : List ℕ
closing = codes "Connection: close" ++ blank_line

-- The head before its closing lines.
unfoldable pub built_head : (List ℕ → ℕ) → List ℕ → ReplyHead
built_head strtoul text =
    let begun = print head_buf_size (codes "HTTP/1.0 " ++ (status_of text ++ crlf)) empty_page in
    head_lines strtoul (header_lines text) (record { out = begun; length_known = none })

unfoldable pub reply_head : (List ℕ → ℕ) → List ℕ → ReplyHead
reply_head strtoul text =
    let h = built_head strtoul text in record h { out = print_guarded closing h.out }

-- The last loop: what the client took of the body, the chunk that it did not take, and the chunks that
-- are not read. It ends where the upstream does, at such a chunk, or where the length is reached.
pub record BodyState : Type 0 where
  pub sent : List ℕ
  pub refused : List ℕ
  pub left : List (List ℕ × Bool)

abbrev pub wants_more : Option ℕ → ℕ → Bool
wants_more none relayed = true
wants_more (some n) relayed = ltb relayed n

unfoldable pub relay_body : Option ℕ → ℕ → List (List ℕ × Bool) → BodyState
relay_body known relayed [] = record { sent = []; refused = []; left = [] }
relay_body known relayed (([], sent_ok) ∷ cs) = record {
  sent = [];
  refused = [];
  left = if wants_more known relayed then cs else ([], sent_ok) ∷ cs;
}
relay_body known relayed (((b ∷ bs), sent_ok) ∷ cs) =
    let rest = relay_body known (relayed + length (b ∷ bs)) cs in
    if wants_more known relayed
    then (if sent_ok
        then record rest { sent = (b ∷ bs) ++ rest.sent }
        else record { sent = []; refused = b ∷ bs; left = cs })
    else record { sent = []; refused = []; left = ((b ∷ bs), sent_ok) ∷ cs }

-- What the client is sent: the head, with how many bytes `send` is asked for, and the body, of which the
-- part that was read with the head is sent without a look at the result.
pub record Relayed : Type 0 where
  pub head_bytes : Page
  pub body : List ℕ
  pub refused : List ℕ
  pub unsent : List (List ℕ × Bool)

unfoldable pub relay_bytes_httpd : (List ℕ → ℕ) → List (List ℕ × Bool) → Relayed
relay_bytes_httpd strtoul chunks =
    let r = read_head [] false chunks in
    let h = reply_head strtoul (c_string r.head) in
    let first : List ℕ = elim (body_start r.head) [ none ↦ [] | some b ↦ b ] in
    let b = relay_body h.length_known (length first) r.unread in
    record { head_bytes = h.out; body = first ++ b.sent; refused = b.refused; unsent = b.left }
