-- ===== src/HttpUtils.antt =====
-- main/http_utils.c: escaping for HTML, percent-encoding, and the test for a foreign `Host`.
-- A destination buffer of `n` bytes is its size; the functions return what stands before the NUL
-- that they write last. Bytes are numbers; `char` is only compared for equality and with ASCII ranges.
pub mod Escape
pub mod Encode
pub mod Host
pub mod Raw
use satura_bridge.Prelude.{
  ℕ, ◌+◌, ◌-◌, ◌*◌, ◌/◌, ◌%◌, Bool, true, false, not, ◌&&◌, ◌||◌, Option, none, some, List, [], ◌∷◌,
  ◌++◌, ltb, leb, ◌==◌, if◌then◌else◌, length, take, codes, strcmp_eq,
}

-- The replacement of a character that HTML reads as markup.
unfoldable pub entity : ℕ → Option (List ℕ)
entity c =
    if c == b'&'
    then some (codes "&amp;")
    else if c == b'<'
    then some (codes "&lt;")
    else if c == b'>'
    then some (codes "&gt;")
    else if c == b'"'
    then some (codes "&quot;")
    else none

-- What one character of the source adds to the destination.
unfoldable pub escape_char : ℕ → List ℕ
unfolding entity
escape_char c = elim (entity c) [ some rep ↦ rep | none ↦ c ∷ [] ]

-- The loop, with `w` bytes written so far.
unfoldable pub escape_loop : List ℕ → ℕ → ℕ → List ℕ
escape_loop [] w n = []
escape_loop (c ∷ p) w n =
    let rest = escape_char c ++ escape_loop p (w + length (escape_char c)) n in
    if ltb (w + 7) n then rest else []

unfoldable pub html_escape : List ℕ → ℕ → List ℕ
unfolding escape_loop
html_escape src n = escape_loop src 0 n

-- The characters that `url_encode` copies.
unfoldable pub is_unreserved : ℕ → Bool
is_unreserved c =
    leb b'A' c && leb c b'Z'
    || leb b'a' c && leb c b'z'
    || leb b'0' c && leb c b'9'
    || c == b'-'
    || c == b'_'
    || c == b'.'
    || c == b'~'

-- One digit of `%02X`.
unfoldable pub hex_digit : ℕ → ℕ
hex_digit k = if ltb k 10 then b'0' + k else b'A' + (k - 10)

unfoldable pub encode_char : ℕ → List ℕ
unfolding is_unreserved hex_digit
encode_char c =
    if is_unreserved c then c ∷ [] else b'%' ∷ hex_digit (c / 16) ∷ hex_digit (c % 16) ∷ []

unfoldable pub encode_loop : List ℕ → ℕ → ℕ → List ℕ
encode_loop [] w n = []
encode_loop (c ∷ p) w n =
    let rest = encode_char c ++ encode_loop p (w + length (encode_char c)) n in
    if ltb (w + 4) n then rest else []

unfoldable pub url_encode : List ℕ → ℕ → List ℕ
unfolding encode_loop
url_encode src n = encode_loop src 0 n

-- `none` is the result -1.
unfoldable pub hex_val : ℕ → Option ℕ
hex_val c =
    if leb b'0' c && leb c b'9'
    then some (c - b'0')
    else if leb b'a' c && leb c b'f'
    then some (c - b'a' + 10)
    else if leb b'A' c && leb c b'F'
    then some (c - b'A' + 10)
    else none

-- The byte `(hi << 4) | lo`, where both digits are there; the halves do not overlap.
unfoldable pub hex_pair : Option ℕ → Option ℕ → Option ℕ
hex_pair (some hi) (some lo) = some (hi * 16 + lo)
hex_pair (some hi) none = none
hex_pair none lo = none

-- A `%XX` escape at the front of the source: `c` and the two characters behind it.
unfoldable pub escape_value : ℕ → ℕ → ℕ → Option ℕ
unfolding hex_val hex_pair
escape_value c a b = if c == b'%' then hex_pair (hex_val a) (hex_val b) else none

-- A character that is not part of an escape.
unfoldable pub plain_char : ℕ → ℕ
plain_char c = if c == b'+' then b' ' else c

unfoldable pub decode_loop : List ℕ → ℕ → ℕ → List ℕ
decode_loop [] w n = []
decode_loop (c ∷ []) w n = if ltb (w + 1) n then plain_char c ∷ [] else []
decode_loop (c ∷ a ∷ []) w n =
    let rest = plain_char c ∷ decode_loop (a ∷ []) (w + 1) n in if ltb (w + 1) n then rest else []
decode_loop (c ∷ a ∷ b ∷ p) w n = elim (ltb (w + 1) n) [
  | true ↦ elim (escape_value c a b) [
    | some v ↦ v ∷ decode_loop p (w + 1) n
    | none ↦ plain_char c ∷ decode_loop (a ∷ b ∷ p) (w + 1) n
  ]
  | false ↦ []
]

unfoldable pub url_decode : List ℕ → ℕ → List ℕ
unfolding decode_loop
url_decode src n = decode_loop src 0 n

abbrev pub gw_ip_str : List ℕ
gw_ip_str = codes "192.168.7.1"

-- `wifi_ip` is the text that `wifi_manager_get_ip` reports; it is at most 15 bytes long.
unfoldable pub host_matches_bridge : List ℕ → List ℕ → Bool
host_matches_bridge host_no_port wifi_ip =
    let sta_ip = take 15 wifi_ip in
    strcmp_eq host_no_port gw_ip_str
    || not (strcmp_eq sta_ip [])
      && not (strcmp_eq sta_ip (codes "--"))
      && strcmp_eq host_no_port sta_ip

-- `strchr(s, ':')` and the NUL written over what it finds.
unfoldable pub before_colon : List ℕ → List ℕ
before_colon [] = []
before_colon (c ∷ s) = if c == b':' then [] else c ∷ before_colon s

-- `host` is what `httpd_req_get_hdr_value_str` returned, `none` where that was an error.
unfoldable pub is_foreign_host : Option (List ℕ) → List ℕ → Bool
unfolding host_matches_bridge before_colon
is_foreign_host none wifi_ip = false
is_foreign_host (some host) wifi_ip =
    not (host_matches_bridge (before_colon (take 127 host)) wifi_ip)
