-- ===== src/HttpUtils/Raw.antt =====
-- main/http_utils.c: headers against caching, and the answer that is written to the socket directly, which
-- no handler calls at present. What the server's library and the socket answer are arguments.
use satura_bridge.Buffer.{printed}
use satura_bridge.Prelude.{
  Bool, List, Option, [], codes, false, none, some, true, ℕ, ◌≡◌, ◌≤◌, ◌++◌, ◌∷◌, length, take-all,
  arith, length-append, if◌then◌else◌, ap,
}

-- A response so far: its type, and the headers with their values.
pub record Headers : Type 0 where
  pub content_type : List ℕ
  pub fields : List (List ℕ × List ℕ)

unfoldable pub set_no_cache : List ℕ → Headers → Headers
set_no_cache type h = record {
  content_type = type;
  fields = h.fields ++ (codes "Cache-Control", codes "no-cache, no-store, must-revalidate") ∷ [];
}

abbrev crlf : List ℕ
crlf = 13 ∷ 10 ∷ []

unfoldable pub raw_header : List ℕ → List ℕ
raw_header content_type =
    codes "HTTP/1.0 200 OK"
    ++ (crlf
        ++ (codes "Content-Type: "
            ++ (content_type
                ++ (crlf
                    ++ (codes "Cache-Control: no-cache, no-store, must-revalidate"
                        ++ (crlf ++ (codes "Connection: close" ++ (crlf ++ crlf))))))))

-- The socket and what was sent; `none` is the -1. `sock` is none for a negative number, and `accepts` is
-- whether `send` does not fail.
unfoldable pub http_raw_response_start : Option ℕ → Bool → List ℕ → Option ℕ × List ℕ
unfolding raw_header
http_raw_response_start none accepts content_type = (none, [])
http_raw_response_start (some sock) accepts content_type =
    if accepts then (some sock, printed 192 (raw_header content_type)) else (none, [])

-- What is sent, if `send` does not fail.
unfoldable pub http_raw_send : Bool → List ℕ → List ℕ → List ℕ × Bool
http_raw_send accepts bytes sent = if accepts then (sent ++ bytes, true) else (sent, false)

-- A content type of at most 85 bytes leaves the header whole, so that it ends with a blank line.
pub raw_header-whole :
    (sock : ℕ) (content_type : List ℕ)
    → length content_type ≤ 85
    → http_raw_response_start (some sock) true content_type ≡ (some sock, raw_header content_type)
unfolding http_raw_response_start
raw_header-whole sock content_type h =
    ap (λ text. (some sock, text))
      (take-all 191 (raw_header content_type) (unfold raw_header in grind (arith, length-append)))
