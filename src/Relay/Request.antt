-- ===== src/Relay/Request.antt =====
-- `handler_proxy_relay` of main/proxy_relay.c: when a request is relayed, and the bytes that the upstream
-- is sent for it. What the HTTP server knows of the request is a record, what `socket`, `inet_pton` and
-- `connect` bring is one Boolean each.
use satura_bridge.Prelude.{
  Bool, List, Option, [], codes, decimal, if◌then◌else◌, length, ltb, none, not, some, ℕ, ◌&&◌,
  ◌++◌, ◌-◌, ◌==◌, ◌||◌, ◌∷◌,
}
use satura_bridge.Buffer.{printed}
use satura_bridge.Relay.{crlf, before_char}

-- `header_value` is what `httpd_req_get_hdr_value_str` brings for a name and a buffer size; `body` is what
-- each `httpd_req_recv` brings, the empty chunk for an error.
pub record HttpRequest : Type 0 where
  pub is_post : Bool
  pub uri : List ℕ
  pub header_value : List ℕ → ℕ → Option (List ℕ)
  pub content_len : ℕ
  pub body : List (List ℕ)

abbrev pub forward_headers : List (List ℕ)
forward_headers =
    codes "User-Agent"
    ∷ codes "Accept"
    ∷ codes "Accept-Language"
    ∷ codes "Accept-Charset"
    ∷ codes "Cookie"
    ∷ codes "Content-Type"
    ∷ []

abbrev pub request_line : List ℕ → HttpRequest → List ℕ
request_line host req =
    (if req.is_post then codes "POST" else codes "GET")
    ++ (codes " http://" ++ (host ++ (req.uri ++ (codes " HTTP/1.1" ++ crlf))))

abbrev pub header_text : List ℕ → List ℕ → List ℕ
header_text name value = name ++ (codes ": " ++ (value ++ crlf))

unfoldable pub forwarded_headers : HttpRequest → List (List ℕ) → List (List ℕ)
forwarded_headers req [] = []
forwarded_headers req (name ∷ names) = elim (req.header_value name 512) [
  | none ↦ forwarded_headers req names
  | some value ↦ printed 560 (header_text name value) ∷ forwarded_headers req names
]

abbrev pub length_header : HttpRequest → List (List ℕ)
length_header req =
    if ltb 0 req.content_len
    then printed 64 (header_text (codes "Content-Length") (decimal req.content_len)) ∷ []
    else []

-- `send(upstream_sock, "Connection: close\r\n\r\n", 22, 0)`, of a literal of 21 bytes and its NUL.
abbrev pub request_end : List ℕ
request_end = codes "Connection: close" ++ (crlf ++ (crlf ++ 0 ∷ []))

unfoldable pub request_body : ℕ → List (List ℕ) → List (List ℕ)
request_body remaining [] = []
request_body remaining ([] ∷ cs) = []
request_body remaining ((b ∷ bs) ∷ cs) =
    let rest = request_body (remaining - length (b ∷ bs)) cs in
    if ltb 0 remaining then (b ∷ bs) ∷ rest else []

-- The blocks that are sent to the upstream, in order.
unfoldable pub request_blocks : List ℕ → HttpRequest → List (List ℕ)
request_blocks host req =
    printed 1200 (request_line host req)
    ∷ printed 160 (header_text (codes "Host") host)
    ∷ (forwarded_headers req forward_headers
        ++ (length_header req ++ request_end ∷ request_body req.content_len req.body))

-- What becomes of a request: the portal's redirect, an error 500, or a relay with what is sent.
pub data RelayResult : Type 0 where
  redirected failed : RelayResult
  relayed : List (List ℕ) → RelayResult

-- The answers of the other components and of the sockets.
pub record RelayEnv : Type 0 where
  pub enabled : Bool
  pub foreign : Bool
  pub upstream_host : List ℕ
  pub upstream_port : ℕ
  pub socket_ok : Bool
  pub address_ok : Bool
  pub connect_ok : Bool

abbrev pub is_reachable : RelayEnv → Bool
is_reachable env =
    not (length env.upstream_host == 0)
    && not (env.upstream_port == 0)
    && env.socket_ok
    && env.address_ok
    && env.connect_ok

unfoldable pub handler_proxy_relay : RelayEnv → HttpRequest → RelayResult
handler_proxy_relay env req =
    if not env.enabled || not env.foreign
    then redirected
    else elim (req.header_value (codes "Host") 128) [
      | none ↦ failed
      | some host ↦
          if is_reachable env then relayed (request_blocks (before_char b':' host) req) else failed
    ]
