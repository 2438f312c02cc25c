-- ===== src/Relay/Sent.antt =====
-- The bytes that the upstream is sent for a request, against the text of the request.
use satura_bridge.Prelude.{
  All, List, [], ap, arith, codes, decimal, if◌then◌else◌, length, length-append, ltb, lt→ltb, none,
  refl, some, ℕ, ◌++◌, ◌-◌, ◌∷◌, ◌≡◌, ◌≢◌, ◌≤◌, map, ◌<◌,
}
use satura_bridge.Buffer.{joined}
use satura_bridge.Relay.{crlf}
use satura_bridge.Relay.Request.{HttpRequest, request_body}

-- A body chunk that the server hands out fits what is left of the body.
unfoldable pub BodyFits : ℕ → List (List ℕ) → Type 0
BodyFits remaining [] = Unit
BodyFits remaining (c ∷ cs) = (length c ≤ remaining) × BodyFits (remaining - length c) cs

-- Of the request's body at most as many bytes are sent as the Content-Length that is announced, and
-- exactly as many if the server hands out the whole body.
pub request_body-length :
    (remaining : ℕ) (cs : List (List ℕ))
    → BodyFits remaining cs
    → All (λ c. c ≢ []) cs
    → joined (request_body remaining cs) ≡ joined cs × (length (joined cs) ≤ remaining)
unfolding request_body BodyFits
request_body-length remaining [] f h = (refl, (omega arith))
request_body-length remaining ([] ∷ cs) f h = absurd (h.0 refl)
request_body-length remaining ((b ∷ bs) ∷ cs) f h =
    let ih = request_body-length (remaining - length (b ∷ bs)) cs f.1 h.1 in
    rw (lt→ltb 0 remaining (omega (arith, f.0)))
      (ap (λ t. (b ∷ bs) ++ t) ih.0, omega (arith, ih.1, f.0, length-append (b ∷ bs) (joined cs)))

-- A header of the phone, as it is passed on.
unfoldable pub header_field : HttpRequest → List ℕ → List ℕ
header_field req name = elim (req.header_value name 512) [
  | none ↦ []
  | some value ↦ name ++ (codes ": " ++ (value ++ crlf))
]

-- The headers that a gateway wants to see.
abbrev pub wap_headers : List (List ℕ)
wap_headers =
    codes "User-Agent"
    ∷ codes "Accept"
    ∷ codes "Accept-Language"
    ∷ codes "Accept-Charset"
    ∷ codes "Cookie"
    ∷ codes "Content-Type"
    ∷ []

-- The request as a text: the line with the whole address, the headers, and, behind the empty line, a zero
-- byte and the body.
abbrev pub request_text : List ℕ → HttpRequest → List ℕ
request_text host req =
    ((if req.is_post then codes "POST" else codes "GET")
      ++ (codes " http://" ++ (host ++ (req.uri ++ (codes " HTTP/1.1" ++ crlf)))))
    ++ ((codes "Host: " ++ (host ++ crlf))
        ++ (joined (map (header_field req) wap_headers)
            ++ ((if ltb 0 req.content_len
                  then codes "Content-Length: " ++ (decimal req.content_len ++ crlf)
                  else [])
                ++ (codes "Connection: close" ++ (crlf ++ (crlf ++ 0 ∷ joined req.body))))))

-- As documented, a value that the server hands out fits the buffer with its NUL.
unfoldable pub ValuesFit : HttpRequest → Type 0
ValuesFit req =
    (name : List ℕ) (n : ℕ) (value : List ℕ)
    → req.header_value name n ≡ some value
    → length value < n
