-- ===== src/Relay/Fields.antt =====
-- The head that main/proxy_relay.c sends to the phone, for a reply that is given by its status and its
-- header fields.
use satura_bridge.Prelude.{
  Bool, List, [], codes, if◌then◌else◌, leb, length, ltb, map, strcasecmp_eq, take, ℕ, ◌++◌, ◌||◌,
  ◌∷◌,
}
use satura_bridge.Buffer.{joined}
use satura_bridge.Relay.{
  is_hop_by_hop_header, LineKind, skip_spaces, crlf, dropped, copied, content_length,
}
use satura_bridge.Relay.Lines.{Field, field_line}

-- What the phone is sent for a field: nothing if its name has 64 bytes or more, the length anew with at most
-- 31 bytes, nothing for the two other fields of the framing, and else the line as it was.
unfoldable pub sent_field : Field → List ℕ
sent_field f =
    if leb 64 (length f.name)
    then []
    else if strcasecmp_eq f.name (codes "Content-Length")
    then codes "Content-Length: " ++ (take 31 f.value ++ crlf)
    else if strcasecmp_eq f.name (codes "Transfer-Encoding")
        || strcasecmp_eq f.name (codes "Connection")
    then []
    else field_line f ++ crlf

-- What the upstream sends: the version, the status, the fields, the empty line, and what was read behind it.
abbrev pub upstream_text : List ℕ → List ℕ → List Field → List ℕ → List ℕ
upstream_text version status fs rest =
    version
    ++ (b' '
        ∷ (status ++ (13 ∷ 10 ∷ (joined (map (λ f. field_line f ++ crlf) fs) ++ (13 ∷ 10 ∷ rest)))))

abbrev kind_when : Bool → List ℕ → List ℕ → LineKind
kind_when short name value =
    if short
    then (if strcasecmp_eq name (codes "Content-Length")
        then content_length value
        else (if is_hop_by_hop_header name then dropped else copied))
    else dropped

abbrev kind_of : List ℕ → List ℕ → LineKind
kind_of name value = kind_when (ltb (length name) 64) name (skip_spaces value)

abbrev first_of : List (List ℕ) → List ℕ
first_of [] = codes "200 OK"
first_of (line ∷ ls) = if ltb (length line) 32 then line else codes "200 OK"

-- The head that the phone is sent for a status and fields, without its end.
abbrev pub sent_head : List ℕ → List Field → List ℕ
sent_head status fs = (codes "HTTP/1.0 " ++ (status ++ crlf)) ++ joined (map sent_field fs)
