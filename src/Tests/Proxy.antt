-- ===== src/Tests/Proxy.antt =====
-- The theorems on main/proxy_relay.c, on a short reply and a short request.
use satura_bridge.Prelude.{Bool, List, [], ◌∷◌, ◌++◌, ℕ, ◌≡◌, codes, true, none}
use satura_bridge.Relay.{read_head, has_terminator}
use satura_bridge.Relay.Head.{joined_chunks, read_head-has_terminator}
use satura_bridge.Relay.Lines.{Field}
use satura_bridge.Relay.Request.{HttpRequest}

-- The blank line is cut in two by the chunks.
abbrev chunks : List (List ℕ × Bool)
chunks =
    (codes "HTTP/1.1 204 Gone" ++ (13 ∷ 10 ∷ 13 ∷ []), true)
    ∷ (10 ∷ codes "body", true)
    ∷ (codes "tail", true)
    ∷ []

read_head-has_terminator_example :
    let r = read_head [] (has_terminator []) chunks in
    (r.found_terminator ≡ has_terminator r.head)
    × (r.head ++ joined_chunks r.unread ≡ [] ++ joined_chunks chunks)
read_head-has_terminator_example = read_head-has_terminator chunks []

-- A reply whose connection is to be kept, with three bytes of a body.
abbrev fields : List Field
fields =
    record { name = codes "Server"; blanks = 1; value = codes "x" }
    ∷ record { name = codes "Connection"; blanks = 1; value = codes "keep-alive" }
    ∷ record { name = codes "content-length"; blanks = 2; value = codes "3" }
    ∷ []

abbrev form : HttpRequest
form = record {
  is_post = true;
  uri = codes "/go";
  header_value = λ name size. none;
  content_len = 3;
  body = codes "a=1" ∷ [];
}
