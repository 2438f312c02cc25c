-- ===== src/Routes/Dispatch.antt =====
-- Which handler the table of main/http_server.c gives a request to.
use satura_bridge.Prelude.{
  and_true, Bool, List, Option, [], ◌∷◌, ◌++◌, ℕ, ◌≡◌, true, not, refl, some, none, strcmp_eq,
  codes, Bool-cases, inl, inr, if◌then◌else◌, ◌&&◌, ◌==◌,
}
use satura_bridge.Routes.Table.{
  Handler, Method, get, post, same_method, UriHandler, uri, uris, find_handler, proxy_relay, root,
  setup_post, setup_get, reset, reboot, favicon, networks_get, networks_add_post, networks_delete,
  networks_scan, networks_connect_get, proxy_get, proxy_post, name_get, name_post, clip_get,
  clip_add_post, clip_action_get,
}

-- No character of a template that `httpd_uri_match_wildcard` reads as more than itself.
unfoldable pub is_plain : List ℕ → Bool
is_plain [] = true
is_plain (c ∷ t) = not (c == b'*') && not (c == b'?') && is_plain t

abbrev pub all_plain : List UriHandler → Bool
all_plain [] = true
all_plain (u ∷ us) = is_plain u.template && all_plain us

-- The documented behaviour of `httpd_uri_match_wildcard`: a plain template matches itself alone, and one
-- that ends in a slash and a star matches every path below the slash.
pub record MatchLaws (matches : List ℕ → List ℕ → Bool) : Type 0 where
  pub plain : (t p : List ℕ) → is_plain t ≡ true → matches t p ≡ strcmp_eq t p
  pub below : (p : List ℕ) → matches (codes "/*") (b'/' ∷ p) ≡ true

-- The entries of the portal itself.
pub portal : List UriHandler
portal =
    uri (codes "/") get root
    ∷ uri (codes "/setup") post setup_post
    ∷ uri (codes "/setup") get setup_get
    ∷ uri (codes "/reset") get reset
    ∷ uri (codes "/reboot") get reboot
    ∷ uri (codes "/favicon.ico") get favicon
    ∷ uri (codes "/networks") get networks_get
    ∷ uri (codes "/networks/add") post networks_add_post
    ∷ uri (codes "/networks/delete") get networks_delete
    ∷ uri (codes "/networks/scan") get networks_scan
    ∷ uri (codes "/networks/connect") get networks_connect_get
    ∷ uri (codes "/proxy") get proxy_get
    ∷ uri (codes "/proxy") post proxy_post
    ∷ uri (codes "/name") get name_get
    ∷ uri (codes "/name") post name_post
    ∷ uri (codes "/clip") get clip_get
    ∷ uri (codes "/clip/add") post clip_add_post
    ∷ uri (codes "/clip/action") get clip_action_get
    ∷ []

-- The handler that stands for exactly this method and path.
unfoldable pub find_exact : Method → List ℕ → List UriHandler → Option Handler
find_exact method path [] = none
find_exact method path (u ∷ us) =
    let rest = find_exact method path us in
    if same_method u.method method && strcmp_eq u.template path then some u.handler else rest

pub or_relay : Option Handler → Handler
or_relay (some h) = h
or_relay none = proxy_relay

module _ (matches : List ℕ → List ℕ → Bool) (laws : MatchLaws matches) where
  find_handler-append :
      (method : Method) (path : List ℕ) (us vs : List UriHandler)
      → all_plain us ≡ true
      → find_handler matches method path vs ≡ some proxy_relay
      → find_handler matches method path (us ++ vs) ≡ some (or_relay (find_exact method path us))
  unfolding find_handler find_exact or_relay
  find_handler-append method path [] vs plain relays = relays
  find_handler-append method path (u ∷ us) vs plain relays =
      let both = and_true (is_plain u.template) (all_plain us) plain in
      let same = laws.plain u.template path both.0 in
      let rest = find_handler-append method path us vs both.1 relays in
      elim (Bool-cases (same_method u.method method && strcmp_eq u.template path)) [
        | inl hit ↦ rw (same, hit) refl
        | inr miss ↦ rw (same, miss) rest
      ]

  relayed_below :
      (method : Method) (p : List ℕ)
      → find_handler matches method
          (b'/' ∷ p)
          (uri (codes "/*") get proxy_relay ∷ (uri (codes "/*") post proxy_relay ∷ []))
        ≡ some proxy_relay
  unfolding find_handler
  relayed_below get p = rw (laws.below p) refl
  relayed_below post p = rw (laws.below p) refl

  -- If the matcher behaves as documented, a GET or POST for a path of the portal is given to the portal's own
  -- handler, and any other to the relay: the `Host` of the request is not looked at.
  pub find_handler-find_exact :
      (method : Method) (p : List ℕ)
      → find_handler matches method (b'/' ∷ p) uris
        ≡ some (or_relay (find_exact method (b'/' ∷ p) portal))
  unfolding uris portal is_plain
  find_handler-find_exact method p =
      find_handler-append method (b'/' ∷ p) portal _ refl (relayed_below method p)
