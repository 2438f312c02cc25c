-- ===== src/Routes/Table.antt =====
-- main/http_server.c: the table of handlers, in the order in which they are registered. `matches` is
-- `httpd_uri_match_wildcard`, with a template and the path of a request.
use satura_bridge.Prelude.{
  Bool, List, Option, [], ◌∷◌, codes, some, none, true, false, if◌then◌else◌, ℕ, ◌&&◌,
}
use satura_bridge.Storage.{Nvs}
use satura_bridge.Routes.{HttpLib, PortalRequest, Device, Display, Response, relay, clipboard}
use satura_bridge.Routes.Handlers.{
  handler_setup_post, handler_setup_get, handler_reset, handler_reboot, handler_favicon,
  handler_networks_add_post, handler_networks_delete, handler_networks_scan, handler_proxy_post,
  handler_name_post, handler_404,
}
use satura_bridge.Routes.Views.{
  handler_root, handler_networks_connect_get, handler_proxy_get, handler_name_get,
}
use satura_bridge.Routes.NetworksPage.{handler_networks_get}

pub data Handler : Type 0 where
  root setup_post setup_get reset reboot favicon networks_get networks_add_post : Handler
  networks_delete networks_scan networks_connect_get proxy_get proxy_post : Handler
  name_get name_post clip_get clip_add_post clip_action_get proxy_relay : Handler

-- The two methods that are registered.
pub data Method : Type 0 where
  get post : Method

abbrev pub same_method : Method → Method → Bool
same_method get get = true
same_method post post = true
same_method get post = false
same_method post get = false

pub record UriHandler : Type 0 where
  pub template : List ℕ
  pub method : Method
  pub handler : Handler

abbrev pub uri : List ℕ → Method → Handler → UriHandler
uri template method handler = record { template = template; method = method; handler = handler }

unfoldable pub uris : List UriHandler
uris =
    uri (codes "/") get root
    ∷ uri (codes "/setup") post setup_post
    ∷ uri (codes "/setup") get setup_get
    ∷ uri (codes "/reset") get reset
    ∷ uri (codes "/reboot") get reboot
    ∷ uri (codes "/favicon.ico") get favicon
    ∷ uri (codes "/networks") get networks_get
    ∷ uri (codes "/networks/add") post networks_add_post
    ∷ uri (codes "/networks/delete") get networks_delete
    ∷ uri (codes "/networks/scan") get networks_scan
    ∷ uri (codes "/networks/connect") get networks_connect_get
    ∷ uri (codes "/proxy") get proxy_get
    ∷ uri (codes "/proxy") post proxy_post
    ∷ uri (codes "/name") get name_get
    ∷ uri (codes "/name") post name_post
    ∷ uri (codes "/clip") get clip_get
    ∷ uri (codes "/clip/add") post clip_add_post
    ∷ uri (codes "/clip/action") get clip_action_get
    ∷ uri (codes "/*") get proxy_relay
    ∷ uri (codes "/*") post proxy_relay
    ∷ []

-- As documented, the server calls the first entry that matches, in the order of registration; the error
-- handler answers where there is none.
unfoldable pub find_handler :
    (List ℕ → List ℕ → Bool) → Method → List ℕ → List UriHandler → Option Handler
find_handler matches method path [] = none
find_handler matches method path (u ∷ us) =
    let rest = find_handler matches method path us in
    if same_method u.method method && matches u.template path then some u.handler else rest

-- What a client gets once its handler is known; the clipboard pages are left to main/clipboard.c.
module _ {F : Type 0} (nvs : Nvs F) (lib : HttpLib) (stack : List ℕ) (mac4 mac5 : ℕ)
    (d : Display) where
  unfoldable pub call_handler : Handler → PortalRequest → Device F → Device F × Response
  call_handler root req s = handler_root nvs lib d req s
  call_handler setup_post req s = handler_setup_post nvs lib stack req s
  call_handler setup_get req s = handler_setup_get s
  call_handler reset req s = handler_reset s
  call_handler reboot req s = handler_reboot s
  call_handler favicon req s = handler_favicon s
  call_handler networks_get req s = handler_networks_get nvs stack d.allocated s
  call_handler networks_add_post req s = handler_networks_add_post nvs lib stack req s
  call_handler networks_delete req s = handler_networks_delete nvs lib stack req s
  call_handler networks_scan req s = handler_networks_scan s
  call_handler networks_connect_get req s = handler_networks_connect_get nvs lib d req s
  call_handler proxy_get req s = handler_proxy_get nvs lib d s
  call_handler proxy_post req s = handler_proxy_post nvs lib stack req s
  call_handler name_get req s = handler_name_get nvs lib d mac4 mac5 s
  call_handler name_post req s = handler_name_post nvs lib stack req s
  call_handler clip_get req s = (s, clipboard)
  call_handler clip_add_post req s = (s, clipboard)
  call_handler clip_action_get req s = (s, clipboard)
  call_handler proxy_relay req s = (s, relay)

  unfoldable pub serve_request :
      (List ℕ → List ℕ → Bool) → Method → List ℕ → PortalRequest → Device F → Device F × Response
  serve_request matches method path req s = elim (find_handler matches method path uris) [
    | some handler ↦ call_handler handler req s
    | none ↦ handler_404 s
  ]
