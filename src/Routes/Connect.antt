-- ===== src/Routes/Connect.antt =====
-- What the forms of main/http_routes.c that store a network do to a bridge that is up.
use satura_bridge.Networks.{nvs_storage_add_network}
use satura_bridge.AppState.Changes.{app_state_set_lem}
use satura_bridge.Prelude.{
  Bool, List, Option, [], ◌∷◌, some, none, true, false, All, ℕ, ◌≡◌, Bool-cases, arith, inl, inr,
  length, ltb, subst, sym, ◌==◌, refl,
}
use satura_bridge.AppState.{wifi_connecting}
use satura_bridge.Storage.{Nvs}
use satura_bridge.Wifi.State.{
  Wifi, WifiEvt, connect_request, scan_request, forget_request, recovery_request, disconnected,
  got_ip, Driver, NetworkStore, connected, ScanOutcome, start_failed,
}
use satura_bridge.Wifi.Scan.{run_blocking_scan}
use satura_bridge.Wifi.Machine.{
  set_app, dispatch, handle_event, handle_timeout, timeout_in, worker_round, worker_run,
}
use satura_bridge.Wifi.Inbox.{wifi_post_evt, queue_size}
use satura_bridge.Routes.{HttpLib, PortalRequest, Device}
use satura_bridge.Routes.Handlers.{
  NetworkForm, read_network, handler_networks_add_post, add_with, save_and_connect, post, show_app,
  with_form,
}

-- A round of the worker that does not end the connection: a request to connect or to scan, an address, or
-- the end of a wait.
abbrev pub keeps_link : Option WifiEvt → Bool
keeps_link (some disconnected) = false
keeps_link (some forget_request) = false
keeps_link (some recovery_request) = false
keeps_link (some e) = true
keeps_link none = true

-- The link is up, and the page says that a connection is being made.
pub record IsHidden {S : Type 0} (w : Wifi S) : Type 0 where
  pub linked : w.fsm_state ≡ connected
  pub shown : w.shared.current_state ≡ wifi_connecting

module _ {S : Type 0} (store : NetworkStore S) where
  scan-IsHidden :
      (w : Wifi S) (o : ScanOutcome) → IsHidden w → IsHidden (run_blocking_scan store w o)
  unfolding run_blocking_scan
  scan-IsHidden w start_failed h = record { linked = h.linked; shown = h.shown }
  scan-IsHidden w _ h = record { linked = h.linked; shown = h.shown }

  dispatch-IsHidden :
      (e : WifiEvt) (d : Driver) (w : Wifi S)
      → keeps_link (some e) ≡ true
      → IsHidden w
      → IsHidden (dispatch store connected e d w)
  unfolding dispatch
  dispatch-IsHidden connect_request d w keeps h = h
  dispatch-IsHidden scan_request d w keeps h = scan-IsHidden w d.scan h
  dispatch-IsHidden (got_ip ip) d w keeps h = h
  dispatch-IsHidden disconnected d w keeps h = absurd (ground arith)
  dispatch-IsHidden forget_request d w keeps h = absurd (ground arith)
  dispatch-IsHidden recovery_request d w keeps h = absurd (ground arith)

  timeout-IsHidden :
      (d : Driver) (w : Wifi S) → IsHidden w → IsHidden (timeout_in store connected d w)
  unfolding timeout_in
  timeout-IsHidden d w h = h

  round-IsHidden :
      (e : Option WifiEvt) (d : Driver) (w : Wifi S)
      → keeps_link e ≡ true
      → IsHidden w
      → IsHidden (worker_round store e d w)
  unfolding worker_round handle_event handle_timeout
  round-IsHidden (some e) d w keeps h =
      subst (λ st. IsHidden (dispatch store st e d w)) (sym h.linked)
        (dispatch-IsHidden e d w keeps h)
  round-IsHidden none d w keeps h = elim (Bool-cases (w.next_wait_ms == 0)) [
    | inl still ↦ rw still h
    | inr armed ↦
        rw armed
          (subst (λ st. IsHidden (timeout_in store st d w)) (sym h.linked) (timeout-IsHidden d w h))
  ]

  run-IsHidden :
      (es : List (Option WifiEvt × Driver)) (w : Wifi S)
      → All (λ (e : Option WifiEvt × Driver). keeps_link e.0 ≡ true) es
      → IsHidden w
      → IsHidden (worker_run store es w)
  unfolding worker_run
  run-IsHidden [] w keep h = h
  run-IsHidden ((e, d) ∷ es) w keep h = run-IsHidden es _ keep.1 (round-IsHidden e d w keep.0 h)

posted :
    {S : Type 0} (e : WifiEvt) (queue : Option (List WifiEvt)) (w : Wifi S)
    → IsHidden w
    → IsHidden (wifi_post_evt e (queue, w)).1
unfolding wifi_post_evt
posted e none w h = h
posted e (some q) w h = elim (Bool-cases (ltb (length q) queue_size)) [
  | inl room ↦ rw room h
  | inr full ↦ rw full (dropped e)
]
  where
    dropped :
        (e : WifiEvt)
        → IsHidden (elim e [ scan_request ↦ record w { scan_in_progress = false } | _ ↦ w ])
    dropped scan_request = record { linked = h.linked; shown = h.shown }
    dropped _ = h

set_app-IsHidden :
    {S : Type 0} (w : Wifi S) → w.fsm_state ≡ connected → IsHidden (set_app wifi_connecting w)
unfolding set_app
set_app-IsHidden w up = record { linked = up; shown = app_state_set_lem w.shared wifi_connecting }

module _ {F : Type 0} (nvs : Nvs F) (lib : HttpLib) (stack : List ℕ) where
  post-IsHidden : (e : WifiEvt) (s : Device F) → IsHidden s.wifi → IsHidden (post e s).wifi
  unfolding post
  post-IsHidden e s h = posted e s.queue s.wifi h

  connecting-IsHidden :
      (form : NetworkForm) (s : Device F)
      → s.wifi.fsm_state ≡ connected
      → IsHidden (save_and_connect nvs lib stack form s).wifi
  unfolding save_and_connect show_app
  connecting-IsHidden form s up =
      let stored =
        (nvs_storage_add_network nvs s.wifi.flash stack form.ssid form.pass form.hidden).0 in
      let t : Device F = record s { wifi = record s.wifi { flash = stored } } in
      post-IsHidden connect_request (show_app wifi_connecting t) (set_app-IsHidden t.wifi up)

  added :
      (req : PortalRequest) (buf : List ℕ) (form : NetworkForm) (s : Device F)
      → req.received 255 ≡ some buf
      → read_network lib buf ≡ some form
      → (handler_networks_add_post nvs lib stack req s).0 ≡ save_and_connect nvs lib stack form s
  unfolding handler_networks_add_post with_form add_with
  added req buf form s got read = rw (got, read) refl

  -- When a network is added while the link is up, the state of the bridge becomes "connecting" and stays so,
  -- whatever the worker then does short of losing, forgetting or resetting the connection: the request
  -- to connect is ignored in that state.
  pub networks_add_post_hides_link :
      (store : NetworkStore F) (es : List (Option WifiEvt × Driver)) (req : PortalRequest)
      (buf : List ℕ) (form : NetworkForm) (s : Device F)
      → s.wifi.fsm_state ≡ connected
      → req.received 255 ≡ some buf
      → read_network lib buf ≡ some form
      → All (λ (e : Option WifiEvt × Driver). keeps_link e.0 ≡ true) es
      → IsHidden (worker_run store es (handler_networks_add_post nvs lib stack req s).0.wifi)
  networks_add_post_hides_link store es req buf form s up got read keep =
      run-IsHidden store es _ keep (
        subst (λ (t : Device F). IsHidden t.wifi) (sym (added req buf form s got read))
          (connecting-IsHidden form s up))
