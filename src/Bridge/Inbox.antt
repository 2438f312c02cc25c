-- ===== src/Bridge/Inbox.antt =====
-- main/wifi_manager.c: what is put into the queue of the worker.
use satura_bridge.AppState.{Shared}
use satura_bridge.Prelude.{
  All, List, Option, ℕ, [], none, some, length, ◌∷◌, ◌++◌, ◌≡◌, ◌≢◌, ◌≤◌, refl, arith, Bool-cases,
  inl, inr, All-append, length-append, ltb, ltb→lt, ◌<◌,
}
use satura_bridge.Wifi.Inbox.{wifi_post_evt, queue_size}
use satura_bridge.Wifi.Radio.{wifi_event_handler, sta_got_ip}
use satura_bridge.Wifi.State.{Wifi, WifiEvt, recovery_request, got_ip, scan_request}
use satura_bridge.Wifi.Steady.{IsSteady}

-- The events in the queue.
abbrev pub waiting : Option (List WifiEvt) → List WifiEvt
waiting none = []
waiting (some es) = es

-- At most eight events, of which none asks for a recovery.
pub record IsInbox (queue : Option (List WifiEvt)) : Type 0 where
  pub short : length (waiting queue) ≤ 8
  pub ordinary : All (λ e. e ≢ recovery_request) (waiting queue)

appended-IsInbox :
    (es : List WifiEvt) (e : WifiEvt)
    → length es < queue_size
    → e ≢ recovery_request
    → IsInbox (some es)
    → IsInbox (some (es ++ e ∷ []))
appended-IsInbox es e room n v = record {
  short = omega (arith, length-append es (e ∷ []));
  ordinary = All-append (λ x. x ≢ recovery_request) es (e ∷ []) v.ordinary (n, tt);
}

module _ {S : Type 0} where
  -- A queue that is full takes back the flag of a scan, and nothing else.
  pub post-IsSteady :
      (e : WifiEvt) (queue : Option (List WifiEvt)) (w : Wifi S) (sh : Shared)
      → IsSteady (record w { shared = sh; calls = [] })
      → IsSteady (record (wifi_post_evt e (queue, w)).1 { shared = sh; calls = [] })
  unfolding wifi_post_evt
  post-IsSteady e none w sh v = v
  post-IsSteady scan_request (some es) w sh v = ground arith
  post-IsSteady e (some es) w sh v = ground arith

  pub post-IsInbox :
      (e : WifiEvt) (queue : Option (List WifiEvt)) (w : Wifi S)
      → e ≢ recovery_request
      → IsInbox queue
      → IsInbox (wifi_post_evt e (queue, w)).0
  unfolding wifi_post_evt
  post-IsInbox e none w n v = v
  post-IsInbox e (some es) w n v = elim (Bool-cases (ltb (length es) queue_size)) [
    | inl room ↦ rw room (appended-IsInbox es e (ltb→lt _ _ room) n v)
    | inr full ↦ rw full v
  ]

  pub got_ip-IsInbox :
      (ip : List ℕ) (queue : Option (List WifiEvt)) (w : Wifi S)
      → IsInbox queue
      → IsInbox (wifi_event_handler (sta_got_ip ip) (queue, w)).0
        × ((wifi_event_handler (sta_got_ip ip) (queue, w)).1 ≡ w)
  unfolding wifi_event_handler
  got_ip-IsInbox ip none w v = (v, refl)
  got_ip-IsInbox ip (some es) w v = elim (Bool-cases (ltb (length es) queue_size)) [
    | inl room ↦ rw room (appended-IsInbox es (got_ip ip) (ltb→lt _ _ room) (λ e. cc) v, refl)
    | inr full ↦ rw full (v, refl)
  ]
