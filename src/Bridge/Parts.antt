-- ===== src/Bridge/Parts.antt =====
-- The invariants of the Wi-Fi worker and of the Bluetooth handlers hold in the whole bridge, where each
-- part writes variables that the other reads.
use satura_bridge.AppState.{set_wifi_rssi, Shared, app_state_set, EventType}
use satura_bridge.BtPan.{BtPan, BtEvent, bt_step, bt_run}
use satura_bridge.BtPan.Laws.{IsPaired, bt_run-IsPaired}
use satura_bridge.Bridge.Inbox.{IsInbox, waiting, post-IsSteady, post-IsInbox, got_ip-IsInbox}
use satura_bridge.Bridge.Kept.{IsKept, publish_all-IsKept}
use satura_bridge.Bridge.Phone.{bt_step-wifi_link}
use satura_bridge.Bridge.Announce.{
  IsQuiet, app_state_set-IsQuiet, worker_round-IsAnnounced, IsAnnounced,
}
use satura_bridge.Bridge.{
  with_inbox, Bridge, BridgeEvent, bluetooth, radio, request, scan_asked, flash_written,
  state_shown, rssi_read, worker, lwip_callback, settled, interfaces, update_nat_lwip_ctx,
  publish_all, on_bluetooth, on_round, on_worker, bt_settle_and_connect, bridge_step, bridge_run,
  published, settle_done, wifi_manager_scan_start,
}
use satura_bridge.Prelude.{
  All, Bool, List, Option, ℕ, [], true, none, some, length, ◌∷◌, ◌≡◌, ◌≢◌, ◌≤◌, refl, arith,
  Bool-cases, drop, inl, inr, subst, ◌==◌, sym,
}
use satura_bridge.Wifi.Inbox.{wifi_post_evt, settle_done, wifi_manager_scan_start}
use satura_bridge.Wifi.Machine.{worker_round, worker_run}
use satura_bridge.Wifi.Radio.{
  LoopEvent, wifi_event_handler, sta_disconnected, other_wifi, sta_got_ip,
}
use satura_bridge.Wifi.State.{
  NetworkStore, Wifi, WifiEvt, Driver, recovery_request, connect_request, disconnected,
  scan_request,
}
use satura_bridge.Wifi.Steady.{IsSteady, all_in_bounds}
use satura_bridge.Wifi.Invariant.{worker_run-IsSteady}

shared-IsPaired :
    (s : BtPan) (sh : Shared)
    → sh.bt_link ≡ s.shared.bt_link
    → IsPaired s
    → IsPaired (record s { shared = sh })
shared-IsPaired s sh e v = ground arith

-- No page and no watchdog asks for a recovery.
pub IsOrdinary : {S : Type 0} → BridgeEvent S → Type 0
IsOrdinary (request e) = e ≢ recovery_request
IsOrdinary _ = ◌≡◌ {A = ℕ} 0 0

module _ {S : Type 0} where
  -- The worker's variables with the shared ones of the bridge, between two rounds.
  abbrev pub worker_view : Bridge S → Wifi S
  worker_view b = record b.wifi { shared = b.bt.shared; calls = [] }

  -- The worker and the Bluetooth handlers keep their invariants, and the queue holds at most eight
  -- events, of which none asks for a recovery.
  pub record IsOrderly (b : Bridge S) : Type 0 where
    pub steady : IsSteady (worker_view b)
    pub paired : IsPaired b.bt
    pub short : length (waiting b.queue) ≤ 8
    pub ordinary : All (λ e. e ≢ recovery_request) (waiting b.queue)

  kept-IsOrderly : (b b' : Bridge S) → IsKept b b' → IsOrderly b → IsOrderly b'
  kept-IsOrderly b b' k v = ground arith

  pub shared-IsSteady :
      (w : Wifi S) (sh : Shared)
      → sh.wifi_link ≡ w.shared.wifi_link
      → IsSteady w
      → IsSteady (record w { shared = sh; calls = [] })
  unfolding all_in_bounds
  shared-IsSteady w sh e v = ground arith

  inbox-IsOrderly :
      (queue : Option (List WifiEvt)) (wifi : Wifi S) (b : Bridge S)
      → IsSteady (record wifi { shared = b.bt.shared; calls = [] })
      → IsInbox queue
      → IsOrderly b
      → IsOrderly (with_inbox (queue, wifi) b)
  inbox-IsOrderly queue wifi b steady inbox v = record {
    steady = steady;
    paired = v.paired;
    short = inbox.short;
    ordinary = inbox.ordinary;
  }

  -- What is put into the queue leaves the invariant in place, unless it asks for a recovery.
  posted-IsOrderly :
      (e : WifiEvt) (b : Bridge S)
      → e ≢ recovery_request
      → IsOrderly b
      → IsOrderly (with_inbox (wifi_post_evt e (b.queue, b.wifi)) b)
  posted-IsOrderly e b n v =
      let inbox : IsInbox b.queue = record { short = v.short; ordinary = v.ordinary } in
      inbox-IsOrderly _ _ b (post-IsSteady e b.queue b.wifi b.bt.shared v.steady)
        (post-IsInbox e b.queue b.wifi n inbox) v

  flagged-IsOrderly :
      (b : Bridge S)
      → IsOrderly b
      → IsOrderly (record b { wifi = record b.wifi { scan_in_progress = true } })
  flagged-IsOrderly b v = ground arith

  flashed-IsOrderly :
      (b : Bridge S) (f : S)
      → IsOrderly b
      → IsOrderly (record b { wifi = record b.wifi { flash = f } })
  flashed-IsOrderly b f v = ground arith

  -- Shared variables other than the flags may be written.
  shown-IsOrderly :
      (b : Bridge S) (sh : Shared)
      → IsQuiet b.bt.shared sh
      → IsOrderly b
      → IsOrderly (record b { bt = record b.bt { shared = sh } })
  unfolding IsQuiet
  shown-IsOrderly b sh (wifi, bt) v = record {
    steady = shared-IsSteady (worker_view b) sh wifi v.steady;
    paired = shared-IsPaired b.bt sh bt v.paired;
    short = v.short;
    ordinary = v.ordinary;
  }

  radio-IsOrderly :
      (e : LoopEvent) (b : Bridge S)
      → IsOrderly b
      → IsOrderly (with_inbox (wifi_event_handler e (b.queue, b.wifi)) b)
  radio-IsOrderly sta_disconnected b v =
      unfold wifi_event_handler in posted-IsOrderly disconnected b (λ e. cc) v
  radio-IsOrderly other_wifi b v =
      unfold wifi_event_handler in
      inbox-IsOrderly b.queue b.wifi b v.steady (record { short = v.short; ordinary = v.ordinary })
        v
  radio-IsOrderly (sta_got_ip ip) b v =
      let (inbox, same) =
        got_ip-IsInbox ip b.queue b.wifi (record { short = v.short; ordinary = v.ordinary }) in
      inbox-IsOrderly _ _ b
        (subst (λ (w : Wifi S). IsSteady (record w { shared = b.bt.shared; calls = [] })) (sym same)
          v.steady)
        inbox v

module _ {S : Type 0} (store : NetworkStore S) where
  publish_all-IsOrderly :
      (es : List EventType) (b : Bridge S) → IsOrderly b → IsOrderly (publish_all store es b)
  publish_all-IsOrderly es b v = kept-IsOrderly b _ (publish_all-IsKept store es b) v

  bluetooth-IsOrderly :
      (armed created : Bool) (e : BtEvent) (b : Bridge S)
      → IsOrderly b
      → IsOrderly (on_bluetooth store armed created e b)
  unfolding on_bluetooth bt_run
  bluetooth-IsOrderly armed created e b v =
      let bt = bt_step armed e b.bt in
      publish_all-IsOrderly (drop (length b.bt.events) bt.events)
        (record b { bt = bt; created = created })
        (record {
          steady =
              shared-IsSteady (worker_view b) bt.shared (bt_step-wifi_link armed e b.bt) v.steady;
          paired = bt_run-IsPaired ((armed, e) ∷ []) b.bt v.paired;
          short = v.short;
          ordinary = v.ordinary;
        })

  round-IsOrderly :
      (e : Option WifiEvt) (d : Driver) (b : Bridge S)
      → e ≢ some recovery_request
      → IsOrderly b
      → IsOrderly (on_round store e d b)
  unfolding on_round worker_run IsAnnounced
  round-IsOrderly e d b n v =
      let w = worker_round store e d (worker_view b) in
      publish_all-IsOrderly (published w.calls)
        (record b { wifi = w; bt = record b.bt { shared = w.shared } })
        (record {
          steady =
              shared-IsSteady w w.shared refl
                (worker_run-IsSteady store ((e, d) ∷ []) (worker_view b) (n, tt) v.steady);
          paired =
              shared-IsPaired b.bt w.shared
                (worker_round-IsAnnounced store e d (worker_view b) refl).0 v.paired;
          short = v.short;
          ordinary = v.ordinary;
        })

  worker-IsOrderly :
      (queue : Option (List WifiEvt)) (d : Driver) (b : Bridge S)
      → b.queue ≡ queue
      → IsOrderly b
      → IsOrderly (on_worker store queue d b)
  unfolding on_worker
  worker-IsOrderly none d b e v = v
  worker-IsOrderly (some []) d b e v = round-IsOrderly none d b (λ p. cc) v
  worker-IsOrderly (some (x ∷ xs)) d b e v =
      let (first, rest) = subst (λ q. All (λ e. e ≢ recovery_request) (waiting q)) e v.ordinary in
      round-IsOrderly (some x) d (record b { queue = some xs }) (λ p. first cc)
        (record {
          steady = v.steady;
          paired = v.paired;
          short = omega (arith, subst (λ q. length (waiting q) ≤ 8) e v.short);
          ordinary = rest;
        })

  step-IsOrderly :
      (e : BridgeEvent S) (b : Bridge S)
      → IsOrdinary e
      → IsOrderly b
      → IsOrderly (bridge_step store e b)
  unfolding bridge_step bt_settle_and_connect IsOrdinary update_nat_lwip_ctx
  step-IsOrderly (bluetooth armed created e) b n v = bluetooth-IsOrderly armed created e b v
  step-IsOrderly (radio e) b n v = radio-IsOrderly e b v
  step-IsOrderly (request e) b n v = posted-IsOrderly e b n v
  step-IsOrderly scan_asked b n v =
      unfold wifi_manager_scan_start in
      posted-IsOrderly scan_request (record b { wifi = record b.wifi { scan_in_progress = true } })
        (λ e. cc) (flagged-IsOrderly b v)
  step-IsOrderly (flash_written f) b n v = flashed-IsOrderly b f v
  step-IsOrderly (state_shown st) b n v =
      shown-IsOrderly b (app_state_set b.bt.shared st)
        (app_state_set-IsQuiet st b.bt.shared b.bt.shared (unfold IsQuiet in (refl, refl))) v
  step-IsOrderly (rssi_read rssi) b n v =
      shown-IsOrderly b (set_wifi_rssi b.bt.shared rssi) (unfold IsQuiet in (refl, refl)) v
  step-IsOrderly (worker d) b n v = worker-IsOrderly b.queue d b refl v
  step-IsOrderly lwip_callback b n v = ground arith
  step-IsOrderly settled b n v = elim (Bool-cases (b.settle.tasks == 0)) [
    | inl none_left ↦ rw none_left v
    | inr some_left ↦ rw some_left (
        posted-IsOrderly connect_request (record b { settle = settle_done b.settle }) (λ e. cc)
          (record { steady = v.steady; paired = v.paired; short = v.short; ordinary = v.ordinary }))
  ]
  step-IsOrderly (interfaces netif_list sta_ip) b n v = ground arith

  -- From an orderly state, any sequence of events that holds no request for a recovery ends in an orderly
  -- state: the worker is steady, a Bluetooth handle is held exactly while the phone is connected, and the
  -- queue holds at most eight events.
  pub bridge_run-IsOrderly :
      (es : List (BridgeEvent S)) (b : Bridge S)
      → All IsOrdinary es
      → IsOrderly b
      → IsOrderly (bridge_run store es b)
  unfolding bridge_run
  bridge_run-IsOrderly [] b h v = v
  bridge_run-IsOrderly (e ∷ es) b h v =
      bridge_run-IsOrderly es (bridge_step store e b) h.1 (step-IsOrderly e b h.0 v)
