-- ===== src/Bridge/Lost.antt =====
-- When the uplink is lost, the NAT is taken away from the interface that is held.
use satura_bridge.AppState.{
  EventType, uplink_down, wifi_disconnected, Shared, bridge, bridge_no_wifi, no_wifi, app_state_set,
  set_wifi_connected, same_state,
}
use satura_bridge.Bridge.{
  Bridge, radio, worker, lwip_callback, bridge_run, bridge_step, on_round, on_worker, publish_all,
  handlers, published, WifiEvt,
}
use satura_bridge.Bridge.Delivery.{publish_all-IsDelivered}
use satura_bridge.Bridge.Nat.{IsWired, KeepsBridge, bridge_run-IsWired}
use satura_bridge.Bridge.Settled.{drain, nat_settles}
use satura_bridge.BtPan.{BtPan}
use satura_bridge.Links.{
  event_bus_publish, event_bus_subscribe, event_number, nat_bridge_subscribe, run_handlers,
}
use satura_bridge.Prelude.{
  ◌⊎◌, subst, sym, Bool, List, ℕ, [], ◌∷◌, true, false, some, ◌≡◌, refl, arith, replicate, ap, ◌∙◌,
  inl, inr, if◌then◌else◌, Option,
}
use satura_bridge.Wifi.Inbox.{wifi_post_evt}
use satura_bridge.Wifi.Machine.{
  worker_round, handle_event, dispatch, on_connection_lost, has_credentials, set_app, emit, go_to,
}
use satura_bridge.Wifi.Radio.{sta_disconnected, wifi_event_handler}
use satura_bridge.Wifi.State.{Driver, NetworkStore, Wifi, connected, disconnected, WifiEvt}

-- What the shared variables are after a loss, with the worker's knowledge of networks.
pub record IsCutOff (known : Bool) (held s : Shared) : Type 0 where
  pub wifi_down : s.wifi_link ≡ false
  pub bt_kept : s.bt_link ≡ held.bt_link
  pub shown : s.current_state ≡ (if known then bridge_no_wifi else no_wifi)

napt_of_held :
    {S : Type 0} {on : Bool} (m n : ℕ) (b : Bridge S)
    → b.cached_netif ≡ some m
    → b.cached_netif ≡ some n
    → b.napt m ≡ on
    → b.napt n ≡ on
napt_of_held m n b found still right = cc

module _ {S : Type 0} (store : NetworkStore S) where
  on_connection_lost-IsCutOff :
      (w : Wifi S)
      → w.shared.current_state ≡ bridge
      → IsCutOff (has_credentials store w) w.shared (on_connection_lost store w).shared
  unfolding on_connection_lost set_app emit go_to set_wifi_connected app_state_set has_credentials
      same_state
  on_connection_lost-IsCutOff w at = ground (arith, at)

  -- The worker's events of a loss go to the NAT alone.
  lost_published :
      (w : Wifi S)
      → let es = published (on_connection_lost store (record w { calls = [] })).calls in
        (es ≡ uplink_down ∷ []) ⊎ (es ≡ wifi_disconnected ∷ uplink_down ∷ [])
  unfolding on_connection_lost set_app emit go_to set_wifi_connected app_state_set published
      has_credentials same_state
  lost_published w = ground arith

  publish-deaf :
      (es : List EventType) (b : Bridge S)
      → (es ≡ uplink_down ∷ []) ⊎ (es ≡ wifi_disconnected ∷ uplink_down ∷ [])
      → (publish_all store es b).bt ≡ b.bt
  unfolding publish_all handlers event_bus_publish event_bus_subscribe nat_bridge_subscribe
      run_handlers event_number
  publish-deaf es b (inl e) = rw e refl
  publish-deaf es b (inr e) = rw e refl

  lost_round :
      (d : Driver) (w : Wifi S)
      → w.fsm_state ≡ connected
      → worker_round store (some disconnected) d w ≡ on_connection_lost store w
  unfolding worker_round handle_event dispatch
  lost_round d w at = ap (λ st. dispatch store st disconnected d w) at

  lost_taken :
      (d : Driver) (b : Bridge S)
      → b.wifi.fsm_state ≡ connected
      → b.bt.shared.current_state ≡ bridge
      → IsCutOff
          (has_credentials store b.wifi)
          b.bt.shared
          (on_round store (some disconnected) d b).bt.shared
  unfolding on_round has_credentials
  lost_taken d b at shown =
      let before = record b.wifi { shared = b.bt.shared; calls = [] } in
      let w = on_connection_lost store before in
      let same =
        publish-deaf (published w.calls)
          (record b { wifi = w; bt = record b.bt { shared = w.shared } }) (lost_published before) in
      rw (lost_round d before at) (
        subst (λ (s : BtPan). IsCutOff (has_credentials store b.wifi) b.bt.shared s.shared)
          (sym same) (on_connection_lost-IsCutOff before shown))

  loss_taken :
      (d : Driver) (b : Bridge S)
      → b.queue ≡ some []
      → b.wifi.fsm_state ≡ connected
      → b.bt.shared.current_state ≡ bridge
      → IsCutOff
          (has_credentials store b.wifi)
          b.bt.shared
          (bridge_run store (radio sta_disconnected ∷ worker d ∷ []) b).bt.shared
  unfolding bridge_run bridge_step on_worker wifi_event_handler wifi_post_evt
  loss_taken d b empty at shown = simp empty (lost_taken d (record b { queue = some [] }) at shown)

  round_keeps_cache :
      (e : Option WifiEvt) (d : Driver) (b : Bridge S)
      → (on_round store e d b).cached_netif ≡ b.cached_netif
  unfolding on_round
  round_keeps_cache e d b =
      let w = worker_round store e d (record b.wifi { shared = b.bt.shared; calls = [] }) in
      (publish_all-IsDelivered store (published w.calls)
        (record b { wifi = w; bt = record b.bt { shared = w.shared } })).cache_kept

  loss_keeps_cache :
      (d : Driver) (b : Bridge S)
      → b.queue ≡ some []
      → (bridge_run store (radio sta_disconnected ∷ worker d ∷ []) b).cached_netif ≡ b.cached_netif
  unfolding bridge_run bridge_step on_worker wifi_event_handler wifi_post_evt
  loss_keeps_cache d b empty =
      simp empty (round_keeps_cache (some disconnected) d (record b { queue = some [] }))

  -- From a state that is in step, with a phone, an interface, an empty queue, the worker connected and the state
  -- "bridge": when the connection is lost, and the callbacks that wait have run, the NAT is off for the
  -- same interface, and the state says whether there are networks to try.
  pub uplink_lost :
      (d : Driver) (b : Bridge S) (n : ℕ)
      → IsWired b
      → b.cached_netif ≡ some n
      → b.queue ≡ some []
      → b.wifi.fsm_state ≡ connected
      → b.bt.shared.current_state ≡ bridge
      → b.bt.shared.bt_link ≡ true
      → let b' = bridge_run store (radio sta_disconnected ∷ worker d ∷ []) b in
        let t = bridge_run store (replicate b'.callbacks lwip_callback) b' in
        (t.bt.shared.current_state
          ≡ (if has_credentials store b.wifi then bridge_no_wifi else no_wifi))
        × (t.callbacks ≡ 0)
        × (t.cached_netif ≡ some n)
        × (t.napt n ≡ false)
  unfolding KeepsBridge
  uplink_lost d b n v held empty at shown up =
      let b' = bridge_run store (radio sta_disconnected ∷ worker d ∷ []) b in
      let s = loss_taken d b empty at shown in
      let wired = bridge_run-IsWired store _ b (refl, (refl, tt)) v in
      let k = drain store b'.callbacks b' refl in
      let (done, m, found, right) = nat_settles store b' wired (s.bt_kept ∙ up) in
      let still = k.cache_kept n (loss_keeps_cache d b empty ∙ held) in
      (
        ap (λ (q : BtPan). q.shared.current_state) k.links_kept ∙ s.shown,
        done,
        still,
        napt_of_held m n (bridge_run store (replicate b'.callbacks lwip_callback) b') found still
              right
            ∙ s.wifi_down,
      )
