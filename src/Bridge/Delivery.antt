-- ===== src/Bridge/Delivery.antt =====
-- What the handlers of the event bus do when an event is published: they ask for callbacks of the NAT
-- and leave the flags of the links alone.
use satura_bridge.AppState.{
  EventType, app_state_set, bt_connected, wifi_connected, bt_disconnected, wifi_disconnected,
  downlink_up, downlink_down, uplink_up, uplink_down,
}
use satura_bridge.Bridge.{Bridge, settle_handler, handlers, publish_all}
use satura_bridge.Bridge.Announce.{nat_events}
use satura_bridge.Links.{
  event_bus_subscribe, event_bus_publish, nat_bridge_subscribe, run_handlers, event_number,
}
use satura_bridge.Prelude.{List, ℕ, [], ◌+◌, ◌≡◌, ◌∷◌, arith, subst, sym, ◌∙◌}
use satura_bridge.Wifi.Inbox.{on_bt_event}
use satura_bridge.Wifi.State.{NetworkStore}
use satura_bridge.Wifi.Machine.{set_app}

pub nat_events-cons :
    (e : EventType) (es : List EventType)
    → nat_events (e ∷ es) ≡ nat_events (e ∷ []) + nat_events es
unfolding nat_events
nat_events-cons wifi_connected es = omega arith
nat_events-cons wifi_disconnected es = omega arith
nat_events-cons bt_connected es = omega arith
nat_events-cons bt_disconnected es = omega arith
nat_events-cons downlink_up es = omega arith
nat_events-cons downlink_down es = omega arith
nat_events-cons uplink_up es = omega arith
nat_events-cons uplink_down es = omega arith

module _ {S : Type 0} where
  -- What the handlers of the bus leave alone, and how many callbacks they ask for.
  pub record IsDelivered (k : ℕ) (b b' : Bridge S) : Type 0 where
    pub asked : b'.callbacks ≡ k + b.callbacks
    pub wifi_kept : b'.bt.shared.wifi_link ≡ b.bt.shared.wifi_link
    pub bt_kept : b'.bt.shared.bt_link ≡ b.bt.shared.bt_link
    pub cache_kept : b'.cached_netif ≡ b.cached_netif
    pub napt_kept : b'.napt ≡ b.napt
    pub list_kept : b'.netif_list ≡ b.netif_list

module _ {S : Type 0} (store : NetworkStore S) where
  settle_handler-IsDelivered : (b : Bridge S) → IsDelivered 0 b (settle_handler store b)
  unfolding settle_handler on_bt_event set_app app_state_set
  settle_handler-IsDelivered b = ground arith

  publish-IsDelivered :
      (e : EventType) (b : Bridge S)
      → IsDelivered (nat_events (e ∷ [])) b (event_bus_publish e (handlers store) b)
  unfolding handlers event_bus_publish event_bus_subscribe nat_bridge_subscribe run_handlers
      event_number nat_events
  publish-IsDelivered bt_connected b = settle_handler-IsDelivered b
  publish-IsDelivered wifi_connected b = ground arith
  publish-IsDelivered wifi_disconnected b = ground arith
  publish-IsDelivered bt_disconnected b = ground arith
  publish-IsDelivered downlink_up b = ground arith
  publish-IsDelivered downlink_down b = ground arith
  publish-IsDelivered uplink_up b = ground arith
  publish-IsDelivered uplink_down b = ground arith

  IsDelivered-trans :
      (j k : ℕ) (a b c : Bridge S) → IsDelivered j a b → IsDelivered k b c → IsDelivered (j + k) a c
  IsDelivered-trans j k a b c p q = record {
    asked = omega (arith, p.asked, q.asked);
    wifi_kept = q.wifi_kept ∙ p.wifi_kept;
    bt_kept = q.bt_kept ∙ p.bt_kept;
    cache_kept = q.cache_kept ∙ p.cache_kept;
    napt_kept = q.napt_kept ∙ p.napt_kept;
    list_kept = q.list_kept ∙ p.list_kept;
  }

  pub publish_all-IsDelivered :
      (es : List EventType) (b : Bridge S) → IsDelivered (nat_events es) b (publish_all store es b)
  unfolding publish_all nat_events
  publish_all-IsDelivered [] b = ground arith
  publish_all-IsDelivered (e ∷ es) b =
      let first = event_bus_publish e (handlers store) b in
      subst (λ k. IsDelivered k b (publish_all store es first)) (sym (nat_events-cons e es))
        (IsDelivered-trans (nat_events (e ∷ [])) (nat_events es) b first _ (publish-IsDelivered e b)
          (publish_all-IsDelivered es first))
