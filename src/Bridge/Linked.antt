-- ===== src/Bridge/Linked.antt =====
-- While Wi-Fi is up, the event bus leaves alone what main/bt_pan.c keeps.
use satura_bridge.AppState.{
  EventType, bt_connected, wifi_connected, wifi_disconnected, bt_disconnected, downlink_up,
  downlink_down, uplink_up, uplink_down,
}
use satura_bridge.Bridge.{Bridge, publish_all, handlers, settle_handler, BtPan}
use satura_bridge.BtPan.{BtPan}
use satura_bridge.Links.{
  event_bus_publish, event_bus_subscribe, event_number, nat_bridge_subscribe, run_handlers,
}
use satura_bridge.Prelude.{List, [], ◌∷◌, true, ◌≡◌, refl, arith, ap, ◌∙◌}
use satura_bridge.Wifi.Inbox.{on_bt_event}
use satura_bridge.Wifi.State.{NetworkStore}

module _ {S : Type 0} (store : NetworkStore S) where
  settle_handler-linked :
      (b : Bridge S) → b.bt.shared.wifi_link ≡ true → (settle_handler store b).bt ≡ b.bt
  unfolding settle_handler on_bt_event
  settle_handler-linked b up = ground arith

  publish-linked :
      (e : EventType) (b : Bridge S)
      → b.bt.shared.wifi_link ≡ true
      → (event_bus_publish e (handlers store) b).bt ≡ b.bt
  unfolding handlers event_bus_publish event_bus_subscribe nat_bridge_subscribe run_handlers
      event_number
  publish-linked bt_connected b up = settle_handler-linked b up
  publish-linked wifi_connected b up = refl
  publish-linked wifi_disconnected b up = refl
  publish-linked bt_disconnected b up = refl
  publish-linked downlink_up b up = refl
  publish-linked downlink_down b up = refl
  publish-linked uplink_up b up = refl
  publish-linked uplink_down b up = refl

  -- While Wi-Fi is up, no handler of the bus writes what the Bluetooth handlers keep.
  pub publish_all-linked :
      (es : List EventType) (b : Bridge S)
      → b.bt.shared.wifi_link ≡ true
      → (publish_all store es b).bt ≡ b.bt
  unfolding publish_all
  publish_all-linked [] b up = refl
  publish_all-linked (e ∷ es) b up =
      let first = publish-linked e b up in
      publish_all-linked es _ (ap (λ (s : BtPan). s.shared.wifi_link) first ∙ up) ∙ first
