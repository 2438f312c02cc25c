-- ===== src/Bridge/Kept.antt =====
-- What the handlers of the event bus leave alone in the worker, in the Bluetooth handlers and in the queue.
use satura_bridge.AppState.{
  boot_state, app_state_set, EventType, bt_connected, wifi_connected, wifi_disconnected,
  bt_disconnected, downlink_up, downlink_down, uplink_up, uplink_down,
}
use satura_bridge.BtPan.{BtPan}
use satura_bridge.Bridge.{Bridge, settle_handler, handlers, publish_all}
use satura_bridge.Links.{
  event_bus_subscribe, event_bus_publish, nat_bridge_subscribe, run_handlers, event_number,
}
use satura_bridge.Prelude.{List, [], ◌∷◌, ◌≡◌, arith, ◌∙◌}
use satura_bridge.Wifi.Inbox.{on_bt_event}
use satura_bridge.Wifi.Machine.{set_app}
use satura_bridge.Wifi.State.{NetworkStore, Wifi}

module _ {S : Type 0} where
  -- What a handler of the bus leaves alone.
  pub record IsKept (b b' : Bridge S) : Type 0 where
    pub wifi_rest :
        ◌≡◌ {A = Wifi S}
          (record b'.wifi { shared = boot_state })
          (record b.wifi { shared = boot_state })
    pub bt_rest :
        ◌≡◌ {A = BtPan} (record b'.bt { shared = boot_state }) (record b.bt { shared = boot_state })
    pub wifi_kept : b'.bt.shared.wifi_link ≡ b.bt.shared.wifi_link
    pub bt_kept : b'.bt.shared.bt_link ≡ b.bt.shared.bt_link
    pub queue_kept : b'.queue ≡ b.queue

  IsKept-trans : (a b c : Bridge S) → IsKept a b → IsKept b c → IsKept a c
  IsKept-trans a b c p q = record {
    wifi_rest = q.wifi_rest ∙ p.wifi_rest;
    bt_rest = q.bt_rest ∙ p.bt_rest;
    wifi_kept = q.wifi_kept ∙ p.wifi_kept;
    bt_kept = q.bt_kept ∙ p.bt_kept;
    queue_kept = q.queue_kept ∙ p.queue_kept;
  }

module _ {S : Type 0} (store : NetworkStore S) where
  settle_handler-IsKept : (b : Bridge S) → IsKept b (settle_handler store b)
  unfolding settle_handler on_bt_event set_app app_state_set
  settle_handler-IsKept b = ground arith

  publish-IsKept :
      (e : EventType) (b : Bridge S) → IsKept b (event_bus_publish e (handlers store) b)
  unfolding handlers event_bus_publish event_bus_subscribe nat_bridge_subscribe run_handlers
      event_number
  publish-IsKept bt_connected b = settle_handler-IsKept b
  publish-IsKept wifi_connected b = ground arith
  publish-IsKept wifi_disconnected b = ground arith
  publish-IsKept bt_disconnected b = ground arith
  publish-IsKept downlink_up b = ground arith
  publish-IsKept downlink_down b = ground arith
  publish-IsKept uplink_up b = ground arith
  publish-IsKept uplink_down b = ground arith

  pub publish_all-IsKept : (es : List EventType) (b : Bridge S) → IsKept b (publish_all store es b)
  unfolding publish_all
  publish_all-IsKept [] b = ground arith
  publish_all-IsKept (e ∷ es) b = IsKept-trans b _ _ (publish-IsKept e b) (publish_all-IsKept es _)
