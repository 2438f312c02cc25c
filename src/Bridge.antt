-- ===== src/Bridge.antt =====
-- The parts put together as main/app_bootstrap.c wires them: the Bluetooth stack's events, the worker of
-- Wi-Fi and the end of its waits, the handlers of the event bus, and the callbacks by which the NAT is
-- brought up to date on the thread of lwIP. Every entry point is one step; a callback that was asked for
-- runs at some later step.
pub mod Announce
pub mod Delivery
pub mod Phone
pub mod Inbox
pub mod Kept
pub mod Nat
pub mod Parts
pub mod Settled
pub mod Lost
pub mod Linked
pub mod Address
pub mod Arrivals
pub mod Service
use satura_bridge.AppState.{AppState, app_state_set, set_wifi_rssi, EventType, Shared, bt_connected}
use satura_bridge.BtPan.{BtPan, BtEvent, bt_step}
use satura_bridge.BtPan.Netif.{bt_pan_get_netif}
use satura_bridge.Links.{
  LinkIface, downlink, uplink, event_bus_subscribe, event_bus_publish, nat_bridge_subscribe,
  link_registry_register, update_nat,
}
use satura_bridge.Links.Netif.{Netif, Ip4}
use satura_bridge.Prelude.{
  Bool, List, Option, ℕ, [], drop, length, none, some, suc, zero, if◌then◌else◌, ◌+◌, ◌-◌, ◌==◌,
  ◌∷◌,
}
use satura_bridge.Wifi.Inbox.{
  Settle, on_bt_event, settle_done, wifi_post_evt, wifi_manager_scan_start,
}
use satura_bridge.Wifi.Machine.{worker_round}
use satura_bridge.Wifi.Radio.{LoopEvent, wifi_event_handler}
use satura_bridge.Wifi.Netif.{wifi_link_get_netif}
use satura_bridge.Wifi.State.{Call, Driver, NetworkStore, Wifi, WifiEvt, connect_request, publish}

-- The shared variables are those of `bt`, and `calls` of `wifi` holds the calls of the current step.
-- `callbacks` counts the calls of `update_nat_lwip_ctx` that wait, and `napt` is the setting of each
-- interface. `netif_list` and `sta_ip` are what lwIP answers, and may change at every step.
pub record Bridge (S : Type 0) : Type 0 where
  pub bt : BtPan
  pub wifi : Wifi S
  pub settle : Settle
  pub queue : Option (List WifiEvt)
  pub created : Bool
  pub callbacks : ℕ
  pub netif_list : List Netif
  pub sta_ip : Option Ip4
  pub cached_netif : Option ℕ
  pub napt : ℕ → Bool

-- An event of the Bluetooth stack, with whether a timer and a task could be created; an event of the
-- Wi-Fi driver; a request of a page or of the watchdog; the request for a scan; what a page writes to the
-- flash, and the state that it sets; the signal that the watchdog reads; a round of the worker, which
-- takes the first event of the queue or finds its wait over; a callback on the thread of lwIP; the end of
-- a settle task; and a change of the interfaces.
pub data BridgeEvent (S : Type 0) : Type 0 where
  bluetooth : Bool → Bool → BtEvent → BridgeEvent S
  radio : LoopEvent → BridgeEvent S
  request : WifiEvt → BridgeEvent S
  scan_asked : BridgeEvent S
  flash_written : S → BridgeEvent S
  state_shown : AppState → BridgeEvent S
  rssi_read : ℕ → BridgeEvent S
  worker : Driver → BridgeEvent S
  lwip_callback settled : BridgeEvent S
  interfaces : List Netif → Option Ip4 → BridgeEvent S

unfoldable pub published : List Call → List EventType
published [] = []
published (c ∷ cs) = let rest = published cs in elim c [ publish e ↦ e ∷ rest | _ ↦ rest ]

-- `ip_napt_enable_netif`, if it is called at all.
abbrev pub with_setting : Option (ℕ × Bool) → (ℕ → Bool) → ℕ → Bool
with_setting none napt n = napt n
with_setting (some (netif, up)) napt n = if netif == n then up else napt n

module _ {S : Type 0} where
  -- The two links, as they are registered.
  abbrev pub wifi_uplink_link : LinkIface (Bridge S)
  wifi_uplink_link = record {
    role = uplink;
    is_connected = some λ b. b.bt.shared.wifi_link;
    get_netif = some λ b. wifi_link_get_netif b.netif_list b.sta_ip;
  }

  abbrev pub bt_pan_link : LinkIface (Bridge S)
  bt_pan_link = record {
    role = downlink;
    is_connected = some λ b. b.bt.shared.bt_link;
    get_netif = some λ b. (bt_pan_get_netif b.netif_list b.cached_netif).0;
  }

  -- `wifi_manager_init` registers the one, `bt_pan_init` then the other.
  unfoldable pub links : List (LinkIface (Bridge S))
  unfolding link_registry_register
  links =
      link_registry_register (some bt_pan_link) (link_registry_register (some wifi_uplink_link) [])

  -- `nat_bridge_update`: `tcpip_callback` accepts every call, as documented while memory is left.
  abbrev pub nat_bridge_update : Bridge S → Bridge S
  nat_bridge_update b = record b { callbacks = b.callbacks + 1 }

  -- The search for the interface runs only while the downlink is connected.
  abbrev pub with_cache : Bridge S → Option ℕ
  with_cache b =
      if b.bt.shared.bt_link
      then (bt_pan_get_netif b.netif_list b.cached_netif).1
      else b.cached_netif

  -- One call of `update_nat_lwip_ctx`.
  unfoldable pub update_nat_lwip_ctx : Bridge S → Bridge S
  unfolding update_nat bt_pan_get_netif
  update_nat_lwip_ctx b = record b {
    callbacks = b.callbacks - 1;
    napt = with_setting (update_nat b links) b.napt;
    cached_netif = with_cache b;
  }

  abbrev pub with_inbox : Option (List WifiEvt) × Wifi S → Bridge S → Bridge S
  with_inbox (queue, wifi) b = record b { queue = queue; wifi = wifi }

module _ {S : Type 0} (store : NetworkStore S) where
  -- `on_bt_event` of wifi_manager.c, which finds the result of a task creation in `created`.
  unfoldable pub settle_handler : Bridge S → Bridge S
  unfolding on_bt_event
  settle_handler b =
      let (wifi, settle) =
        on_bt_event store b.created bt_connected
          (record b.wifi { shared = b.bt.shared }, b.settle) in
      record b { wifi = wifi; settle = settle; bt = record b.bt { shared = wifi.shared } }

  -- The subscriptions in the order of the start: the NAT's four, then that of Wi-Fi.
  unfoldable pub handlers : EventType → List (Bridge S → Bridge S)
  unfolding event_bus_subscribe nat_bridge_subscribe settle_handler
  handlers =
      event_bus_subscribe bt_connected settle_handler
        (nat_bridge_subscribe nat_bridge_update (λ t. []))

  unfoldable pub publish_all : List EventType → Bridge S → Bridge S
  unfolding event_bus_publish handlers
  publish_all [] b = b
  publish_all (e ∷ es) b = publish_all es (event_bus_publish e handlers b)

  -- The handlers run where the event is published. What the handler of the stack does after that does
  -- not touch what they read or write: `on_bt_event` acts only while Wi-Fi is down, and the state of the
  -- bridge is then left alone.
  unfoldable pub on_bluetooth : Bool → Bool → BtEvent → Bridge S → Bridge S
  unfolding bt_step publish_all
  on_bluetooth armed created e b =
      let bt = bt_step armed e b.bt in
      publish_all (drop (length b.bt.events) bt.events) (record b { bt = bt; created = created })

  -- A round of the worker, whose own events are of Wi-Fi and the uplink.
  unfoldable pub on_round : Option WifiEvt → Driver → Bridge S → Bridge S
  unfolding worker_round publish_all published
  on_round e d b =
      let w = worker_round store e d (record b.wifi { shared = b.bt.shared; calls = [] }) in
      publish_all (published w.calls)
        (record b { wifi = w; bt = record b.bt { shared = w.shared } })

  unfoldable pub on_worker : Option (List WifiEvt) → Driver → Bridge S → Bridge S
  unfolding on_round
  on_worker none d b = b
  on_worker (some []) d b = on_round none d b
  on_worker (some (e ∷ es)) d b = on_round (some e) d (record b { queue = some es })

  -- The last lines of `bt_settle_and_connect_task`.
  unfoldable pub bt_settle_and_connect : Bridge S → Bridge S
  unfolding wifi_post_evt settle_done
  bt_settle_and_connect b =
      with_inbox (wifi_post_evt connect_request (b.queue, b.wifi))
        (record b { settle = settle_done b.settle })

  unfoldable pub bridge_step : BridgeEvent S → Bridge S → Bridge S
  unfolding on_bluetooth on_worker update_nat_lwip_ctx bt_settle_and_connect wifi_post_evt
      wifi_event_handler wifi_manager_scan_start app_state_set
  bridge_step (bluetooth armed created e) b = on_bluetooth armed created e b
  bridge_step (radio e) b = with_inbox (wifi_event_handler e (b.queue, b.wifi)) b
  bridge_step (request e) b = with_inbox (wifi_post_evt e (b.queue, b.wifi)) b
  bridge_step scan_asked b = with_inbox (wifi_manager_scan_start (b.queue, b.wifi)) b
  bridge_step (flash_written f) b = record b { wifi = record b.wifi { flash = f } }
  bridge_step (state_shown st) b = record b {
    bt = record b.bt { shared = app_state_set b.bt.shared st };
  }
  bridge_step (rssi_read rssi) b = record b {
    bt = record b.bt { shared = set_wifi_rssi b.bt.shared rssi };
  }
  bridge_step (worker d) b = on_worker b.queue d b
  bridge_step lwip_callback b = if b.callbacks == 0 then b else update_nat_lwip_ctx b
  bridge_step settled b = if b.settle.tasks == 0 then b else bt_settle_and_connect b
  bridge_step (interfaces netif_list sta_ip) b = record b {
    netif_list = netif_list;
    sta_ip = sta_ip;
  }

  unfoldable pub bridge_run : List (BridgeEvent S) → Bridge S → Bridge S
  unfolding bridge_step
  bridge_run [] b = b
  bridge_run (e ∷ es) b = bridge_run es (bridge_step e b)
