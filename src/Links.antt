-- ===== src/Links.antt =====
-- main/event_bus.c, main/link_registry.c and main/nat_bridge.c: who hears an event, which link plays a
-- role, and when packets are translated. `W` is the state of the transports and of the handlers, and an
-- interface's functions are parameters that read it.
pub mod Netif
pub mod Laws
use satura_bridge.AppState.{
  EventType, wifi_connected, uplink_down, wifi_disconnected, uplink_up, bt_connected, downlink_down,
  bt_disconnected, downlink_up,
}
use satura_bridge.Prelude.{
  Bool, List, Option, ℕ, [], false, if◌then◌else◌, leb, length, ltb, none, some, true, ◌&&◌, ◌++◌,
  ◌==◌, ◌∷◌,
}

abbrev pub max_handlers_per_type : ℕ
max_handlers_per_type = 4

abbrev pub max_links : ℕ
max_links = 4

-- The number of the enum constant.
unfoldable pub event_number : EventType → ℕ
event_number wifi_connected = 0
event_number wifi_disconnected = 1
event_number bt_connected = 2
event_number bt_disconnected = 3
event_number downlink_up = 4
event_number downlink_down = 5
event_number uplink_up = 6
event_number uplink_down = 7

module _ {W : Type 0} where
  -- `handlers[type]` with its count is the list of the handlers; a handler is a step of the state, and
  -- the null pointer, which the source refuses, is none.
  unfoldable pub event_bus_subscribe :
      EventType → (W → W) → (EventType → List (W → W)) → EventType → List (W → W)
  event_bus_subscribe type handler handlers t =
      if event_number t == event_number type && ltb (length (handlers type)) max_handlers_per_type
      then handlers t ++ handler ∷ []
      else handlers t

  unfoldable pub run_handlers : List (W → W) → W → W
  run_handlers [] w = w
  run_handlers (h ∷ hs) w = run_handlers hs (h w)

  unfoldable pub event_bus_publish : EventType → (EventType → List (W → W)) → W → W
  event_bus_publish type handlers w = run_handlers (handlers type) w

  -- `nat_bridge_subscribe`: one handler on four events.
  unfoldable pub nat_bridge_subscribe :
      (W → W) → (EventType → List (W → W)) → EventType → List (W → W)
  nat_bridge_subscribe update handlers = event_bus_subscribe uplink_down update (
      event_bus_subscribe uplink_up update (
        event_bus_subscribe downlink_down update (event_bus_subscribe downlink_up update handlers)))

pub data LinkRole : Type 0 where
  downlink uplink : LinkRole

-- `none` is a null function pointer. A network interface is a number; `get_netif` may find none.
pub record LinkIface (W : Type 0) : Type 0 where
  pub role : LinkRole
  pub is_connected : Option (W → Bool)
  pub get_netif : Option (W → Option ℕ)

-- What `update_nat_lwip_ctx` asks of lwIP: the interface and whether its packets are translated.
abbrev pub nat_setting : Option ℕ → Bool → Option (ℕ × Bool)
nat_setting none up = none
nat_setting (some netif) up = some (netif, up)

module _ {W : Type 0} where
  abbrev pub has_role : LinkRole → LinkIface W → Bool
  has_role downlink l = elim l.role [ downlink ↦ true | uplink ↦ false ]
  has_role uplink l = elim l.role [ downlink ↦ false | uplink ↦ true ]

  -- `none` is the null pointer; a full table stays as it is.
  unfoldable pub link_registry_register :
      Option (LinkIface W) → List (LinkIface W) → List (LinkIface W)
  link_registry_register none links = links
  link_registry_register (some link) links =
      if leb max_links (length links) then links else links ++ link ∷ []

  abbrev pub reports : W → LinkIface W → Bool
  reports w l = elim l.is_connected [ none ↦ false | some f ↦ f w ]

  unfoldable pub link_registry_find_connected :
      W → LinkRole → List (LinkIface W) → Option (LinkIface W)
  link_registry_find_connected w role [] = none
  link_registry_find_connected w role (l ∷ ls) =
      let rest = link_registry_find_connected w role ls in
      if has_role role l && reports w l then some l else rest

  abbrev pub is_found : Option (LinkIface W) → Bool
  is_found none = false
  is_found (some l) = true

  abbrev pub called : {A : Type 0} → W → Option (W → Option A) → Option A
  called w none = none
  called w (some f) = f w

  -- The interface of the downlink, if there is a link and it has one.
  unfoldable pub downlink_netif : W → Option (LinkIface W) → Option ℕ
  downlink_netif w none = none
  downlink_netif w (some down) = called w down.get_netif

  unfoldable pub update_nat : W → List (LinkIface W) → Option (ℕ × Bool)
  update_nat w links =
      nat_setting (downlink_netif w (link_registry_find_connected w downlink links))
        (is_found (link_registry_find_connected w uplink links))
