-- ===== src/Boot/Laws.antt =====
-- What holds when the start is over.
use satura_bridge.Bridge.Nat.{IsInSync, unlinked-IsInSync}
use satura_bridge.AppState.{
  EventType, bt_connected, bt_disconnected, wifi_connected, wifi_disconnected, downlink_up,
  downlink_down, uplink_up, uplink_down, app_state_set, boot_state,
}
use satura_bridge.Board.{Board}
use satura_bridge.Boot.{
  Answers, Started, first_connect, initial_wifi, btstack_main, idle, start_services, created_queue,
}
use satura_bridge.Chip.{Partition, btstack_flash}
use satura_bridge.Bridge.Inbox.{IsInbox, post-IsInbox}
use satura_bridge.Bridge.{settle_handler, nat_bridge_update, wifi_uplink_link, bt_pan_link, Bridge}
use satura_bridge.Links.{
  event_bus_subscribe, nat_bridge_subscribe, link_registry_register, event_number,
}
use satura_bridge.BtPan.Laws.{IsPaired, IsReachable}
use satura_bridge.Prelude.{
  Bool, List, Option, [], ◌∷◌, ℕ, false, true, ◌≡◌, refl, arith, Bool-cases, inl, inr,
}
use satura_bridge.Storage.{Nvs}
use satura_bridge.Wifi.Flash.{flash_networks}
use satura_bridge.Wifi.Inbox.{IsOneTask, wifi_post_evt}
use satura_bridge.Wifi.Machine.{has_credentials}
use satura_bridge.Wifi.State.{WifiEvt, Wifi, connect_request, NetworkStore, idle}
use satura_bridge.Wifi.Steady.{IsSteady, all_in_bounds}

-- The promises of the parts, at the moment when the events begin.
pub record IsReady {F : Type 0} (store : NetworkStore F) (b : Bridge F) : Type 0 where
  pub steady : IsSteady b.wifi
  pub shared_agrees : b.wifi.shared ≡ b.bt.shared
  pub paired : IsPaired b.bt
  pub reachable : IsReachable b.bt
  pub one_task : IsOneTask b.settle
  pub in_sync : IsInSync b
  pub inbox : IsInbox b.queue

-- Who hears which event, as a table.
pub wired_handlers : {F : Type 0} → NetworkStore F → EventType → List (Bridge F → Bridge F)
wired_handlers store bt_connected = settle_handler store ∷ []
wired_handlers store downlink_up = nat_bridge_update ∷ []
wired_handlers store downlink_down = nat_bridge_update ∷ []
wired_handlers store uplink_up = nat_bridge_update ∷ []
wired_handlers store uplink_down = nat_bridge_update ∷ []
wired_handlers store wifi_connected = []
wired_handlers store wifi_disconnected = []
wired_handlers store bt_disconnected = []

created_queue-IsInbox : (created : Bool) → IsInbox (created_queue created)
created_queue-IsInbox true = record { short = omega arith; ordinary = tt }
created_queue-IsInbox false = record { short = omega arith; ordinary = tt }

module _ {F : Type 0} (nvs : Nvs F) (stack : List ℕ) where
  initial : Option (List WifiEvt) → F → Option (List WifiEvt) × Wifi F
  initial queue f = first_connect nvs stack (queue, initial_wifi boot_state f)

  initial-IsSteady : (queue : Option (List WifiEvt)) (f : F) → IsSteady (initial queue f).1
  unfolding initial first_connect app_state_set wifi_post_evt all_in_bounds
  initial-IsSteady queue f = ground arith

  initial-IsInbox :
      (queue : Option (List WifiEvt)) (f : F) → IsInbox queue → IsInbox (initial queue f).0
  unfolding initial first_connect
  initial-IsInbox queue f v =
      elim (Bool-cases (has_credentials (flash_networks nvs stack) (initial_wifi boot_state f))) [
        | inl any ↦
            rw any (post-IsInbox connect_request queue (initial_wifi boot_state f) (λ e. cc) v)
        | inr bare ↦ rw bare v
      ]

  initial-links :
      (queue : Option (List WifiEvt)) (f : F)
      → let w = (initial queue f).1 in
        (w.shared.bt_link ≡ false) × (w.shared.wifi_link ≡ false) × (w.fsm_state ≡ idle)
  unfolding initial first_connect app_state_set wifi_post_evt
  initial-links queue f = ground arith

  flash-IsSteady : (w : Wifi F) (f : F) → IsSteady w → IsSteady (record w { flash = f })
  flash-IsSteady w f v = ground arith

  module _ {W B : Type 0} (board : Board W B) (a : Answers W) (b : B) where
    abbrev started : Option (List WifiEvt) → F → Started F W B
    started = start_services nvs stack board a b

    started-IsReady :
        (queue : Option (List WifiEvt)) (f : F)
        → IsInbox queue
        → IsReady (flash_networks nvs stack) (started queue f).bridge
    unfolding start_services initial
    started-IsReady queue f good =
        let (bt_down, _, _) = initial-links queue f in
        record {
          steady = flash-IsSteady _ _ (initial-IsSteady queue f);
          shared_agrees = refl;
          paired = record { paired = bt_down; one_timer = refl };
          reachable = inl refl;
          one_task = refl;
          in_sync = unlinked-IsInSync _ bt_down;
          inbox = initial-IsInbox queue f good;
        }

    started_handlers :
        (queue : Option (List WifiEvt)) (f : F) (e : EventType)
        → (started queue f).handlers e ≡ wired_handlers (flash_networks nvs stack) e
    unfolding start_services event_bus_subscribe nat_bridge_subscribe event_number wired_handlers
    started_handlers queue f bt_connected = refl
    started_handlers queue f wifi_connected = refl
    started_handlers queue f wifi_disconnected = refl
    started_handlers queue f bt_disconnected = refl
    started_handlers queue f downlink_up = refl
    started_handlers queue f downlink_down = refl
    started_handlers queue f uplink_up = refl
    started_handlers queue f uplink_down = refl

    started_links :
        (queue : Option (List WifiEvt)) (f : F)
        → (started queue f).links ≡ wifi_uplink_link ∷ bt_pan_link ∷ []
    unfolding start_services link_registry_register
    started_links queue f = refl

module _ {F W B : Type 0} (p : Partition F) (nvs : Nvs F) (stack : List ℕ) (board : Board W B)
    (a : Answers W) (b : B) where
  -- Whatever the flash holds and whatever could be created, the start leaves every part in a state of
  -- which its invariant holds; on the bus, each event of a downlink or an uplink has the NAT's handler
  -- alone, a connected phone that of Wi-Fi alone, and every other event none; and the registry holds the
  -- link of Wi-Fi and that of the phone.
  pub btstack_main-IsReady :
      (f : F) (e : EventType)
      → let s = btstack_main p nvs stack board a b f in
        IsReady (flash_networks nvs stack) s.bridge
        × (s.handlers e ≡ wired_handlers (flash_networks nvs stack) e)
        × (s.links ≡ wifi_uplink_link ∷ bt_pan_link ∷ [])
  unfolding btstack_main
  btstack_main-IsReady f e =
      let queue = created_queue a.queue_created in
      let flash = btstack_flash p f in
      (
        started-IsReady nvs stack board a b queue flash (created_queue-IsInbox a.queue_created),
        started_handlers nvs stack board a b queue flash e,
        started_links nvs stack board a b queue flash,
      )
