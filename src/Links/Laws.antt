-- ===== src/Links/Laws.antt =====
-- Delivery of events, and when the bridge translates packets.
use satura_bridge.AppState.{EventType}
use satura_bridge.Prelude.{
  Bool, Bool-cases, List, Option, [], ap, false, if◌then◌else◌, inl, inr, length, lt→ltb, refl,
  some, ℕ, ◌&&◌, ◌++◌, ◌<◌, ◌==◌, ◌||◌, ◌∷◌, ◌≡◌, ◌∙◌,
}
use satura_bridge.Links.{
  LinkIface, LinkRole, event_bus_subscribe, event_bus_publish, run_handlers, event_number, has_role,
  reports, link_registry_find_connected, is_found, nat_setting, downlink_netif, called, update_nat,
  uplink, downlink,
}

module _ {W : Type 0} where
  run_handlers-append :
      (hs ks : List (W → W)) (w : W)
      → run_handlers (hs ++ ks) w ≡ run_handlers ks (run_handlers hs w)
  unfolding run_handlers
  run_handlers-append [] ks w = refl
  run_handlers-append (h ∷ hs) ks w = run_handlers-append hs ks (h w)

  -- A handler whose event has fewer than four handlers runs once for each publication of its event,
  -- after the ones before it, and the publication of another event is as before.
  pub event_bus_publish-event_bus_subscribe :
      (type t : EventType) (h : W → W) (handlers : EventType → List (W → W)) (w : W)
      → length (handlers type) < 4
      → event_bus_publish t (event_bus_subscribe type h handlers) w ≡ (
          if event_number t == event_number type
          then h (event_bus_publish t handlers w)
          else event_bus_publish t handlers w)
  unfolding event_bus_publish event_bus_subscribe run_handlers
  event_bus_publish-event_bus_subscribe type t h handlers w room =
      elim (Bool-cases (event_number t == event_number type)) [
        | inl same ↦ rw (same, lt→ltb _ _ room) (run_handlers-append (handlers t) (h ∷ []) w)
        | inr other ↦ rw other refl
      ]

  -- Some registered link of the role reports that it is connected.
  pub any_connected : W → LinkRole → List (LinkIface W) → Bool
  any_connected w role [] = false
  any_connected w role (l ∷ ls) = (has_role role l && reports w l) || any_connected w role ls

  find-any :
      (w : W) (role : LinkRole) (ls : List (LinkIface W))
      → is_found (link_registry_find_connected w role ls) ≡ any_connected w role ls
  unfolding link_registry_find_connected any_connected
  find-any w role [] = refl
  find-any w role (l ∷ ls) = elim (Bool-cases (has_role role l && reports w l)) [
    | inl here ↦ rw here refl
    | inr further ↦ rw further (find-any w role ls)
  ]

  -- Where the first connected downlink has an interface, translation is set on that interface, on
  -- exactly if some uplink is connected.
  pub update_nat-any_connected :
      (w : W) (links : List (LinkIface W)) (down : LinkIface W) (f : W → Option ℕ) (netif : ℕ)
      → link_registry_find_connected w downlink links ≡ some down
      → down.get_netif ≡ some f
      → f w ≡ some netif
      → update_nat w links ≡ some (netif, any_connected w uplink links)
  unfolding update_nat downlink_netif
  update_nat-any_connected w links down f netif hd hf hn =
      let up = is_found (link_registry_find_connected w uplink links) in
      ap (λ o. nat_setting (downlink_netif w o) up) hd
      ∙ ap (λ g. nat_setting (called w g) up) hf
      ∙ ap (λ o. nat_setting o up) hn
      ∙ ap (λ b. some (netif, b)) (find-any w uplink links)
