-- ===== src/Bridge/Phone.antt =====
-- main/bt_pan.c: how the handlers of the Bluetooth stack write the flags of the links, and what they
-- publish with that.
use satura_bridge.AppState.{EventType, app_state_set, set_bt_connected, downlink_up}
use satura_bridge.BtPan.{
  BtPan, BtEvent, bt_step, channel_opened, channel_closed, opened, closed, reopen_once,
  schedule_reopen, reopen_main, hci_disconnected, rssi_measured, disconnection_complete,
  rssi_measurement, reopen_fired, other_event, pin_code_request, user_confirmation_request,
}
use satura_bridge.Bridge.Announce.{nat_events}
use satura_bridge.Prelude.{
  Bool, List, [], true, ◌≡◌, ◌≤◌, ◌⊎◌, ◌∷◌, inl, inr, refl, arith, drop, length, drop-append_left,
  Bool-cases, ◌==◌, ◌++◌, append_assoc,
}
use satura_bridge.Bridge.Delivery.{nat_events-cons}

nat_events-last : (ps : List EventType) → 1 ≤ nat_events (ps ++ downlink_up ∷ [])
unfolding nat_events
nat_events-last [] = ground arith
nat_events-last (p ∷ ps) =
    omega (arith, nat_events-cons p (ps ++ downlink_up ∷ []), nat_events-last ps)

nat_events-drop :
    (es ps : List EventType) → 1 ≤ nat_events (drop (length es) (es ++ ps ++ downlink_up ∷ []))
nat_events-drop es ps =
    rw (append_assoc es ps (downlink_up ∷ []), drop-append_left es (ps ++ downlink_up ∷ []))
      (nat_events-last ps)

-- The Bluetooth flag rises only with an event that the NAT listens to.
pub bt_step-announced :
    (armed : Bool) (e : BtEvent) (s : BtPan)
    → let s' = bt_step armed e s in
      (1 ≤ nat_events (drop (length s.events) s'.events))
      ⊎ ((s'.shared.wifi_link ≡ s.shared.wifi_link)
          × ((s'.shared.bt_link ≡ true) → s.shared.bt_link ≡ true))
unfolding bt_step opened closed reopen_once schedule_reopen reopen_main hci_disconnected
    rssi_measured set_bt_connected app_state_set nat_events
bt_step-announced armed (disconnection_complete h) s = inr (ground arith)
bt_step-announced armed (rssi_measurement h rssi) s = inr (ground arith)
bt_step-announced armed (channel_opened status h) s = elim (Bool-cases (status == 0)) [
  | inl fine ↦ elim (Bool-cases s.shared.bt_link) [
    | inl up ↦ inr (ground arith)
    | inr down ↦ inl (rw (fine, down) (nat_events-drop s.events _))
  ]
  | inr bad ↦ inr (ground arith)
]
bt_step-announced armed channel_closed s = inr (ground arith)
bt_step-announced armed (pin_code_request addr) s = inr (refl, λ e. e)
bt_step-announced armed (user_confirmation_request addr) s = inr (refl, λ e. e)
bt_step-announced armed reopen_fired s = inr (ground arith)
bt_step-announced armed other_event s = inr (refl, λ e. e)

-- The Bluetooth handlers never write the flag of the Wi-Fi link.
pub bt_step-wifi_link :
    (armed : Bool) (e : BtEvent) (s : BtPan)
    → (bt_step armed e s).shared.wifi_link ≡ s.shared.wifi_link
unfolding bt_step opened closed reopen_once schedule_reopen reopen_main hci_disconnected
    rssi_measured set_bt_connected app_state_set
bt_step-wifi_link armed (disconnection_complete h) s = ground arith
bt_step-wifi_link armed (rssi_measurement h rssi) s = ground arith
bt_step-wifi_link armed (channel_opened status h) s = ground arith
bt_step-wifi_link armed channel_closed s = ground arith
bt_step-wifi_link armed (pin_code_request addr) s = refl
bt_step-wifi_link armed (user_confirmation_request addr) s = refl
bt_step-wifi_link armed reopen_fired s = ground arith
bt_step-wifi_link armed other_event s = refl
