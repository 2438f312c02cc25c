-- ===== src/BtPan/Laws.antt =====
-- What holds of main/bt_pan.c after every sequence of events.
use satura_bridge.Prelude.{
  Bool, List, [], arith, if◌then◌else◌, map, none, true, ℕ, ◌∷◌, ◌≡◌, ◌⊎◌, ◌≤◌, Option, false, some,
}
use satura_bridge.BtPan.{
  BtPan, BtEvent, bt_step, bt_run, schedule_reopen, reopen_main, reopen_once, hci_disconnected,
  rssi_measured, opened, closed, disconnection_complete, rssi_measurement, channel_opened,
  channel_closed, reopen_fired, other_event, pin_code_request, user_confirmation_request,
}
use satura_bridge.AppState.{set_bt_connected, app_state_set}

abbrev pub has_handle : Option ℕ → Bool
has_handle none = false
has_handle (some h) = true

pub record IsPaired (s : BtPan) : Type 0 where
  -- A handle is kept exactly while the link is up.
  pub paired : s.shared.bt_link ≡ has_handle s.bt_handle
  -- The flag stands for the one timer in flight.
  pub one_timer : s.timers ≡ (if s.bt_reopen_running then 1 else 0)

-- Visible, connected, or with a timer in flight that will make it visible.
abbrev pub IsReachable : BtPan → Type 0
IsReachable s = (s.visible ≡ true) ⊎ ((s.shared.bt_link ≡ true) ⊎ (1 ≤ s.timers))

step-IsPaired : (armed : Bool) (e : BtEvent) (s : BtPan) → IsPaired s → IsPaired (bt_step armed e s)
unfolding bt_step schedule_reopen reopen_main reopen_once hci_disconnected rssi_measured opened
    closed set_bt_connected app_state_set
step-IsPaired armed (disconnection_complete h) s v = ground (arith, v.paired, v.one_timer)
step-IsPaired armed (rssi_measurement h rssi) s v = ground (arith, v.paired, v.one_timer)
step-IsPaired armed (channel_opened status h) s v = ground (arith, v.paired, v.one_timer)
step-IsPaired armed channel_closed s v = ground (arith, v.paired, v.one_timer)
step-IsPaired armed (pin_code_request addr) s v = record {
  paired = v.paired;
  one_timer = v.one_timer;
}
step-IsPaired armed (user_confirmation_request addr) s v = record {
  paired = v.paired;
  one_timer = v.one_timer;
}
step-IsPaired armed reopen_fired s v = ground (arith, v.paired, v.one_timer)
step-IsPaired armed other_event s v = v

step-IsReachable :
    (e : BtEvent) (s : BtPan)
    → s.timers ≡ (if s.bt_reopen_running then 1 else 0)
    → IsReachable s
    → IsReachable (bt_step true e s)
unfolding bt_step schedule_reopen reopen_main reopen_once hci_disconnected rssi_measured opened
    closed set_bt_connected app_state_set
step-IsReachable (disconnection_complete h) s k v = ground (arith, k, v)
step-IsReachable (rssi_measurement h rssi) s k v = ground (arith, k, v)
step-IsReachable (channel_opened status h) s k v = ground (arith, k, v)
step-IsReachable channel_closed s k v = ground (arith, k, v)
step-IsReachable (pin_code_request addr) s k v = v
step-IsReachable (user_confirmation_request addr) s k v = v
step-IsReachable reopen_fired s k v = ground (arith, k, v)
step-IsReachable other_event s k v = v

-- From a state where the handle goes with the link and the flag with the timer, every sequence of
-- events, whether timers can be started or not, ends in such a state: a handle is held exactly while
-- the link is up, and at most one timer is in flight.
pub bt_run-IsPaired : (es : List (Bool × BtEvent)) (s : BtPan) → IsPaired s → IsPaired (bt_run es s)
unfolding bt_run
bt_run-IsPaired [] s v = v
bt_run-IsPaired ((armed, e) ∷ es) s v =
    bt_run-IsPaired es (bt_step armed e s) (step-IsPaired armed e s v)

-- If every timer can be started, the bridge never becomes unreachable: from a state where the handle goes
-- with the link and the flag with the timer, and in which it is visible, connected, or has a timer in
-- flight that will make it visible, any sequence of events ends in a state in which it is one of these.
pub bt_run-IsReachable :
    (es : List BtEvent) (s : BtPan)
    → IsPaired s
    → IsReachable s
    → IsReachable (bt_run (map (λ e. (true, e)) es) s)
unfolding bt_run
bt_run-IsReachable [] s k v = v
bt_run-IsReachable (e ∷ es) s k v =
    bt_run-IsReachable es (bt_step true e s) (step-IsPaired true e s k)
      (step-IsReachable e s k.one_timer v)

not_matched :
    (s : BtPan) (armed : Bool) (h : ℕ) → IsPaired s → bt_step armed (disconnection_complete h) s ≡ s
unfolding bt_step hci_disconnected
not_matched s armed h v = ground (arith, v.paired)

-- After any sequence of events from a state where the handle goes with the link and the flag with
-- the timer, the end of an HCI connection changes nothing: the branch that is meant for a phone that
-- leaves before BNEP opens needs a handle that is kept only after that.
pub hci_disconnect_ignored :
    (es : List (Bool × BtEvent)) (s : BtPan) (armed : Bool) (h : ℕ)
    → IsPaired s
    → bt_step armed (disconnection_complete h) (bt_run es s) ≡ bt_run es s
hci_disconnect_ignored es s armed h v = not_matched (bt_run es s) armed h (bt_run-IsPaired es s v)
