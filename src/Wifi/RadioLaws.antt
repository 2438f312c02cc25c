-- ===== src/Wifi/RadioLaws.antt =====
-- How often the event loop calls the handler of main/wifi_manager.c.
use satura_bridge.Prelude.{
  List, ℕ, [], arith, length, lt→ltb, none, refl, some, ◌++◌, ◌<◌, ◌∷◌, ◌≡◌,
}
use satura_bridge.Wifi.State.{WifiEvt, Wifi, disconnected}
use satura_bridge.Wifi.Inbox.{wifi_post_evt}
use satura_bridge.Wifi.Radio.{
  RadioCall, Instance, Radio, powered_on, wifi_event_handler, deliver, wifi_register_handlers,
  drop_instance, wifi_unregister_handlers, ask, wifi_soft_reset, wifi_manager_init, soft_resets,
  wifi_event, ip_event, sta_disconnected, get_config, disconnect, stop, deinit, init, set_mode,
  set_config, start, connect,
}

-- One instance for each base, and both are held.
pub record IsRegistered (r : Radio) : Type 0 where
  pub wifi_number : ℕ
  pub ip_number : ℕ
  pub wifi_held : r.wifi_evt_inst ≡ some wifi_number
  pub ip_held : r.ip_evt_inst ≡ some ip_number
  pub one_each :
      r.registered
      ≡ record { base = wifi_event; number = wifi_number }
        ∷ record { base = ip_event; number = ip_number }
        ∷ []

register-IsRegistered :
    (i j : ℕ) (r : Radio)
    → r.wifi_evt_inst ≡ none
    → r.ip_evt_inst ≡ none
    → r.registered ≡ []
    → IsRegistered (wifi_register_handlers i j r)
unfolding wifi_register_handlers
register-IsRegistered i j r no_wifi no_ip empty =
    rw (no_wifi, no_ip, empty)
      (record { wifi_number = i; ip_number = j; wifi_held = refl; ip_held = refl; one_each = refl })

ask-IsRegistered : (cs : List RadioCall) (r : Radio) → IsRegistered r → IsRegistered (ask cs r)
ask-IsRegistered cs r h = record {
  wifi_number = h.wifi_number;
  ip_number = h.ip_number;
  wifi_held = h.wifi_held;
  ip_held = h.ip_held;
  one_each = h.one_each;
}

unregister-empty : (r : Radio) → IsRegistered r → (wifi_unregister_handlers r).registered ≡ []
unfolding wifi_unregister_handlers drop_instance
unregister-empty r h = rw (h.wifi_held, h.ip_held, h.one_each) (ground arith)

reset-IsRegistered : (i j : ℕ) (r : Radio) → IsRegistered r → IsRegistered (wifi_soft_reset i j r)
unfolding wifi_soft_reset
reset-IsRegistered i j r h =
    let gone = wifi_unregister_handlers (ask (get_config ∷ []) r) in
    let empty =
      unregister-empty (ask (get_config ∷ []) r) (ask-IsRegistered (get_config ∷ []) r h) in
    ask-IsRegistered (set_mode ∷ set_config ∷ start ∷ connect ∷ []) _ (
      register-IsRegistered i j (ask (disconnect ∷ stop ∷ deinit ∷ init ∷ []) gone)
        (unfold wifi_unregister_handlers in refl) (unfold wifi_unregister_handlers in refl) empty)

pub resets-IsRegistered :
    (ns : List (ℕ × ℕ)) (r : Radio) → IsRegistered r → IsRegistered (soft_resets ns r)
unfolding soft_resets
resets-IsRegistered [] r h = h
resets-IsRegistered ((i, j) ∷ ns) r h =
    resets-IsRegistered ns (wifi_soft_reset i j r) (reset-IsRegistered i j r h)

init-IsRegistered : (i j : ℕ) → IsRegistered (wifi_manager_init i j powered_on)
unfolding wifi_manager_init
init-IsRegistered i j =
    ask-IsRegistered (set_mode ∷ start ∷ []) _ (register-IsRegistered i j _ refl refl refl)

delivered_once :
    {S : Type 0} (is : List Instance) (a b : ℕ) (queue : List WifiEvt) (w : Wifi S)
    → is ≡ record { base = wifi_event; number = a } ∷ record { base = ip_event; number = b } ∷ []
    → length queue < 8
    → deliver sta_disconnected is (some queue, w) ≡ (some (queue ++ disconnected ∷ []), w)
unfolding deliver wifi_event_handler wifi_post_evt
delivered_once is a b queue w each room = rw (each, lt→ltb (length queue) 8 room) refl

-- After the start and any number of soft resets, a lost connection puts exactly one event into the queue of
-- the worker, if there is room: no handler is registered twice.
pub deliver-soft_resets :
    {S : Type 0} (i j : ℕ) (ns : List (ℕ × ℕ)) (queue : List WifiEvt) (w : Wifi S)
    → length queue < 8
    → deliver sta_disconnected
        (soft_resets ns (wifi_manager_init i j powered_on)).registered
        (some queue, w)
      ≡ (some (queue ++ disconnected ∷ []), w)
deliver-soft_resets i j ns queue w room =
    let h = resets-IsRegistered ns _ (init-IsRegistered i j) in
    delivered_once _ h.wifi_number h.ip_number queue w h.one_each room
