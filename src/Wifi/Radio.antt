-- ===== src/Wifi/Radio.antt =====
-- main/wifi_manager.c: the handler of the driver's events, its registration, the soft reset and the start.
-- The event loop is the list of the instances that are registered with it; the numbers of new instances
-- are arguments.
use satura_bridge.Prelude.{
  Bool, List, Option, [], ◌∷◌, ◌++◌, ℕ, ◌==◌, ◌&&◌, ltb, length, some, none, true, false,
  if◌then◌else◌,
}
use satura_bridge.Wifi.State.{WifiEvt, Wifi, disconnected, got_ip}
use satura_bridge.Wifi.Inbox.{wifi_post_evt, queue_size}

pub data EventBase : Type 0 where
  wifi_event ip_event : EventBase

-- What the event loop reports: a lost connection, another event of the driver, or an address.
pub data LoopEvent : Type 0 where
  sta_disconnected other_wifi : LoopEvent
  sta_got_ip : List ℕ → LoopEvent

pub data RadioCall : Type 0 where
  netif_init loop_create get_config disconnect stop deinit init set_mode set_config start connect :
      RadioCall

pub record Instance : Type 0 where
  pub base : EventBase
  pub number : ℕ

pub record Radio : Type 0 where
  pub wifi_evt_inst : Option ℕ
  pub ip_evt_inst : Option ℕ
  pub registered : List Instance
  pub calls : List RadioCall

abbrev pub powered_on : Radio
powered_on = record { wifi_evt_inst = none; ip_evt_inst = none; registered = []; calls = [] }

abbrev pub same_base : EventBase → EventBase → Bool
same_base wifi_event wifi_event = true
same_base ip_event ip_event = true
same_base wifi_event ip_event = false
same_base ip_event wifi_event = false

abbrev pub base_of : LoopEvent → EventBase
base_of sta_disconnected = wifi_event
base_of other_wifi = wifi_event
base_of (sta_got_ip ip) = ip_event

module _ {S : Type 0} where
  -- An address is sent to the queue directly: where that is full it is dropped in silence.
  unfoldable pub wifi_event_handler :
      LoopEvent → Option (List WifiEvt) × Wifi S → Option (List WifiEvt) × Wifi S
  wifi_event_handler sta_disconnected q = wifi_post_evt disconnected q
  wifi_event_handler other_wifi q = q
  wifi_event_handler (sta_got_ip ip) (none, w) = (none, w)
  wifi_event_handler (sta_got_ip ip) (some queue, w) =
      if ltb (length queue) queue_size then (some (queue ++ got_ip ip ∷ []), w) else (some queue, w)

  -- As documented, the loop calls the handler once for every instance that is registered for the event.
  unfoldable pub deliver :
      LoopEvent → List Instance → Option (List WifiEvt) × Wifi S → Option (List WifiEvt) × Wifi S
  deliver e [] q = q
  deliver e (i ∷ is) q =
      deliver e is (if same_base i.base (base_of e) then wifi_event_handler e q else q)

abbrev pub with_instance : EventBase → ℕ → Option ℕ → List Instance → List Instance
with_instance base number none is = is ++ record { base = base; number = number } ∷ []
with_instance base number (some held) is = is

abbrev pub held_or : ℕ → Option ℕ → Option ℕ
held_or number none = some number
held_or number (some held) = some held

-- Each handler is registered only where no instance is held.
unfoldable pub wifi_register_handlers : ℕ → ℕ → Radio → Radio
wifi_register_handlers i j r = record r {
  wifi_evt_inst = held_or i r.wifi_evt_inst;
  ip_evt_inst = held_or j r.ip_evt_inst;
  registered =
      with_instance ip_event j r.ip_evt_inst
        (with_instance wifi_event i r.wifi_evt_inst r.registered);
}

unfoldable pub drop_instance : EventBase → ℕ → List Instance → List Instance
drop_instance base number [] = []
drop_instance base number (i ∷ is) =
    let rest = drop_instance base number is in
    if same_base i.base base && i.number == number then rest else i ∷ rest

abbrev pub without_instance : EventBase → Option ℕ → List Instance → List Instance
without_instance base none is = is
without_instance base (some number) is = drop_instance base number is

unfoldable pub wifi_unregister_handlers : Radio → Radio
wifi_unregister_handlers r = record r {
  wifi_evt_inst = none;
  ip_evt_inst = none;
  registered =
      without_instance ip_event r.ip_evt_inst
        (without_instance wifi_event r.wifi_evt_inst r.registered);
}

abbrev pub ask : List RadioCall → Radio → Radio
ask cs r = record r { calls = r.calls ++ cs }

-- The configuration that is set is the one that was read first.
unfoldable pub wifi_soft_reset : ℕ → ℕ → Radio → Radio
wifi_soft_reset i j r = ask (set_mode ∷ set_config ∷ start ∷ connect ∷ []) (
    wifi_register_handlers i j (
      ask (disconnect ∷ stop ∷ deinit ∷ init ∷ [])
        (wifi_unregister_handlers (ask (get_config ∷ []) r))))

-- The part of `wifi_manager_init` that sets up the driver.
unfoldable pub wifi_manager_init : ℕ → ℕ → Radio → Radio
wifi_manager_init i j r =
    ask (set_mode ∷ start ∷ [])
      (wifi_register_handlers i j (ask (netif_init ∷ loop_create ∷ init ∷ []) r))

unfoldable pub soft_resets : List (ℕ × ℕ) → Radio → Radio
soft_resets [] r = r
soft_resets ((i, j) ∷ ns) r = soft_resets ns (wifi_soft_reset i j r)
