-- ===== src/Bridge/Arrivals.antt =====
-- A phone opens its channel and an address arrives, in either order: what main/bt_pan.c and the worker of
-- main/wifi_manager.c then hold.
use satura_bridge.AppState.Changes.{app_state_set_lem}
use satura_bridge.Bridge.Kept.{publish_all-IsKept}
use satura_bridge.AppState.{app_state_set, set_bt_connected, bridge, Shared}
use satura_bridge.Bridge.{
  Bridge, BridgeEvent, bluetooth, radio, worker, bridge_run, bridge_step, on_bluetooth,
}
use satura_bridge.BtPan.{channel_opened, bt_step, opened, BtPan}
use satura_bridge.Prelude.{
  Bool, List, ℕ, [], ◌∷◌, true, false, some, ◌≡◌, arith, ap, ◌∙◌, drop, length, subst, sym,
  if◌then◌else◌,
}
use satura_bridge.Wifi.Radio.{sta_got_ip}
use satura_bridge.Wifi.State.{Driver, NetworkStore, Wifi, connecting, connected}
use satura_bridge.Bridge.Linked.{publish_all-linked}
use satura_bridge.Bridge.Address.{address_taken, address_worker}

-- Both links are up, and the display says so.
pub record IsServing (s : Shared) : Type 0 where
  pub wifi_up : s.wifi_link ≡ true
  pub bt_up : s.bt_link ≡ true
  pub shown : s.current_state ≡ bridge

opened-IsServing :
    (armed : Bool) (h : ℕ) (s : BtPan)
    → s.shared.wifi_link ≡ true
    → s.shared.bt_link ≡ false
    → IsServing (bt_step armed (channel_opened 0 h) s).shared
unfolding bt_step opened set_bt_connected app_state_set
opened-IsServing armed h s up down = record {
  wifi_up = ground arith;
  bt_up = ground arith;
  shown =
      rw (up, down)
        (app_state_set_lem
          (set_bt_connected (record s.shared { wifi_link = true; bt_link = false }) true).0 bridge);
}

opened-bt_link :
    (armed : Bool) (h : ℕ) (s : BtPan)
    → s.shared.bt_link ≡ false
    → (bt_step armed (channel_opened 0 h) s).shared.bt_link ≡ true
unfolding bt_step opened set_bt_connected app_state_set
opened-bt_link armed h s down = ground arith

module _ {S : Type 0} where
  -- What happens, with the phone first or the network first.
  abbrev pub arrivals : Bool → Bool → Bool → ℕ → List ℕ → Driver → List (BridgeEvent S)
  arrivals phone_first armed created h ip d =
      let phone = bluetooth armed created (channel_opened 0 h) in
      if phone_first
      then phone ∷ radio (sta_got_ip ip) ∷ worker d ∷ []
      else radio (sta_got_ip ip) ∷ worker d ∷ phone ∷ []

module _ {S : Type 0} (store : NetworkStore S) where
  phone_taken :
      (armed created : Bool) (h : ℕ) (b : Bridge S)
      → b.bt.shared.wifi_link ≡ true
      → b.bt.shared.bt_link ≡ false
      → IsServing (on_bluetooth store armed created (channel_opened 0 h) b).bt.shared
  unfolding on_bluetooth
  phone_taken armed created h b up down =
      let bt = bt_step armed (channel_opened 0 h) b.bt in
      let served = opened-IsServing armed h b.bt up down in
      let same =
        publish_all-linked store (drop (length b.bt.events) bt.events)
          (record b { bt = bt; created = created }) served.wifi_up in
      subst (λ (s : BtPan). IsServing s.shared) (sym same) served

  phone_kept :
      (armed created : Bool) (h : ℕ) (b : Bridge S)
      → let b' = on_bluetooth store armed created (channel_opened 0 h) b in
        (b'.queue ≡ b.queue) × (b'.wifi.fsm_state ≡ b.wifi.fsm_state)
  unfolding on_bluetooth
  phone_kept armed created h b =
      let bt = bt_step armed (channel_opened 0 h) b.bt in
      let k =
        publish_all-IsKept store (drop (length b.bt.events) bt.events)
          (record b { bt = bt; created = created }) in
      (k.queue_kept, ap (λ (w : Wifi S). w.fsm_state) k.wifi_rest)

  phone_waits :
      (armed created : Bool) (h : ℕ) (b : Bridge S)
      → b.bt.shared.bt_link ≡ false
      → (on_bluetooth store armed created (channel_opened 0 h) b).bt.shared.bt_link ≡ true
  unfolding on_bluetooth
  phone_waits armed created h b down =
      let bt = bt_step armed (channel_opened 0 h) b.bt in
      (publish_all-IsKept store (drop (length b.bt.events) bt.events)
        (record b { bt = bt; created = created })).bt_kept
      ∙ opened-bt_link armed h b.bt down

  pub arrivals-IsServing :
      (phone_first armed created : Bool) (h : ℕ) (ip : List ℕ) (d : Driver) (b : Bridge S)
      → b.queue ≡ some []
      → b.wifi.fsm_state ≡ connecting
      → b.bt.shared.bt_link ≡ false
      → IsServing (bridge_run store (arrivals phone_first armed created h ip d) b).bt.shared
  unfolding bridge_run bridge_step
  arrivals-IsServing true armed created h ip d b empty at down =
      let b' = on_bluetooth store armed created (channel_opened 0 h) b in
      let up = phone_waits armed created h b down in
      let (queue, state) = phone_kept armed created h b in
      let (wifi, bt, shown) = address_taken store ip d b' (queue ∙ empty) (state ∙ at) in
      record { wifi_up = wifi; bt_up = bt ∙ up; shown = shown up }
  arrivals-IsServing false armed created h ip d b empty at down =
      let b' = bridge_run store (radio (sta_got_ip ip) ∷ worker d ∷ []) b in
      let (wifi, bt, shown) = address_taken store ip d b empty at in
      phone_taken armed created h b' wifi (bt ∙ down)

  pub arrivals_worker :
      (phone_first armed created : Bool) (h : ℕ) (ip : List ℕ) (d : Driver) (b : Bridge S)
      → b.queue ≡ some []
      → b.wifi.fsm_state ≡ connecting
      → let b' = bridge_run store (arrivals phone_first armed created h ip d) b in
        (b'.wifi.fsm_state ≡ connected) × (b'.queue ≡ some [])
  unfolding bridge_run bridge_step
  arrivals_worker true armed created h ip d b empty at =
      let (queue, state) = phone_kept armed created h b in
      address_worker store ip d (on_bluetooth store armed created (channel_opened 0 h) b)
        (queue ∙ empty) (state ∙ at)
  arrivals_worker false armed created h ip d b empty at =
      let (state, queue) = address_worker store ip d b empty at in
      let (queue', state') =
        phone_kept armed created h (bridge_run store (radio (sta_got_ip ip) ∷ worker d ∷ []) b) in
      (state' ∙ state, queue' ∙ queue)
