-- ===== src/Bridge/Address.antt =====
-- What the worker of main/wifi_manager.c makes of an address while it is connecting.
use satura_bridge.Bridge.Kept.{publish_all-IsKept}
use satura_bridge.AppState.{app_state_set, set_wifi_connected, bridge, Shared}
use satura_bridge.Bridge.{
  Bridge, radio, worker, bridge_run, bridge_step, on_round, on_worker, published, BtPan,
}
use satura_bridge.BtPan.{BtPan}
use satura_bridge.Prelude.{List, ℕ, [], ◌∷◌, true, some, ◌≡◌, refl, arith, ap, ◌∙◌}
use satura_bridge.Wifi.Machine.{
  worker_round, handle_event, dispatch, on_got_ip, set_app, emit, go_to,
}
use satura_bridge.Wifi.Radio.{sta_got_ip, wifi_event_handler}
use satura_bridge.Wifi.State.{Driver, NetworkStore, Wifi, connecting, connected, got_ip}
use satura_bridge.Bridge.Linked.{publish_all-linked}

module _ {S : Type 0} where
  on_got_ip-up :
      (ip : List ℕ) (d : Driver) (w : Wifi S)
      → let t = (on_got_ip d ip w).shared in
        (t.wifi_link ≡ true)
        × (t.bt_link ≡ w.shared.bt_link)
        × (w.shared.bt_link ≡ true → t.current_state ≡ bridge)
  unfolding on_got_ip set_app emit go_to set_wifi_connected app_state_set
  on_got_ip-up ip d w = ground arith

module _ {S : Type 0} (store : NetworkStore S) where
  got_ip_round :
      (ip : List ℕ) (d : Driver) (w : Wifi S)
      → w.fsm_state ≡ connecting
      → let t = (worker_round store (some (got_ip ip)) d w).shared in
        (t.wifi_link ≡ true)
        × (t.bt_link ≡ w.shared.bt_link)
        × (w.shared.bt_link ≡ true → t.current_state ≡ bridge)
  unfolding worker_round handle_event dispatch on_got_ip
  got_ip_round ip d w at = rw at (on_got_ip-up ip d w)

  -- The worker takes the address while it is connecting.
  got_ip_taken :
      (ip : List ℕ) (d : Driver) (b : Bridge S)
      → b.wifi.fsm_state ≡ connecting
      → let s = (on_round store (some (got_ip ip)) d b).bt.shared in
        (s.wifi_link ≡ true)
        × (s.bt_link ≡ b.bt.shared.bt_link)
        × (b.bt.shared.bt_link ≡ true → s.current_state ≡ bridge)
  unfolding on_round
  got_ip_taken ip d b at =
      let before = record b.wifi { shared = b.bt.shared; calls = [] } in
      let w = worker_round store (some (got_ip ip)) d before in
      let (wifi, bt, state) = got_ip_round ip d before at in
      let same =
        publish_all-linked store (published w.calls)
          (record b { wifi = w; bt = record b.bt { shared = w.shared } }) wifi in
      let shared = ap (λ (s : BtPan). s.shared) same in
      (
        ap (λ (s : Shared). s.wifi_link) shared ∙ wifi,
        ap (λ (s : Shared). s.bt_link) shared ∙ bt,
        λ up. ap (λ (s : Shared). s.current_state) shared ∙ state up,
      )

  -- The address that the radio reports is the next event of the worker.
  pub address_taken :
      (ip : List ℕ) (d : Driver) (b : Bridge S)
      → b.queue ≡ some []
      → b.wifi.fsm_state ≡ connecting
      → let s = (bridge_run store (radio (sta_got_ip ip) ∷ worker d ∷ []) b).bt.shared in
        (s.wifi_link ≡ true)
        × (s.bt_link ≡ b.bt.shared.bt_link)
        × (b.bt.shared.bt_link ≡ true → s.current_state ≡ bridge)
  unfolding bridge_run bridge_step on_worker wifi_event_handler
  address_taken ip d b empty at = simp empty (got_ip_taken ip d (record b { queue = some [] }) at)

  connected_round :
      (ip : List ℕ) (d : Driver) (w : Wifi S)
      → w.fsm_state ≡ connecting
      → (worker_round store (some (got_ip ip)) d w).fsm_state ≡ connected
  unfolding worker_round handle_event dispatch on_got_ip
  connected_round ip d w at = rw at (unfold go_to in refl)

  connected_taken :
      (ip : List ℕ) (d : Driver) (b : Bridge S)
      → b.wifi.fsm_state ≡ connecting
      → let b' = on_round store (some (got_ip ip)) d b in
        (b'.wifi.fsm_state ≡ connected) × (b'.queue ≡ b.queue)
  unfolding on_round
  connected_taken ip d b at =
      let before = record b.wifi { shared = b.bt.shared; calls = [] } in
      let w = worker_round store (some (got_ip ip)) d before in
      let k =
        publish_all-IsKept store (published w.calls)
          (record b { wifi = w; bt = record b.bt { shared = w.shared } }) in
      (ap (λ (w : Wifi S). w.fsm_state) k.wifi_rest ∙ connected_round ip d before at, k.queue_kept)

  pub address_worker :
      (ip : List ℕ) (d : Driver) (b : Bridge S)
      → b.queue ≡ some []
      → b.wifi.fsm_state ≡ connecting
      → let b' = bridge_run store (radio (sta_got_ip ip) ∷ worker d ∷ []) b in
        (b'.wifi.fsm_state ≡ connected) × (b'.queue ≡ some [])
  unfolding bridge_run bridge_step on_worker wifi_event_handler
  address_worker ip d b empty at =
      simp empty (connected_taken ip d (record b { queue = some [] }) at)
