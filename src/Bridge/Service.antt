-- ===== src/Bridge/Service.antt =====
-- The bridge carries the packets of a phone once both links are up, whichever came first, and stops when
-- the uplink is lost.
use satura_bridge.AppState.{bridge, bridge_no_wifi, no_wifi}
use satura_bridge.Bridge.{Bridge, lwip_callback, bridge_run, radio, worker}
use satura_bridge.Bridge.Arrivals.{arrivals, arrivals-IsServing, arrivals_worker}
use satura_bridge.Bridge.Lost.{uplink_lost}
use satura_bridge.Bridge.Nat.{IsWired, KeepsBridge, bridge_run-IsWired}
use satura_bridge.Bridge.Settled.{drain, nat_settles, callbacks-KeepsBridge}
use satura_bridge.BtPan.{BtPan}
use satura_bridge.Prelude.{
  All, Bool, List, ℕ, [], ◌∷◌, true, false, some, ◌≡◌, refl, replicate, ap, ◌∙◌, if◌then◌else◌,
}
use satura_bridge.Wifi.Machine.{has_credentials}
use satura_bridge.Wifi.Radio.{sta_disconnected}
use satura_bridge.Wifi.State.{Driver, NetworkStore, Wifi, connected, connecting}

-- No callback waits, `n` is the interface that is held, and its setting is `on`.
unfoldable pub HasNat : {S : Type 0} → ℕ → Bool → Bridge S → Type 0
HasNat n on b = (b.callbacks ≡ 0) × (b.cached_netif ≡ some n) × (b.napt n ≡ on)

module _ {S : Type 0} (store : NetworkStore S) where
  -- The callbacks that wait, run one after the other.
  abbrev pub settled_nat : Bridge S → Bridge S
  settled_nat b = bridge_run store (replicate b.callbacks lwip_callback) b

  arrivals-KeepsBridge :
      (phone_first armed created : Bool) (h : ℕ) (ip : List ℕ) (d : Driver)
      → All (KeepsBridge {S = S}) (arrivals phone_first armed created h ip d)
  unfolding KeepsBridge
  arrivals-KeepsBridge true armed created h ip d = (refl, (refl, (refl, tt)))
  arrivals-KeepsBridge false armed created h ip d = (refl, (refl, (refl, tt)))

  record IsServed (b : Bridge S) : Type 0 where
    wired : IsWired b
    queue_empty : b.queue ≡ some []
    at : b.wifi.fsm_state ≡ connected
    shown : b.bt.shared.current_state ≡ bridge
    bt_up : b.bt.shared.bt_link ≡ true
    wifi_up : b.bt.shared.wifi_link ≡ true

  arrivals-IsServed :
      (phone_first armed created : Bool) (h : ℕ) (ip : List ℕ) (d : Driver) (b : Bridge S)
      → IsWired b
      → b.queue ≡ some []
      → b.wifi.fsm_state ≡ connecting
      → b.bt.shared.bt_link ≡ false
      → IsServed (bridge_run store (arrivals phone_first armed created h ip d) b)
  arrivals-IsServed phone_first armed created h ip d b v empty at down =
      let s = arrivals-IsServing store phone_first armed created h ip d b empty at down in
      let (state, queue) = arrivals_worker store phone_first armed created h ip d b empty at in
      record {
        wired =
            bridge_run-IsWired store _ b (arrivals-KeepsBridge phone_first armed created h ip d) v;
        queue_empty = queue;
        at = state;
        shown = s.shown;
        bt_up = s.bt_up;
        wifi_up = s.wifi_up;
      }

  settled_nat-IsServed : (b : Bridge S) → IsServed b → IsServed (settled_nat b)
  settled_nat-IsServed b s =
      let k = drain store b.callbacks b refl in
      record {
        wired = bridge_run-IsWired store _ b (callbacks-KeepsBridge store b.callbacks) s.wired;
        queue_empty = k.queue_kept ∙ s.queue_empty;
        at = ap (λ (w : Wifi S). w.fsm_state) k.worker_kept ∙ s.at;
        shown = ap (λ (q : BtPan). q.shared.current_state) k.links_kept ∙ s.shown;
        bt_up = ap (λ (q : BtPan). q.shared.bt_link) k.links_kept ∙ s.bt_up;
        wifi_up = ap (λ (q : BtPan). q.shared.wifi_link) k.links_kept ∙ s.wifi_up;
      }

  -- From a state that is in step, with no phone, an empty queue, and the worker waiting for an address:
  -- when a phone opens its channel and an address arrives, in either order, and the callbacks that wait
  -- have run, the state of the bridge is "bridge" and the NAT is on for the interface that is held. When
  -- the connection is then lost and the callbacks have run, the NAT is off for that interface, and the
  -- state says whether there are networks to try.
  pub bridge_serves :
      (phone_first armed created : Bool) (h : ℕ) (ip : List ℕ) (d d' : Driver) (b : Bridge S)
      → IsWired b
      → b.queue ≡ some []
      → b.wifi.fsm_state ≡ connecting
      → b.bt.shared.bt_link ≡ false
      → let t = settled_nat (bridge_run store (arrivals phone_first armed created h ip d) b) in
        let u = settled_nat (bridge_run store (radio sta_disconnected ∷ worker d' ∷ []) t) in
        (n : ℕ) × (t.bt.shared.current_state ≡ bridge)
        × HasNat n true t
        × (u.bt.shared.current_state
            ≡ (if has_credentials store t.wifi then bridge_no_wifi else no_wifi))
        × HasNat n false u
  unfolding HasNat
  bridge_serves phone_first armed created h ip d d' b v empty at down =
      let b' = bridge_run store (arrivals phone_first armed created h ip d) b in
      let s = arrivals-IsServed phone_first armed created h ip d b v empty at down in
      let r = settled_nat-IsServed b' s in
      let (done, n, held, right) = nat_settles store b' s.wired s.bt_up in
      let (shown, ended, still, off) =
        uplink_lost store d' (settled_nat b') n r.wired held r.queue_empty r.at r.shown r.bt_up in
      (n, r.shown, (done, held, right ∙ s.wifi_up), shown, (ended, still, off))
