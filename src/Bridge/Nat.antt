-- ===== src/Bridge/Nat.antt =====
-- The NAT of main/nat_bridge.c follows the links, whatever the order of the steps.
use satura_bridge.AppState.{set_wifi_rssi, Shared, app_state_set}
use satura_bridge.BtPan.{BtPan, BtEvent, bt_step}
use satura_bridge.BtPan.Netif.{bt_pan_get_netif, cached_or}
use satura_bridge.Bridge.{
  Bridge, BridgeEvent, bluetooth, radio, request, scan_asked, flash_written, state_shown, rssi_read,
  worker, lwip_callback, settled, interfaces, links, update_nat_lwip_ctx, on_bluetooth, on_round,
  on_worker, bt_settle_and_connect, bridge_step, bridge_run, published,
}
use satura_bridge.Bridge.Delivery.{IsDelivered, publish_all-IsDelivered}
use satura_bridge.Bridge.Phone.{bt_step-announced}
use satura_bridge.Bridge.Announce.{
  IsQuiet, app_state_set-IsQuiet, IsAnnounced, nat_events, worker_round-IsAnnounced,
}
use satura_bridge.Links.{
  link_registry_register, update_nat, link_registry_find_connected, downlink_netif,
}
use satura_bridge.Links.Netif.{Netif, find_netif, in_bridge_subnet}
use satura_bridge.Prelude.{
  Bool, List, Option, ℕ, [], true, false, none, some, ◌≡◌, ◌≤◌, ◌⊎◌, ◌∷◌, inl, inr, refl, arith,
  All, drop, length, ap, subst, sym, ◌∙◌, Bool-cases, ◌==◌,
}
use satura_bridge.Wifi.State.{NetworkStore, WifiEvt, Driver}
use satura_bridge.Wifi.Machine.{worker_round}

-- One of the interfaces has an address of the bridge's own subnet.
unfoldable pub HasBridge : List Netif → Type 0
HasBridge netif_list = (n : ℕ) × (find_netif in_bridge_subnet netif_list ≡ some n)

-- Some interface with an address in the bridge's own subnet is always there.
unfoldable pub KeepsBridge : {S : Type 0} → BridgeEvent S → Type 0
KeepsBridge (interfaces netif_list sta_ip) = HasBridge netif_list
KeepsBridge _ = ◌≡◌ {A = ℕ} 0 0

cached_or-found :
    {found : Option ℕ} (cached : Option ℕ) (n : ℕ)
    → found ≡ some n
    → (m : ℕ) × (cached_or cached found ≡ some m)
cached_or-found none n e = (n, e)
cached_or-found (some m) n e = (m, refl)

module _ {S : Type 0} where
  -- While no callback waits and a phone is connected, the packets of the Bluetooth interface are
  -- translated exactly if the Wi-Fi link is up.
  unfoldable pub IsInSync : Bridge S → Type 0
  IsInSync b =
      b.callbacks ≡ 0
      → b.bt.shared.bt_link ≡ true
      → (n : ℕ) × (b.cached_netif ≡ some n) × (b.napt n ≡ b.bt.shared.wifi_link)

  pub record IsWired (b : Bridge S) : Type 0 where
    pub has_bridge : HasBridge b.netif_list
    pub in_sync : IsInSync b

  update-IsInSync :
      (b : Bridge S) (n : ℕ)
      → (bt_pan_get_netif b.netif_list b.cached_netif).0 ≡ some n
      → IsInSync (update_nat_lwip_ctx b)
  unfolding update_nat_lwip_ctx links link_registry_register update_nat downlink_netif
      link_registry_find_connected IsInSync bt_pan_get_netif
  update-IsInSync b n e done up = (n, ground arith, ground arith)

  pub unlinked-IsInSync : (b : Bridge S) → b.bt.shared.bt_link ≡ false → IsInSync b
  unfolding IsInSync
  unlinked-IsInSync b h done up = absurd cc

  found-or_cached :
      (b : Bridge S)
      → HasBridge b.netif_list
      → (n : ℕ) × ((bt_pan_get_netif b.netif_list b.cached_netif).0 ≡ some n)
  unfolding HasBridge bt_pan_get_netif
  found-or_cached b (n, e) = cached_or-found b.cached_netif n e

module _ {S : Type 0} (store : NetworkStore S) where
  -- A step that asks for a callback, or changes no flag, keeps the promise.
  delivered-IsWired :
      (k : ℕ) (b t b' : Bridge S)
      → IsWired b
      → IsDelivered k t b'
      → t.callbacks ≡ b.callbacks
      → t.cached_netif ≡ b.cached_netif
      → t.napt ≡ b.napt
      → t.netif_list ≡ b.netif_list
      → (1 ≤ k)
        ⊎ ((t.bt.shared.wifi_link ≡ b.bt.shared.wifi_link)
            × ((t.bt.shared.bt_link ≡ true) → b.bt.shared.bt_link ≡ true))
      → IsWired b'
  unfolding IsInSync HasBridge
  delivered-IsWired k b t b' v d c cache napt list (inl many) = record {
    has_bridge = subst HasBridge (sym (d.list_kept ∙ list)) v.has_bridge;
    in_sync = λ done up. absurd (omega (arith, d.asked));
  }
  delivered-IsWired k b t b' v d c cache napt list (inr (wifi, bt)) = record {
    has_bridge = subst HasBridge (sym (d.list_kept ∙ list)) v.has_bridge;
    in_sync = λ done up.
        let (n, held, right) = v.in_sync (omega (arith, d.asked, c)) (bt (sym d.bt_kept ∙ up)) in
        (
          n,
          d.cache_kept ∙ cache ∙ held,
          ap (λ f. f n) (d.napt_kept ∙ napt) ∙ right ∙ sym (d.wifi_kept ∙ wifi),
        );
  }

  bluetooth-IsWired :
      (armed created : Bool) (e : BtEvent) (b : Bridge S)
      → IsWired b
      → IsWired (on_bluetooth store armed created e b)
  unfolding on_bluetooth
  bluetooth-IsWired armed created e b v =
      let bt = bt_step armed e b.bt in
      let t = record b { bt = bt; created = created } in
      let es = drop (length b.bt.events) bt.events in
      delivered-IsWired (nat_events es) b t _ v (publish_all-IsDelivered store es t) refl refl refl
        refl (bt_step-announced armed e b.bt)

  round-IsWired :
      (e : Option WifiEvt) (d : Driver) (b : Bridge S) → IsWired b → IsWired (on_round store e d b)
  unfolding on_round IsAnnounced
  round-IsWired e d b v =
      let before = record b.wifi { shared = b.bt.shared; calls = [] } in
      let w = worker_round store e d before in
      let t = record b { wifi = w; bt = record b.bt { shared = w.shared } } in
      let (bt, wifi) = worker_round-IsAnnounced store e d before refl in
      delivered-IsWired (nat_events (published w.calls)) b t _ v
        (publish_all-IsDelivered store (published w.calls) t) refl refl refl refl
        (elim wifi [ inl same ↦ inr (same, λ up. sym bt ∙ up) | inr told ↦ inl told ])

  -- The fields that the promise reads.
  kept-IsWired :
      (b b' : Bridge S)
      → IsWired b
      → b'.callbacks ≡ b.callbacks
      → b'.bt ≡ b.bt
      → b'.cached_netif ≡ b.cached_netif
      → b'.napt ≡ b.napt
      → HasBridge b'.netif_list
      → IsWired b'
  unfolding IsInSync
  kept-IsWired b b' v c bt cache napt list = record {
    has_bridge = list;
    in_sync = λ done up.
        let (n, held, right) =
          v.in_sync (sym c ∙ done) (sym (ap (λ (s : BtPan). s.shared.bt_link) bt) ∙ up) in
        (
          n,
          cache ∙ held,
          ap (λ f. f n) napt ∙ right ∙ sym (ap (λ (s : BtPan). s.shared.wifi_link) bt),
        );
  }

  -- Shared variables other than the flags may be written.
  shown-IsWired :
      (b : Bridge S) (sh : Shared)
      → IsQuiet b.bt.shared sh
      → IsWired b
      → IsWired (record b { bt = record b.bt { shared = sh } })
  unfolding IsQuiet IsInSync
  shown-IsWired b sh (wifi, bt) v = record {
    has_bridge = v.has_bridge;
    in_sync = λ done up.
        let (n, held, right) = v.in_sync done (sym bt ∙ up) in (n, held, right ∙ sym wifi);
  }

  worker-IsWired :
      (queue : Option (List WifiEvt)) (d : Driver) (b : Bridge S)
      → IsWired b
      → IsWired (on_worker store queue d b)
  unfolding on_worker
  worker-IsWired none d b v = v
  worker-IsWired (some []) d b v = round-IsWired none d b v
  worker-IsWired (some (e ∷ es)) d b v =
      round-IsWired (some e) d (record b { queue = some es })
        (kept-IsWired b _ v refl refl refl refl v.has_bridge)

  -- A callback finds the interface, or has found it before.
  callback-IsWired : (b : Bridge S) → IsWired b → IsWired (update_nat_lwip_ctx b)
  unfolding update_nat_lwip_ctx HasBridge
  callback-IsWired b v =
      let (n, found) = found-or_cached b v.has_bridge in
      record { has_bridge = v.has_bridge; in_sync = update-IsInSync b n found }

  step-IsWired :
      (e : BridgeEvent S) (b : Bridge S)
      → KeepsBridge e
      → IsWired b
      → IsWired (bridge_step store e b)
  unfolding bridge_step on_worker bt_settle_and_connect KeepsBridge
  step-IsWired (bluetooth armed created e) b k v = bluetooth-IsWired armed created e b v
  step-IsWired (radio e) b k v = kept-IsWired b _ v refl refl refl refl v.has_bridge
  step-IsWired (request e) b k v = kept-IsWired b _ v refl refl refl refl v.has_bridge
  step-IsWired scan_asked b k v = kept-IsWired b _ v refl refl refl refl v.has_bridge
  step-IsWired (flash_written f) b k v = kept-IsWired b _ v refl refl refl refl v.has_bridge
  step-IsWired (state_shown st) b k v =
      shown-IsWired b (app_state_set b.bt.shared st)
        (app_state_set-IsQuiet st b.bt.shared b.bt.shared (unfold IsQuiet in (refl, refl))) v
  step-IsWired (rssi_read rssi) b k v =
      shown-IsWired b (set_wifi_rssi b.bt.shared rssi) (unfold IsQuiet in (refl, refl)) v
  step-IsWired (worker d) b k v = worker-IsWired b.queue d b v
  step-IsWired lwip_callback b k v = elim (Bool-cases (b.callbacks == 0)) [
    | inl idle ↦ rw idle v
    | inr waiting ↦ rw waiting (callback-IsWired b v)
  ]
  step-IsWired settled b k v = elim (Bool-cases (b.settle.tasks == 0)) [
    | inl none_left ↦ rw none_left v
    | inr some_left ↦ rw some_left (kept-IsWired b _ v refl refl refl refl v.has_bridge)
  ]
  step-IsWired (interfaces netif_list sta_ip) b k v = kept-IsWired b _ v refl refl refl refl k

  -- From a state that is in step, any sequence of events of the Bluetooth stack, of the Wi-Fi driver, of
  -- requests, of rounds of the worker, of settle tasks, of changes of the interfaces that leave one in
  -- the bridge's subnet, and of callbacks at whatever time, ends in such a state: while no callback waits
  -- and a phone is connected, an interface is held and the NAT is on for it exactly if the flag of the
  -- Wi-Fi link is set.
  pub bridge_run-IsWired :
      (es : List (BridgeEvent S)) (b : Bridge S)
      → All KeepsBridge es
      → IsWired b
      → IsWired (bridge_run store es b)
  unfolding bridge_run
  bridge_run-IsWired [] b k v = v
  bridge_run-IsWired (e ∷ es) b k v = bridge_run-IsWired es _ k.1 (step-IsWired e b k.0 v)
