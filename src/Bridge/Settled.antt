-- ===== src/Bridge/Settled.antt =====
-- When the callbacks of the NAT have run, it agrees with the links.
use satura_bridge.BtPan.Netif.{bt_pan_get_netif}
use satura_bridge.BtPan.{BtPan}
use satura_bridge.Bridge.{
  Bridge, lwip_callback, bridge_step, bridge_run, update_nat_lwip_ctx, BtPan, bt_pan_get_netif,
}
use satura_bridge.Bridge.Nat.{IsWired, IsInSync, KeepsBridge, bridge_run-IsWired}
use satura_bridge.Prelude.{
  All, ℕ, suc, zero, true, some, replicate, ◌≡◌, ◌==◌, refl, arith, ap, false, ◌∙◌, subst, sym,
  if◌then◌else◌,
}
use satura_bridge.Wifi.State.{NetworkStore}

module _ {S : Type 0} (store : NetworkStore S) where
  pub record IsDrained (b b' : Bridge S) : Type 0 where
    none_waits : b'.callbacks ≡ 0
    pub links_kept : b'.bt ≡ b.bt
    pub worker_kept : b'.wifi ≡ b.wifi
    pub queue_kept : b'.queue ≡ b.queue
    pub cache_kept : (n : ℕ) → b.cached_netif ≡ some n → b'.cached_netif ≡ some n

  callback-runs :
      (n : ℕ) (b : Bridge S)
      → b.callbacks ≡ suc n
      → bridge_step store lwip_callback b ≡ update_nat_lwip_ctx b
  unfolding bridge_step
  callback-runs n b e =
      let pending : (b.callbacks == 0) ≡ false = ground (arith, e) in
      ap (λ c. if c then b else update_nat_lwip_ctx b) pending

  -- Once an interface is held, it is kept.
  callback_keeps_cache :
      (b : Bridge S) (n : ℕ)
      → b.cached_netif ≡ some n
      → (update_nat_lwip_ctx b).cached_netif ≡ some n
  unfolding update_nat_lwip_ctx bt_pan_get_netif
  callback_keeps_cache b n held = ground (arith, held)

  pub drain :
      (n : ℕ) (b : Bridge S)
      → b.callbacks ≡ n
      → IsDrained b (bridge_run store (replicate n lwip_callback) b)
  unfolding bridge_run
  drain zero b e = record {
    none_waits = e;
    links_kept = refl;
    worker_kept = refl;
    queue_kept = refl;
    cache_kept = λ m held. held;
  }
  drain (suc n) b e =
      let next = update_nat_lwip_ctx b in
      let rest = drain n next (unfold update_nat_lwip_ctx in omega (arith, e)) in
      subst (λ t. IsDrained b (bridge_run store (replicate n lwip_callback) t))
        (sym (callback-runs n b e))
        (record {
          none_waits = rest.none_waits;
          links_kept = rest.links_kept ∙ (unfold update_nat_lwip_ctx in refl);
          worker_kept = rest.worker_kept ∙ (unfold update_nat_lwip_ctx in refl);
          queue_kept = rest.queue_kept ∙ (unfold update_nat_lwip_ctx in refl);
          cache_kept = λ m held. rest.cache_kept m (callback_keeps_cache b m held);
        })

  pub callbacks-KeepsBridge : (n : ℕ) → All (KeepsBridge {S = S}) (replicate n lwip_callback)
  unfolding KeepsBridge
  callbacks-KeepsBridge zero = tt
  callbacks-KeepsBridge (suc n) = (refl, callbacks-KeepsBridge n)

  -- From a state that is in step, once the callbacks that wait have run, none waits, and if a phone is
  -- connected the NAT is on for its interface exactly if the flag of the Wi-Fi link is set.
  pub nat_settles :
      (b : Bridge S)
      → IsWired b
      → b.bt.shared.bt_link ≡ true
      → let b' = bridge_run store (replicate b.callbacks lwip_callback) b in
        (b'.callbacks ≡ 0)
        × (n : ℕ) × (b'.cached_netif ≡ some n)
        × (b'.napt n ≡ b.bt.shared.wifi_link)
  unfolding IsInSync
  nat_settles b v up =
      let done = drain b.callbacks b refl in
      let wired =
        bridge_run-IsWired store (replicate b.callbacks lwip_callback) b
          (callbacks-KeepsBridge b.callbacks) v in
      let (n, held, right) =
        wired.in_sync done.none_waits (ap (λ (s : BtPan). s.shared.bt_link) done.links_kept ∙ up) in
      (done.none_waits, n, held, right ∙ ap (λ (s : BtPan). s.shared.wifi_link) done.links_kept)
