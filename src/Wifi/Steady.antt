-- ===== src/Wifi/Steady.antt =====
-- What holds of the Wi-Fi worker of main/wifi_manager.c between two rounds, and that the reactions to the
-- outcome of a connection attempt keep it.
use satura_bridge.Wifi.Machine.{
  connect_to_candidate, emit, set_app, connect_slot, go_to, on_attempt_failed, on_got_ip,
}
use satura_bridge.Prelude.{
  List, [], arith, get_elem?, length, refl, some, suc, true, zero, ℕ, ◌<◌, ◌∷◌, ◌≡◌, ◌≢◌, ◌≤◌,
  Bool-cases, inl, inr, ltb, ltb→lt, ◌+◌, false, Bool, ◌&&◌, ◌++◌,
}
use satura_bridge.AppState.{app_state_set, AppState, set_wifi_connected, uplink_up, wifi_connected}
use satura_bridge.Wifi.State.{
  Wifi, Call, Driver, out_of_bounds, idle, connected, recovering, connecting, FsmState,
  set_power_save, publish,
}

-- No read behind the end of the candidate array is among the calls.
abbrev pub is_in_bounds : Call → Bool
is_in_bounds out_of_bounds = false
is_in_bounds _ = true

unfoldable pub all_in_bounds : List Call → Bool
all_in_bounds [] = true
all_in_bounds (c ∷ cs) = is_in_bounds c && all_in_bounds cs

pub all_in_bounds-append :
    (xs ys : List Call) → all_in_bounds (xs ++ ys) ≡ (all_in_bounds xs && all_in_bounds ys)
unfolding all_in_bounds
all_in_bounds-append [] ys = refl
all_in_bounds-append (x ∷ xs) ys = ground (arith, all_in_bounds-append xs ys)

pub out_of_bounds-last : (cs : List Call) → all_in_bounds (cs ++ out_of_bounds ∷ []) ≡ false
unfolding all_in_bounds
out_of_bounds-last cs = ground (arith, all_in_bounds-append cs (out_of_bounds ∷ []))

pub record IsSteady {S : Type 0} (w : Wifi S) : Type 0 where
  -- The array has its six slots, and a connection attempt is always at a live one.
  pub slots : length w.candidate_list ≡ 6
  pub live : w.candidate_count ≤ 6
  pub in_range : w.fsm_state ≡ connecting → w.candidate_index < w.candidate_count
  pub attempts : w.candidate_attempt < 2
  pub in_bounds : all_in_bounds w.calls ≡ true
  -- The back-off stays between one and thirty seconds.
  pub delay_low : 1000 ≤ w.retry_delay_ms
  pub delay_high : w.retry_delay_ms ≤ 30000
  -- `recovering` is never seen, `idle` waits for ever.
  pub settled : w.fsm_state ≢ recovering
  pub idle_waits : w.fsm_state ≡ idle → w.next_wait_ms ≡ 0
  -- The flag that other tasks read is the state.
  pub linked : w.shared.wifi_link ≡ true → w.fsm_state ≡ connected
  pub unlinked : w.fsm_state ≡ connected → w.shared.wifi_link ≡ true

pub get_elem?-some {ℓ} :
    {A : Type ℓ} (xs : List A) (i : ℕ) → i < length xs → (x : A) × (get_elem? xs i ≡ some x)
get_elem?-some [] i h = absurd (omega arith)
get_elem?-some (x ∷ xs) zero h = (x, refl)
get_elem?-some (x ∷ xs) (suc i) h = get_elem?-some xs i (omega arith)

module _ {S : Type 0} where
  pub emit-IsSteady :
      (cs : List Call) (w : Wifi S) → all_in_bounds cs ≡ true → IsSteady w → IsSteady (emit cs w)
  unfolding emit
  emit-IsSteady cs w h v = record {
    slots = v.slots;
    live = v.live;
    in_range = v.in_range;
    attempts = v.attempts;
    in_bounds = ground (arith, all_in_bounds-append w.calls cs, v.in_bounds);
    delay_low = v.delay_low;
    delay_high = v.delay_high;
    settled = v.settled;
    idle_waits = v.idle_waits;
    linked = v.linked;
    unlinked = v.unlinked;
  }

  -- An attempt at a slot within the array.
  pub connect-IsSteady :
      (d : Driver) (w : Wifi S)
      → w.candidate_index < 6
      → IsSteady w
      → IsSteady (connect_to_candidate d w)
  unfolding connect_to_candidate connect_slot
  connect-IsSteady d w h v =
      let (c, at) = get_elem?-some w.candidate_list w.candidate_index (omega (arith, v.slots)) in
      rw at (
        emit-IsSteady _ (record w { wifi_ssid = _; wifi_pass = _ }) (unfold all_in_bounds in refl)
          (ground arith))

  pub set_app-IsSteady : (st : AppState) (w : Wifi S) → IsSteady w → IsSteady (set_app st w)
  unfolding set_app app_state_set
  set_app-IsSteady st w v = ground arith

  pub link-set_app :
      (st : AppState) (w : Wifi S) → (set_app st w).shared.wifi_link ≡ w.shared.wifi_link
  unfolding set_app app_state_set
  link-set_app st w = ground arith

  pub link_down : (w : Wifi S) → w.fsm_state ≢ connected → IsSteady w → w.shared.wifi_link ≡ false
  link_down w n v = elim (Bool-cases w.shared.wifi_link) [
    | inl up ↦ absurd (n (v.linked up))
    | inr down ↦ down
  ]

  pub go_to-IsSteady :
      (st : FsmState) (wait : ℕ) (w : Wifi S)
      → IsSteady w
      → st ≢ connecting
      → st ≢ recovering
      → (st ≡ idle → wait ≡ 0)
      → (w.shared.wifi_link ≡ true → st ≡ connected)
      → (st ≡ connected → w.shared.wifi_link ≡ true)
      → IsSteady (go_to st wait w)
  unfolding go_to
  go_to-IsSteady st wait w v nc nr iw l u = record {
    slots = v.slots;
    live = v.live;
    in_range = λ e. absurd (nc e);
    attempts = v.attempts;
    in_bounds = v.in_bounds;
    delay_low = v.delay_low;
    delay_high = v.delay_high;
    settled = nr;
    idle_waits = iw;
    linked = l;
    unlinked = u;
  }

  pub on_attempt_failed-IsSteady :
      (d : Driver) (w : Wifi S)
      → w.fsm_state ≡ connecting
      → IsSteady w
      → IsSteady (on_attempt_failed d w)
  unfolding on_attempt_failed app_state_set
  on_attempt_failed-IsSteady d w at v = elim (Bool-cases (ltb (w.candidate_attempt + 1) 2)) [
    | inl again ↦ rw again (
        connect-IsSteady d (record w { candidate_attempt = w.candidate_attempt + 1 })
          (omega (arith, v.in_range at, v.live)) (ground arith))
    | inr spent ↦ elim (Bool-cases (ltb (w.candidate_index + 1) w.candidate_count)) [
      | inl more ↦
          rw (spent, more)
            (connect-IsSteady d
              (record w { candidate_attempt = 0; candidate_index = w.candidate_index + 1 })
              (omega (arith, v.live, ltb→lt _ _ more)) (ground arith))
      | inr last ↦ rw (spent, last) (ground arith)
    ]
  ]

  pub on_got_ip-IsSteady :
      (d : Driver) (ip : List ℕ) (w : Wifi S)
      → w.fsm_state ≡ connecting
      → IsSteady w
      → IsSteady (on_got_ip d ip w)
  unfolding on_got_ip app_state_set set_wifi_connected all_in_bounds
  on_got_ip-IsSteady d ip w at v = ground (
    arith,
    all_in_bounds-append w.calls (set_power_save ∷ publish uplink_up ∷ []),
    all_in_bounds-append w.calls (set_power_save ∷ publish wifi_connected ∷ publish uplink_up ∷ []),
  )
