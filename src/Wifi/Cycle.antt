-- ===== src/Wifi/Cycle.antt =====
-- A connect cycle ends: every candidate gets its attempts, and then the machine waits.
use satura_bridge.Wifi.Steady.{get_elem?-some, IsSteady, on_attempt_failed-IsSteady}
use satura_bridge.AppState.{app_state_set, state_number, wifi_failed}
use satura_bridge.Wifi.State.{
  Call, Wifi, Driver, NetworkStore, driver_connect, connecting, retry_wait, WifiEvt, disconnected,
}
use satura_bridge.Prelude.{
  Bool-cases, List, Option, [], arith, inl, inr, length, ltb, ltb→lt, refl, replicate, some, suc,
  zero, ℕ, ◌*◌, ◌++◌, ◌+◌, ◌-◌, ◌<◌, ◌∙◌, ◌∷◌, ◌≡◌, subst, sym,
}
use satura_bridge.Wifi.Machine.{
  on_attempt_failed, connect_to_candidate, connect_slot, worker_round, worker_run, handle_event,
  dispatch,
}

-- How often the driver was told to connect.
abbrev pub is_connect : Call → ℕ
is_connect driver_connect = 1
is_connect _ = 0

pub connects : List Call → ℕ
connects [] = 0
connects (c ∷ cs) = is_connect c + connects cs

connects-append : (xs ys : List Call) → connects (xs ++ ys) ≡ connects xs + connects ys
unfolding connects
connects-append [] ys = omega arith
connects-append (x ∷ xs) ys = omega (arith, connects-append xs ys)

-- Attempts that are still to fail, the running one included.
abbrev pub attempts_left : {S : Type 0} → Wifi S → ℕ
attempts_left w = 2 * (w.candidate_count - w.candidate_index) - w.candidate_attempt

module _ {S : Type 0} where
  -- An attempt changes none of the counters, and is one call of the driver.
  record IsAttempt (w t : Wifi S) : Type 0 where
    same_state : t.fsm_state ≡ w.fsm_state
    same_index : t.candidate_index ≡ w.candidate_index
    same_attempt : t.candidate_attempt ≡ w.candidate_attempt
    same_count : t.candidate_count ≡ w.candidate_count
    one_call : connects t.calls ≡ connects w.calls + 1

  connect-IsAttempt :
      (d : Driver) (w : Wifi S)
      → w.candidate_index < length w.candidate_list
      → IsAttempt w (connect_to_candidate d w)
  unfolding connect_to_candidate connect_slot
  connect-IsAttempt d w h =
      let (c, at) = get_elem?-some w.candidate_list w.candidate_index h in
      rw at (record {
        same_state = refl;
        same_index = refl;
        same_attempt = refl;
        same_count = refl;
        one_call = unfold connects in rw (connects-append w.calls) (omega arith);
      })

  -- A failed attempt that is not the last one.
  record IsNext (w t : Wifi S) : Type 0 where
    still : t.fsm_state ≡ connecting
    fewer : attempts_left t + 1 ≡ attempts_left w
    tried : connects t.calls ≡ connects w.calls + 1

  on_attempt_failed-IsNext :
      (d : Driver) (w : Wifi S)
      → w.fsm_state ≡ connecting
      → IsSteady w
      → 1 < attempts_left w
      → IsNext w (on_attempt_failed d w)
  unfolding on_attempt_failed
  on_attempt_failed-IsNext d w at v more = elim (Bool-cases (ltb (w.candidate_attempt + 1) 2)) [
    | inl again ↦
        let t : Wifi S = record w { candidate_attempt = w.candidate_attempt + 1 } in
        let a = connect-IsAttempt d t (omega (arith, v.in_range at, v.live, v.slots)) in
        rw again (record {
          still = a.same_state ∙ at;
          fewer = ground (arith, a.same_index, a.same_attempt, a.same_count, v.in_range at);
          tried = a.one_call;
        })
    | inr spent ↦ elim (Bool-cases (ltb (w.candidate_index + 1) w.candidate_count)) [
      | inl further ↦
          let t : Wifi S = record w {
            candidate_attempt = 0;
            candidate_index = w.candidate_index + 1;
          } in
          let a = connect-IsAttempt d t (omega (arith, ltb→lt _ _ further, v.live, v.slots)) in
          rw (spent, further)
            (record {
              still = a.same_state ∙ at;
              fewer =
                  ground
                    (arith, a.same_index, a.same_attempt, a.same_count, v.in_range at, v.attempts);
              tried = a.one_call;
            })
      | inr none' ↦ absurd (ground (arith, v.in_range at, v.attempts))
    ]
  ]

  -- The state after the last candidate's last attempt failed.
  pub record IsExhausted (t : Wifi S) (calls : ℕ) : Type 0 where
    pub waits : t.fsm_state ≡ retry_wait
    pub armed : t.next_wait_ms ≡ 15000
    pub told : t.shared.current_state ≡ wifi_failed
    pub attempts_made : connects t.calls ≡ calls

  on_attempt_failed-IsExhausted :
      (d : Driver) (w : Wifi S)
      → w.fsm_state ≡ connecting
      → IsSteady w
      → attempts_left w ≡ 1
      → IsExhausted (on_attempt_failed d w) (connects w.calls)
  unfolding on_attempt_failed app_state_set state_number
  on_attempt_failed-IsExhausted d w at v last = ground (arith, v.in_range at, v.attempts)

module _ {S : Type 0} (store : NetworkStore S) (d : Driver) where
  abbrev pub failures : ℕ → List (Option WifiEvt × Driver)
  failures n = replicate n (some disconnected, d)

  failure :
      (w : Wifi S)
      → w.fsm_state ≡ connecting
      → worker_round store (some disconnected) d w ≡ on_attempt_failed d w
  unfolding worker_round handle_event dispatch
  failure w at = rw at

  run-IsExhausted :
      (n : ℕ) (w : Wifi S)
      → w.fsm_state ≡ connecting
      → IsSteady w
      → attempts_left w ≡ suc n
      → IsExhausted (worker_run store (failures (suc n)) w) (connects w.calls + n)
  unfolding worker_run
  run-IsExhausted zero w at v left = rw (failure w at) (
      subst (IsExhausted (on_attempt_failed d w)) (omega arith)
        (on_attempt_failed-IsExhausted d w at v left))
  run-IsExhausted (suc n) w at v left =
      let t = on_attempt_failed d w in
      let next = on_attempt_failed-IsNext d w at v (omega arith) in
      subst (λ u. IsExhausted (worker_run store (failures (suc n)) u) (connects w.calls + suc n))
        (sym (failure w at))
        (subst (IsExhausted (worker_run store (failures (suc n)) t)) (omega (arith, next.tried)) (
          run-IsExhausted n t next.still (on_attempt_failed-IsSteady d w at v)
            (omega (arith, next.fewer))))

  -- From a steady connecting state, as many failures as attempts are left, each answered before the
  -- next, bring the machine to the fifteen-second wait with the application told that Wi-Fi failed; one
  -- attempt less was made on the way, so two for each candidate from the start of its turn.
  pub worker_run-IsExhausted :
      (w : Wifi S)
      → w.fsm_state ≡ connecting
      → IsSteady w
      → IsExhausted
          (worker_run store (failures (attempts_left w)) w)
          (connects w.calls + (attempts_left w - 1))
  worker_run-IsExhausted w at v =
      let n = attempts_left w - 1 in
      let some' : attempts_left w ≡ suc n = omega (arith, v.in_range at, v.attempts) in
      subst (λ k. IsExhausted (worker_run store (failures k) w) (connects w.calls + n)) (sym some')
        (run-IsExhausted n w at v some')
