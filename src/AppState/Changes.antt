-- ===== src/AppState/Changes.antt =====
-- What a subscriber of the events can know of the flag that main/app_state.c keeps.
use satura_bridge.Prelude.{
  Bool, List, Option, [], false, if◌then◌else◌, none, refl, some, true, ◌++◌, ◌∷◌, ◌≡◌, ==_iff,
  Bool-cases, ap, inl, inr, sym, ℕ, ◌==◌, ◌∙◌,
}
use mathlib.Core.Bool.{xor}
use satura_bridge.AppState.{
  Shared, set_wifi_connected, EventType, xor, wifi_connected, wifi_disconnected, AppState,
  state_number, same_state, app_state_set, wait_bt, no_wifi, wifi_connecting, wifi_failed, bridge,
  bridge_no_wifi,
}

-- The setter called with each value in turn, and the events of all calls.
pub set_all : Shared → List Bool → Shared × List EventType
set_all s [] = (s, [])
set_all s (b ∷ bs) =
    let step = set_wifi_connected s b in let rest = set_all step.0 bs in (rest.0, step.1 ++ rest.1)

-- A subscriber that holds the flag and takes only events that change it; `none` if one does not.
pub follow : Bool → List EventType → Option Bool
follow held [] = some held
follow false (wifi_connected ∷ es) = follow true es
follow true (wifi_disconnected ∷ es) = follow false es
follow held (_ ∷ es) = none

announced :
    (held new : Bool) (es : List EventType) {last' : Option Bool}
    → follow new es ≡ last'
    → follow held (
        (if xor held new then (if new then wifi_connected else wifi_disconnected) ∷ [] else [])
        ++ es)
      ≡ last'
unfolding follow xor
announced true true es h = h
announced true false es h = h
announced false true es h = h
announced false false es h = h

follow-step :
    (s : Shared) (b : Bool) (bs : List Bool)
    → let rest = set_all (record s { wifi_link = b }) bs in
      follow b rest.1 ≡ some rest.0.wifi_link
      → follow s.wifi_link (set_all s (b ∷ bs)).1 ≡ some (set_all s (b ∷ bs)).0.wifi_link
unfolding set_all follow set_wifi_connected
follow-step s b bs h = announced s.wifi_link b _ h

-- Over any sequence of calls of the setter, the subscriber that starts with the flag takes every event
-- as a change and ends with the flag.
pub follow-set_all :
    (bs : List Bool) (s : Shared)
    → follow s.wifi_link (set_all s bs).1 ≡ some (set_all s bs).0.wifi_link
unfolding set_all follow set_wifi_connected
follow-set_all [] s = refl
follow-set_all (b ∷ bs) s = follow-step s b bs (follow-set_all bs (record s { wifi_link = b }))

abbrev state_of : ℕ → AppState
state_of n =
    if n == 0
    then wait_bt
    else if n == 1
    then no_wifi
    else if n == 2
    then wifi_connecting
    else if n == 3
    then wifi_failed
    else if n == 4
    then bridge
    else bridge_no_wifi

state_of-state_number : (s : AppState) → state_of (state_number s) ≡ s
unfolding state_number
state_of-state_number wait_bt = refl
state_of-state_number no_wifi = refl
state_of-state_number wifi_connecting = refl
state_of-state_number wifi_failed = refl
state_of-state_number bridge = refl
state_of-state_number bridge_no_wifi = refl

pub same_state_eq : (a b : AppState) → same_state a b ≡ true → a ≡ b
unfolding same_state
same_state_eq a b h =
    sym (state_of-state_number a)
    ∙ ap state_of ((==_iff (state_number a) (state_number b)).0 h)
    ∙ state_of-state_number b

pub app_state_set_lem : (s : Shared) (st : AppState) → (app_state_set s st).current_state ≡ st
unfolding app_state_set
app_state_set_lem s st = elim (Bool-cases (same_state s.current_state st)) [
  | inl same ↦ rw same (same_state_eq s.current_state st same)
  | inr other ↦ rw other refl
]
