-- ===== src/DeviceName/Laws.antt =====
-- What main/device_name.c answers with, in this session and after a restart.
use satura_bridge.Prelude.{
  List, [], false, length, true, ℕ, ◌≡◌, ◌≢◌, ◌≤◌, ◌⊎◌, Bool-cases, arith, inl, inr, leb, some, sym,
  ◌<◌, ◌==◌, ◌||◌, ◌∙◌, Option, none, refl, take, take-all, ◌-◌, ◌∷◌,
}
use satura_bridge.Storage.{Nvs, storage_get_str, storage_set_str, device_name, read_with}
use satura_bridge.Storage.Laws.{NvsLaws, write_with-true}
use satura_bridge.DeviceName.{
  NameState, device_name_get, device_name_init, device_name_set, first_name, generate_default,
  name_size,
}

pub IsName : List ℕ → Type 0
IsName name = (name ≢ []) × (length name ≤ 32)

module _ {F : Type 0} (nvs : Nvs F) (laws : NvsLaws nvs) where
  stored_name :
      (name : List ℕ) (f : F)
      → (storage_set_str nvs f device_name name).1 ≡ true
      → length name < name_size
      → storage_get_str nvs (storage_set_str nvs f device_name name).0 device_name name_size
        ≡ some name
  unfolding storage_set_str storage_get_str read_with
  stored_name name f h short =
      let done = write_with-true nvs f (nvs.set_str f device_name name) h in
      let g = (nvs.set_str f device_name name).0 in
      let opens =
        laws.readable (nvs.commit g).0
          (laws.readable_commit g (laws.readable_set_str f device_name name done.0)) in
      rw (done.2, opens)
        (sym (laws.get_str-commit g device_name name_size)
          ∙ laws.get_str-set_str f device_name name name_size done.1 short)

  -- What a successful change went through.
  device_name_set-true :
      (name : List ℕ) (f : F) (s : NameState)
      → (device_name_set nvs name (f, s)).1 ≡ true
      → (length name ≢ 0)
        × (length name < name_size)
        × ((storage_set_str nvs f device_name name).1 ≡ true)
        × ((device_name_set nvs name (f, s)).0 ≡ (
          (storage_set_str nvs f device_name name).0,
          record { g_name = take (name_size - 1) name; g_loaded = true },
        ))
  unfolding device_name_set
  device_name_set-true name f s h =
      let written = storage_set_str nvs f device_name name in
      elim (Bool-cases (length name == 0 || leb name_size (length name))) [
        | inl bad ↦ absurd (ground arith)
        | inr good ↦ elim (Bool-cases written.1) [
          | inl ok ↦ (ground arith, ground arith, ok, rw (good, ok) refl)
          | inr failed ↦ absurd (ground arith)
        ]
      ]

  first_name_kept :
      (fallback name : List ℕ) (f : F)
      → length name ≢ 0
      → first_name nvs fallback f (some name) ≡ (f, name)
  unfolding first_name
  first_name_kept fallback [] f h = absurd (h refl)
  first_name_kept fallback (c ∷ cs) f h = refl

  loaded_name :
      (mac4 mac5 : ℕ) (f : F) (name : List ℕ)
      → (device_name_get nvs mac4 mac5 (f, record { g_name = name; g_loaded = true })).1 ≡ name
  unfolding device_name_get device_name_init
  loaded_name mac4 mac5 f name = refl

  fresh_name :
      (mac4 mac5 : ℕ) (f : F) (old name : List ℕ)
      → length name ≢ 0
      → storage_get_str nvs f device_name name_size ≡ some name
      → (device_name_get nvs mac4 mac5 (f, record { g_name = old; g_loaded = false })).1 ≡ name
  unfolding device_name_get device_name_init
  fresh_name mac4 mac5 f old name h stored =
      rw (stored, first_name_kept (generate_default mac4 mac5) name f h) refl

  -- If NVS behaves as documented, a name that was set is what is answered from then on, and also after
  -- a restart, whatever the address of the chip.
  pub device_name_get-device_name_set :
      (name : List ℕ) (f : F) (s : NameState) (mac4 mac5 : ℕ)
      → (device_name_set nvs name (f, s)).1 ≡ true
      → let (g, t) = (device_name_set nvs name (f, s)).0 in
        let restarted : NameState = record { g_name = []; g_loaded = false } in
        ((device_name_get nvs mac4 mac5 (g, t)).1 ≡ name)
        × ((device_name_get nvs mac4 mac5 (g, restarted)).1 ≡ name)
  device_name_get-device_name_set name f s mac4 mac5 h =
      let done = device_name_set-true name f s h in
      let stored = stored_name name f done.2 done.1 in
      rw (done.3, take-all (name_size - 1) name (omega (arith, done.1)))
        (loaded_name mac4 mac5 _ name, fresh_name mac4 mac5 _ [] name done.0 stored)

  generate_default-IsName : (mac4 mac5 : ℕ) → IsName (generate_default mac4 mac5)
  unfolding generate_default IsName
  generate_default-IsName mac4 mac5 = (λ h. ground arith, omega arith)

  first_name-IsName :
      (fallback : List ℕ) (f : F) (o : Option (List ℕ))
      → IsName fallback
      → ((v : List ℕ) → o ≡ some v → length v < name_size)
      → IsName (first_name nvs fallback f o).1
  unfolding first_name IsName
  first_name-IsName fallback f none h fits = h
  first_name-IsName fallback f (some []) h fits = h
  first_name-IsName fallback f (some (c ∷ cs)) h fits =
      (λ e. ground arith, omega (arith, fits (c ∷ cs) refl))

  read_fits :
      (f : F) (v : List ℕ)
      → storage_get_str nvs f device_name name_size ≡ some v
      → length v < name_size
  unfolding storage_get_str read_with
  read_fits f v h = elim (Bool-cases (nvs.open_readonly f)) [
    | inl opens ↦ laws.get_str_fits f device_name v name_size (ground arith)
    | inr shut ↦ absurd (ground arith)
  ]

  -- If NVS behaves as documented, the name that is answered has one to 32 bytes, whatever is stored.
  pub device_name_get-IsName :
      (f : F) (s : NameState) (mac4 mac5 : ℕ)
      → (s.g_loaded ≡ false) ⊎ IsName s.g_name
      → IsName (device_name_get nvs mac4 mac5 (f, s)).1
  unfolding device_name_get device_name_init
  device_name_get-IsName f s mac4 mac5 h = elim (Bool-cases s.g_loaded) [
    | inl loaded ↦ elim h [ inl unread ↦ absurd (ground arith) | inr good ↦ rw loaded good ]
    | inr fresh ↦ rw fresh (
        first_name-IsName (generate_default mac4 mac5) f
          (storage_get_str nvs f device_name name_size) (generate_default-IsName mac4 mac5)
          (read_fits f))
  ]
