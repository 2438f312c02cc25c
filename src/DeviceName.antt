-- ===== src/DeviceName.antt =====
-- main/device_name.c: the Bluetooth name, read from NVS on first use. The last two bytes of the
-- Bluetooth address are arguments.
pub mod Laws
use satura_bridge.Prelude.{
  Bool, List, Option, [], codes, false, if◌then◌else◌, leb, length, none, some, take, true, ℕ, ◌%◌,
  ◌++◌, ◌-◌, ◌/◌, ◌==◌, ◌||◌, ◌∷◌,
}
use satura_bridge.Storage.{Nvs, storage_get_str, storage_set_str, device_name}
use satura_bridge.HttpUtils.{hex_digit}

-- `g_name` is the text in an array of DEVICE_NAME_MAX + 1 bytes.
pub record NameState : Type 0 where
  pub g_name : List ℕ
  pub g_loaded : Bool

abbrev pub name_size : ℕ
name_size = 33

abbrev pub hex_byte : ℕ → List ℕ
hex_byte b = hex_digit (b / 16) ∷ hex_digit (b % 16) ∷ []

unfoldable pub generate_default : ℕ → ℕ → List ℕ
generate_default mac4 mac5 =
    take (name_size - 1) (codes "Satura Bridge " ++ (hex_byte mac4 ++ hex_byte mac5))

module _ {F : Type 0} (nvs : Nvs F) where
  -- A name that is read and not empty is kept, else the default is taken and stored.
  unfoldable pub first_name : List ℕ → F → Option (List ℕ) → F × List ℕ
  first_name fallback f none = ((storage_set_str nvs f device_name fallback).0, fallback)
  first_name fallback f (some []) = ((storage_set_str nvs f device_name fallback).0, fallback)
  first_name fallback f (some (c ∷ cs)) = (f, c ∷ cs)

  unfoldable pub device_name_init : ℕ → ℕ → F × NameState → F × NameState
  device_name_init mac4 mac5 (f, s) =
      if s.g_loaded
      then (f, s)
      else (let (g, name) =
            first_name (generate_default mac4 mac5) f
              (storage_get_str nvs f device_name name_size) in
          (g, record { g_name = name; g_loaded = true }))

  unfoldable pub device_name_get : ℕ → ℕ → F × NameState → (F × NameState) × List ℕ
  device_name_get mac4 mac5 s = let t = device_name_init mac4 mac5 s in (t, t.1.g_name)

  -- A null pointer and an empty name are refused alike.
  unfoldable pub device_name_set : List ℕ → F × NameState → (F × NameState) × Bool
  device_name_set name (f, s) =
      if length name == 0 || leb name_size (length name)
      then ((f, s), false)
      else (let written = storage_set_str nvs f device_name name in
          if written.1
          then ((written.0, record { g_name = take (name_size - 1) name; g_loaded = true }), true)
          else ((written.0, s), false))
