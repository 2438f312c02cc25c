-- ===== src/Storage.antt =====
-- main/storage.c: the wrapper around NVS that opens and closes the handle.
-- NVS itself is a parameter: `F` is what the flash partition holds, an operation of `nvs.h` takes it
-- and returns it anew with whether the result was ESP_OK, and a handle is the right to go on.
pub mod Laws
use satura_bridge.Prelude.{Bool, List, Option, false, if◌then◌else◌, none, ℕ}

-- The keys of the namespace, one for each key macro of the sources.
pub data Key : Type 0 where
  net_count net_blob device_name proxy_enabled proxy_host proxy_port clipboard : Key

pub record Nvs (F : Type 0) : Type 0 where
  pub open_readonly : F → Bool
  pub open_readwrite : F → Bool
  pub get_u8 : F → Key → Option ℕ
  pub set_u8 : F → Key → ℕ → F × Bool
  pub get_u16 : F → Key → Option ℕ
  pub set_u16 : F → Key → ℕ → F × Bool
  -- The last argument is the size of the buffer, in bytes.
  pub get_str : F → Key → ℕ → Option (List ℕ)
  pub set_str : F → Key → List ℕ → F × Bool
  pub get_blob : F → Key → ℕ → Option (List ℕ)
  pub set_blob : F → Key → List ℕ → F × Bool
  pub erase_key : F → Key → F × Bool
  pub commit : F → F × Bool

module _ {F : Type 0} (nvs : Nvs F) where
  open nvs use {open_readonly, open_readwrite, commit}

  unfoldable pub commit_and_close : F → F × Bool
  commit_and_close f = commit f

  -- Every getter: the value is there only if the namespace opens and the call succeeds.
  unfoldable pub read_with : {A : Type 0} → F → Option A → Option A
  read_with f result = if open_readonly f then result else none

  -- Every setter: a failed call is not committed.
  unfoldable pub write_with : F → F × Bool → F × Bool
  unfolding commit_and_close
  write_with f result =
      if open_readwrite f
      then (if result.1 then commit_and_close result.0 else (result.0, false))
      else (f, false)

  unfoldable pub storage_get_u8 : F → Key → Option ℕ
  unfolding read_with
  storage_get_u8 f key = read_with f (nvs.get_u8 f key)

  unfoldable pub storage_set_u8 : F → Key → ℕ → F × Bool
  unfolding write_with
  storage_set_u8 f key value = write_with f (nvs.set_u8 f key value)

  unfoldable pub storage_get_u16 : F → Key → Option ℕ
  unfolding read_with
  storage_get_u16 f key = read_with f (nvs.get_u16 f key)

  unfoldable pub storage_set_u16 : F → Key → ℕ → F × Bool
  unfolding write_with
  storage_set_u16 f key value = write_with f (nvs.set_u16 f key value)

  unfoldable pub storage_get_str : F → Key → ℕ → Option (List ℕ)
  unfolding read_with
  storage_get_str f key len = read_with f (nvs.get_str f key len)

  unfoldable pub storage_set_str : F → Key → List ℕ → F × Bool
  unfolding write_with
  storage_set_str f key value = write_with f (nvs.set_str f key value)

  unfoldable pub storage_get_blob : F → Key → ℕ → Option (List ℕ)
  unfolding read_with
  storage_get_blob f key len = read_with f (nvs.get_blob f key len)

  unfoldable pub storage_set_blob : F → Key → List ℕ → F × Bool
  unfolding write_with
  storage_set_blob f key bytes = write_with f (nvs.set_blob f key bytes)

  unfoldable pub storage_erase_key : F → Key → F × Bool
  unfolding write_with
  storage_erase_key f key = write_with f (nvs.erase_key f key)
