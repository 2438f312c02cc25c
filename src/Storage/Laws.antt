-- ===== src/Storage/Laws.antt =====
-- What the code relies on of NVS, and what the wrapper makes of it.
use satura_bridge.Storage.{Nvs, Key, write_with}
use satura_bridge.Prelude.{Bool, List, arith, length, some, true, ℕ, ◌≡◌, ◌≢◌, ◌≤◌, ◌<◌}

-- The documented behaviour of a successful write: the value is read back, also after the commit, a
-- blob only into a buffer that holds it; the other keys, and the commit, change nothing.
pub record NvsLaws {F : Type 0} (nvs : Nvs F) : Type 0 where
  -- A namespace that was written can be read.
  pub readable : (f : F) → nvs.open_readwrite f ≡ true → nvs.open_readonly f ≡ true
  pub readable_set_u8 :
      (f : F) (k : Key) (v : ℕ)
      → nvs.open_readwrite f ≡ true
      → nvs.open_readwrite (nvs.set_u8 f k v).0 ≡ true
  pub readable_set_blob :
      (f : F) (k : Key) (v : List ℕ)
      → nvs.open_readwrite f ≡ true
      → nvs.open_readwrite (nvs.set_blob f k v).0 ≡ true
  pub readable_set_str :
      (f : F) (k : Key) (v : List ℕ)
      → nvs.open_readwrite f ≡ true
      → nvs.open_readwrite (nvs.set_str f k v).0 ≡ true
  pub readable_erase :
      (f : F) (k : Key)
      → nvs.open_readwrite f ≡ true
      → nvs.open_readwrite (nvs.erase_key f k).0 ≡ true
  pub readable_commit :
      (f : F) → nvs.open_readwrite f ≡ true → nvs.open_readwrite (nvs.commit f).0 ≡ true
  pub get_u8-set_u8 :
      (f : F) (k : Key) (v : ℕ)
      → (nvs.set_u8 f k v).1 ≡ true
      → nvs.get_u8 (nvs.set_u8 f k v).0 k ≡ some v
  pub get_u8-set_blob :
      (f : F) (k j : Key) (v : List ℕ) → nvs.get_u8 f j ≡ nvs.get_u8 (nvs.set_blob f k v).0 j
  pub get_u8-erase_key :
      (f : F) (k j : Key) → k ≢ j → nvs.get_u8 f j ≡ nvs.get_u8 (nvs.erase_key f k).0 j
  pub get_u8-commit : (f : F) (k : Key) → nvs.get_u8 f k ≡ nvs.get_u8 (nvs.commit f).0 k
  pub get_blob-set_blob :
      (f : F) (k : Key) (v : List ℕ) (n : ℕ)
      → (nvs.set_blob f k v).1 ≡ true
      → length v ≤ n
      → nvs.get_blob (nvs.set_blob f k v).0 k n ≡ some v
  pub get_blob-commit :
      (f : F) (k : Key) (n : ℕ) → nvs.get_blob f k n ≡ nvs.get_blob (nvs.commit f).0 k n
  -- A text is read back into a buffer that holds it and its terminator, and never else.
  pub get_str-set_str :
      (f : F) (k : Key) (v : List ℕ) (n : ℕ)
      → (nvs.set_str f k v).1 ≡ true
      → length v < n
      → nvs.get_str (nvs.set_str f k v).0 k n ≡ some v
  pub get_str-commit :
      (f : F) (k : Key) (n : ℕ) → nvs.get_str f k n ≡ nvs.get_str (nvs.commit f).0 k n
  pub get_str_fits :
      (f : F) (k : Key) (v : List ℕ) (n : ℕ) → nvs.get_str f k n ≡ some v → length v < n

module _ {F : Type 0} (nvs : Nvs F) where
  -- A write reports success exactly when the namespace opened, the call and the commit succeeded.
  pub write_with-true :
      (f : F) (r : F × Bool)
      → (write_with nvs f r).1 ≡ true
      → (nvs.open_readwrite f ≡ true) × (r.1 ≡ true) × ((write_with nvs f r).0 ≡ (nvs.commit r.0).0)
  unfolding write_with
  write_with-true f r h = ground arith
