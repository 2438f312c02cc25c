-- ===== src/Networks/RoundTrip.antt =====
-- What a successful save of the networks is read back as.
use satura_bridge.Networks.Layout.{IsNetwork, length-encode_networks, decode-encode_networks}
use satura_bridge.Networks.{
  nvs_storage_load_networks, storage_set_u8, storage_set_blob, storage_get_u8, net_count,
  storage_get_blob, WifiNetwork, net_blob, encode_networks, load_counted, save_blob,
  nvs_storage_save_networks,
}
use satura_bridge.Storage.Laws.{NvsLaws, write_with-true}
use satura_bridge.Storage.{
  Nvs, Key, storage_erase_key, storage_set_u8, storage_set_blob, write_with, storage_get_u8,
  net_count, storage_get_blob, net_blob, read_with,
}
use satura_bridge.Prelude.{
  All, List, [], arith, length, some, sym, take, true, ℕ, ◌<◌, ◌∙◌, ◌≡◌, ◌≢◌, ◌≤◌, drop, min,
  take-min, ◌*◌, All-take, Bool, and_true, length-take, take-nil, ◌∷◌,
}

module _ {F : Type 0} (nvs : Nvs F) (laws : NvsLaws nvs) where
  -- A successful write leaves a namespace that can be written and read.
  written_u8 :
      (f : F) (k : Key) (v : ℕ)
      → (storage_set_u8 nvs f k v).1 ≡ true
      → (nvs.open_readwrite (storage_set_u8 nvs f k v).0 ≡ true)
        × (nvs.get_u8 (storage_set_u8 nvs f k v).0 k ≡ some v)
  written_u8 f k v h =
      let (opened, ok, at) =
        write_with-true nvs f (nvs.set_u8 f k v) (unfold storage_set_u8 in h) in
      unfold storage_set_u8 in
      rw at (
        laws.readable_commit _ (laws.readable_set_u8 f k v opened),
        sym (laws.get_u8-commit (nvs.set_u8 f k v).0 k) ∙ laws.get_u8-set_u8 f k v ok,
      )

  written_blob :
      (f : F) (k : Key) (v : List ℕ)
      → (storage_set_blob nvs f k v).1 ≡ true
      → (nvs.open_readwrite (storage_set_blob nvs f k v).0 ≡ true)
        × (nvs.get_blob (storage_set_blob nvs f k v).0 k (length v) ≡ some v)
        × ((j : Key) → nvs.get_u8 (storage_set_blob nvs f k v).0 j ≡ nvs.get_u8 f j)
  written_blob f k v h =
      let (opened, ok, at) =
        write_with-true nvs f (nvs.set_blob f k v) (unfold storage_set_blob in h) in
      unfold storage_set_blob in
      rw at (
        laws.readable_commit _ (laws.readable_set_blob f k v opened),
        sym (laws.get_blob-commit (nvs.set_blob f k v).0 k (length v))
            ∙ laws.get_blob-set_blob f k v (length v) ok (omega arith),
        λ j. sym (laws.get_u8-set_blob f k j v ∙ laws.get_u8-commit (nvs.set_blob f k v).0 j),
      )

  -- Erasing a key leaves the entries of the others as they are, whether it succeeds or not.
  erased_u8 :
      (f : F) (k j : Key) → k ≢ j → nvs.get_u8 (storage_erase_key nvs f k).0 j ≡ nvs.get_u8 f j
  unfolding storage_erase_key write_with
  erased_u8 f k j ne =
      ground (arith, laws.get_u8-erase_key f k j ne, laws.get_u8-commit (nvs.erase_key f k).0 j)

  load_none :
      (f : F) (stack : List ℕ) (m : ℕ)
      → nvs.get_u8 f net_count ≡ some 0
      → nvs_storage_load_networks nvs f stack m ≡ []
  unfolding nvs_storage_load_networks storage_get_u8 load_counted
  load_none f stack m e = ground arith

  load_counted_lem :
      (f : F) (stack : List ℕ) (m : ℕ) (ns : List WifiNetwork)
      → All IsNetwork ns
      → 0 < length ns
      → nvs.open_readonly f ≡ true
      → nvs.get_blob f net_blob (length (encode_networks ns)) ≡ some (encode_networks ns)
      → load_counted nvs f stack m (length ns) ≡ take m ns
  unfolding load_counted storage_get_blob
  load_counted_lem f stack m ns h filled o b =
      let size : nvs.get_blob f net_blob (98 * length ns) ≡ some (encode_networks ns) =
        rw (length-encode_networks ns) at b in
      let back =
        decode-encode_networks (min (length ns) m) ns (drop (length (encode_networks ns)) stack) h
          (omega arith) in
      ground (arith, size, o, back, take-min m ns)

  load_some :
      (f : F) (stack : List ℕ) (m : ℕ) (ns : List WifiNetwork)
      → All IsNetwork ns
      → 0 < length ns
      → length ns ≤ 6
      → nvs.open_readonly f ≡ true
      → nvs.get_u8 f net_count ≡ some (length ns)
      → nvs.get_blob f net_blob (length (encode_networks ns)) ≡ some (encode_networks ns)
      → nvs_storage_load_networks nvs f stack m ≡ take m ns
  unfolding nvs_storage_load_networks storage_get_u8 read_with
  load_some f stack m ns h filled le o e b =
      let small : min (length ns) 6 ≡ length ns = omega arith in
      rw (o, e, nvs_storage_load_networks) (rw small (load_counted_lem f stack m ns h filled o b))

  load-save_blob :
      (f : F) (r : F × Bool) (ns : List WifiNetwork) (stack : List ℕ) (m : ℕ)
      → All IsNetwork ns
      → length ns ≤ 6
      → (r.1 ≡ true
          → (nvs.open_readwrite r.0 ≡ true) × (nvs.get_u8 r.0 net_count ≡ some (length ns)))
      → (save_blob nvs r ns).1 ≡ true
      → nvs_storage_load_networks nvs (save_blob nvs r ns).0 stack m ≡ take m ns
  load-save_blob f r [] stack m h le w ok =
      unfold save_blob in
      load_none _ stack m
        (erased_u8 r.0 net_blob net_count (λ e. cc) ∙ (w (unfold save_blob in ok)).1)
      ∙ sym (take-nil m)
  load-save_blob f r (n ∷ ns) stack m h le w ok =
      unfold save_blob in
      let both =
        and_true (storage_set_blob nvs r.0 net_blob (encode_networks (n ∷ ns))).1 r.1
          (unfold save_blob in ok) in
      let (opened, blob, kept) = written_blob r.0 net_blob (encode_networks (n ∷ ns)) both.0 in
      load_some _ stack m (n ∷ ns) h (omega arith) le (laws.readable _ opened)
        (kept net_count ∙ (w both.1).1) blob

  -- If NVS behaves as documented, a save of well formed networks that reports success is read back:
  -- of at most six networks saved, a load gives as many of the first ones as it is asked for.
  pub load-save_networks :
      (f : F) (ns : List WifiNetwork) (stack : List ℕ) (m : ℕ)
      → All IsNetwork ns
      → (nvs_storage_save_networks nvs f ns).1 ≡ true
      → nvs_storage_load_networks nvs (nvs_storage_save_networks nvs f ns).0 stack m
        ≡ take m (take 6 ns)
  unfolding nvs_storage_save_networks
  load-save_networks f ns stack m h ok =
      load-save_blob f (storage_set_u8 nvs f net_count (length (take 6 ns))) (take 6 ns) stack m
        (All-take IsNetwork 6 ns h) (omega (arith, length-take 6 ns))
        (written_u8 f net_count (length (take 6 ns))) ok
