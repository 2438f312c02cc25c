-- ===== src/Clipboard/Invariant.antt =====
-- Every request keeps the clipboard well formed, and the flash copy equal to the one in RAM.
use satura_bridge.Clipboard.Valid.{
  IsValid, push_entry-IsValid, pin-IsValid, drop_favorite-IsValid, drop_recent-IsValid, IsEntry,
}
use satura_bridge.Prelude.{
  Bool-cases, List, [], arith, inl, inr, length, refl, ℕ, ◌+◌, ◌<◌, ◌^◌, ◌∷◌, ◌≡◌, ◌≢◌,
  All-get_elem?, get_elem?, leb, remove_at, some,
}
use satura_bridge.Clipboard.Lookup.{
  clip_find-IsFound, IsFound, find_in-IsHit, IsHit, get_elem?-find_in,
}
use satura_bridge.Clipboard.{
  ClipStore, Clip, clip_add, pin_found, unpin_found, delete_found, clip_pin, serve, Found, Request,
  add, in_favorites, in_ring, pin, unpin, clip_unpin, delete, clip_delete, missing,
}

-- The store is well formed, and the blob last written is the store.
pub record IsSound (c : Clip) : Type 0 where
  pub valid : IsValid c.store
  pub synced : c.saved ≡ c.store

clip_add-IsSound :
    (c : Clip) (text : List ℕ)
    → c.store.next_id + 1 < 2 ^ 32
    → IsSound c
    → IsSound (clip_add c text)
unfolding clip_add
clip_add-IsSound c [] h v = v
clip_add-IsSound c (x ∷ xs) h v = record {
  valid = push_entry-IsValid c.store x xs h v.valid;
  synced = refl;
}

pin_found-IsSound :
    (c : Clip) (id : ℕ) (f : Found)
    → IsFound c.store id f
    → length c.store.favorites < 8
    → IsSound c
    → IsSound (pin_found c f)
unfolding pin_found
pin_found-IsSound c id missing f room v = v
pin_found-IsSound c id (in_favorites i e) f room v = v
pin_found-IsSound c id (in_ring i e) f room v =
    let hit = find_in-IsHit id i e c.store.ring f in
    record {
      valid =
          pin-IsValid c.store i e v.valid (get_elem?-find_in id i e c.store.ring f) hit.in_range
            room;
      synced = refl;
    }

-- The favorite leaves its list and its text, which is not empty, is added to the ring and saved.
unpin_found-IsSound :
    (c : Clip) (id : ℕ) (f : Found)
    → IsFound c.store id f
    → c.store.next_id + 1 < 2 ^ 32
    → IsSound c
    → IsSound (unpin_found c f)
unfolding unpin_found
unpin_found-IsSound c id missing f h v = v
unpin_found-IsSound c id (in_ring i e) f h v = v
unpin_found-IsSound c id (in_favorites i e) f h v =
    readd e.text (All-get_elem? IsEntry c.store.favorites i v.valid.fav_entries at).0
  where
    hit : IsHit id i e c.store.favorites
    hit = find_in-IsHit id i e c.store.favorites f.1

    at : get_elem? c.store.favorites i ≡ some e
    at = get_elem?-find_in id i e c.store.favorites f.1

    without : ClipStore
    without = record (c.store) { favorites = remove_at i c.store.favorites }

    readd : (text : List ℕ) → text ≢ [] → IsSound (clip_add (record c { store = without }) text)
    readd [] n = absurd (n refl)
    readd (x ∷ xs) n = record {
      valid =
          push_entry-IsValid without x xs h
            (drop_favorite-IsValid c.store i e v.valid at hit.in_range);
      synced = refl;
    }

delete_found-IsSound :
    (c : Clip) (id : ℕ) (f : Found) → IsFound c.store id f → IsSound c → IsSound (delete_found c f)
unfolding delete_found
delete_found-IsSound c id missing f v = v
delete_found-IsSound c id (in_ring i e) f v =
    let hit = find_in-IsHit id i e c.store.ring f in
    record {
      valid =
          drop_recent-IsValid c.store i e v.valid (get_elem?-find_in id i e c.store.ring f)
            hit.in_range;
      synced = refl;
    }
delete_found-IsSound c id (in_favorites i e) f v =
    let hit = find_in-IsHit id i e c.store.favorites f.1 in
    record {
      valid =
          drop_favorite-IsValid c.store i e v.valid (get_elem?-find_in id i e c.store.favorites f.1)
            hit.in_range;
      synced = refl;
    }

clip_pin-IsSound : (c : Clip) (id : ℕ) → IsSound c → IsSound (clip_pin c id)
unfolding clip_pin
clip_pin-IsSound c id v = elim (Bool-cases (leb 8 (length c.store.favorites))) [
  | inl full ↦ rw full v
  | inr room ↦ rw room (pin_found-IsSound c id _ (clip_find-IsFound c.store id) (ground arith) v)
]

-- Every request, hit or miss, leaves a sound clipboard sound, as long as the next id does not wrap.
pub serve-IsSound :
    (c : Clip) (r : Request) → c.store.next_id + 1 < 2 ^ 32 → IsSound c → IsSound (serve c r)
unfolding serve
serve-IsSound c (add text) h v = clip_add-IsSound c text h v
serve-IsSound c (pin id) h v = clip_pin-IsSound c id v
serve-IsSound c (unpin id) h v =
    unfold clip_unpin in unpin_found-IsSound c id _ (clip_find-IsFound c.store id) h v
serve-IsSound c (delete id) h v =
    unfold clip_delete in delete_found-IsSound c id _ (clip_find-IsFound c.store id) v
