-- ===== src/Clipboard/Moves.antt =====
-- Where entries go: eviction of the oldest, pinning as a move, deletion, and what favorites survive.
use satura_bridge.Clipboard.Valid.{IsValid}
use satura_bridge.Clipboard.Lookup.{
  count_id, IsFound, count_id-remove_at, get_elem?-find_in, count_id-append, clip_find-IsFound,
  find_in-none, find_in-IsHit,
}
use satura_bridge.Clipboard.{
  push_entry, clip_pin, make_room, Clip, ClipStore, new_entry, Found, ClipEntry, pin_found,
  in_favorites, in_ring, clip_find, missing, clip_delete, Request, clip_add, serve, clip_unpin, add,
  unpin_found, pin, delete_found, unpin, delete,
}
use satura_bridge.Prelude.{
  ==_iff, Bool-cases, List, [], arith, drop, inl, inr, leb, length, length-append, refl, ℕ, ◌++◌,
  ◌+◌, ◌-◌, ◌<◌, ◌==◌, ◌∷◌, ◌≡◌, ◌≤◌, remove_at, ◌≢◌,
}

-- From a ring of at most fifteen entries, the ring after an add is the last fifteen entries of the old
-- ring with the new one at its end.
pub ring-push_entry :
    (s : ClipStore) (text : List ℕ)
    → length s.ring ≤ 15
    → (push_entry s text).ring
      ≡ drop (length (s.ring ++ new_entry s text ∷ []) - 15) (s.ring ++ new_entry s text ∷ [])
unfolding push_entry make_room
ring-push_entry s text h = elim (Bool-cases (length s.ring == 15)) [
  | inl full ↦
      rw (full, length-append s.ring (new_entry s text ∷ []), (==_iff _ _).0 full)
        (drop_one-append s.ring _ (omega (arith, (==_iff (length s.ring) 15).0 full)))
  | inr room ↦ rw (room, none_over (ground arith))
]
  where
    none_over : length s.ring ≢ 15 → length (s.ring ++ new_entry s text ∷ []) - 15 ≡ 0
    none_over n = omega (arith, length-append s.ring (new_entry s text ∷ []))

    drop_one-append : (xs ys : List ClipEntry) → 0 < length xs → drop 1 xs ++ ys ≡ drop 1 (xs ++ ys)
    drop_one-append [] ys p = absurd (omega arith)
    drop_one-append (x ∷ xs) ys p = refl

-- Pinning moves an entry or does nothing: over both arrays together every id occurs as often as before.
pub count_id-clip_pin :
    (c : Clip) (id j : ℕ)
    → let t = (clip_pin c id).store in
      count_id j t.ring + count_id j t.favorites
      ≡ count_id j c.store.ring + count_id j c.store.favorites
unfolding clip_pin
count_id-clip_pin c id j = elim (Bool-cases (leb 8 (length c.store.favorites))) [
  | inl full ↦ rw full
  | inr room ↦ rw room (moved (clip_find c.store id) (clip_find-IsFound c.store id))
]
  where
    moved :
        (f : Found)
        → IsFound c.store id f
        → count_id j (pin_found c f).store.ring + count_id j (pin_found c f).store.favorites
          ≡ count_id j c.store.ring + count_id j c.store.favorites
    moved missing h = unfold pin_found in refl
    moved (in_favorites i e) h = unfold pin_found in refl
    moved (in_ring i e) h =
        unfold pin_found in
        omega (
          arith,
          count_id-remove_at j i e c.store.ring (get_elem?-find_in id i e c.store.ring h),
          count_id-append j c.store.favorites (e ∷ []),
        )

-- From a valid store, the id is found in neither array after its deletion.
pub clip_find-clip_delete :
    (c : Clip) (id : ℕ) → IsValid c.store → clip_find (clip_delete c id).store id ≡ missing
unfolding clip_delete
clip_find-clip_delete c id v = gone (clip_find c.store id) (clip_find-IsFound c.store id)
  where
    none_left :
        (s : ClipStore)
        → count_id id s.ring ≡ 0
        → count_id id s.favorites ≡ 0
        → clip_find s id ≡ missing
    none_left s p q = rw (find_in-none id s.ring p, find_in-none id s.favorites q, clip_find) refl

    gone : (f : Found) → IsFound c.store id f → clip_find (delete_found c f).store id ≡ missing
    gone missing h = unfold delete_found in rw (h.0, h.1, clip_find) refl
    gone (in_ring i e) h =
        let hit = find_in-IsHit id i e c.store.ring h in
        let less =
          count_id-remove_at id i e c.store.ring (get_elem?-find_in id i e c.store.ring h) in
        unfold delete_found in
        none_left (record (c.store) { ring = remove_at i c.store.ring })
          (ground (arith, hit.same_id, hit.present, less, v.distinct id))
          (ground (arith, hit.present, v.distinct id))
    gone (in_favorites i e) h =
        let hit = find_in-IsHit id i e c.store.favorites h.1 in
        let less =
          count_id-remove_at id i e c.store.favorites
            (get_elem?-find_in id i e c.store.favorites h.1) in
        unfold delete_found in
        none_left (record (c.store) { favorites = remove_at i c.store.favorites })
          (ground (arith, hit.present, v.distinct id))
          (ground (arith, hit.same_id, hit.present, less, v.distinct id))

-- Whether a request may take the favorite with the id `j` out of its list.
abbrev pub Removes : Request → ℕ → Type 0
Removes (add text) j = ⊥
Removes (pin id) j = ⊥
Removes (unpin id) j = id ≡ j
Removes (delete id) j = id ≡ j

count_id-clip_add_favorites :
    (c : Clip) (text : List ℕ) (j : ℕ)
    → count_id j (clip_add c text).store.favorites ≡ count_id j c.store.favorites
unfolding clip_add push_entry
count_id-clip_add_favorites c [] j = refl
count_id-clip_add_favorites c (x ∷ xs) j = refl

-- A favorite is never evicted: unless a request unpins or deletes its own id, an id occurs at least
-- as often among the favorites afterwards.
pub favorite_kept :
    (c : Clip) (r : Request) (j : ℕ)
    → ¬ Removes r j
    → count_id j c.store.favorites ≤ count_id j (serve c r).store.favorites
unfolding serve
favorite_kept c (add text) j h = omega (arith, count_id-clip_add_favorites c text j)
favorite_kept c (pin id) j h = unfold clip_pin in ground (arith, pinned (clip_find c.store id))
  where
    pinned : (f : Found) → count_id j c.store.favorites ≤ count_id j (pin_found c f).store.favorites
    pinned missing = unfold pin_found in omega arith
    pinned (in_favorites i e) = unfold pin_found in omega arith
    pinned (in_ring i e) =
        unfold pin_found in omega (arith, count_id-append j c.store.favorites (e ∷ []))
favorite_kept c (unpin id) j h =
    unfold clip_unpin in left (clip_find c.store id) (clip_find-IsFound c.store id)
  where
    left :
        (f : Found)
        → IsFound c.store id f
        → count_id j c.store.favorites ≤ count_id j (unpin_found c f).store.favorites
    left missing k = unfold unpin_found in omega arith
    left (in_ring i e) k = unfold unpin_found in omega arith
    left (in_favorites i e) k =
        unfold unpin_found in
        ground (
          arith,
          count_id-clip_add_favorites _ e.text j,
          (find_in-IsHit id i e c.store.favorites k.1).same_id,
          count_id-remove_at j i e c.store.favorites
              (get_elem?-find_in id i e c.store.favorites k.1),
        )
favorite_kept c (delete id) j h =
    unfold clip_delete in left (clip_find c.store id) (clip_find-IsFound c.store id)
  where
    left :
        (f : Found)
        → IsFound c.store id f
        → count_id j c.store.favorites ≤ count_id j (delete_found c f).store.favorites
    left missing k = unfold delete_found in omega arith
    left (in_ring i e) k = unfold delete_found in omega arith
    left (in_favorites i e) k =
        unfold delete_found in
        ground (
          arith,
          (find_in-IsHit id i e c.store.favorites k.1).same_id,
          count_id-remove_at j i e c.store.favorites
              (get_elem?-find_in id i e c.store.favorites k.1),
        )

-- Unpinning an id that is found among the favorites, with a text that is not empty, takes the favorite
-- out and puts a new entry with its text at the end of the ring.
pub ring-clip_unpin :
    (c : Clip) (id i : ℕ) (e : ClipEntry)
    → clip_find c.store id ≡ in_favorites i e
    → e.text ≢ []
    → let t = (clip_unpin c id).store in
      (t.ring ≡ make_room c.store.ring ++ new_entry c.store e.text ∷ [])
      × (t.favorites ≡ remove_at i c.store.favorites)
unfolding clip_unpin
ring-clip_unpin c id i e h n = rw h (unfold unpin_found in added e.text n)
  where
    without : ClipStore
    without = record (c.store) { favorites = remove_at i c.store.favorites }

    added :
        (text : List ℕ)
        → text ≢ []
        → let t = (clip_add (record c { store = without }) text).store in
          (t.ring ≡ make_room c.store.ring ++ new_entry c.store text ∷ [])
          × (t.favorites ≡ remove_at i c.store.favorites)
    added [] n = absurd (n refl)
    added (x ∷ xs) n = unfold clip_add push_entry new_entry in (refl, refl)
