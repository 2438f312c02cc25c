-- ===== src/Clipboard/Valid.antt =====
-- The well-formed stores of main/clipboard.c, and the moves of an entry that keep them so.
use satura_bridge.Prelude.{
  All, All-append, Bool-cases, List, [], arith, inl, inr, length, length-append, length-take, refl,
  take, ℕ, ◌%◌, ◌+◌, ◌<◌, ◌==◌, ◌^◌, ◌∷◌, ◌≡◌, ◌≢◌, ◌≤◌, All-get_elem?, All-remove_at, get_elem?,
  length-remove_at, remove_at, some, ◌++◌,
}
use satura_bridge.Clipboard.Lookup.{
  count_id, count_id-append, count_id-drop_one, count_id_above, ids_mono, count_id-remove_at,
}
use satura_bridge.Clipboard.{
  ClipEntry, ClipStore, looks_like_link, new_entry, make_room, push_entry,
}

-- A stored entry: its text is neither empty nor longer than the slot, and the link flag is up to date.
abbrev pub IsEntry : ClipEntry → Type 0
IsEntry e = (e.text ≢ []) × (length e.text ≤ 255) × (e.is_link ≡ looks_like_link e.text)

pub record IsValid (s : ClipStore) : Type 0 where
  pub ring_bound : length s.ring ≤ 15
  pub fav_bound : length s.favorites ≤ 8
  pub ring_entries : All IsEntry s.ring
  pub fav_entries : All IsEntry s.favorites
  pub ring_ids : All (λ e. e.id < s.next_id) s.ring
  pub fav_ids : All (λ e. e.id < s.next_id) s.favorites
  pub distinct : (id : ℕ) → count_id id s.ring + count_id id s.favorites ≤ 1

length-make_room : (ring : List ClipEntry) → length ring ≤ 15 → length (make_room ring) ≤ 14
unfolding make_room
length-make_room [] h = omega arith
length-make_room (x ∷ xs) h = ground arith

All-make_room {κ} :
    (P : ClipEntry → Type κ) (ring : List ClipEntry) → All P ring → All P (make_room ring)
unfolding make_room
All-make_room P [] h = h
All-make_room P (x ∷ xs) h = elim (Bool-cases (length (x ∷ xs) == 15)) [
  | inl full ↦ rw full h.1
  | inr room ↦ rw room h
]

count_id-make_room :
    (id : ℕ) (ring : List ClipEntry) → count_id id (make_room ring) ≤ count_id id ring
unfolding make_room
count_id-make_room id ring = ground (arith, count_id-drop_one id ring)

take_nonempty : (x : ℕ) (xs : List ℕ) → take 255 (x ∷ xs) ≢ []
take_nonempty x xs h = cc

new_entry-IsEntry : (s : ClipStore) (x : ℕ) (xs : List ℕ) → IsEntry (new_entry s (x ∷ xs))
unfolding new_entry
new_entry-IsEntry s x xs = (take_nonempty x xs, omega (arith, length-take 255 (x ∷ xs)), refl)

pub push_entry-IsValid :
    (s : ClipStore) (x : ℕ) (xs : List ℕ)
    → s.next_id + 1 < 2 ^ 32
    → IsValid s
    → IsValid (push_entry s (x ∷ xs))
unfolding push_entry
push_entry-IsValid s x xs h v = record {
  ring_bound =
      omega
        (arith, length-make_room s.ring v.ring_bound, length-append (make_room s.ring) (e ∷ []));
  fav_bound = v.fav_bound;
  ring_entries =
      All-append IsEntry (make_room s.ring) _ (All-make_room IsEntry s.ring v.ring_entries)
        (new_entry-IsEntry s x xs, tt);
  fav_entries = v.fav_entries;
  ring_ids =
      All-append (λ d. d.id < (s.next_id + 1) % 2 ^ 32) (make_room s.ring) _
        (ids_mono _ below (All-make_room _ s.ring v.ring_ids))
        (unfold new_entry in omega arith, tt);
  fav_ids = ids_mono _ below v.fav_ids;
  distinct = λ id.
      unfold new_entry in
      ground (
        arith,
        v.distinct id,
        count_id-append id (make_room s.ring) (e ∷ []),
        count_id-make_room id s.ring,
        count_id_above s.next_id s.ring v.ring_ids,
        count_id_above s.next_id s.favorites v.fav_ids,
      );
}
  where
    e : ClipEntry
    e = new_entry s (x ∷ xs)

    below : s.next_id ≤ (s.next_id + 1) % 2 ^ 32
    below = omega arith

-- Out of an array, and at the end of another.
module _ (s : ClipStore) (i : ℕ) (e : ClipEntry) (v : IsValid s) where
  pub pin-IsValid :
      get_elem? s.ring i ≡ some e
      → i < length s.ring
      → length s.favorites < 8
      → IsValid (record s { favorites = s.favorites ++ e ∷ []; ring = remove_at i s.ring })
  pin-IsValid at within room = record {
    ring_bound = omega (arith, length-remove_at i s.ring within, v.ring_bound);
    fav_bound = omega (arith, length-append s.favorites (e ∷ []));
    ring_entries = All-remove_at IsEntry i s.ring v.ring_entries;
    fav_entries =
        All-append IsEntry s.favorites _ v.fav_entries
          (All-get_elem? IsEntry s.ring i v.ring_entries at, tt);
    ring_ids = All-remove_at _ i s.ring v.ring_ids;
    fav_ids =
        All-append (λ d. d.id < s.next_id) s.favorites _ v.fav_ids
          (All-get_elem? (λ d. d.id < s.next_id) s.ring i v.ring_ids at, tt);
    distinct = λ id. omega (
      arith,
      v.distinct id,
      count_id-remove_at id i e s.ring at,
      count_id-append id s.favorites (e ∷ []),
    );
  }

  pub drop_favorite-IsValid :
      get_elem? s.favorites i ≡ some e
      → i < length s.favorites
      → IsValid (record s { favorites = remove_at i s.favorites })
  drop_favorite-IsValid at within = record {
    ring_bound = v.ring_bound;
    fav_bound = omega (arith, length-remove_at i s.favorites within, v.fav_bound);
    ring_entries = v.ring_entries;
    fav_entries = All-remove_at IsEntry i s.favorites v.fav_entries;
    ring_ids = v.ring_ids;
    fav_ids = All-remove_at _ i s.favorites v.fav_ids;
    distinct = λ id. omega (arith, v.distinct id, count_id-remove_at id i e s.favorites at);
  }

  pub drop_recent-IsValid :
      get_elem? s.ring i ≡ some e
      → i < length s.ring
      → IsValid (record s { ring = remove_at i s.ring })
  drop_recent-IsValid at within = record {
    ring_bound = omega (arith, length-remove_at i s.ring within, v.ring_bound);
    fav_bound = v.fav_bound;
    ring_entries = All-remove_at IsEntry i s.ring v.ring_entries;
    fav_entries = v.fav_entries;
    ring_ids = All-remove_at _ i s.ring v.ring_ids;
    fav_ids = v.fav_ids;
    distinct = λ id. omega (arith, v.distinct id, count_id-remove_at id i e s.ring at);
  }
