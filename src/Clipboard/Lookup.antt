-- ===== src/Clipboard/Lookup.antt =====
-- What the scans of the clipboard's arrays find, and how often an id occurs in them.
use satura_bridge.Prelude.{
  ℕ, ◌+◌, ◌≤◌, ◌<◌, ◌≡◌, some, List, [], ◌∷◌, ◌++◌, arith, ◌==◌, if◌then◌else◌, length, drop,
  Option-cases, inl, inr, All, Bool-cases, get_elem?, none, refl, remove_at, suc, zero,
}
use satura_bridge.Clipboard.{
  ClipEntry, ClipStore, Found, missing, in_ring, in_favorites, find_in, clip_find,
}

abbrev pub count_id : ℕ → List ClipEntry → ℕ
count_id id [] = 0
count_id id (e ∷ es) = (if e.id == id then 1 else 0) + count_id id es

pub count_id-append :
    (id : ℕ) (xs ys : List ClipEntry) → count_id id (xs ++ ys) ≡ count_id id xs + count_id id ys
count_id-append id [] ys = omega arith
count_id-append id (x ∷ xs) ys = omega (arith, count_id-append id xs ys)

pub count_id-drop_one : (id : ℕ) (xs : List ClipEntry) → count_id id (drop 1 xs) ≤ count_id id xs
count_id-drop_one id [] = omega arith
count_id-drop_one id (x ∷ xs) = omega arith

-- What a hit says of the array: the entry carries the id and stands at the index.
pub record IsHit (id i : ℕ) (e : ClipEntry) (xs : List ClipEntry) : Type 0 where
  pub same_id : e.id ≡ id
  pub in_range : i < length xs
  pub present : 0 < count_id id xs

pub find_in-IsHit :
    (id i : ℕ) (e : ClipEntry) (xs : List ClipEntry) → find_in id xs ≡ some (i, e) → IsHit id i e xs
unfolding find_in
find_in-IsHit id i e [] h = cc
find_in-IsHit id i e (x ∷ xs) h = elim (Option-cases (find_in id xs)) [
  | inl gone ↦ ground arith
  | inr ((j, f), found) ↦ ground (arith, find_in-IsHit id j f xs found)
]

pub get_elem?-find_in :
    (id i : ℕ) (e : ClipEntry) (xs : List ClipEntry)
    → find_in id xs ≡ some (i, e)
    → get_elem? xs i ≡ some e
unfolding find_in
get_elem?-find_in id i e [] h = cc
get_elem?-find_in id i e (x ∷ xs) h = elim (Option-cases (find_in id xs)) [
  | inl gone ↦ ground arith
  | inr ((j, f), found) ↦ ground (arith, get_elem?-find_in id j f xs found)
]

-- A scan misses exactly the ids that do not occur.
pub find_in-none : (id : ℕ) (xs : List ClipEntry) → count_id id xs ≡ 0 → find_in id xs ≡ none
unfolding find_in
find_in-none id [] h = refl
find_in-none id (x ∷ xs) h = ground (arith, find_in-none id xs)

pub find_in-some :
    (id : ℕ) (xs : List ClipEntry)
    → 0 < count_id id xs
    → (i : ℕ) × (e : ClipEntry) × (find_in id xs ≡ some (i, e))
unfolding find_in
find_in-some id [] h = absurd (omega arith)
find_in-some id (x ∷ xs) h = elim (Bool-cases (x.id == id)) [
  | inl here ↦ (0, x, rw here)
  | inr other ↦ let (i, e, found) = find_in-some id xs (ground arith) in (suc i, e, ground arith)
]

-- Taking the entry at an index out lowers the count of its own id by one, and no other count.
pub count_id-remove_at :
    (id i : ℕ) (e : ClipEntry) (xs : List ClipEntry)
    → get_elem? xs i ≡ some e
    → count_id id (remove_at i xs) + (if e.id == id then 1 else 0) ≡ count_id id xs
count_id-remove_at id i e [] h = cc
count_id-remove_at id zero e (x ∷ xs) h = ground arith
count_id-remove_at id (suc i) e (x ∷ xs) h = ground (arith, count_id-remove_at id i e xs h)

-- An id that bounds all others does not occur.
pub count_id_above : (n : ℕ) (xs : List ClipEntry) → All (λ e. e.id < n) xs → count_id n xs ≡ 0
count_id_above n [] h = refl
count_id_above n (x ∷ xs) h = ground (arith, count_id_above n xs)

pub ids_mono :
    {m n : ℕ} (xs : List ClipEntry) → m ≤ n → All (λ e. e.id < m) xs → All (λ e. e.id < n) xs
ids_mono [] h b = tt
ids_mono (x ∷ xs) h b = (omega arith, ids_mono xs h b.1)

-- What each result of `clip_find` says of the store.
abbrev pub IsFound : ClipStore → ℕ → Found → Type 0
IsFound s id missing = (find_in id s.ring ≡ none) × (find_in id s.favorites ≡ none)
IsFound s id (in_ring i e) = find_in id s.ring ≡ some (i, e)
IsFound s id (in_favorites i e) =
    (find_in id s.ring ≡ none) × (find_in id s.favorites ≡ some (i, e))

pub clip_find-IsFound : (s : ClipStore) (id : ℕ) → IsFound s id (clip_find s id)
unfolding clip_find
clip_find-IsFound s id = elim (Option-cases (find_in id s.ring)) [
  | inl miss ↦ elim (Option-cases (find_in id s.favorites)) [
    | inl gone ↦ rw (miss, gone, clip_find) (miss, gone)
    | inr ((i, e), hit) ↦ rw (miss, hit, clip_find) (miss, hit)
  ]
  | inr ((i, e), hit) ↦ rw (hit, clip_find) hit
]
