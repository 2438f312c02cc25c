-- ===== src/Clipboard.antt =====
-- main/clipboard.c: the shared pasteboard, a ring of recent entries and a list of favorites.
-- An array with its count is the list of its live entries, oldest first; `memmove` over a slot with
-- the count decremented is `remove_at`. `Clip.saved` is the last blob that `clip_save` handed to
-- `storage_set_blob`, whose result the code does not read.
pub mod Valid
pub mod Invariant
pub mod Lookup
pub mod Moves
pub mod Page
pub mod PageFit
pub mod Actions
use satura_bridge.Prelude.{
  ℕ, ◌+◌, ◌-◌, ◌%◌, ◌^◌, Bool, true, false, ◌&&◌, ◌||◌, Option, none, some, List, [], ◌∷◌, ◌++◌,
  ltb, leb, ◌==◌, if◌then◌else◌, length, take, drop, remove_at, codes, suc, to_lower,
}

pub record ClipEntry : Type 0 where
  pub text : List ℕ
  pub is_link : Bool
  pub id : ℕ  -- uint32_t

pub record ClipStore : Type 0 where
  pub next_id : ℕ  -- uint32_t
  pub ring : List ClipEntry
  pub favorites : List ClipEntry

pub record Clip : Type 0 where
  pub store : ClipStore
  pub saved : ClipStore

abbrev pub clip_ring_max : ℕ
clip_ring_max = 15

abbrev pub clip_fav_max : ℕ
clip_fav_max = 8

abbrev pub clip_text_max : ℕ
clip_text_max = 256

unfoldable pub clip_save : Clip → Clip
clip_save c = record c { saved = c.store }

-- What `storage_get_blob` reads: the counts are bytes of the blob, and need not fit the arrays.
pub record ClipBlob : Type 0 where
  pub next_id : ℕ
  pub ring_count : ℕ
  pub ring : List ClipEntry
  pub fav_count : ℕ
  pub favorites : List ClipEntry

-- The `memset` and the default id, before the blob is read.
abbrev pub fresh_blob : ClipBlob
fresh_blob = record { next_id = 1; ring_count = 0; ring = []; fav_count = 0; favorites = [] }

abbrev pub live_entries : ℕ → ℕ → List ClipEntry → List ClipEntry
live_entries limit count entries = take (if ltb limit count then 0 else count) entries

-- `clipboard_init` on the first call; `read` is the blob, `none` where reading failed.
unfoldable pub clipboard_init : Option ClipBlob → ClipStore
clipboard_init read =
    let b : ClipBlob = elim read [ some b ↦ b | none ↦ fresh_blob ] in
    record {
      next_id = if b.next_id == 0 then 1 else b.next_id;
      ring = live_entries clip_ring_max b.ring_count b.ring;
      favorites = live_entries clip_fav_max b.fav_count b.favorites;
    }

-- `strncasecmp(text, prefix, strlen(prefix)) == 0`, for a prefix in lower case.
unfoldable pub starts_with_case : List ℕ → List ℕ → Bool
unfolding to_lower
starts_with_case [] s = true
starts_with_case (p ∷ ps) [] = false
starts_with_case (p ∷ ps) (c ∷ s) = to_lower c == p && starts_with_case ps s

unfoldable pub skip_blanks : List ℕ → List ℕ
skip_blanks [] = []
skip_blanks (c ∷ s) = if c == b' ' || c == 9 then skip_blanks s else c ∷ s

unfoldable pub looks_like_link : List ℕ → Bool
unfolding skip_blanks starts_with_case
looks_like_link text =
    let s = skip_blanks text in
    starts_with_case (codes "http://") s || starts_with_case (codes "https://") s

abbrev pub u32 : ℕ → ℕ
u32 n = n % 2 ^ 32

-- The slot that `clip_add` fills.
unfoldable pub new_entry : ClipStore → List ℕ → ClipEntry
new_entry s text =
    let kept = take (clip_text_max - 1) text in
    record { text = kept; is_link = looks_like_link kept; id = s.next_id }

-- A full ring loses its oldest entry.
unfoldable pub make_room : List ClipEntry → List ClipEntry
make_room ring = if length ring == clip_ring_max then drop 1 ring else ring

unfoldable pub push_entry : ClipStore → List ℕ → ClipStore
unfolding new_entry make_room
push_entry s text = record s {
  ring = make_room s.ring ++ new_entry s text ∷ [];
  next_id = u32 (s.next_id + 1);
}

unfoldable pub clip_add : Clip → List ℕ → Clip
unfolding push_entry clip_save
clip_add c [] = c
clip_add c (x ∷ xs) = clip_save (record c { store = push_entry c.store (x ∷ xs) })

-- The scan of one array: the index and the entry of the first match.
unfoldable pub find_in : ℕ → List ClipEntry → Option (ℕ × ClipEntry)
find_in id [] = none
find_in id (e ∷ es) =
    if e.id == id
    then some (0, e)
    else elim (find_in id es) [ some (i, found) ↦ some (suc i, found) | none ↦ none ]

-- `Found` says which array, at which index, and holds the entry.
pub data Found : Type 0 where
  missing : Found
  in_ring in_favorites : ℕ → ClipEntry → Found

unfoldable pub clip_find : ClipStore → ℕ → Found
unfolding find_in
clip_find s id = elim (find_in id s.ring) [
  | some (i, e) ↦ in_ring i e
  | none ↦ elim (find_in id s.favorites) [ some (i, e) ↦ in_favorites i e | none ↦ missing ]
]

unfoldable pub pin_found : Clip → Found → Clip
unfolding clip_save
pin_found c missing = c
pin_found c (in_favorites i e) = c
pin_found c (in_ring i e) = clip_save (record c { store = pinned })
  where
    pinned : ClipStore
    pinned = record (c.store) {
      favorites = c.store.favorites ++ e ∷ [];
      ring = remove_at i c.store.ring;
    }

unfoldable pub clip_pin : Clip → ℕ → Clip
unfolding pin_found clip_find
clip_pin c id =
    if leb clip_fav_max (length c.store.favorites) then c else pin_found c (clip_find c.store id)

unfoldable pub unpin_found : Clip → Found → Clip
unfolding clip_add
unpin_found c missing = c
unpin_found c (in_ring i e) = c
unpin_found c (in_favorites i e) = clip_add (record c { store = without }) e.text
  where
    without : ClipStore
    without = record (c.store) { favorites = remove_at i c.store.favorites }

unfoldable pub clip_unpin : Clip → ℕ → Clip
unfolding unpin_found clip_find
clip_unpin c id = unpin_found c (clip_find c.store id)

unfoldable pub delete_found : Clip → Found → Clip
unfolding clip_save
delete_found c missing = c
delete_found c (in_favorites i e) =
    clip_save (record c { store = record (c.store) { favorites = remove_at i c.store.favorites } })
delete_found c (in_ring i e) =
    clip_save (record c { store = record (c.store) { ring = remove_at i c.store.ring } })

unfoldable pub clip_delete : Clip → ℕ → Clip
unfolding delete_found clip_find
clip_delete c id = delete_found c (clip_find c.store id)

-- What the two HTTP handlers ask for.
pub data Request : Type 0 where
  add : List ℕ → Request
  pin unpin delete : ℕ → Request

unfoldable pub serve : Clip → Request → Clip
serve c (add text) = clip_add c text
serve c (pin id) = clip_pin c id
serve c (unpin id) = clip_unpin c id
serve c (delete id) = clip_delete c id
