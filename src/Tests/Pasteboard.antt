-- ===== src/Tests/Pasteboard.antt =====
-- The theorems on main/clipboard.c, at a pasteboard with one recent entry and one favorite.
use satura_bridge.Clipboard.Moves.{favorite_kept}
use satura_bridge.Clipboard.Invariant.{IsSound, serve-IsSound}
use satura_bridge.Clipboard.Valid.{IsValid}
use satura_bridge.Clipboard.Lookup.{count_id}
use satura_bridge.Prelude.{[], arith, codes, false, refl, ◌∷◌, ◌≡◌, ◌≤◌, to_lower}
use satura_bridge.Clipboard.{
  ClipStore, Clip, ClipEntry, serve, clip_find, in_favorites, add, looks_like_link, find_in,
  starts_with_case, skip_blanks,
}

abbrev recent : ClipEntry
recent = record { text = codes "hi"; is_link = false; id = 1 }

abbrev favorite : ClipEntry
favorite = record { text = codes "ok"; is_link = false; id = 2 }

abbrev board : ClipStore
board = record { next_id = 3; ring = recent ∷ []; favorites = favorite ∷ [] }

abbrev clip : Clip
clip = record { store = board; saved = board }

board-IsValid : IsValid board
unfolding looks_like_link starts_with_case skip_blanks to_lower
board-IsValid = record {
  ring_bound = omega arith;
  fav_bound = omega arith;
  ring_entries = (((λ e. cc), omega arith, refl), tt);
  fav_entries = (((λ e. cc), omega arith, refl), tt);
  ring_ids = (omega arith, tt);
  fav_ids = (omega arith, tt);
  distinct = λ id. ground arith;
}

serve-IsSound_example : IsSound (serve clip (add (codes "new")))
serve-IsSound_example =
    serve-IsSound clip (add (codes "new")) (omega arith)
      (record { valid = board-IsValid; synced = refl })

favorite_kept_example :
    count_id 2 clip.store.favorites ≤ count_id 2 (serve clip (add (codes "z"))).store.favorites
favorite_kept_example = favorite_kept clip (add (codes "z")) 2 (λ e. e)

found : clip_find board 2 ≡ in_favorites 0 favorite
unfolding clip_find find_in
found = refl
