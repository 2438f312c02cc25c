-- ===== src/Tests/Flash.antt =====
-- The theorems on main/nvs_storage.c, over a flash of two tables that a write always reaches.
use satura_bridge.Networks.Edit.{count_ssid, added_network-distinct}
use satura_bridge.Networks.RoundTrip.{load-save_networks}
use satura_bridge.Networks.Layout.{IsNetwork}
use satura_bridge.Storage.Laws.{NvsLaws}
use satura_bridge.Prelude.{
  ==_iff, Bool-cases, List, Option, [], ap, arith, codes, false, if◌then◌else◌, inl, inr, leb,
  length, none, refl, replicate, some, sym, take, true, ℕ, ◌==◌, ◌∙◌, ◌∷◌, ◌≡◌, ◌≢◌, ◌≤◌, All, suc,
  zero, ltb, ◌<◌, strcmp_eq,
}
use satura_bridge.Storage.{
  Nvs, Key, net_count, net_blob, device_name, proxy_enabled, proxy_host, proxy_port, clipboard,
  storage_set_u8, storage_set_blob, write_with, commit_and_close,
}
use satura_bridge.Networks.{
  WifiNetwork, added_network, nvs_storage_save_networks, nvs_storage_load_networks, update_network,
  save_blob,
}

pub record Tables : Type 0 where
  pub bytes : Key → Option ℕ
  pub blobs : Key → Option (List ℕ)

abbrev pub key_number : Key → ℕ
key_number net_count = 0
key_number net_blob = 1
key_number device_name = 2
key_number proxy_enabled = 3
key_number proxy_host = 4
key_number proxy_port = 5
key_number clipboard = 6

abbrev numbered : ℕ → Key
numbered n =
    if n == 0
    then net_count
    else if n == 1
    then net_blob
    else if n == 2
    then device_name
    else if n == 3
    then proxy_enabled
    else if n == 4
    then proxy_host
    else if n == 5
    then proxy_port
    else clipboard

numbered-key_number : (k : Key) → numbered (key_number k) ≡ k
numbered-key_number net_count = refl
numbered-key_number net_blob = refl
numbered-key_number device_name = refl
numbered-key_number proxy_enabled = refl
numbered-key_number proxy_host = refl
numbered-key_number proxy_port = refl
numbered-key_number clipboard = refl

abbrev pub put : {A : Type 0} → (Key → Option A) → Key → Option A → Key → Option A
put table k v j = if key_number j == key_number k then v else table j

put-same : {A : Type 0} (table : Key → Option A) (k : Key) (v : Option A) → put table k v k ≡ v
put-same table k v = ground arith

put-other :
    {A : Type 0} (table : Key → Option A) (k j : Key) (v : Option A)
    → k ≢ j
    → put table k v j ≡ table j
put-other table k j v n = elim (Bool-cases (key_number j == key_number k)) [
  | inl same ↦ absurd (
      n (
        sym (numbered-key_number k)
        ∙ ap numbered (sym ((==_iff _ _).0 same))
        ∙ numbered-key_number j))
  | inr other ↦ rw other refl
]

abbrev pub sized : Option (List ℕ) → ℕ → Option (List ℕ)
sized none n = none
sized (some v) n = if leb (length v) n then some v else none

-- A text has a terminator.
abbrev pub sized_text : Option (List ℕ) → ℕ → Option (List ℕ)
sized_text none n = none
sized_text (some v) n = if ltb (length v) n then some v else none

sized_text_fits :
    (o : Option (List ℕ)) (v : List ℕ) (n : ℕ) → sized_text o n ≡ some v → length v < n
sized_text_fits none v n h = ground arith
sized_text_fits (some w) v n h = ground arith

-- Texts and 16-bit values share the tables.
abbrev pub tables : Nvs Tables
tables = record {
  open_readonly = λ f. true;
  open_readwrite = λ f. true;
  get_u8 = λ f k. f.bytes k;
  set_u8 = λ f k v. (record f { bytes = put f.bytes k (some v) }, true);
  get_u16 = λ f k. f.bytes k;
  set_u16 = λ f k v. (record f { bytes = put f.bytes k (some v) }, true);
  get_str = λ f k n. sized_text (f.blobs k) n;
  set_str = λ f k v. (record f { blobs = put f.blobs k (some v) }, true);
  get_blob = λ f k n. sized (f.blobs k) n;
  set_blob = λ f k v. (record f { blobs = put f.blobs k (some v) }, true);
  erase_key = λ f k. (record { bytes = put f.bytes k none; blobs = put f.blobs k none }, true);
  commit = λ f. (f, true);
}

pub tables-laws : NvsLaws tables
tables-laws = record {
  readable = λ f h. refl;
  readable_set_u8 = λ f k v h. refl;
  readable_set_blob = λ f k v h. refl;
  readable_set_str = λ f k v h. refl;
  readable_erase = λ f k h. refl;
  readable_commit = λ f h. refl;
  get_u8-set_u8 = λ f k v h. put-same f.bytes k (some v);
  get_u8-set_blob = λ f k j v. refl;
  get_u8-erase_key = λ f k j n. sym (put-other f.bytes k j none n);
  get_u8-commit = λ f k. refl;
  get_blob-set_blob =
      λ f k v n h fits. ap (λ o. sized o n) (put-same f.blobs k (some v)) ∙ (ground arith);
  get_blob-commit = λ f k n. refl;
  get_str-set_str =
      λ f k v n h fits. ap (λ o. sized_text o n) (put-same f.blobs k (some v)) ∙ (ground arith);
  get_str-commit = λ f k n. refl;
  get_str_fits = λ f k v n h. sized_text_fits (f.blobs k) v n h;
}

abbrev pub blank : Tables
blank = record { bytes = λ k. none; blobs = λ k. none }

abbrev pub home : WifiNetwork
home = record { ssid = codes "home"; pass = codes "pw"; hidden = false }

pub home-IsNetwork : IsNetwork home
home-IsNetwork = (
  (omega arith, (omega arith, (omega arith, (omega arith, (omega arith, tt))))),
  (omega arith, (omega arith, (omega arith, tt))),
)

pub saved : (nvs_storage_save_networks tables blank (home ∷ [])).1 ≡ true
unfolding nvs_storage_save_networks save_blob storage_set_u8 storage_set_blob write_with
    commit_and_close
saved = refl

load-save_networks_example :
    nvs_storage_load_networks tables (nvs_storage_save_networks tables blank (home ∷ [])).0 [] 6
    ≡ take 6 (take 6 (home ∷ []))
load-save_networks_example =
    load-save_networks tables tables-laws blank (home ∷ []) [] 6 (home-IsNetwork, tt) saved

added :
    added_network (codes "cafe") (codes "x") true (home ∷ [])
    ≡ some (home ∷ record { ssid = codes "cafe"; pass = codes "x"; hidden = true } ∷ [])
unfolding added_network update_network strcmp_eq
added = refl

added_network-distinct_example :
    (length (home ∷ record { ssid = codes "cafe"; pass = codes "x"; hidden = true } ∷ []) ≤ 6)
    × ((j : List ℕ)
        → count_ssid j (home ∷ record { ssid = codes "cafe"; pass = codes "x"; hidden = true } ∷ [])
          ≤ 1)
added_network-distinct_example =
    added_network-distinct (codes "cafe") (codes "x") true (home ∷ []) _ (omega arith) (omega arith)
      (λ j. ground arith) added

abbrev long_ssid : List ℕ
long_ssid = replicate 33 b'a'

replicated : (n : ℕ) → All (λ (c : ℕ). c ≢ 0) (replicate n b'a')
replicated zero = tt
replicated (suc n) = (omega arith, replicated n)
