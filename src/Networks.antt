-- ===== src/Networks.antt =====
-- main/nvs_storage.c and main/nvs_storage.h: the saved Wi-Fi networks, a count and one blob in NVS.
pub mod Layout
pub mod RoundTrip
pub mod Edit
use satura_bridge.Prelude.{
  Bool, List, [], c_string, drop, get_or, if◌then◌else◌, length, min, none, not, replicate, some,
  suc, take, zero, ℕ, ◌&&◌, ◌*◌, ◌++◌, ◌-◌, ◌==◌, ◌∷◌, Option, false, leb, negsuc, pos, remove_at,
  strcmp_eq, ℤ,
}
use satura_bridge.Storage.{
  Nvs, net_count, net_blob, storage_get_u8, storage_set_u8, storage_get_blob, storage_set_blob,
  storage_erase_key,
}

-- The texts are the C strings in the arrays `ssid[33]` and `pass[64]`.
pub record WifiNetwork : Type 0 where
  pub ssid : List ℕ
  pub pass : List ℕ
  pub hidden : Bool

abbrev pub wifi_max_saved_networks : ℕ
wifi_max_saved_networks = 6

-- `sizeof(wifi_network_t)`: 33 + 64 + 1 bytes, none of them padding.
abbrev pub network_size : ℕ
network_size = 98

-- A `char` array of `n` bytes that `strncpy` filled: the text and zeros.
unfoldable pub pad : ℕ → List ℕ → List ℕ
pad n s = take n (s ++ replicate (n - length s) 0)

-- The memory of one network, and of an array of them.
unfoldable pub encode_network : WifiNetwork → List ℕ
encode_network n = pad 33 n.ssid ++ (pad 64 n.pass ++ (if n.hidden then 1 else 0) ∷ [])

unfoldable pub encode_networks : List WifiNetwork → List ℕ
encode_networks [] = []
encode_networks (n ∷ ns) = encode_network n ++ encode_networks ns

unfoldable pub decode_network : List ℕ → WifiNetwork
decode_network bytes = record {
  ssid = c_string (take 33 bytes);
  pass = c_string (take 64 (drop 33 bytes));
  hidden = not (get_or (drop 97 bytes) 0 0 == 0);
}

unfoldable pub decode_networks : ℕ → List ℕ → List WifiNetwork
decode_networks zero bytes = []
decode_networks (suc n) bytes = decode_network bytes ∷ decode_networks n (drop 98 bytes)

-- `strncpy(dst, src, n - 1); dst[n - 1] = 0` into an array of `n` bytes.
abbrev pub copy_text : ℕ → List ℕ → List ℕ
copy_text n src = take (n - 1) src

module _ {F : Type 0} (nvs : Nvs F) where
  -- The rest of the load, once the count is known and cut to the array. `stack` is what the
  -- uninitialised array `full` holds; a blob that is shorter than asked for leaves the rest as it is.
  unfoldable pub load_counted : F → List ℕ → ℕ → ℕ → List WifiNetwork
  load_counted f stack max_count count =
      if count == 0 then [] else elim (storage_get_blob nvs f net_blob (network_size * count)) [
        | none ↦ []
        | some bytes ↦ decode_networks (min count max_count) (bytes ++ drop (length bytes) stack)
      ]

  unfoldable pub nvs_storage_load_networks : F → List ℕ → ℕ → List WifiNetwork
  nvs_storage_load_networks f stack max_count = elim (storage_get_u8 nvs f net_count) [
    | none ↦ []
    | some stored ↦ load_counted f stack max_count (min stored wifi_max_saved_networks)
  ]

  -- The blob after the count: an empty list erases it, and its failure is not reported.
  unfoldable pub save_blob : F × Bool → List WifiNetwork → F × Bool
  save_blob (f, ok) [] = ((storage_erase_key nvs f net_blob).0, ok)
  save_blob (f, ok) (n ∷ ns) =
      let (f', written) = storage_set_blob nvs f net_blob (encode_networks (n ∷ ns)) in
      (f', written && ok)

  unfoldable pub nvs_storage_save_networks : F → List WifiNetwork → F × Bool
  nvs_storage_save_networks f networks =
      let kept = take wifi_max_saved_networks networks in
      save_blob (storage_set_u8 nvs f net_count (length kept)) kept

-- Replace the first entry with this SSID.
unfoldable pub update_network :
    List ℕ → List ℕ → Bool → List WifiNetwork → Option (List WifiNetwork)
update_network ssid pass hidden [] = none
update_network ssid pass hidden (n ∷ ns) =
    if strcmp_eq n.ssid ssid
    then some (record n { pass = copy_text 64 pass; hidden = hidden } ∷ ns)
    else elim (update_network ssid pass hidden ns) [ some ms ↦ some (n ∷ ms) | none ↦ none ]

-- The list that `nvs_storage_add_network` saves; `none` where it is full.
unfoldable pub added_network : List ℕ → List ℕ → Bool → List WifiNetwork → Option (List WifiNetwork)
unfolding update_network
added_network ssid pass hidden ns = elim (update_network ssid pass hidden ns) [
  | some ms ↦ some ms
  | none ↦
      if leb wifi_max_saved_networks (length ns)
      then none
      else some (
          ns ++ record { ssid = copy_text 33 ssid; pass = copy_text 64 pass; hidden = hidden } ∷ [])
]

-- The list that `nvs_storage_remove_network` saves; `none` where the index is out of range.
unfoldable pub removed_network : ℤ → List WifiNetwork → Option (List WifiNetwork)
removed_network (negsuc n) ns = none
removed_network (pos i) ns = if leb (length ns) i then none else some (remove_at i ns)

module _ {F : Type 0} (nvs : Nvs F) where
  unfoldable pub save_edited : F → Option (List WifiNetwork) → F × Bool
  save_edited f none = (f, false)
  save_edited f (some ns) = nvs_storage_save_networks nvs f ns

  unfoldable pub nvs_storage_add_network : F → List ℕ → List ℕ → List ℕ → Bool → F × Bool
  unfolding save_edited added_network
  nvs_storage_add_network f stack ssid pass hidden =
      save_edited f (added_network ssid pass hidden (nvs_storage_load_networks nvs f stack 6))

  unfoldable pub nvs_storage_remove_network : F → List ℕ → ℤ → F × Bool
  unfolding save_edited removed_network
  nvs_storage_remove_network f stack index =
      save_edited f (removed_network index (nvs_storage_load_networks nvs f stack 6))

  unfoldable pub nvs_storage_clear_networks : F → F
  nvs_storage_clear_networks f =
      (storage_erase_key nvs (storage_erase_key nvs f net_count).0 net_blob).0
