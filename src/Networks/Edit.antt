-- ===== src/Networks/Edit.antt =====
-- What adding and removing a network does to the list, and the bounds of what is loaded.
-- How many entries carry an SSID.
use satura_bridge.Storage.{Nvs, storage_get_u8, net_count, storage_get_blob, net_blob}
use satura_bridge.Networks.Layout.{IsNetwork}
use satura_bridge.Networks.{
  WifiNetwork, update_network, added_network, decode_networks, nvs_storage_load_networks,
  decode_network, load_counted, Nvs, storage_get_u8, net_count, storage_get_blob, net_blob,
}
use satura_bridge.Prelude.{
  All, All-append, All-take, Bool, Bool-cases, List, Option-cases, [], ap, arith, drop,
  if◌then◌else◌, inl, inr, length, length-append, length-take, min, none, refl, some, strcmp_eq,
  strcmp_eq_iff, suc, sym, take, take-all, take-nil, zero, ℕ, ◌++◌, ◌+◌, ◌<◌, ◌∷◌, ◌≡◌, ◌≢◌, ◌≤◌,
  ◌*◌,
}

abbrev pub count_ssid : List ℕ → List WifiNetwork → ℕ
count_ssid s [] = 0
count_ssid s (n ∷ ns) = (if strcmp_eq n.ssid s then 1 else 0) + count_ssid s ns

count_ssid-append :
    (s : List ℕ) (xs ys : List WifiNetwork)
    → count_ssid s (xs ++ ys) ≡ count_ssid s xs + count_ssid s ys
count_ssid-append s [] ys = omega arith
count_ssid-append s (x ∷ xs) ys = omega (arith, count_ssid-append s xs ys)

-- An update in place keeps every SSID where it is.
count_ssid-update :
    (ssid pass j : List ℕ) (hidden : Bool) (ns ms : List WifiNetwork)
    → update_network ssid pass hidden ns ≡ some ms
    → count_ssid j ms ≡ count_ssid j ns
unfolding update_network
count_ssid-update ssid pass j hidden [] ms h = cc
count_ssid-update ssid pass j hidden (n ∷ ns) ms h =
    elim (Option-cases (update_network ssid pass hidden ns)) [
      | inl e ↦ ground arith
      | inr (ks, e) ↦ ground (arith, count_ssid-update ssid pass j hidden ns ks e)
    ]

length-update :
    (ssid pass : List ℕ) (hidden : Bool) (ns ms : List WifiNetwork)
    → update_network ssid pass hidden ns ≡ some ms
    → length ms ≡ length ns
unfolding update_network
length-update ssid pass hidden [] ms h = cc
length-update ssid pass hidden (n ∷ ns) ms h =
    elim (Option-cases (update_network ssid pass hidden ns)) [
      | inl e ↦ ground arith
      | inr (ks, e) ↦ ground (arith, length-update ssid pass hidden ns ks e)
    ]

count_ssid-update_none :
    (ssid pass : List ℕ) (hidden : Bool) (ns : List WifiNetwork)
    → update_network ssid pass hidden ns ≡ none
    → count_ssid ssid ns ≡ 0
unfolding update_network
count_ssid-update_none ssid pass hidden [] h = refl
count_ssid-update_none ssid pass hidden (n ∷ ns) h =
    elim (Option-cases (update_network ssid pass hidden ns)) [
      | inl e ↦ ground (arith, count_ssid-update_none ssid pass hidden ns e)
      | inr (ks, e) ↦ ground arith
    ]

-- Adding a network whose SSID fits the array to a list of at most six distinct ones, if it is not refused,
-- gives a list of at most six entries with distinct SSIDs.
pub added_network-distinct :
    (ssid pass : List ℕ) (hidden : Bool) (ns ms : List WifiNetwork)
    → length ssid ≤ 32
    → length ns ≤ 6
    → ((j : List ℕ) → count_ssid j ns ≤ 1)
    → added_network ssid pass hidden ns ≡ some ms
    → (length ms ≤ 6) × ((j : List ℕ) → count_ssid j ms ≤ 1)
unfolding added_network
added_network-distinct ssid pass hidden ns ms fits le distinct h =
    elim (Option-cases (update_network ssid pass hidden ns)) [
      | inr (ks, e) ↦ (
        ground (arith, length-update ssid pass hidden ns ks e),
        λ j. ground (arith, distinct j, count_ssid-update ssid pass j hidden ns ks e),
      )
      | inl e ↦ (
        ground (arith, length-append ns (fresh ∷ [])),
        λ j. ground (
          arith,
          distinct j,
          strcmp_eq_iff ssid j,
          take-all 32 ssid fits,
          count_ssid-append j ns (fresh ∷ []),
          count_ssid-update_none ssid pass hidden ns e,
        ),
      )
    ]
  where
    fresh : WifiNetwork
    fresh = record { ssid = take 32 ssid; pass = take 63 pass; hidden = hidden }

-- An SSID that is longer than the array can hold never matches a stored one.
update_network-long :
    (ssid pass : List ℕ) (hidden : Bool) (ns : List WifiNetwork)
    → 32 < length ssid
    → All IsNetwork ns
    → update_network ssid pass hidden ns ≡ none
unfolding update_network
update_network-long ssid pass hidden [] long h = refl
update_network-long ssid pass hidden (n ∷ ns) long h = elim (Bool-cases (strcmp_eq n.ssid ssid)) [
  | inl same ↦ absurd (omega (arith, ap length ((strcmp_eq_iff n.ssid ssid).0 same), h.0.0.0))
  | inr other ↦ ground (arith, update_network-long ssid pass hidden ns long h.1)
]

-- Adding a network whose SSID is longer than 32 bytes twice to a list of fewer than five well formed
-- networks stores the shortened SSID twice, where SSID and password hold no NUL: the check for an SSID
-- that is there already compares the text before it is cut.
pub added_network-duplicate :
    (ssid pass : List ℕ) (hidden : Bool) (ns : List WifiNetwork)
    → 32 < length ssid
    → All (λ c. c ≢ 0) ssid
    → All (λ c. c ≢ 0) pass
    → length ns < 5
    → All IsNetwork ns
    → let fresh : WifiNetwork = record {
      ssid = take 32 ssid;
      pass = take 63 pass;
      hidden = hidden;
    } in
      (added_network ssid pass hidden ns ≡ some (ns ++ fresh ∷ []))
      × (added_network ssid pass hidden (ns ++ fresh ∷ [])
          ≡ some ((ns ++ fresh ∷ []) ++ fresh ∷ []))
unfolding added_network
added_network-duplicate ssid pass hidden ns long s p room h = (
  ground (arith, update_network-long ssid pass hidden ns long h),
  ground (
    arith,
    update_network-long ssid pass hidden (ns ++ fresh ∷ []) long
        (All-append IsNetwork ns (fresh ∷ []) h (fits, tt)),
    length-append ns (fresh ∷ []),
  ),
)
  where
    fresh : WifiNetwork
    fresh = record { ssid = take 32 ssid; pass = take 63 pass; hidden = hidden }

    fits : IsNetwork fresh
    fits = (
      (omega (arith, length-take 32 ssid), All-take (λ c. c ≢ 0) 32 ssid s),
      (omega (arith, length-take 63 pass), All-take (λ c. c ≢ 0) 63 pass p),
    )

length-decode_networks : (k : ℕ) (bytes : List ℕ) → length (decode_networks k bytes) ≡ k
unfolding decode_networks
length-decode_networks zero bytes = refl
length-decode_networks (suc k) bytes = ap suc (length-decode_networks k (drop 98 bytes))

take-decode_networks :
    (k m : ℕ) (bytes : List ℕ) → decode_networks (min k m) bytes ≡ take m (decode_networks k bytes)
unfolding decode_networks
take-decode_networks zero m bytes = rw (min-zero m) (sym (take-nil m))
  where
    min-zero : (m : ℕ) → min 0 m ≡ 0
    min-zero m = omega arith
take-decode_networks (suc k) zero bytes = rw (none-left k)
  where
    none-left : (k : ℕ) → min (suc k) 0 ≡ 0
    none-left k = omega arith
take-decode_networks (suc k) (suc m) bytes =
    rw (step k m) (ap (◌∷◌ (decode_network bytes)) (take-decode_networks k m (drop 98 bytes)))
  where
    step : (k m : ℕ) → min (suc k) (suc m) ≡ suc (min k m)
    step k m = omega arith

load_counted_bounds :
    {F : Type 0} (nvs : Nvs F) (f : F) (stack : List ℕ) (m k : ℕ)
    → k ≤ 6
    → (length (load_counted nvs f stack 6 k) ≤ 6)
      × (load_counted nvs f stack m k ≡ take m (load_counted nvs f stack 6 k))
unfolding load_counted
load_counted_bounds nvs f stack m k le =
    elim (Option-cases (storage_get_blob nvs f net_blob (98 * k))) [
      | inl e ↦ ground (arith, e, take-nil {A = WifiNetwork} m)
      | inr (bytes, e) ↦
          let all = bytes ++ drop (length bytes) stack in
          let whole : min k 6 ≡ k = omega arith in
          ground (
            arith,
            e,
            whole,
            take-nil {A = WifiNetwork} m,
            take-decode_networks k m all,
            length-decode_networks k all,
          )
    ]

-- Whatever the flash holds, a load returns at most six networks, and a load into a smaller array
-- returns the first ones of what a load of all six returns.
pub load_networks_bounds :
    {F : Type 0} (nvs : Nvs F) (f : F) (stack : List ℕ) (m : ℕ)
    → (length (nvs_storage_load_networks nvs f stack 6) ≤ 6)
      × (nvs_storage_load_networks nvs f stack m ≡ take m (nvs_storage_load_networks nvs f stack 6))
unfolding nvs_storage_load_networks
load_networks_bounds nvs f stack m = elim (Option-cases (storage_get_u8 nvs f net_count)) [
  | inl e ↦ ground (arith, take-nil {A = WifiNetwork} m)
  | inr (k, e) ↦ ground (arith, e, load_counted_bounds nvs f stack m (min k 6) (omega arith))
]
