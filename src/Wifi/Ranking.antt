-- ===== src/Wifi/Ranking.antt =====
-- Which networks become candidates, and in what order.
use satura_bridge.Networks.{WifiNetwork}
use satura_bridge.Wifi.Candidates.{
  shift_in, insertion_sort, best_rssi, select_candidates, build_candidate_list, as_candidate,
}
use satura_bridge.Wifi.State.{Candidate, ScanResult, NetworkStore, Wifi}
use satura_bridge.Prelude.{
  All, All-append, Bool-cases, List, [], append-nil, arith, inl, inr, ltb, refl, ℕ, ◌++◌, ◌∷◌, ◌≤◌,
  Bool, Option, Option-cases, ap, drop, false, if◌then◌else◌, length, length-append, length-drop,
  length-map, map, none, reverse, some, strcmp_eq, subst, suc, take, take-append_left, true, ◌+◌,
  ◌||◌, ◌≡◌, ◌⊎◌, sym,
}
use mathlib.Core.List.{
  Mem, Perm, Pairwise, Pairwise-cons, Pairwise-reverse, reverse_perm, reverse-cons, perm_middle,
  mem-cons, not-mem-nil,
}
use mathlib.Core.List.Perm
use mathlib.Core.Logic.Or
use native.Mathlib.Bridge.{le_prop}

-- The sorted part of the array, from its end: each signal is at most every later one.
abbrev Rising : List Candidate → Type 0
Rising [] = Unit
Rising (x ∷ xs) = All (λ y. x.rssi ≤ y.rssi) xs × Rising xs

All-shift_in :
    (n : ℕ) (key : Candidate) (xs : List Candidate)
    → n ≤ key.rssi
    → All (λ y. n ≤ y.rssi) xs
    → All (λ y. n ≤ y.rssi) (shift_in key xs)
unfolding shift_in
All-shift_in n key [] h a = (h, tt)
All-shift_in n key (x ∷ xs) h a = ground (arith, All-shift_in n key xs h a.1)

All-le_trans :
    (m n : ℕ) (xs : List Candidate) → m ≤ n → All (λ y. n ≤ y.rssi) xs → All (λ y. m ≤ y.rssi) xs
All-le_trans m n [] h a = tt
All-le_trans m n (x ∷ xs) h a = (omega (arith, a.0), All-le_trans m n xs h a.1)

shift_in-Rising : (key : Candidate) (xs : List Candidate) → Rising xs → Rising (shift_in key xs)
unfolding shift_in
shift_in-Rising key [] r = (tt, tt)
shift_in-Rising key (x ∷ xs) r = elim (Bool-cases (ltb x.rssi key.rssi)) [
  | inl up ↦ rw up (All-shift_in x.rssi key xs (ground arith) r.0, shift_in-Rising key xs r.1)
  | inr stay ↦ rw stay ((ground arith, All-le_trans key.rssi x.rssi xs (ground arith) r.0), r)
]

shift_in-perm : (key : Candidate) (xs : List Candidate) → Perm (shift_in key xs) (key ∷ xs)
unfolding shift_in
shift_in-perm key [] = Perm.refl _
shift_in-perm key (x ∷ xs) = elim (Bool-cases (ltb x.rssi key.rssi)) [
  | inl up ↦ rw up (Perm.trans (Perm.cons x (shift_in-perm key xs)) (Perm.swap key x xs))
  | inr stay ↦ rw stay (Perm.refl _)
]

insertion_sort-perm :
    (sorted rest : List Candidate) → Perm (insertion_sort sorted rest) (sorted ++ rest)
unfolding insertion_sort
insertion_sort-perm sorted [] = rw (append-nil sorted) (reverse_perm sorted)
insertion_sort-perm sorted (key ∷ rest) =
    Perm.trans (insertion_sort-perm (shift_in key sorted) rest) (
      Perm.trans (Perm.append (shift_in-perm key sorted) (Perm.refl rest))
        (Perm.symm (perm_middle sorted rest)))

abbrev pub IsRanked : List Candidate → Type 0
IsRanked = Pairwise (λ a b. b.rssi ≤ a.rssi)

le_of_mem :
    (n : ℕ) (xs : List Candidate) (y : Candidate) → All (λ x. n ≤ x.rssi) xs → Mem y xs → n ≤ y.rssi
le_of_mem n [] y h m = absurd (not-mem-nil m)
le_of_mem n (x ∷ xs) y h m = Or.elim le_prop (mem-cons.0 m) (λ e. rw e h.0) (le_of_mem n xs y h.1)

Rising-Pairwise : (xs : List Candidate) → Rising xs → Pairwise (λ a b. a.rssi ≤ b.rssi) xs
Rising-Pairwise [] r = Pairwise.nil
Rising-Pairwise (x ∷ xs) r =
    Pairwise-cons.1 ((λ y m. le_of_mem x.rssi xs y r.0 m), Rising-Pairwise xs r.1)

insertion_sort-IsRanked :
    (sorted rest : List Candidate) → Rising sorted → IsRanked (insertion_sort sorted rest)
unfolding insertion_sort
insertion_sort-IsRanked sorted [] r =
    (Pairwise-reverse {R = λ (a b : Candidate). b.rssi ≤ a.rssi} (λ a b. le_prop)).1
      (Rising-Pairwise sorted r)
insertion_sort-IsRanked sorted (key ∷ rest) r =
    insertion_sort-IsRanked (shift_in key sorted) rest (shift_in-Rising key sorted r)

-- Whether any scan result carries the SSID.
abbrev pub is_visible : List ℕ → List ScanResult → Bool
is_visible ssid [] = false
is_visible ssid (r ∷ rs) = strcmp_eq ssid r.ssid || is_visible ssid rs

-- The saved networks that are visible or hidden, in the order in which they were saved.
abbrev pub reachable : List ScanResult → List WifiNetwork → List WifiNetwork
reachable rs [] = []
reachable rs (n ∷ ns) =
    if is_visible n.ssid rs || n.hidden then n ∷ reachable rs ns else reachable rs ns

best_rssi-none :
    (ssid : List ℕ) (best : Option ℕ) (rs : List ScanResult)
    → best_rssi ssid best rs ≡ none
    → (is_visible ssid rs ≡ false) × (best ≡ none)
unfolding best_rssi
best_rssi-none ssid best [] h = (refl, h)
best_rssi-none ssid best (r ∷ rs) h = ground (
  arith,
  best_rssi-none ssid
      (if strcmp_eq ssid r.ssid
        then some (elim best [
          | none ↦ (if ltb 1 r.rssi then r.rssi else 1)
          | some b ↦ (if ltb b r.rssi then r.rssi else b)
        ])
        else best)
      rs h,
)

best_rssi-some :
    (ssid : List ℕ) (best : Option ℕ) (rs : List ScanResult) (v : ℕ)
    → best_rssi ssid best rs ≡ some v
    → (is_visible ssid rs ≡ true) ⊎ (best ≡ some v)
unfolding best_rssi
best_rssi-some ssid best [] v h = inr h
best_rssi-some ssid best (r ∷ rs) v h = elim (Bool-cases (strcmp_eq ssid r.ssid)) [
  | inl same ↦ inl (rw same refl)
  | inr other ↦ ground (arith, best_rssi-some ssid best rs v)
]

select_candidates-reachable :
    (rs : List ScanResult) (ns : List WifiNetwork)
    → map (λ c. c.network) (select_candidates rs ns) ≡ reachable rs ns
unfolding select_candidates as_candidate
select_candidates-reachable rs [] = refl
select_candidates-reachable rs (n ∷ ns) = elim (Option-cases (best_rssi n.ssid none rs)) [
  | inl gone ↦
      let hid = (best_rssi-none n.ssid none rs gone).0 in
      ground (arith, gone, hid, select_candidates-reachable rs ns)
  | inr (v, found) ↦ elim (best_rssi-some n.ssid none rs v found) [
    | inl seen ↦ ground (arith, found, seen, select_candidates-reachable rs ns)
    | inr e ↦ cc
  ]
]

length-reachable :
    (rs : List ScanResult) (ns : List WifiNetwork) → length (reachable rs ns) ≤ length ns
length-reachable rs [] = omega arith
length-reachable rs (n ∷ ns) = ground (arith, length-reachable rs ns)

length-select :
    (rs : List ScanResult) (ns : List WifiNetwork) → length (select_candidates rs ns) ≤ length ns
length-select rs ns = omega (
  arith,
  length-reachable rs ns,
  length-map (select_candidates rs ns) (λ c. c.network),
  ap length (select_candidates-reachable rs ns),
)

length-shift_in :
    (key : Candidate) (xs : List Candidate) → length (shift_in key xs) ≡ suc (length xs)
unfolding shift_in
length-shift_in key [] = refl
length-shift_in key (x ∷ xs) = ground (arith, length-shift_in key xs)

length-reverse_candidates : (xs : List Candidate) → length (reverse xs) ≡ length xs
length-reverse_candidates [] = refl
length-reverse_candidates (x ∷ xs) = omega (
  arith,
  ap length (reverse-cons x xs),
  length-append (reverse xs) (x ∷ []),
  length-reverse_candidates xs,
)

length-insertion_sort :
    (sorted rest : List Candidate)
    → length (insertion_sort sorted rest) ≡ length sorted + length rest
unfolding insertion_sort
length-insertion_sort sorted [] = omega (arith, length-reverse_candidates sorted)
length-insertion_sort sorted (key ∷ rest) =
    omega (arith, length-insertion_sort (shift_in key sorted) rest, length-shift_in key sorted)

-- The strongest signal under an SSID, and the lowest there is where no result carries it.
pub strongest : List ℕ → List ScanResult → ℕ
strongest ssid [] = 1
strongest ssid (r ∷ rs) =
    let later = strongest ssid rs in
    if strcmp_eq ssid r.ssid then (if ltb later r.rssi then r.rssi else later) else later

abbrev HasSignal : List ScanResult → Candidate → Type 0
HasSignal rs c = c.rssi ≡ strongest c.network.ssid rs

strongest-lowest : (ssid : List ℕ) (rs : List ScanResult) → 1 ≤ strongest ssid rs
unfolding strongest
strongest-lowest ssid [] = omega arith
strongest-lowest ssid (r ∷ rs) = ground (arith, strongest-lowest ssid rs)

best_rssi-strongest :
    (ssid : List ℕ) (rs : List ScanResult) (b : ℕ)
    → 1 ≤ b
    → best_rssi ssid (some b) rs ≡ some (if ltb b (strongest ssid rs) then strongest ssid rs else b)
unfolding best_rssi strongest
best_rssi-strongest ssid [] b low = ground arith
best_rssi-strongest ssid (r ∷ rs) b low = elim (Bool-cases (strcmp_eq ssid r.ssid)) [
  | inl same ↦
      let next = if ltb b r.rssi then r.rssi else b in
      rw (same, best_rssi-strongest ssid rs next (ground arith)) (ground arith)
  | inr other ↦ rw (other, best_rssi-strongest ssid rs b low) refl
]

best_rssi-first :
    (ssid : List ℕ) (rs : List ScanResult)
    → best_rssi ssid none rs ≡ (if is_visible ssid rs then some (strongest ssid rs) else none)
unfolding best_rssi strongest
best_rssi-first ssid [] = refl
best_rssi-first ssid (r ∷ rs) = elim (Bool-cases (strcmp_eq ssid r.ssid)) [
  | inl same ↦
      let next = if ltb 1 r.rssi then r.rssi else 1 in
      let floor = strongest-lowest ssid rs in
      rw (same, best_rssi-strongest ssid rs next (ground arith)) (ground arith)
  | inr other ↦ rw other (best_rssi-first ssid rs)
]

strongest_hidden :
    (ssid : List ℕ) (rs : List ScanResult) → is_visible ssid rs ≡ false → strongest ssid rs ≡ 1
unfolding strongest
strongest_hidden ssid [] h = refl
strongest_hidden ssid (r ∷ rs) h = ground (arith, strongest_hidden ssid rs)

select_candidates-HasSignal :
    (rs : List ScanResult) (ns : List WifiNetwork) → All (HasSignal rs) (select_candidates rs ns)
unfolding select_candidates as_candidate
select_candidates-HasSignal rs [] = tt
select_candidates-HasSignal rs (n ∷ ns) =
    let ih = select_candidates-HasSignal rs ns in
    elim (Bool-cases (is_visible n.ssid rs)) [
      | inl seen ↦ rw (best_rssi-first n.ssid rs, seen) (refl, ih)
      | inr unseen ↦
          let least = strongest_hidden n.ssid rs unseen in
          rw (best_rssi-first n.ssid rs, unseen)
            (elim (Bool-cases n.hidden) [
              | inl hid ↦ rw hid (sym least, ih)
              | inr shown ↦ rw shown ih
            ])
    ]

shift_in-All :
    (P : Candidate → Type 0) (key : Candidate) (xs : List Candidate)
    → P key
    → All P xs
    → All P (shift_in key xs)
unfolding shift_in
shift_in-All P key [] h a = (h, tt)
shift_in-All P key (x ∷ xs) h a = elim (Bool-cases (ltb x.rssi key.rssi)) [
  | inl up ↦ rw up (a.0, shift_in-All P key xs h a.1)
  | inr stay ↦ rw stay (h, a)
]

All-reverse : (P : Candidate → Type 0) (xs : List Candidate) → All P xs → All P (reverse xs)
All-reverse P [] a = tt
All-reverse P (x ∷ xs) a =
    rw (reverse-cons x xs) (All-append P (reverse xs) (x ∷ []) (All-reverse P xs a.1) (a.0, tt))

All-insertion_sort :
    (P : Candidate → Type 0) (sorted rest : List Candidate)
    → All P sorted
    → All P rest
    → All P (insertion_sort sorted rest)
unfolding insertion_sort
All-insertion_sort P sorted [] a b = All-reverse P sorted a
All-insertion_sort P sorted (key ∷ rest) a b =
    All-insertion_sort P (shift_in key sorted) rest (shift_in-All P key sorted b.0 a) b.1

-- The candidates are the saved networks that are visible or hidden, each as often as it was saved, with
-- the strongest signal of the scan, in the order of falling signal; there are at most six, the index is
-- reset, and the array keeps its size.
pub record IsBuilt {S : Type 0} (store : NetworkStore S) (w t : Wifi S) : Type 0 where
  pub ranked : IsRanked (take t.candidate_count t.candidate_list)
  pub chosen :
      Perm
        (map (λ c. c.network) (take t.candidate_count t.candidate_list))
        (reachable w.scan_results (store.load w.flash 6))
  pub signals :
      All
        (λ c. c.rssi ≡ strongest c.network.ssid w.scan_results)
        (take t.candidate_count t.candidate_list)
  pub at_most : t.candidate_count ≤ 6
  pub size : t.candidate_count ≡ length (reachable w.scan_results (store.load w.flash 6))
  pub restarted : t.candidate_index ≡ 0
  pub same_size : length t.candidate_list ≡ 6

-- In every state whose array has its six slots, building the candidate list selects the saved networks
-- that are visible or hidden, each with the strongest signal that the scan has for its SSID, or the lowest
-- one there is, in the order of falling signal, at most six, and resets the index.
pub build_candidate_list-IsBuilt :
    {S : Type 0} (store : NetworkStore S) (w : Wifi S)
    → length w.candidate_list ≡ 6
    → IsBuilt store w (build_candidate_list store w)
unfolding build_candidate_list
build_candidate_list-IsBuilt store w six = record {
  ranked =
      rw (take-append_left sorted (drop (length sorted) w.candidate_list))
        (insertion_sort-IsRanked [] picked tt);
  chosen = rw (take-append_left sorted (drop (length sorted) w.candidate_list)) (
      subst (Perm (map (λ c. c.network) sorted))
        (select_candidates-reachable w.scan_results (store.load w.flash 6))
        (Perm.map (λ c. c.network) (insertion_sort-perm [] picked)));
  signals = rw (take-append_left sorted (drop (length sorted) w.candidate_list)) (
      All-insertion_sort (HasSignal w.scan_results) [] picked tt
        (select_candidates-HasSignal w.scan_results (store.load w.flash 6)));
  at_most = few;
  size = omega (
    arith,
    length-insertion_sort [] picked,
    length-map picked (λ c. c.network),
    ap length (select_candidates-reachable w.scan_results (store.load w.flash 6)),
  );
  restarted = refl;
  same_size = omega (
    arith,
    six,
    few,
    length-append sorted (drop (length sorted) w.candidate_list),
    length-drop (length sorted) w.candidate_list,
  );
}
  where
    picked : List Candidate
    picked = select_candidates w.scan_results (store.load w.flash 6)

    sorted : List Candidate
    sorted = insertion_sort [] picked

    few : length sorted ≤ 6
    few = omega (
      arith,
      length-insertion_sort [] picked,
      length-select w.scan_results (store.load w.flash 6),
      store.load_bounds w.flash,
    )
