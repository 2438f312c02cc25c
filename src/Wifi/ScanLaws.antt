-- ===== src/Wifi/ScanLaws.antt =====
-- What a scan leaves in the table of results.
-- The signal that a table shows for an SSID.
use mathlib.Core.Path.{ap as path_ap}
use satura_bridge.Networks.{WifiNetwork}
use satura_bridge.Wifi.Scan.{
  merge_duplicate, store_record, is_saved, store_records, run_blocking_scan,
}
use satura_bridge.Wifi.State.{ScanResult, ApRecord, NetworkStore, Wifi, records}
use satura_bridge.Prelude.{
  Bool-cases, List, Option, Option-cases, [], ap, arith, false, if◌then◌else◌, inl, inr, leb,
  leb→le, length, length-append, ltb, none, refl, some, strcmp_eq, strcmp_eq_iff, take, take-all, ℕ,
  ◌++◌, ◌+◌, ◌<◌, ◌∷◌, ◌≡◌, ◌≤◌, All, ◌∙◌,
}

abbrev pub signal : List ℕ → List ScanResult → Option ℕ
signal ssid [] = none
signal ssid (r ∷ rs) = if strcmp_eq r.ssid ssid then some r.rssi else signal ssid rs

abbrev pub stronger : Option ℕ → ℕ → ℕ
stronger none rssi = rssi
stronger (some best) rssi = if ltb best rssi then rssi else best

-- The strongest signal of an SSID among the driver's records, from the best so far.
abbrev pub strongest : List ℕ → Option ℕ → List ApRecord → Option ℕ
strongest ssid best [] = best
strongest ssid best (ap ∷ aps) =
    strongest ssid (if strcmp_eq ap.ssid ssid then some (stronger best ap.rssi) else best) aps

abbrev pub count_result : List ℕ → List ScanResult → ℕ
count_result ssid [] = 0
count_result ssid (r ∷ rs) = (if strcmp_eq r.ssid ssid then 1 else 0) + count_result ssid rs

count_result-append :
    (s : List ℕ) (xs ys : List ScanResult)
    → count_result s (xs ++ ys) ≡ count_result s xs + count_result s ys
count_result-append s [] ys = omega arith
count_result-append s (x ∷ xs) ys = omega (arith, count_result-append s xs ys)

signal-append :
    (s : List ℕ) (xs ys : List ScanResult)
    → signal s (xs ++ ys) ≡ elim (signal s xs) [ some v ↦ some v | none ↦ signal s ys ]
signal-append s [] ys = refl
signal-append s (x ∷ xs) ys = ground (arith, signal-append s xs ys)

-- What a merge does, and when there is none.
record IsMerged (ssid : List ℕ) (rssi : ℕ) (rs ms : List ScanResult) : Type 0 where
  same_length : length ms ≡ length rs
  same_count : (j : List ℕ) → count_result j ms ≡ count_result j rs
  same_signal : (j : List ℕ) → strcmp_eq ssid j ≡ false → signal j ms ≡ signal j rs
  merged_signal : signal ssid ms ≡ some (stronger (signal ssid rs) rssi)

merge_duplicate-IsMerged :
    (ssid : List ℕ) (rssi : ℕ) (rs ms : List ScanResult)
    → merge_duplicate ssid rssi rs ≡ some ms
    → IsMerged ssid rssi rs ms
unfolding merge_duplicate
merge_duplicate-IsMerged ssid rssi [] ms h = cc
merge_duplicate-IsMerged ssid rssi (r ∷ rs) ms h =
    elim (Option-cases (merge_duplicate ssid rssi rs)) [
      | inl e ↦ record {
        same_length = ground arith;
        same_count = λ j. ground arith;
        same_signal = λ j ne.
            ground (arith, strcmp_eq_iff r.ssid ssid, strcmp_eq_iff r.ssid j, strcmp_eq_iff ssid j);
        merged_signal = ground (arith, strcmp_eq_iff r.ssid ssid);
      }
      | inr (ks, e) ↦
          let ih = merge_duplicate-IsMerged ssid rssi rs ks e in
          record {
            same_length = ground (arith, ih.same_length);
            same_count = λ j. ground (arith, ih.same_count j);
            same_signal = λ j ne. ground (
              arith,
              ih.same_signal j ne,
              strcmp_eq_iff r.ssid ssid,
              strcmp_eq_iff r.ssid j,
              strcmp_eq_iff ssid j,
            );
            merged_signal = ground (arith, ih.merged_signal, strcmp_eq_iff r.ssid ssid);
          }
    ]

merge_duplicate-none :
    (ssid : List ℕ) (rssi : ℕ) (rs : List ScanResult)
    → merge_duplicate ssid rssi rs ≡ none
    → (signal ssid rs ≡ none) × (count_result ssid rs ≡ 0)
unfolding merge_duplicate
merge_duplicate-none ssid rssi [] h = (refl, refl)
merge_duplicate-none ssid rssi (r ∷ rs) h = elim (Option-cases (merge_duplicate ssid rssi rs)) [
  | inl e ↦ ground (arith, merge_duplicate-none ssid rssi rs e)
  | inr (ks, e) ↦ ground arith
]

-- One record, stored in a table that has room for the next.
record IsStored (rs : List ScanResult) (ap : ApRecord) (ms : List ScanResult) : Type 0 where
  grown : length rs ≤ length ms
  bounded : length rs ≤ 20 → length ms ≤ 20
  unique : ((j : List ℕ) → count_result j rs ≤ 1) → (j : List ℕ) → count_result j ms ≤ 1
  shown :
      length rs < 20
      → (j : List ℕ)
      → signal j ms
        ≡ (if strcmp_eq ap.ssid j then some (stronger (signal j rs) ap.rssi) else signal j rs)

store_record-IsStored :
    (saved : List WifiNetwork) (rs : List ScanResult) (ap : ApRecord)
    → length ap.ssid ≤ 32
    → IsStored rs ap (store_record saved rs ap)
unfolding store_record
store_record-IsStored saved rs ap fits = elim (Bool-cases (leb 20 (length rs))) [
  | inl full ↦ rw full (record {
    grown = omega arith;
    bounded = λ h. h;
    unique = λ h. h;
    shown = λ room. absurd (omega (arith, leb→le 20 (length rs) full));
  })
  | inr room ↦
      rw (room, store_record)
        (elim (Option-cases (merge_duplicate ap.ssid ap.rssi rs)) [
          | inr (ms, e) ↦
              let m = merge_duplicate-IsMerged ap.ssid ap.rssi rs ms e in
              rw e (record {
                grown = omega (arith, m.same_length);
                bounded = λ h. omega (arith, m.same_length);
                unique = λ h j. omega (arith, m.same_count j, h j);
                shown = λ h j.
                    ground (arith, m.same_signal j, m.merged_signal, strcmp_eq_iff ap.ssid j);
              })
          | inl e ↦
              let gone = merge_duplicate-none ap.ssid ap.rssi rs e in
              let fresh : ScanResult = record {
                ssid = take 32 ap.ssid;
                rssi = ap.rssi;
                saved = is_saved ap.ssid saved;
              } in
              rw e (record {
                grown = omega (arith, length-append rs (fresh ∷ []));
                bounded = λ h. ground (arith, length-append rs (fresh ∷ []), room);
                unique = λ h j. ground (
                  arith,
                  h j,
                  gone,
                  take-all 32 ap.ssid fits,
                  strcmp_eq_iff ap.ssid j,
                  count_result-append j rs (fresh ∷ []),
                );
                shown = λ h j. ground (
                  arith,
                  gone,
                  take-all 32 ap.ssid fits,
                  strcmp_eq_iff ap.ssid j,
                  signal-append j rs (fresh ∷ []),
                );
              })
        ])
]

abbrev pub FitsArray : ApRecord → Type 0
FitsArray ap = length ap.ssid ≤ 32

store_records-length :
    (saved : List WifiNetwork) (rs : List ScanResult) (aps : List ApRecord)
    → All FitsArray aps
    → (length rs ≤ length (store_records saved rs aps))
      × (length rs ≤ 20 → length (store_records saved rs aps) ≤ 20)
unfolding store_records
store_records-length saved rs [] h = (omega arith, λ le. le)
store_records-length saved rs (ap ∷ aps) h =
    let one = store_record-IsStored saved rs ap h.0 in
    let rest = store_records-length saved (store_record saved rs ap) aps h.1 in
    (omega (arith, one.grown, rest.0), λ le. rest.1 (one.bounded le))

store_records_unique :
    (saved : List WifiNetwork) (rs : List ScanResult) (aps : List ApRecord)
    → All FitsArray aps
    → ((j : List ℕ) → count_result j rs ≤ 1)
    → (j : List ℕ) → count_result j (store_records saved rs aps) ≤ 1
unfolding store_records
store_records_unique saved rs [] h u = u
store_records_unique saved rs (ap ∷ aps) h u =
    store_records_unique saved (store_record saved rs ap) aps h.1
      ((store_record-IsStored saved rs ap h.0).unique u)

signal-store_records :
    (saved : List WifiNetwork) (rs : List ScanResult) (aps : List ApRecord) (j : List ℕ)
    → All FitsArray aps
    → length (store_records saved rs aps) < 20
    → signal j (store_records saved rs aps) ≡ strongest j (signal j rs) aps
unfolding store_records
signal-store_records saved rs [] j h room = refl
signal-store_records saved rs (ap ∷ aps) j h room =
    let one = store_record-IsStored saved rs ap h.0 in
    let rest = store_records-length saved (store_record saved rs ap) aps h.1 in
    signal-store_records saved (store_record saved rs ap) aps j h.1 room
    ∙ path_ap (λ b. strongest j b aps) (one.shown (omega (arith, one.grown, rest.0)) j)

-- A successful scan whose records hold SSIDs of at most 32 bytes ends with the flag cleared and at most
-- twenty results, with no SSID twice.
pub run_blocking_scan_unique :
    {S : Type 0} (store : NetworkStore S) (w : Wifi S) (aps : List ApRecord)
    → All FitsArray (take 32 aps)
    → let t = run_blocking_scan store w (records aps) in
      (t.scan_in_progress ≡ false)
      × (length t.scan_results ≤ 20)
      × ((j : List ℕ) → count_result j t.scan_results ≤ 1)
unfolding run_blocking_scan
run_blocking_scan_unique store w aps h = (
  refl,
  (store_records-length (store.load w.flash 6) [] (take 32 aps) h).1 (omega arith),
  store_records_unique (store.load w.flash 6) [] (take 32 aps) h (λ j. omega arith),
)

-- Where a successful scan of records whose SSIDs have at most 32 bytes leaves the table with room, the table shows for every SSID the strongest signal
-- among the first 32 records, and nothing for an SSID that has none.
pub signal-run_blocking_scan :
    {S : Type 0} (store : NetworkStore S) (w : Wifi S) (aps : List ApRecord) (j : List ℕ)
    → All FitsArray (take 32 aps)
    → length (run_blocking_scan store w (records aps)).scan_results < 20
    → signal j (run_blocking_scan store w (records aps)).scan_results
      ≡ strongest j none (take 32 aps)
unfolding run_blocking_scan
signal-run_blocking_scan store w aps j h room =
    signal-store_records (store.load w.flash 6) [] (take 32 aps) j h room
