-- ===== src/Networks/Layout.antt =====
-- The memory image of the saved networks is read back as the networks.
use satura_bridge.Networks.{
  WifiNetwork, pad, encode_network, encode_networks, decode_network, decode_networks,
}
use satura_bridge.Prelude.{
  All, List, [], arith, c_string, drop, drop-append_left, length, length-append, length-replicate,
  length-take, refl, replicate, subst, suc, take, take-all, take-append_left, zero, ℕ, ◌++◌, ◌-◌,
  ◌<◌, ◌∷◌, ◌≡◌, ◌≢◌, ap, if◌then◌else◌, Bool, append_assoc, drop-drop, false, not, true, ◌*◌, ◌==◌,
  ◌≤◌,
}

abbrev pub IsText : ℕ → List ℕ → Type 0
IsText n s = (length s < n) × All (λ c. c ≢ 0) s

-- The texts fit their arrays with a NUL behind them.
abbrev pub IsNetwork : WifiNetwork → Type 0
IsNetwork n = IsText 33 n.ssid × IsText 64 n.pass

c_string-zeros : (s t : List ℕ) → All (λ c. c ≢ 0) s → c_string (s ++ 0 ∷ t) ≡ s
unfolding c_string
c_string-zeros [] t h = refl
c_string-zeros (c ∷ s) t h = ground (arith, c_string-zeros s t)

length-pad : (n : ℕ) (s : List ℕ) → length (pad n s) ≡ n
unfolding pad
length-pad n s = omega (
  arith,
  length-take n (s ++ replicate (n - length s) 0),
  length-append s (replicate (n - length s) 0),
  length-replicate {0} {A = ℕ} (n - length s) 0,
)

c_string-replicate :
    (s : List ℕ) (k : ℕ) → 0 < k → All (λ c. c ≢ 0) s → c_string (s ++ replicate k 0) ≡ s
c_string-replicate s zero p h = absurd (omega arith)
c_string-replicate s (suc k) p h = c_string-zeros s (replicate k 0) h

c_string-pad : (n : ℕ) (s : List ℕ) → IsText n s → c_string (pad n s) ≡ s
unfolding pad
c_string-pad n s h =
    rw
      (take-all n (s ++ replicate (n - length s) 0) (
        omega (
          arith,
          length-append s (replicate (n - length s) 0),
          length-replicate {0} {A = ℕ} (n - length s) 0,
        )))
      (c_string-replicate s (n - length s) (omega (arith, h.0)) h.1)

take-pad : (n : ℕ) (s t : List ℕ) → take n (pad n s ++ t) ≡ pad n s
take-pad n s t =
    subst (λ k. take k (pad n s ++ t) ≡ pad n s) (length-pad n s) (take-append_left (pad n s) t)

drop-pad : (n : ℕ) (s t : List ℕ) → drop n (pad n s ++ t) ≡ t
drop-pad n s t =
    subst (λ k. drop k (pad n s ++ t) ≡ t) (length-pad n s) (drop-append_left (pad n s) t)

length-encode_network : (n : WifiNetwork) → length (encode_network n) ≡ 98
unfolding encode_network
length-encode_network n = omega (
  arith,
  length-append (pad 33 n.ssid) (pad 64 n.pass ++ (if n.hidden then 1 else 0) ∷ []),
  length-append (pad 64 n.pass) ((if n.hidden then 1 else 0) ∷ []),
  length-pad 33 n.ssid,
  length-pad 64 n.pass,
)

pub length-encode_networks : (ns : List WifiNetwork) → length (encode_networks ns) ≡ 98 * length ns
unfolding encode_networks
length-encode_networks [] = refl
length-encode_networks (n ∷ ns) = omega (
  arith,
  length-append (encode_network n) (encode_networks ns),
  length-encode_network n,
  length-encode_networks ns,
)

-- The three parts of a record's memory, read one by one.
decode-encode_network :
    (n : WifiNetwork) (rest : List ℕ) → IsNetwork n → decode_network (encode_network n ++ rest) ≡ n
unfolding decode_network encode_network
decode-encode_network n rest h =
    rw
      (
        append_assoc (pad 33 n.ssid) (pad 64 n.pass ++ flag) rest,
        append_assoc (pad 64 n.pass) flag rest,
        take-pad 33 n.ssid (pad 64 n.pass ++ (flag ++ rest)),
        drop-drop 33 64 (pad 33 n.ssid ++ (pad 64 n.pass ++ (flag ++ rest))),
        drop-pad 33 n.ssid (pad 64 n.pass ++ (flag ++ rest)),
        take-pad 64 n.pass (flag ++ rest),
        drop-pad 64 n.pass (flag ++ rest),
        c_string-pad 33 n.ssid h.0,
        c_string-pad 64 n.pass h.1,
      )
      (same n.hidden)
  where
    flag : List ℕ
    flag = (if n.hidden then 1 else 0) ∷ []

    same :
        (b : Bool)
        → let m : WifiNetwork = record {
          ssid = n.ssid;
          pass = n.pass;
          hidden = not ((if b then 1 else 0) == 0);
        } in
          m ≡ record n { hidden = b }
    same true = refl
    same false = refl

drop-encode_network : (n : WifiNetwork) (rest : List ℕ) → drop 98 (encode_network n ++ rest) ≡ rest
drop-encode_network n rest =
    subst (λ k. drop k (encode_network n ++ rest) ≡ rest) (length-encode_network n)
      (drop-append_left (encode_network n) rest)

-- Reading the first `k` records of the memory of an array gives its first `k` networks, whatever
-- stands behind the array.
pub decode-encode_networks :
    (k : ℕ) (ns : List WifiNetwork) (rest : List ℕ)
    → All IsNetwork ns
    → k ≤ length ns
    → decode_networks k (encode_networks ns ++ rest) ≡ take k ns
unfolding encode_networks decode_networks
decode-encode_networks zero ns rest h le = refl
decode-encode_networks (suc k) [] rest h le = absurd (omega arith)
decode-encode_networks (suc k) (n ∷ ns) rest h le =
    rw
      (
        append_assoc (encode_network n) (encode_networks ns) rest,
        decode-encode_network n (encode_networks ns ++ rest) h.0,
        drop-encode_network n (encode_networks ns ++ rest),
      )
      (ap (◌∷◌ n) (decode-encode_networks k ns rest h.1 (omega arith)))
