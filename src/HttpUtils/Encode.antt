-- ===== src/HttpUtils/Encode.antt =====
-- url_encode and url_decode are inverse, and both keep to their buffers.
use satura_bridge.Prelude.{
  ℕ, ◌+◌, ◌*◌, ◌/◌, ◌%◌, ◌≤◌, ◌<◌, ◌≡◌, refl, ap, true, none, some, List, [], ◌∷◌, ◌++◌, arith,
  length, All, length-append, lt→ltb, Bool-cases, inl, inr,
}
use satura_bridge.HttpUtils.{
  is_unreserved, hex_digit, hex_val, hex_pair, escape_value, plain_char, encode_char, encode_loop,
  url_encode, decode_loop, url_decode,
}

length-encode_char : (c : ℕ) → length (encode_char c) ≤ 3
unfolding encode_char
length-encode_char c = elim (Bool-cases (is_unreserved c)) [
  | inl e ↦ rw e (omega arith)
  | inr e ↦ rw e (omega arith)
]

encode_loop_bounds : (src : List ℕ) (w n : ℕ) → w < n → w + length (encode_loop src w n) < n
unfolding encode_loop
encode_loop_bounds [] w n h = omega arith
encode_loop_bounds (c ∷ p) w n h = ground (
  arith,
  length-encode_char c,
  length-append (encode_char c) (encode_loop p (w + length (encode_char c)) n),
  encode_loop_bounds p (w + length (encode_char c)) n,
)

-- For a buffer of at least one byte, the encoded text and its NUL fit into the buffer.
pub url_encode_bounds : (src : List ℕ) (n : ℕ) → 0 < n → length (url_encode src n) < n
unfolding url_encode
url_encode_bounds src n h = omega (arith, encode_loop_bounds src 0 n)

decode_loop_bounds : (src : List ℕ) (w n : ℕ) → w < n → w + length (decode_loop src w n) < n
unfolding decode_loop
decode_loop_bounds [] w n h = omega arith
decode_loop_bounds (c ∷ []) w n h = ground arith
decode_loop_bounds (c ∷ a ∷ []) w n h = ground (arith, decode_loop_bounds (a ∷ []) (w + 1) n)
decode_loop_bounds (c ∷ a ∷ b ∷ p) w n h =
    ground (arith, decode_loop_bounds p (w + 1) n, decode_loop_bounds (a ∷ b ∷ p) (w + 1) n)

-- For a buffer of at least one byte, the decoded text and its NUL fit into the buffer.
pub url_decode_bounds : (src : List ℕ) (n : ℕ) → 0 < n → length (url_decode src n) < n
unfolding url_decode
url_decode_bounds src n h = omega (arith, decode_loop_bounds src 0 n)

hex_val-hex_digit : (k : ℕ) → k < 16 → hex_val (hex_digit k) ≡ some k
unfolding hex_val hex_digit
hex_val-hex_digit k h = ground arith

escape_value-hex :
    (c : ℕ) → c < 256 → escape_value b'%' (hex_digit (c / 16)) (hex_digit (c % 16)) ≡ some c
unfolding escape_value
escape_value-hex c h =
    rw (hex_val-hex_digit (c / 16) (omega arith), hex_val-hex_digit (c % 16) (omega arith))
      (unfold hex_pair in ap some (omega arith))

unreserved_plain : (c : ℕ) → is_unreserved c ≡ true → plain_char c ≡ c
unfolding is_unreserved plain_char
unreserved_plain c h = ground arith

unreserved_no_escape : (c a b : ℕ) → is_unreserved c ≡ true → escape_value c a b ≡ none
unfolding is_unreserved escape_value
unreserved_no_escape c a b h = ground arith

-- An unreserved character is copied, whatever stands behind it.
decode_loop-unreserved :
    (c : ℕ) (s : List ℕ) (w n : ℕ)
    → is_unreserved c ≡ true
    → w + 1 < n
    → decode_loop (c ∷ s) w n ≡ c ∷ decode_loop s (w + 1) n
unfolding decode_loop
decode_loop-unreserved c [] w n u h = rw (lt→ltb (w + 1) n h, unreserved_plain c u)
decode_loop-unreserved c (a ∷ []) w n u h = rw (lt→ltb (w + 1) n h, unreserved_plain c u)
decode_loop-unreserved c (a ∷ b ∷ s) w n u h =
    ground (arith, lt→ltb (w + 1) n h, unreserved_no_escape c a b u, unreserved_plain c u)

decode_loop-encode_char :
    (c : ℕ) (s : List ℕ) (w n : ℕ)
    → c < 256
    → w + 1 < n
    → decode_loop (encode_char c ++ s) w n ≡ c ∷ decode_loop s (w + 1) n
unfolding encode_char decode_loop
decode_loop-encode_char c s w n b h = elim (Bool-cases (is_unreserved c)) [
  | inl e ↦ rw e (decode_loop-unreserved c s w n e h)
  | inr e ↦ rw e (ground (arith, escape_value-hex c b))
]

decode_loop-encode_loop :
    (src : List ℕ) (v n w m : ℕ)
    → All (λ c. c < 256) src
    → v + 3 * length src + 1 < n
    → w + length src < m
    → decode_loop (encode_loop src v n) w m ≡ src
unfolding encode_loop
decode_loop-encode_loop [] v n w m b h k = unfold decode_loop in refl
decode_loop-encode_loop (c ∷ p) v n w m b h k =
    rw (lt→ltb (v + 4) n (omega arith), decode_loop-encode_char c _ w m b.0 (omega arith))
      (ap (◌∷◌ c) (
        decode_loop-encode_loop p _ n (w + 1) m b.1 (omega (arith, length-encode_char c))
          (omega arith)))

-- A text of bytes that fits both buffers (three bytes for each character and two more for the
-- encoded form, one and the NUL for the decoded one) comes back from encoding and decoding.
pub url_decode-url_encode :
    (src : List ℕ) (n m : ℕ)
    → All (λ c. c < 256) src
    → 3 * length src + 1 < n
    → length src < m
    → url_decode (url_encode src n) m ≡ src
unfolding url_encode url_decode
url_decode-url_encode src n m b h k =
    decode_loop-encode_loop src 0 n 0 m b (omega arith) (omega arith)
