-- ===== src/Board/Tables.antt =====
-- The floating-point formulas of main/board evaluated over all readings that the hardware can give, and
-- compared with formulas on whole numbers.
use satura_bridge.Prelude.{
  ℕ, zero, suc, min, Bool, true, ◌≡◌, refl, ◌≤◌, ◌<◌, ◌==◌, leb, ltb, ◌&&◌, ◌+◌, ◌-◌, ◌*◌, ◌/◌,
  if◌then◌else◌, arith, ==_iff, Bool-cases, ap, inl, inr,
}
use satura_bridge.Board.Core2.{millivolts}
use satura_bridge.Board.PlusTwo.{estimated}
use satura_bridge.Board.Core2
use Prim.Native.Nat.{bit_and, ◌%◌}
use satura_bridge.Board.PlusTwo

holds_below : ℕ → (ℕ → Bool) → Bool
holds_below zero test = true
holds_below (suc n) test = test n && holds_below n test

from_table : (n : ℕ) (test : ℕ → Bool) → holds_below n test ≡ true → (x : ℕ) → x < n → test x ≡ true
unfolding holds_below
from_table zero test table x below = absurd (omega arith)
from_table (suc n) test table x below = elim (Bool-cases (x == n)) [
  | inl e ↦ ground (arith, table, ap test ((==_iff x n).0 e))
  | inr e ↦ from_table n test (ground arith) x (ground arith)
]

-- The whole-number formula of the Core2: nothing below 3.249 V, one percent for ten millivolts above.
unfoldable pub core2_percent : ℕ → ℕ
core2_percent mv = if ltb mv 3249 then 0 else min 100 ((mv * 1000 - 3120712) / 10000)

-- One percent for nine millivolts from 3.3 V on.
unfoldable pub plus_two_percent : ℕ → ℕ
plus_two_percent mv = min 100 ((mv - 3300) / 9)

millivolts_table : holds_below 4096 (λ raw. millivolts raw == raw * 11 / 10) ≡ true
unfolding holds_below millivolts
millivolts_table = refl

core2_table : holds_below 4505 (λ mv. Core2.percent_of mv == core2_percent mv) ≡ true
unfolding holds_below Core2.percent_of core2_percent
core2_table = refl

estimated_table : holds_below 4096 (λ raw. estimated raw == raw * 3100 / 4095 * 2) ≡ true
unfolding holds_below estimated
estimated_table = refl

near : ℕ → Bool
near mv =
    leb (PlusTwo.percent_of mv) (plus_two_percent mv)
    && leb (plus_two_percent mv) (PlusTwo.percent_of mv + 1)
    && leb (PlusTwo.percent_of mv) (PlusTwo.percent_of (suc mv))

plus_two_table : holds_below 6601 near ≡ true
unfolding holds_below near PlusTwo.percent_of plus_two_percent
plus_two_table = refl

status_table : holds_below 256 (λ status. bit_and status 4 == status / 4 % 2 * 4) ≡ true
unfolding holds_below
status_table = refl

pub status_bit : (status : ℕ) → status < 256 → bit_and status 4 ≡ status / 4 % 2 * 4
status_bit status below = ground (arith, from_table 256 _ status_table status below)

pub millivolts-exact : (raw : ℕ) → raw < 4096 → millivolts raw ≡ raw * 11 / 10
millivolts-exact raw below = ground (arith, from_table 4096 _ millivolts_table raw below)

pub core2_percent-exact : (mv : ℕ) → mv < 4505 → Core2.percent_of mv ≡ core2_percent mv
core2_percent-exact mv below = ground (arith, from_table 4505 _ core2_table mv below)

pub estimated-exact : (raw : ℕ) → raw < 4096 → estimated raw ≡ raw * 3100 / 4095 * 2
estimated-exact raw below = ground (arith, from_table 4096 _ estimated_table raw below)

pub plus_two_percent-near :
    (mv : ℕ)
    → mv < 6601
    → (PlusTwo.percent_of mv ≤ plus_two_percent mv)
      × (plus_two_percent mv ≤ PlusTwo.percent_of mv + 1)
      × (PlusTwo.percent_of mv ≤ PlusTwo.percent_of (suc mv))
unfolding near
plus_two_percent-near mv below = ground (arith, from_table 6601 near plus_two_table mv below)
