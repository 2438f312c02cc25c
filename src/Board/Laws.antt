-- ===== src/Board/Laws.antt =====
-- What board.h promises, for each of the three boards.
use mathlib.Core.Option
use satura_bridge.Prelude.{
  ℕ, ◌≡◌, refl, Bool, true, false, Option, none, some, ◌≤◌, ◌<◌, arith, ◌*◌, ◌+◌, ◌/◌, ◌%◌, ◌⊎◌,
}
use satura_bridge.Board.{IsBoard, IsPercent, known, generic}
use satura_bridge.Board.Single.{Single, clamped_percent, less}
use satura_bridge.Board.Core2.{Axp192, Core2, core2}
use satura_bridge.Board.PlusTwo.{Adc, PlusTwo, plus_two, estimated}
use satura_bridge.Board.Core2
use satura_bridge.Board.PlusTwo
use satura_bridge.Board.Tables.{
  core2_percent, millivolts-exact, core2_percent-exact, estimated-exact, plus_two_percent,
  plus_two_percent-near,
}

clamped_percent-range : (p : Single) → clamped_percent p ≤ 100
unfolding clamped_percent less
clamped_percent-range p = ground arith

IsPercent-map :
    (f : ℕ → ℕ) → ((n : ℕ) → f n ≤ 100) → (reading : Option ℕ) → IsPercent (Option.map f reading)
unfolding IsPercent
IsPercent-map f range none n e = absurd cc
IsPercent-map f range (some r) n e = ground (arith, range r)

known-map : (f : ℕ → ℕ) (reading : Option ℕ) → known (Option.map f reading) ≡ known reading
known-map f none = refl
known-map f (some r) = refl

pub core2-IsBoard : IsBoard core2
unfolding Core2.board_get_battery_percent Core2.percent_of
core2-IsBoard = record {
  percent_range =
      λ w s. IsPercent-map Core2.percent_of (λ n. clamped_percent-range (Core2.linear_percent n)) _;
  percent_known = λ w s. known-map Core2.percent_of _;
  not_charging = λ e w s. absurd cc;
  hold_once = λ s. refl;
}

pub plus_two-IsBoard : IsBoard plus_two
unfolding PlusTwo.board_get_battery_percent PlusTwo.percent_of PlusTwo.board_power_hold
plus_two-IsBoard = record {
  percent_range = λ w s.
      IsPercent-map PlusTwo.percent_of (λ n. clamped_percent-range (PlusTwo.linear_percent n)) _;
  percent_known = λ w s. known-map PlusTwo.percent_of _;
  not_charging = λ e w s. refl;
  hold_once = λ s. refl;
}

pub generic-IsBoard : {W S : Type 0} → IsBoard {W = W} {S = S} generic
unfolding IsPercent
generic-IsBoard = record {
  percent_range = λ w s n e. absurd cc;
  percent_known = λ w s. refl;
  not_charging = λ e w s. refl;
  hold_once = λ s. refl;
}

-- The voltage that the two bytes of a reading stand for.
bytes-exact :
    (high low : ℕ)
    → high < 256
    → let mv = (high * 16 + low % 16) * 11 / 10 in
      (Core2.millivolts (Core2.raw12 (high, low)) ≡ mv) × (Core2.percent_of mv ≡ core2_percent mv)
bytes-exact high low h =
    (millivolts-exact (high * 16 + low % 16) (omega arith), core2_percent-exact _ (omega arith))

core2_percent_gap : (mv : ℕ) → (core2_percent mv ≡ 0) ⊎ (12 ≤ core2_percent mv)
unfolding core2_percent
core2_percent_gap mv = ground arith

-- Once the bus and the device of the Core2 are set up, a reading of two bytes gives the voltage of
-- eleven tenths of a millivolt for each of its 4096 steps, rounded down, and the percentage of the
-- whole-number formula: the rounding of `float` never shows.
pub core2_reading :
    (w w' : Axp192) (s : Core2) (high low : ℕ)
    → w.bus_ready ≡ true
    → w.device_added ≡ true
    → w'.voltage_bytes ≡ some (high, low)
    → high < 256
    → let ready = Core2.board_init w s in
      let mv = (high * 16 + low % 16) * 11 / 10 in
      (Core2.board_get_battery_voltage_mv w' ready ≡ some mv)
      × (Core2.board_get_battery_percent w' ready ≡ some (core2_percent mv))
unfolding Core2.board_init Core2.board_get_battery_percent Core2.board_get_battery_voltage_mv
    Core2.axp192_read
core2_reading w w' s high low b d e h =
    let (voltage, percent) = bytes-exact high low h in rw (b, d, e, voltage, percent) (refl, refl)

-- Twice the calibrated value, if there is one, else twice 3100/4095 of the reading.
pub plus_two_voltage : Bool → Option ℕ → ℕ → ℕ
plus_two_voltage true (some mv) raw = 2 * mv
plus_two_voltage true none raw = 2 * (raw * 3100 / 4095)
plus_two_voltage false calibrated raw = 2 * (raw * 3100 / 4095)

converted-exact :
    (cali_ok : Bool) (to_voltage : ℕ → Option ℕ) (raw : ℕ)
    → raw < 4096
    → PlusTwo.converted cali_ok to_voltage raw ≡ plus_two_voltage cali_ok (to_voltage raw) raw
converted-exact true to_voltage raw below = by_value (to_voltage raw)
  where
    by_value : (o : Option ℕ) → PlusTwo.doubled_or (estimated raw) o ≡ plus_two_voltage true o raw
    by_value none = unfold plus_two_voltage in omega (arith, estimated-exact raw below)
    by_value (some mv) = unfold plus_two_voltage in omega arith
converted-exact false to_voltage raw below =
    unfold plus_two_voltage in omega (arith, estimated-exact raw below)

plus_two_voltage-bound :
    (cali_ok : Bool) (calibrated : Option ℕ) (raw : ℕ)
    → raw < 4096
    → ((mv : ℕ) → calibrated ≡ some mv → mv ≤ 3300)
    → plus_two_voltage cali_ok calibrated raw ≤ 6600
unfolding plus_two_voltage
plus_two_voltage-bound true (some mv) raw below h = omega (arith, h mv refl)
plus_two_voltage-bound true none raw below h = omega arith
plus_two_voltage-bound false calibrated raw below h = omega arith

-- Once the ADC of the M5StickC Plus2 is set up, a reading below 4096, with a calibrated value of at
-- most 3300 mV where there is one, gives twice that value, or twice 3100/4095 of the reading, rounded
-- down; and a percentage that is the whole-number formula's or one less.
pub plus_two_reading :
    (w w' : Adc) (s : PlusTwo) (raw : ℕ)
    → w.unit_ready ≡ true
    → w'.raw ≡ some raw
    → raw < 4096
    → ((mv : ℕ) → w'.raw_to_voltage raw ≡ some mv → mv ≤ 3300)
    → let ready = PlusTwo.board_init w s in
      let mv = plus_two_voltage w.cali_ready (w'.raw_to_voltage raw) raw in
      (PlusTwo.board_get_battery_voltage_mv w' ready ≡ some mv)
      × (PlusTwo.board_get_battery_percent w' ready ≡ some (PlusTwo.percent_of mv))
      × (PlusTwo.percent_of mv ≤ plus_two_percent mv)
      × (plus_two_percent mv ≤ PlusTwo.percent_of mv + 1)
unfolding PlusTwo.board_init PlusTwo.board_get_battery_percent PlusTwo.board_get_battery_voltage_mv
plus_two_reading w w' s raw u e below h =
    let mv = plus_two_voltage w.cali_ready (w'.raw_to_voltage raw) raw in
    let same = converted-exact w.cali_ready w'.raw_to_voltage raw below in
    let small = plus_two_voltage-bound w.cali_ready (w'.raw_to_voltage raw) raw below h in
    let (low, high, _) = plus_two_percent-near mv (omega arith) in
    (rw (u, e, same) refl, rw (u, e, same) refl, low, high)

-- On every board the percentage is at most 100 and there is one exactly if there is a voltage, a board
-- that cannot tell whether it is charging never says so, and holding the power twice is holding it once.
pub boards-IsBoard : IsBoard core2 × IsBoard plus_two × IsBoard {W = Adc} {S = PlusTwo} generic
boards-IsBoard = (core2-IsBoard, plus_two-IsBoard, generic-IsBoard)
