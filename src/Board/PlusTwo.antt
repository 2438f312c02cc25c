-- ===== src/Board/PlusTwo.antt =====
-- main/board/board_stickc_plus2.c: the power hold and the battery of the M5StickC Plus2.
use mathlib.Core.Option
use satura_bridge.Prelude.{Bool, Option, codes, false, none, some, true, ℕ, if◌then◌else◌, ◌*◌}
use satura_bridge.Board.{Board}
use satura_bridge.Board.Single.{
  Single, literal, of_int, times, over, minus, clamped_percent, truncated,
}

-- What the ADC driver answers: whether the unit and its calibration could be set up, the reading, and
-- the voltage that the calibration gives for it; a failed call is `none`. Whether the channel could be
-- configured is only logged.
pub record Adc : Type 0 where
  pub unit_ready : Bool
  pub cali_ready : Bool
  pub raw : Option ℕ
  pub raw_to_voltage : ℕ → Option ℕ

-- `adc_handle` and `cali_ok`, and the level of GPIO4, by which the board stays on.
pub record PlusTwo : Type 0 where
  pub adc_handle : Bool
  pub cali_ok : Bool
  pub held : Bool

unfoldable pub board_power_hold : PlusTwo → PlusTwo
board_power_hold s = record s { held = true }

unfoldable pub board_init : Adc → PlusTwo → PlusTwo
unfolding board_power_hold
board_init w s =
    let on = board_power_hold s in
    if w.unit_ready
    then record on { adc_handle = true; cali_ok = w.cali_ready }
    else record on { adc_handle = false }

-- `(int)(raw * 3100.0f / 4095.0f) * 2`.
unfoldable pub estimated : ℕ → ℕ
unfolding times over literal
estimated raw = truncated (over (times (of_int raw) (literal 3100 1)) (literal 4095 1)) * 2

-- The divider halves the voltage.
abbrev pub doubled_or : ℕ → Option ℕ → ℕ
doubled_or estimate none = estimate
doubled_or estimate (some mv) = mv * 2

abbrev pub converted : Bool → (ℕ → Option ℕ) → ℕ → ℕ
converted cali_ok to_voltage raw =
    doubled_or (estimated raw) (if cali_ok then to_voltage raw else none)

unfoldable pub board_get_battery_voltage_mv : Adc → PlusTwo → Option ℕ
unfolding estimated
board_get_battery_voltage_mv w s =
    if s.adc_handle then Option.map (converted s.cali_ok w.raw_to_voltage) w.raw else none

-- The `pct` of a voltage, before it is clamped.
unfoldable pub linear_percent : ℕ → Single
unfolding over minus times literal
linear_percent mv =
    let factor = over (literal 100 1) (minus (literal 42 10) (literal 33 10)) in
    times (minus (over (of_int mv) (literal 1000 1)) (literal 33 10)) factor

unfoldable pub percent_of : ℕ → ℕ
unfolding linear_percent clamped_percent
percent_of mv = clamped_percent (linear_percent mv)

unfoldable pub board_get_battery_percent : Adc → PlusTwo → Option ℕ
unfolding board_get_battery_voltage_mv percent_of
board_get_battery_percent w s = Option.map percent_of (board_get_battery_voltage_mv w s)

abbrev pub plus_two : Board Adc PlusTwo
plus_two = record {
  board_init = board_init;
  board_power_hold = board_power_hold;
  board_get_name = codes "M5StickC Plus2";
  board_get_battery_percent = board_get_battery_percent;
  board_get_battery_voltage_mv = board_get_battery_voltage_mv;
  board_battery_is_charging = λ w s. false;
  board_battery_charging_status_available = false;
}
