-- ===== src/Board/Core2.antt =====
-- main/board/board_core2.c: the battery of the M5Stack Core2, read from its AXP192 over I2C.
use Prim.Native.Nat.{bit_and}
use mathlib.Core.Option
use satura_bridge.Prelude.{
  Bool, Option, codes, false, none, not, some, true, ℕ, if◌then◌else◌, ◌+◌, ◌*◌, ◌%◌, ◌==◌,
}
use satura_bridge.Board.{Board}
use satura_bridge.Board.Single.{
  Single, literal, of_int, times, over, minus, less, clamped_percent, truncated, positive,
}

-- What the I2C driver answers: whether the bus and the device could be set up, the bytes of the registers
-- 0x78 and 0x79, and that of the register 0x00; a failed transfer is `none`.
pub record Axp192 : Type 0 where
  pub bus_ready : Bool
  pub device_added : Bool
  pub voltage_bytes : Option (ℕ × ℕ)
  pub status_byte : Option ℕ

-- Whether `bus` and `dev` hold a handle.
pub record Core2 : Type 0 where
  pub bus : Bool
  pub dev : Bool

unfoldable pub axp192_read : {A : Type 0} → Option A → Core2 → Option A
axp192_read answer s = if s.dev then answer else none

-- A no-op: the AXP192 holds the power itself.
abbrev pub board_power_hold : Core2 → Core2
board_power_hold s = s

unfoldable pub board_init : Axp192 → Core2 → Core2
board_init w s = if w.bus_ready then record { bus = true; dev = w.device_added } else s

-- `((uint16_t)buf[0] << 4) | (buf[1] & 0x0F)`: the two parts share no bit.
abbrev pub raw12 : ℕ × ℕ → ℕ
raw12 (high, low) = high * 16 + low % 16

-- `(int)(raw12 * 1.1f)`.
unfoldable pub millivolts : ℕ → ℕ
unfolding times literal
millivolts raw = truncated (times (of_int raw) (literal 11 10))

unfoldable pub board_get_battery_voltage_mv : Axp192 → Core2 → Option ℕ
unfolding axp192_read millivolts
board_get_battery_voltage_mv w s =
    Option.map (λ buf. millivolts (raw12 buf)) (axp192_read w.voltage_bytes s)

-- The `pct` of a voltage, before it is clamped.
unfoldable pub linear_percent : ℕ → Single
unfolding over minus times less literal
linear_percent mv =
    let voltage = over (of_int mv) (literal 1000 1) in
    if less voltage (literal 3248088 1000000)
    then positive 0
    else times (minus voltage (literal 3120712 1000000)) (literal 100 1)

-- The percentage of a voltage that was read.
unfoldable pub percent_of : ℕ → ℕ
unfolding linear_percent clamped_percent
percent_of mv = clamped_percent (linear_percent mv)

unfoldable pub board_get_battery_percent : Axp192 → Core2 → Option ℕ
unfolding board_get_battery_voltage_mv percent_of
board_get_battery_percent w s = Option.map percent_of (board_get_battery_voltage_mv w s)

-- Bit 2 of the status.
abbrev pub charging_bit : Option ℕ → Bool
charging_bit none = false
charging_bit (some status) = not (bit_and status 4 == 0)

unfoldable pub board_battery_is_charging : Axp192 → Core2 → Bool
unfolding axp192_read
board_battery_is_charging w s = charging_bit (axp192_read w.status_byte s)

abbrev pub core2 : Board Axp192 Core2
core2 = record {
  board_init = board_init;
  board_power_hold = board_power_hold;
  board_get_name = codes "M5Stack Core2";
  board_get_battery_percent = board_get_battery_percent;
  board_get_battery_voltage_mv = board_get_battery_voltage_mv;
  board_battery_is_charging = board_battery_is_charging;
  board_battery_charging_status_available = true;
}
