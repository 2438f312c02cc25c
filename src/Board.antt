-- ===== src/Board.antt =====
-- main/board/board.h, main/board/board_generic.c and main/battery.c: what every board offers, the board
-- without a battery, and the readings that the application takes. `W` is what the drivers answer and `S`
-- the state that a board keeps; exactly one board is compiled in.
pub mod Single
pub mod Core2
pub mod PlusTwo
pub mod Tables
pub mod Laws
use satura_bridge.Prelude.{Bool, List, Option, codes, false, none, ℕ, ◌≡◌, ◌≤◌, some, true}

-- A reading is `none` for the -1 of the source.
pub record Board (W S : Type 0) : Type 0 where
  pub board_init : W → S → S
  pub board_power_hold : S → S
  pub board_get_name : List ℕ
  pub board_get_battery_percent : W → S → Option ℕ
  pub board_get_battery_voltage_mv : W → S → Option ℕ
  pub board_battery_is_charging : W → S → Bool
  pub board_battery_charging_status_available : Bool

-- A percentage, where there is one.
unfoldable pub IsPercent : Option ℕ → Type 0
IsPercent p = (n : ℕ) → p ≡ Option.some n → n ≤ 100

abbrev pub known : Option ℕ → Bool
known none = false
known (Option.some n) = Bool.true

-- What board.h promises of every board.
pub record IsBoard {W S : Type 0} (b : Board W S) : Type 0 where
  pub percent_range : (w : W) (s : S) → IsPercent (b.board_get_battery_percent w s)
  -- There is a percentage exactly if there is a voltage.
  pub percent_known :
      (w : W) (s : S)
      → known (b.board_get_battery_percent w s) ≡ known (b.board_get_battery_voltage_mv w s)
  pub not_charging :
      b.board_battery_charging_status_available ≡ false
      → (w : W) (s : S) → b.board_battery_is_charging w s ≡ false
  pub hold_once : (s : S) → b.board_power_hold (b.board_power_hold s) ≡ b.board_power_hold s

-- board_generic.c.
abbrev pub generic : {W S : Type 0} → Board W S
generic = record {
  board_init = λ w s. s;
  board_power_hold = λ s. s;
  board_get_name = codes "Generic ESP32";
  board_get_battery_percent = λ w s. none;
  board_get_battery_voltage_mv = λ w s. none;
  board_battery_is_charging = λ w s. false;
  board_battery_charging_status_available = false;
}

-- battery.c: its `battery_init` does nothing.
abbrev pub battery_init : {S : Type 0} → S → S
battery_init s = s

module _ {W S : Type 0} where
  unfoldable pub battery_get_percent : Board W S → W → S → Option ℕ
  battery_get_percent b w s = b.board_get_battery_percent w s

  unfoldable pub battery_get_voltage_mv : Board W S → W → S → Option ℕ
  battery_get_voltage_mv b w s = b.board_get_battery_voltage_mv w s

  unfoldable pub battery_is_charging : Board W S → W → S → Bool
  battery_is_charging b w s = b.board_battery_is_charging w s

  unfoldable pub battery_charging_status_available : Board W S → Bool
  battery_charging_status_available b = b.board_battery_charging_status_available
