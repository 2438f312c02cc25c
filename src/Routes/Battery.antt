-- ===== src/Routes/Battery.antt =====
-- main/http_routes.c: the battery line of the status page, from the board that is compiled in.
use satura_bridge.Prelude.{
  Bool, List, Option, [], false, none, some, true, ℕ, ◌≡◌, ◌≤◌, ◌⊎◌, arith, if◌then◌else◌, inl, inr,
  codes, decimal, ◌∷◌, ◌++◌, ◌/◌, ◌%◌, ◌*◌, ◌+◌, ◌<◌, ◌==◌, ◌∙◌, ap, length-append, refl, sym,
  take-all,
}
use satura_bridge.Board.{
  Board, IsBoard, IsPercent, known, battery_get_percent, battery_is_charging,
  battery_charging_status_available, battery_get_voltage_mv,
}
use satura_bridge.Routes.PageSize.{length-decimal}
use satura_bridge.Routes.Views.{battery_line, battery_text, charging_text}
use satura_bridge.Board.Core2.{Axp192, Core2, core2}
use satura_bridge.Board.Core2
use satura_bridge.Board.Laws.{core2_reading}
use satura_bridge.Board.Tables.{core2_percent, status_bit}

-- No text of a battery is longer than its array.
battery_line-whole :
    (n : ℕ) (charging : Option Bool) → battery_line (some n) charging ≡ battery_text n charging
unfolding battery_line battery_text
battery_line-whole n none =
    take-all 47 _ (let number = length-decimal n in grind (arith, length-append))
battery_line-whole n (some true) =
    take-all 47 _ (let number = length-decimal n in grind (arith, length-append))
battery_line-whole n (some false) =
    take-all 47 _ (let number = length-decimal n in grind (arith, length-append))

battery_line-none : (charging : Option Bool) → battery_line none charging ≡ []
unfolding battery_line
battery_line-none charging = refl

-- The line for a percentage that goes with a voltage.
reading_shown :
    (percent voltage : Option ℕ) (charging : Option Bool)
    → IsPercent percent
    → known percent ≡ known voltage
    → ((known voltage ≡ false) × (battery_line percent charging ≡ []))
      ⊎ ((known voltage ≡ true)
          × (n : ℕ) × (n ≤ 100)
          × (battery_line percent charging ≡ battery_text n charging))
unfolding IsPercent
reading_shown none voltage charging range e = inl (sym e, battery_line-none charging)
reading_shown (some n) voltage charging range e =
    inr (sym e, n, range n refl, battery_line-whole n charging)

module _ {W S : Type 0} (b : Board W S) (w : W) (s : S) where
  -- `none` where the board cannot tell.
  unfoldable pub charging_shown : Option Bool
  unfolding battery_charging_status_available battery_is_charging
  charging_shown =
      if battery_charging_status_available b then some (battery_is_charging b w s) else none

  unfoldable pub battery_shown : List ℕ
  unfolding battery_get_percent charging_shown
  battery_shown = battery_line (battery_get_percent b w s) charging_shown

  -- On a board that keeps its promises, the page has a battery line exactly if the voltage is known, and
  -- the line is whole, with a percentage of at most 100.
  pub battery_shown-whole :
      IsBoard b
      → ((known (battery_get_voltage_mv b w s) ≡ false) × (battery_shown ≡ []))
        ⊎ ((known (battery_get_voltage_mv b w s) ≡ true)
            × (n : ℕ) × (n ≤ 100)
            × (battery_shown ≡ battery_text n charging_shown))
  unfolding battery_get_voltage_mv battery_shown
  battery_shown-whole h =
      reading_shown (b.board_get_battery_percent w s) (b.board_get_battery_voltage_mv w s)
        charging_shown (h.percent_range w s) (h.percent_known w s)

-- The words behind the percentage on a Core2: the third bit of the status, if it could be read.
unfoldable pub charging_words : Option ℕ → List ℕ
charging_words none = []
charging_words (some status) = if status / 4 % 2 == 1 then codes " (charging)" else []

-- A byte, where one was read.
unfoldable pub IsByte : Option ℕ → Type 0
IsByte o = (n : ℕ) → o ≡ some n → n < 256

words-bit :
    (status : Option ℕ)
    → IsByte status
    → charging_text (some (Core2.charging_bit status)) ≡ charging_words status
unfolding charging_words IsByte
words-bit none h = refl
words-bit (some status) h = ground (arith, status_bit status (h status refl))

-- Once the bus and the device of the Core2 are set up, a reading of two bytes, with a status of a byte if
-- there is one, gives the battery line with
-- the percentage of the whole-number formula, and the words "(charging)" behind it exactly if the status
-- was read and has its third bit set; without a reading there is no line.
pub battery_shown-core2 :
    (w w' : Axp192) (s : Core2) (high low : ℕ)
    → w.bus_ready ≡ true
    → w.device_added ≡ true
    → w'.voltage_bytes ≡ some (high, low)
    → high < 256
    → IsByte w'.status_byte
    → let ready = Core2.board_init w s in
      let percent = core2_percent ((high * 16 + low % 16) * 11 / 10) in
      (battery_shown core2 w' ready
        ≡ codes "<br><b>Battery:</b> "
          ++ (decimal percent ++ (b'%' ∷ charging_words w'.status_byte)))
      × (battery_shown core2 (record w' { voltage_bytes = none }) ready ≡ [])
unfolding battery_shown charging_shown battery_get_percent battery_is_charging
    battery_charging_status_available battery_text Core2.board_battery_is_charging Core2.axp192_read
    Core2.board_init
battery_shown-core2 w w' s high low b d e h st =
    let (_, percent) = core2_reading w w' s high low b d e h in
    let n = core2_percent ((high * 16 + low % 16) * 11 / 10) in
    let charging = Core2.board_battery_is_charging w' (Core2.board_init w s) in
    let words : charging_text (some charging) ≡ charging_words w'.status_byte =
      rw (b, d) (words-bit w'.status_byte st) in
    (
      rw percent (battery_line-whole n (some charging))
          ∙ ap (λ t. codes "<br><b>Battery:</b> " ++ (decimal n ++ (b'%' ∷ t))) words,
      rw (b, d)
          (unfold Core2.board_get_battery_percent Core2.board_get_battery_voltage_mv in
            battery_line-none (some (Core2.charging_bit w'.status_byte))),
    )
