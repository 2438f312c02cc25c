-- ===== src/Chip/Laws.antt =====
-- What the start does with the flash, and when the clock of the pages is right.
use satura_bridge.Chip.{
  Partition, uptime_seconds, uptime_init, app_main_flash, btstack_flash, must_erase, is_ok,
  flash_ok,
}
use satura_bridge.Prelude.{ℕ, false, true, some, ◌≡◌, ◌<◌, ◌≤◌, ◌-◌, ◌/◌, ◌^◌, ◌⊎◌, refl, arith}

module _ {F : Type 0} (p : Partition F) where
  -- If the start is not aborted, it goes on with the flash as it was, which did not ask to be erased, or
  -- with the erased one, which was then set up; `btstack_main` never erases it a second time.
  pub flash_erased_once :
      (f g : F)
      → app_main_flash p f ≡ some g
      → (((g ≡ f) × (must_erase (p.nvs_flash_init f) ≡ false))
          ⊎ ((g ≡ (p.nvs_flash_erase f).0)
              × (must_erase (p.nvs_flash_init f) ≡ true)
              × (is_ok (p.nvs_flash_init g) ≡ true)))
        × (btstack_flash p g ≡ g)
  unfolding app_main_flash btstack_flash
  flash_erased_once f g e = ground arith

module _ {F : Type 0} (p : Partition F) where
  pub flash_ok-kept :
      (f : F)
      → p.nvs_flash_init f ≡ flash_ok
      → (app_main_flash p f ≡ some f) × (btstack_flash p f ≡ f)
  unfolding app_main_flash btstack_flash
  flash_ok-kept f e = rw e (refl, refl)

-- Up to 2^32 seconds, the clock of the pages is the whole seconds since the start.
pub uptime_exact :
    (t0 t : ℕ)
    → t0 ≤ t
    → t < 2 ^ 63
    → (t - t0) / 1000000 < 2 ^ 32
    → uptime_seconds (uptime_init t0) t ≡ (t - t0) / 1000000
unfolding uptime_seconds
uptime_exact t0 t le lt small = omega arith
