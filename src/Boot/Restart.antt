-- ===== src/Boot/Restart.antt =====
-- What a restart does with the networks and the name that were saved before it.
use mathlib.Core.Option
use satura_bridge.AppState.{app_state_set, boot_state, no_wifi, wait_bt}
use satura_bridge.Board.{Board}
use satura_bridge.Boot.{
  Answers, Started, first_connect, initial_wifi, btstack_main, app_main, start_services,
  created_queue,
}
use satura_bridge.Chip.{Partition, btstack_flash, flash_ok}
use satura_bridge.Chip.Laws.{flash_ok-kept}
use satura_bridge.BtPan.Setup.{BtCall, bt_pan_init, set_local_name, register_nap, power_on}
use satura_bridge.DeviceName.{NameState, device_name_init, device_name_get, device_name_set}
use satura_bridge.DeviceName.Laws.{device_name_get-device_name_set}
use satura_bridge.Networks.{WifiNetwork, nvs_storage_save_networks}
use satura_bridge.Networks.Layout.{IsNetwork}
use satura_bridge.Networks.RoundTrip.{load-save_networks}
use satura_bridge.Prelude.{
  All, Bool, List, Option, ℕ, [], false, true, some, ◌≡◌, ◌++◌, ◌∷◌, length, take, refl, arith,
  if◌then◌else◌, ltb, ap, ◌∙◌,
}
use satura_bridge.Storage.{Nvs}
use satura_bridge.Storage.Laws.{NvsLaws}
use satura_bridge.Wifi.Flash.{flash_networks}
use satura_bridge.Wifi.Inbox.{wifi_post_evt}
use satura_bridge.Wifi.Machine.{has_credentials}
use satura_bridge.Wifi.State.{WifiEvt, connect_request}

-- The names in the calls: the device's and that of its service.
pub names_told : List BtCall → List (List ℕ)
names_told [] = []
names_told (set_local_name name ∷ cs) = name ∷ names_told cs
names_told (register_nap name text ∷ cs) = name ∷ names_told cs
names_told (c ∷ cs) = names_told cs

names_told-power_on : (cs : List BtCall) → names_told (cs ++ power_on ∷ []) ≡ names_told cs
unfolding names_told
names_told-power_on [] = refl
names_told-power_on (set_local_name name ∷ cs) = ap (◌∷◌ name) (names_told-power_on cs)
names_told-power_on (register_nap name text ∷ cs) = ap (◌∷◌ name) (names_told-power_on cs)
names_told-power_on (_ ∷ cs) = names_told-power_on cs

module _ {F : Type 0} (nvs : Nvs F) (stack : List ℕ) where
  saved : F → Bool
  saved f = has_credentials (flash_networks nvs stack) (initial_wifi boot_state f)

  -- With a saved network a connection is asked for, else the state says that there is none.
  initial-asked :
      (f : F)
      → let (queue, w) = first_connect nvs stack (some [], initial_wifi boot_state f) in
        (queue ≡ some (if saved f then connect_request ∷ [] else []))
        × (w.shared.current_state ≡ (if saved f then wait_bt else no_wifi))
  unfolding saved first_connect app_state_set wifi_post_evt
  initial-asked f = ground arith

  saved-save_networks :
      NvsLaws nvs
      → (f : F) (ns : List WifiNetwork) → All IsNetwork ns
      → (nvs_storage_save_networks nvs f ns).1 ≡ true
      → saved (nvs_storage_save_networks nvs f ns).0 ≡ ltb 0 (length ns)
  unfolding saved has_credentials
  saved-save_networks laws f ns h ok =
      ap (λ (ms : List WifiNetwork). ltb 0 (length ms))
        (load-save_networks nvs laws f ns stack 1 h ok)
      ∙ first_of ns
    where
      first_of : (ms : List WifiNetwork) → ltb 0 (length (take 1 (take 6 ms))) ≡ ltb 0 (length ms)
      first_of [] = refl
      first_of (m ∷ ms) = ground arith

  -- Loading the name leaves it loaded, and a loaded name is told as it is.
  device_name_init-loaded :
      (mac4 mac5 : ℕ) (s : F × NameState) → (device_name_init nvs mac4 mac5 s).1.g_loaded ≡ true
  unfolding device_name_init
  device_name_init-loaded mac4 mac5 s = ground arith

  bt_pan_init-loaded :
      (mac4 mac5 : ℕ) (s : F × NameState)
      → s.1.g_loaded ≡ true
      → names_told (bt_pan_init nvs mac4 mac5 s).1 ≡ s.1.g_name ∷ s.1.g_name ∷ []
  unfolding bt_pan_init device_name_get device_name_init names_told
  bt_pan_init-loaded mac4 mac5 s h = rw h refl

  module _ {W B : Type 0} (board : Board W B) (a : Answers W) (b : B) where
    abbrev started : Option (List WifiEvt) → F → Started F W B
    started = start_services nvs stack board a b

    started-asked :
        (f : F) (any : Bool)
        → saved f ≡ any
        → ((started (some []) f).bridge.queue ≡ some (if any then connect_request ∷ [] else []))
          × ((started (some []) f).bridge.bt.shared.current_state
              ≡ (if any then wait_bt else no_wifi))
    unfolding start_services
    started-asked f any e =
        let (queue, state) = initial-asked f in
        (
          queue ∙ ap (λ c. some (if c then connect_request ∷ [] else [])) e,
          state ∙ ap (λ c. if c then wait_bt else no_wifi) e,
        )

    started-name :
        (queue : Option (List WifiEvt)) (f : F) (name : List ℕ)
        → (device_name_get nvs a.mac4 a.mac5 (f, record { g_name = []; g_loaded = false })).1 ≡ name
        → names_told (started queue f).bt_calls ≡ name ∷ name ∷ []
    unfolding start_services device_name_get
    started-name queue f name e =
        let named =
          device_name_init nvs a.mac4 a.mac5 (f, record { g_name = []; g_loaded = false }) in
        names_told-power_on (bt_pan_init nvs a.mac4 a.mac5 named).1
        ∙ bt_pan_init-loaded a.mac4 a.mac5 named
            (device_name_init-loaded a.mac4 a.mac5 (f, record { g_name = []; g_loaded = false }))
        ∙ ap (λ n. n ∷ n ∷ []) e

module _ {F W B : Type 0} (p : Partition F) (nvs : Nvs F) (stack : List ℕ) (board : Board W B)
    (a : Answers W) (b : B) where
  btstack_main-started :
      (held : B) (f : F)
      → btstack_flash p f ≡ f
      → a.queue_created ≡ true
      → btstack_main p nvs stack board a held f ≡ start_services nvs stack board a held (some []) f
  unfolding btstack_main
  btstack_main-started held f e created =
      ap (start_services nvs stack board a held (created_queue a.queue_created)) e
      ∙ ap (λ c. start_services nvs stack board a held (created_queue c) f) created

  -- If NVS behaves as documented and does not ask for an erase, and the queue of the worker can be created,
  -- then after a save of well formed networks that reported success the chip starts again and, if one was
  -- saved, a connection is asked for before anything else; if none was, the state says so.
  pub reboot_connects :
      NvsLaws nvs
      → (f : F) (ns : List WifiNetwork) → All IsNetwork ns
      → (nvs_storage_save_networks nvs f ns).1 ≡ true
      → let g = (nvs_storage_save_networks nvs f ns).0 in
        p.nvs_flash_init g ≡ flash_ok
        → a.queue_created ≡ true
        → let s = btstack_main p nvs stack board a (board.board_power_hold b) g in
          (app_main p nvs stack board a b g ≡ some s)
          × (s.bridge.queue ≡ some (if ltb 0 (length ns) then connect_request ∷ [] else []))
          × (s.bridge.bt.shared.current_state ≡ (if ltb 0 (length ns) then wait_bt else no_wifi))
  reboot_connects laws f ns h ok init created =
      let g = (nvs_storage_save_networks nvs f ns).0 in
      let (first, second) = flash_ok-kept p g init in
      let (queue, state) =
        started-asked nvs stack board a (board.board_power_hold b) g (ltb 0 (length ns))
          (saved-save_networks nvs stack laws f ns h ok) in
      let same = btstack_main-started (board.board_power_hold b) g second created in
      (
        unfold app_main in ap (Option.map (btstack_main p nvs stack board a _)) first,
        ap (λ (s : Started F W B). s.bridge.queue) same ∙ queue,
        ap (λ (s : Started F W B). s.bridge.bt.shared.current_state) same ∙ state,
      )

  -- If NVS behaves as documented and does not ask for an erase, then after a name was set the chip starts
  -- again and tells the Bluetooth stack that name, for the device and for its service.
  pub reboot_name :
      NvsLaws nvs
      → (name : List ℕ) (f : F) (n : NameState) → (device_name_set nvs name (f, n)).1 ≡ true
      → let g = (device_name_set nvs name (f, n)).0.0 in
        p.nvs_flash_init g ≡ flash_ok
        → names_told (btstack_main p nvs stack board a b g).bt_calls ≡ name ∷ name ∷ []
  unfolding btstack_main
  reboot_name laws name f n ok init =
      let g = (device_name_set nvs name (f, n)).0.0 in
      let queue = created_queue a.queue_created in
      ap (λ h. names_told (start_services nvs stack board a b queue h).bt_calls)
        (flash_ok-kept p g init).1
      ∙ (started-name nvs stack board a b queue g name
          (device_name_get-device_name_set nvs laws name f n a.mac4 a.mac5 ok).1)
