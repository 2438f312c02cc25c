-- ===== src/Wifi/Flash.antt =====
-- main/nvs_storage.c as the storage of networks that main/wifi_manager.c uses.
use satura_bridge.Prelude.{List, ℕ, Bool, ℤ}
use satura_bridge.Wifi.State.{NetworkStore}
use satura_bridge.Networks.Edit.{load_networks_bounds}
use satura_bridge.Networks.{
  nvs_storage_load_networks, nvs_storage_clear_networks, WifiNetwork, nvs_storage_add_network,
  nvs_storage_remove_network,
}
use satura_bridge.Storage.{Nvs}

abbrev pub flash_networks : {F : Type 0} → Nvs F → List ℕ → NetworkStore F
flash_networks nvs stack = record {
  load = λ f n. nvs_storage_load_networks nvs f stack n;
  clear = λ f. nvs_storage_clear_networks nvs f;
  load_bounds = λ f. (load_networks_bounds nvs f stack 6).0;
  load_prefix = λ f n. (load_networks_bounds nvs f stack n).1;
}

module _ {F : Type 0} (nvs : Nvs F) (f : F) (stack : List ℕ) where
  -- The functions that pass a call on. `wifi_manager_set_credentials` drops the answer.
  abbrev pub wifi_manager_get_saved_networks : ℕ → List WifiNetwork
  wifi_manager_get_saved_networks max_count = nvs_storage_load_networks nvs f stack max_count

  abbrev pub wifi_manager_add_network : List ℕ → List ℕ → Bool → F × Bool
  wifi_manager_add_network ssid pass hidden = nvs_storage_add_network nvs f stack ssid pass hidden

  abbrev pub wifi_manager_set_credentials : List ℕ → List ℕ → Bool → F
  wifi_manager_set_credentials ssid pass hidden = (wifi_manager_add_network ssid pass hidden).0

  abbrev pub wifi_manager_remove_network : ℤ → F × Bool
  wifi_manager_remove_network index = nvs_storage_remove_network nvs f stack index
