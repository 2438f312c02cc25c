-- ===== src/BtPan/Setup.antt =====
-- main/bt_pan.c: the set-up of the Bluetooth stack, as the calls that it is given in their order.
use satura_bridge.Prelude.{Bool, List, ℕ, codes, true, ◌∷◌, []}
use satura_bridge.DeviceName.{NameState, device_name_get}
use satura_bridge.Storage.{Nvs}

-- The constants of BTstack keep their names: BNEP_SECURITY_NONE and the like stand in the record of the
-- NAP service. `l2cap_set_max_mtu` is left out in builds without it.
pub data BtCall : Type 0 where
  set_local_name : List ℕ → BtCall
  discoverable connectable : Bool → BtCall
  set_class_of_device security_level : ℕ → BtCall
  no_input_no_output add_hci_handler l2cap_init bnep_init sdp_init : BtCall
  register_nap : List ℕ → List ℕ → BtCall
  bnep_lwip_init register_bnep_handler : BtCall
  bnep_register_nap : ℕ → BtCall
  power_on : BtCall

module _ {F : Type 0} (nvs : Nvs F) where
  -- The name is asked for twice.
  unfoldable pub bt_pan_init : ℕ → ℕ → F × NameState → (F × NameState) × List BtCall
  unfolding device_name_get
  bt_pan_init mac4 mac5 s =
      let (s', name) = device_name_get nvs mac4 mac5 s in
      let (s'', service_name) = device_name_get nvs mac4 mac5 s' in
      (
        s'',
        set_local_name name
            ∷ discoverable true
            ∷ connectable true
            ∷ set_class_of_device 0x020302
            ∷ no_input_no_output
            ∷ security_level 0
            ∷ add_hci_handler
            ∷ l2cap_init
            ∷ bnep_init
            ∷ sdp_init
            ∷ register_nap service_name (codes "BT PAN WiFi Bridge")
            ∷ bnep_lwip_init
            ∷ bnep_register_nap 1691
            ∷ register_bnep_handler
            ∷ [],
      )

abbrev pub bt_pan_start : List BtCall
bt_pan_start = power_on ∷ []
