-- ===== src/Links/Netif.antt =====
-- The interfaces of lwIP as main/bt_pan.c and main/wifi_manager.c search them: `netif_list` is a list of
-- numbered interfaces with their addresses, and the first four numbers of config.h are the gateway's.
use satura_bridge.Prelude.{Bool, List, Option, ℕ, [], none, some, if◌then◌else◌, ◌&&◌, ◌==◌, ◌∷◌}

-- The four octets in network order.
pub record Ip4 : Type 0 where
  pub first : ℕ
  pub second : ℕ
  pub third : ℕ
  pub fourth : ℕ

pub record Netif : Type 0 where
  pub number : ℕ
  pub ip : Ip4

abbrev pub gateway : Ip4
gateway = record { first = 192; second = 168; third = 7; fourth = 1 }

abbrev pub in_bridge_subnet : Netif → Bool
in_bridge_subnet p =
    p.ip.first == gateway.first && p.ip.second == gateway.second && p.ip.third == gateway.third

unfoldable pub same_ip : Ip4 → Ip4 → Bool
same_ip a b =
    a.first == b.first && a.second == b.second && a.third == b.third && a.fourth == b.fourth

-- The loop over `netif_list`.
unfoldable pub find_netif : (Netif → Bool) → List Netif → Option ℕ
find_netif matches [] = none
find_netif matches (p ∷ ps) =
    let rest = find_netif matches ps in if matches p then some p.number else rest
