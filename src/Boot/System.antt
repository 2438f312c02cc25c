-- ===== src/Boot/System.antt =====
-- The whole bridge from the start on, whatever the order of the events.
use satura_bridge.AppState.{Shared, wifi_connected}
use satura_bridge.Board.{Board}
use satura_bridge.Chip.{Partition}
use satura_bridge.Boot.{Answers, btstack_main, Shared}
use satura_bridge.Boot.Laws.{btstack_main-IsReady}
use satura_bridge.Bridge.{BridgeEvent, bridge_run, bridge_step, interfaces}
use satura_bridge.Bridge.Nat.{HasBridge, IsInSync, KeepsBridge, bridge_run-IsWired}
use satura_bridge.Bridge.Parts.{shared-IsSteady, IsOrderly, IsOrdinary, bridge_run-IsOrderly}
use satura_bridge.Links.Netif.{Ip4, Netif}
use satura_bridge.Prelude.{All, List, Option, ℕ, ◌∷◌, ap, sym}
use satura_bridge.Storage.{Nvs}
use satura_bridge.Wifi.Flash.{flash_networks}

module _ {F W B : Type 0} (p : Partition F) (nvs : Nvs F) (stack : List ℕ) (board : Board W B)
    (a : Answers W) (b : B) (f : F) where
  -- After the start, once an interface with an address in the bridge's own subnet is there and one stays,
  -- every sequence of events ends in a state in which, while no callback waits and a phone is connected,
  -- an interface is held and the NAT is on for it exactly if the flag of the Wi-Fi link is set. If no event asks for a recovery,
  -- the worker is steady, a Bluetooth handle is held exactly while a phone is connected, and at most
  -- eight events wait for the worker.
  pub system_run :
      (netif_list : List Netif) (sta_ip : Option Ip4) (es : List (BridgeEvent F))
      → HasBridge netif_list
      → All KeepsBridge es
      → let b' =
          bridge_run
            (flash_networks nvs stack)
            (interfaces netif_list sta_ip ∷ es)
            (btstack_main p nvs stack board a b f).bridge in
        IsInSync b' × (All IsOrdinary es → IsOrderly b')
  system_run netif_list sta_ip es has keeps =
      let store = flash_networks nvs stack in
      let started = (btstack_main p nvs stack board a b f).bridge in
      let ready = (btstack_main-IsReady p nvs stack board a b f wifi_connected).0 in
      let visible = record started { netif_list = netif_list; sta_ip = sta_ip } in
      (
        unfold bridge_run bridge_step in
            (bridge_run-IsWired store es visible keeps
              (record { has_bridge = has; in_sync = unfold IsInSync in ready.in_sync })).in_sync,
        λ ordinary.
            unfold bridge_run bridge_step in
            bridge_run-IsOrderly store es visible ordinary (record {
              steady =
                  shared-IsSteady started.wifi started.bt.shared
                    (ap (λ (s : Shared). s.wifi_link) (sym ready.shared_agrees)) ready.steady;
              paired = ready.paired;
              short = ready.inbox.short;
              ordinary = ready.inbox.ordinary;
            }),
      )
