-- ===== src/Tests/Bridge.antt =====
-- The theorems on main/bt_pan.c, main/link_registry.c and main/proxy_gateway.c, at small inputs.
use satura_bridge.Proxy.Laws.{IsConfig, proxy_gateway_is_enabled-proxy_gateway_save}
use satura_bridge.Tests.Flash.{tables, blank}
use satura_bridge.BtPan.Laws.{IsPaired, IsReachable, bt_run-IsReachable}
use satura_bridge.AppState.{boot_state, EventType}
use satura_bridge.Prelude.{
  Bool, List, [], codes, false, inl, map, none, not, refl, some, true, ℕ, ◌&&◌, ◌∷◌, ◌≡◌, ◌⊎◌,
}
use satura_bridge.BtPan.{BtPan, BtEvent, bt_run, channel_opened, channel_closed}
use satura_bridge.Links.{LinkIface, link_registry_find_connected, downlink}
use satura_bridge.Proxy.{
  ProxyConfig, ProxyState, proxy_gateway_save, proxy_gateway_is_enabled, set_defaults, is_empty,
}

abbrev started : BtPan
started = record {
  shared = boot_state;
  bt_handle = none;
  bt_reopen_running = false;
  bt_reopen_counter = 0;
  timers = 0;
  visible = true;
  events = [];
  dropped = 0;
  replies = [];
}

started-IsPaired : IsPaired started
started-IsPaired = record { paired = refl; one_timer = refl }

abbrev visit : List (Bool × BtEvent)
visit = (true, channel_opened 0 7) ∷ (false, channel_closed) ∷ []

bt_run-IsReachable_example :
    IsReachable (bt_run (map (λ e. (true, e)) (channel_opened 0 7 ∷ channel_closed ∷ [])) started)
bt_run-IsReachable_example =
    bt_run-IsReachable (channel_opened 0 7 ∷ channel_closed ∷ []) started started-IsPaired
      (inl refl)

abbrev no_handlers : EventType → List (ℕ → ℕ)
no_handlers t = []

abbrev phone_side : LinkIface ℕ
phone_side = record {
  role = downlink;
  is_connected = some (λ w. true);
  get_netif = some (λ w. some w);
}

found_downlink : link_registry_find_connected 9 downlink (phone_side ∷ []) ≡ some phone_side
unfolding link_registry_find_connected
found_downlink = refl

abbrev gateway : ProxyConfig
gateway = record { enabled = true; host = codes "proxy"; port = 0; resolved_ip = [] }

abbrev unloaded : ProxyState
unloaded = record { g_cfg = set_defaults; g_loaded = false }

proxy_gateway_is_enabled-proxy_gateway_save_example :
    let ((g, t), ok) = proxy_gateway_save tables gateway (blank, unloaded) in
    ((ok ≡ false) × (t ≡ unloaded))
    ⊎ ((ok ≡ true)
        × (t.g_loaded ≡ true)
        × IsConfig t.g_cfg
        × (t.g_cfg.resolved_ip ≡ [])
        × ((proxy_gateway_is_enabled tables g t).0 ≡ t)
        × ((proxy_gateway_is_enabled tables g t).1
            ≡ (gateway.enabled && not (is_empty gateway.host))))
proxy_gateway_is_enabled-proxy_gateway_save_example =
    proxy_gateway_is_enabled-proxy_gateway_save tables gateway blank unloaded
