-- ===== src/Proxy/Laws.antt =====
-- What a saved configuration of main/proxy_gateway.c is used as.
use satura_bridge.Prelude.{
  [], false, length, not, true, ◌&&◌, ◌≡◌, ◌≢◌, ◌≤◌, ◌⊎◌, Bool-cases, List, arith, if◌then◌else◌,
  inl, inr, length-take, refl, take, ℕ, ◌==◌, ◌∷◌,
}
use satura_bridge.Storage.{Nvs}
use satura_bridge.Proxy.{
  ProxyConfig, ProxyState, load_locked, normalize, write_config, proxy_gateway_save,
  proxy_gateway_is_enabled, is_empty,
}

-- What every configuration that the module keeps satisfies: the host fits its array, the port is not
-- zero, and an enabled one has a host.
pub record IsConfig (cfg : ProxyConfig) : Type 0 where
  pub host_fits : length cfg.host ≤ 63
  pub some_port : cfg.port ≢ 0

kept :
    (cfg : ProxyConfig)
    → IsConfig (record {
      enabled = cfg.enabled;
      host = take 63 cfg.host;
      port = if cfg.port == 0 then 80 else cfg.port;
      resolved_ip = [];
    })
kept cfg = record { host_fits = omega (arith, length-take 63 cfg.host); some_port = ground arith }

is_empty-take : (host : List ℕ) → is_empty (take 63 host) ≡ is_empty host
is_empty-take [] = refl
is_empty-take (c ∷ cs) = refl

usable :
    (cfg : ProxyConfig)
    → (cfg.enabled
        && not (is_empty (take 63 cfg.host))
        && not ((if cfg.port == 0 then 80 else cfg.port) == 0))
      ≡ (cfg.enabled && not (is_empty cfg.host))
usable cfg = ground (arith, is_empty-take cfg.host)

-- A save that reports success makes the gateway enabled exactly if the configuration asked for it
-- and has a host, with a host that fits, a port that is not zero and no resolved address left; a
-- save that reports failure changes nothing in RAM.
pub proxy_gateway_is_enabled-proxy_gateway_save :
    {F : Type 0} (nvs : Nvs F) (cfg : ProxyConfig) (f : F) (s : ProxyState)
    → let ((g, t), ok) = proxy_gateway_save nvs cfg (f, s) in
      ((ok ≡ false) × (t ≡ s))
      ⊎ ((ok ≡ true)
          × (t.g_loaded ≡ true)
          × IsConfig t.g_cfg
          × (t.g_cfg.resolved_ip ≡ [])
          × ((proxy_gateway_is_enabled nvs g t).0 ≡ t)
          × ((proxy_gateway_is_enabled nvs g t).1 ≡ (cfg.enabled && not (is_empty cfg.host))))
unfolding proxy_gateway_save proxy_gateway_is_enabled load_locked
proxy_gateway_is_enabled-proxy_gateway_save nvs cfg f s =
    elim (Bool-cases (cfg.enabled && is_empty (take 63 cfg.host))) [
      | inl empty ↦ rw empty (inl (refl, refl))
      | inr named ↦ elim (Bool-cases (write_config nvs f (normalize nvs cfg)).1) [
        | inr failed ↦ rw (named, failed) (inl (refl, refl))
        | inl written ↦ rw (named, written) (inr (refl, refl, kept cfg, refl, refl, usable cfg))
      ]
    ]
