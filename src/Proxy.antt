-- ===== src/Proxy.antt =====
-- main/proxy_gateway.c: the configuration of the upstream proxy, kept in RAM and in NVS. The mutex is
-- always obtained; how a host becomes an address is in Resolve.
pub mod Laws
pub mod Resolve
use satura_bridge.Prelude.{
  Bool, List, Option, [], false, if◌then◌else◌, none, not, some, take, true, ℕ, ◌&&◌, ◌-◌, ◌==◌,
  ◌||◌, ◌∷◌,
}
use satura_bridge.Storage.{
  Nvs, storage_get_u8, storage_get_str, storage_get_u16, storage_set_u8, storage_set_str,
  storage_set_u16, proxy_enabled, proxy_host, proxy_port,
}

-- `host` is the text in an array of 64 bytes, `resolved_ip` that in one of 16.
pub record ProxyConfig : Type 0 where
  pub enabled : Bool
  pub host : List ℕ
  pub port : ℕ
  pub resolved_ip : List ℕ

pub record ProxyState : Type 0 where
  pub g_cfg : ProxyConfig
  pub g_loaded : Bool

abbrev pub default_port : ℕ
default_port = 80

abbrev pub set_defaults : ProxyConfig
set_defaults = record { enabled = false; host = []; port = default_port; resolved_ip = [] }

abbrev pub is_empty : List ℕ → Bool
is_empty [] = true
is_empty (c ∷ cs) = false

-- The test of `proxy_gateway_is_enabled`, on the configuration.
abbrev pub is_usable : ProxyConfig → Bool
is_usable cfg = cfg.enabled && not (is_empty cfg.host) && not (cfg.port == 0)

abbrev pub loaded_enabled : Option ℕ → Bool
loaded_enabled none = false
loaded_enabled (some byte) = not (byte == 0)

abbrev pub loaded_host : Option (List ℕ) → List ℕ
loaded_host none = []
loaded_host (some text) = take 63 text

abbrev pub loaded_port : Option ℕ → ℕ
loaded_port none = default_port
loaded_port (some port) = if port == 0 then default_port else port

module _ {F : Type 0} (nvs : Nvs F) where
  unfoldable pub load_locked : F → ProxyState → ProxyState
  load_locked f s = if s.g_loaded then s else record {
    g_cfg = record {
      enabled = loaded_enabled (storage_get_u8 nvs f proxy_enabled);
      host = loaded_host (storage_get_str nvs f proxy_host 64);
      port = loaded_port (storage_get_u16 nvs f proxy_port);
      resolved_ip = [];
    };
    g_loaded = true;
  }

  -- The three writes, each done whatever became of the one before.
  unfoldable pub write_config : F → ProxyConfig → F × Bool
  write_config f cfg =
      let byte = storage_set_u8 nvs f proxy_enabled (if cfg.enabled then 1 else 0) in
      let text = storage_set_str nvs byte.0 proxy_host cfg.host in
      let number = storage_set_u16 nvs text.0 proxy_port cfg.port in
      (number.0, number.1 && text.1 && byte.1)

  abbrev pub normalize : ProxyConfig → ProxyConfig
  normalize cfg = record cfg {
    host = take 63 cfg.host;
    port = if cfg.port == 0 then default_port else cfg.port;
  }

  unfoldable pub proxy_gateway_save : ProxyConfig → F × ProxyState → (F × ProxyState) × Bool
  proxy_gateway_save cfg (f, s) =
      let normalized = normalize cfg in
      if normalized.enabled && is_empty normalized.host
      then ((f, s), false)
      else (let written = write_config f normalized in
          (
            (
              written.0,
              if written.1
                  then record { g_cfg = record normalized { resolved_ip = [] }; g_loaded = true }
                  else s,
            ),
            written.1,
          ))

  unfoldable pub proxy_gateway_is_enabled : F → ProxyState → ProxyState × Bool
  proxy_gateway_is_enabled f s = let t = load_locked f s in (t, is_usable t.g_cfg)

  -- What becomes of an address, or of none, that was looked up.
  unfoldable pub keep_address : ℕ → ProxyState → Option (List ℕ) → ProxyState × (List ℕ × ℕ)
  keep_address n t none = (t, ([], 0))
  keep_address n t (some ip) =
      (record t { g_cfg = record (t.g_cfg) { resolved_ip = ip } }, (take (n - 1) ip, t.g_cfg.port))

  -- `resolve` is `resolve_ipv4`. The result is `host_out` and `*port_out`, for a buffer of `n` bytes.
  unfoldable pub proxy_gateway_get_upstream :
      (List ℕ → Option (List ℕ)) → ℕ → F → ProxyState → ProxyState × (List ℕ × ℕ)
  proxy_gateway_get_upstream resolve n f s =
      let t = load_locked f s in
      if is_empty t.g_cfg.host || t.g_cfg.port == 0
      then (t, ([], 0))
      else (if not (is_empty t.g_cfg.resolved_ip)
          then (t, (take (n - 1) t.g_cfg.resolved_ip, t.g_cfg.port))
          else keep_address n t (resolve t.g_cfg.host))

unfoldable pub proxy_gateway_invalidate_cache : ProxyState → ProxyState
proxy_gateway_invalidate_cache s =
    if s.g_loaded then record s { g_cfg = record (s.g_cfg) { resolved_ip = [] } } else s
