-- ===== src/Proxy/Resolve.antt =====
-- main/proxy_gateway.c: how the host of the proxy becomes an address. `inet_pton` with `inet_ntoa_r`, and
-- `getaddrinfo`, are parameters.
use satura_bridge.Prelude.{
  Bool, List, Option, [], ◌∷◌, ◌++◌, ℕ, none, some, true, if◌then◌else◌, ◌≡◌, refl, Bool-cases,
  Option-cases, arith, inl, inr, not, ◌==◌, ◌||◌,
}
use satura_bridge.Proxy.{
  ProxyConfig, ProxyState, is_empty, load_locked, proxy_gateway_get_upstream, keep_address,
}
use satura_bridge.Storage.{Nvs}

-- An entry of the result: whether it is a whole IPv4 address, and its text where that fits.
pub record AddrInfo : Type 0 where
  pub is_inet : Bool
  pub text : Option (List ℕ)

-- The first IPv4 address that can be printed.
unfoldable pub first_address : List AddrInfo → Option (List ℕ)
first_address [] = none
first_address (a ∷ as') =
    let rest = first_address as' in
    if a.is_inet then elim a.text [ some ip ↦ some ip | none ↦ rest ] else rest

-- `numeric` is none for a host that is no numeric address, and then its text; `lookup` is none for an
-- error.
unfoldable pub resolve_ipv4 :
    (List ℕ → Option (Option (List ℕ)))
    → (List ℕ → Option (List AddrInfo))
    → List ℕ
    → Option (List ℕ)
resolve_ipv4 numeric lookup [] = none
resolve_ipv4 numeric lookup (c ∷ host) = elim (numeric (c ∷ host)) [
  | some ip ↦ ip
  | none ↦ elim (lookup (c ∷ host)) [ some infos ↦ first_address infos | none ↦ none ]
]

-- Entries of other families, and those whose text does not fit, are passed over.
pub first_address-append :
    (as' bs : List AddrInfo)
    → first_address as' ≡ none
    → first_address (as' ++ bs) ≡ first_address bs
unfolding first_address
first_address-append [] bs h = refl
first_address-append (a ∷ as') bs h = elim (Bool-cases a.is_inet) [
  | inl inet ↦ elim (Option-cases a.text) [
    | inl none_fits ↦ ground (arith, first_address-append as' bs)
    | inr (ip, fits) ↦ absurd (ground arith)
  ]
  | inr other ↦ ground (arith, first_address-append as' bs)
]

module _ {F : Type 0} (nvs : Nvs F) where
  -- An address that was found is kept: every later call gives it again and asks no name server, until the
  -- configuration is saved or the cache is invalidated.
  pub get_upstream_kept :
      (resolve again : List ℕ → Option (List ℕ)) (n : ℕ) (f : F) (cfg : ProxyConfig) (c : ℕ)
      (ip : List ℕ)
      → resolve cfg.host ≡ some (c ∷ ip)
      → let s : ProxyState = record { g_cfg = cfg; g_loaded = true } in
        let first = proxy_gateway_get_upstream nvs resolve n f s in
        proxy_gateway_get_upstream nvs again n f first.0 ≡ first
  unfolding proxy_gateway_get_upstream load_locked keep_address
  get_upstream_kept resolve again n f cfg c ip found =
      elim (Bool-cases (is_empty cfg.host || cfg.port == 0)) [
        | inl unset ↦ rw (unset, unset) refl
        | inr ready ↦ elim (Bool-cases (not (is_empty cfg.resolved_ip))) [
          | inl known ↦ rw (ready, known, ready, known) refl
          | inr unknown ↦ rw (ready, unknown, found, ready) refl
        ]
      ]
