-- ===== src/HttpUtils/Host.antt =====
-- When a request's `Host` counts as the bridge's own.
use satura_bridge.Prelude.{
  ℕ, ◌≤◌, ◌≡◌, ◌≢◌, ◌↔◌, ◌⊎◌, refl, true, false, some, none, List, [], ◌∷◌, ◌++◌, arith, take,
  length, codes, strcmp_eq_iff, take-all, All, zero, suc, not, ◌<◌,
}
use satura_bridge.HttpUtils.{gw_ip_str, host_matches_bridge, before_colon, is_foreign_host}

-- A name matches exactly when it is the gateway's address, or the address that Wi-Fi reports where
-- that is neither empty nor the placeholder `--`.
pub host_matches_bridge_iff :
    (host ip : List ℕ)
    → length ip ≤ 15
    → (host_matches_bridge host ip ≡ true)
      ↔ ((host ≡ gw_ip_str) ⊎ ((ip ≢ []) × (ip ≢ codes "--") × (host ≡ ip)))
unfolding host_matches_bridge
host_matches_bridge_iff host ip h = rw (take-all 15 ip h) (
    ground (
      arith,
      strcmp_eq_iff host gw_ip_str,
      strcmp_eq_iff ip [],
      strcmp_eq_iff ip (codes "--"),
      strcmp_eq_iff host ip,
    ))

before_colon-take :
    (s t : List ℕ) (n : ℕ)
    → All (λ c. c ≢ b':') s
    → length s < n
    → before_colon (take n (s ++ b':' ∷ t)) ≡ s
unfolding before_colon
before_colon-take s t zero h k = absurd (omega arith)
before_colon-take [] t (suc n) h k = refl
before_colon-take (c ∷ s) t (suc n) h k = ground (arith, before_colon-take s t n)

-- A request whose `Host` header names a host of fewer than 127 bytes with a port is foreign exactly
-- when the host without the port does not match the bridge; a request with no readable header is not
-- foreign.
pub is_foreign_host-port :
    (host port ip : List ℕ)
    → All (λ c. c ≢ b':') host
    → length host < 127
    → (is_foreign_host (some (host ++ b':' ∷ port)) ip ≡ not (host_matches_bridge host ip))
      × (is_foreign_host none ip ≡ false)
unfolding is_foreign_host
is_foreign_host-port host port ip h k = (rw (before_colon-take host port 127 h k), refl)
