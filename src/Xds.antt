-- ===== src/Xds.antt =====
-- internal/xds/builder.go: a node's desired network state as Envoy resources. A resource keeps the
-- fields that depend on the input; the constant ones (timeouts, TLS file names, load-balancing
-- policy) are left out. `netip.ParseAddr` is the parameter `parse_addr`: the bit length of a
-- literal address, or `none`. Packing a message in an `Any` does not fail.
use k_lite.Common.{
  Bool, List, Map, Option, String, [], concat, contains, false, if◌then◌else◌, none, not, some,
  sort_by, suc, true, ℕ, ◌&&◌, ◌++◌, ◌==◌, ◌∷◌,
}
use k_lite.Common.Int.{ℤ}
use k_lite.Object.Types.{action_unspecified, allow, deny}
use k_lite.Policy.{CompiledPolicy}
pub mod Rbac
pub mod Resources
pub mod Reachable
pub mod Screened
pub mod Examples
use k_lite.Net.{NetDesired, ServiceVip}

pub data Principal : Type 0 where
  any_principal : Principal
  remote_ip : String → ℕ → Principal

-- One entry of an RBAC filter's policy map. Its key is the index in the policy table and the name.
pub record RbacPolicy : Type 0 where
  pub index : ℕ
  pub policy_name : String
  pub principals : List Principal

pub data Filter : Type 0 where
  rbac_deny : String → List RbacPolicy → Filter
  rbac_allow : String → List RbacPolicy → Filter
  tcp_proxy : String → Filter

pub record Listener : Type 0 where
  pub name : String
  pub freebind : Bool
  pub address : String
  pub port : ℤ
  pub client_certificate : Bool
  pub filters : List Filter

-- An endpoint in EDS: where to dial, its health, and whether it carries the mTLS match metadata.
pub data HealthStatus : Type 0 where
  healthy unhealthy_draining : HealthStatus

pub record LbEndpoint : Type 0 where
  pub host : String
  pub port : ℤ
  pub health : HealthStatus
  pub ingress_mtls : Bool

pub record LoadAssignment : Type 0 where
  pub cluster_name : String
  pub lb_endpoints : List LbEndpoint

-- An EDS cluster, or the static cluster of an ingress listener.
pub data Cluster : Type 0 where
  eds_cluster : String → Cluster
  static_cluster : String → LoadAssignment → Cluster

-- policyTargets
unfoldable pub policy_targets : CompiledPolicy → String → Bool
policy_targets pol service =
    if pol.to == service then true else pol.to == "*" && not (contains pol.except service)

-- The variables of the loop in rbacFilters.
pub record Tables : Type 0 where
  pub deny_table : List RbacPolicy
  pub allow_table : List RbacPolicy
  pub allowlist : Bool

-- The keys of the entries whose service is the one given.
addresses_of : String → Map String → List String
addresses_of from [] = []
addresses_of from ((ip, svc) ∷ m) =
    let rest = addresses_of from m in if svc == from then ip ∷ rest else rest

module _ (parse_addr : String → Option ℕ) where
  -- The principals of the addresses that parse, in the order given.
  host_principals : List String → List Principal
  host_principals [] = []
  host_principals (ip ∷ ips) = elim (parse_addr ip) [
    | none ↦ host_principals ips
    | some bits ↦ remote_ip ip bits ∷ host_principals ips
  ]

  pub principals_for : String → Map String → List Principal
  unfolding host_principals addresses_of
  principals_for from ip_identity =
      if from == "*"
      then any_principal ∷ []
      else host_principals (sort_by (λ ip. ip) (addresses_of from ip_identity))

  -- addPolicy; a policy with no principals is dropped
  pub add_policy : List RbacPolicy → ℕ → CompiledPolicy → Map String → List RbacPolicy
  add_policy policies index pol ip_identity = elim (principals_for pol.from ip_identity) [
    | [] ↦ policies
    | p ∷ ps ↦
        policies
        ++ record { index = index; policy_name = pol.policy_name; principals = p ∷ ps } ∷ []
  ]

  pub rbac_step : String → Map String → ℕ → CompiledPolicy → Tables → Tables
  rbac_step service ip_identity i pol t =
      if not (policy_targets pol service) then t else elim pol.action [
        | deny ↦ record t { deny_table = add_policy t.deny_table i pol ip_identity }
        | allow ↦ record t {
          allowlist = true;
          allow_table = add_policy t.allow_table i pol ip_identity;
        }
        | action_unspecified ↦ t
      ]

  pub rbac_tables : String → Map String → ℕ → List CompiledPolicy → Tables → Tables
  rbac_tables service ip_identity i [] t = t
  rbac_tables service ip_identity i (pol ∷ pols) t =
      rbac_tables service ip_identity (suc i) pols (rbac_step service ip_identity i pol t)

  filters_of : String → Tables → List Filter
  filters_of service t =
      elim t.deny_table [ [] ↦ [] | p ∷ ps ↦ rbac_deny (concat service "_deny") (p ∷ ps) ∷ [] ]
      ++ (if t.allowlist then rbac_allow (concat service "_allow") t.allow_table ∷ [] else [])

  unfoldable pub rbac_filters : String → NetDesired → List Filter
  unfolding filters_of
  rbac_filters service net = filters_of service (
      rbac_tables service net.ip_identity 0 net.policies
        (record { deny_table = []; allow_table = []; allowlist = false }))

  -- buildListener: the VIP listener of a service, RBAC filters first and the proxy last
  unfoldable pub build_listener : ServiceVip → NetDesired → Listener
  build_listener svc net = record {
    name = concat "svc/" svc.service;
    freebind = true;
    address = svc.vip;
    port = svc.port;
    client_certificate = false;
    filters = rbac_filters svc.service net ++ tcp_proxy svc.service ∷ [];
  }
