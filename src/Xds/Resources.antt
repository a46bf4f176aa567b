-- ===== src/Xds/Resources.antt =====
-- internal/xds/builder.go: the clusters, the load assignments and the ingress listeners of a node, and
-- the screening of the input. The snapshot's own consistency check is the parameter `consistent`.
-- Ports are printed after the screening, so they are positive.
use k_lite.Common.{
  Bool, List, Map, Option, String, [], any, concat, contains, false, if◌then◌else◌, is_some, map,
  none, not, some, true, ℕ, ◌&&◌, ◌++◌, ◌==◌, ◌||◌, ◌∷◌,
}
use k_lite.Common.Int.{eqb_ℤ, leb_ℤ, ltb_ℤ, pos, pos_part, ℤ}
use k_lite.Net.{
  Endpoint, EndpointGroup, EndpointHealth, IngressListener, NetDesired, ServiceVip, health_draining,
  health_ready, health_unspecified,
}
use k_lite.Store.{decimal}
use k_lite.Xds.{
  Cluster, HealthStatus, LbEndpoint, Listener, LoadAssignment, build_listener, eds_cluster, healthy,
  static_cluster, tcp_proxy, unhealthy_draining,
}

pub data NetFault : Type 0 where
  unnamed_service listed_twice bad_vip bad_service_port : String → NetFault
  group_twice bad_endpoint_ip bad_endpoint_port bad_machine_address bad_ingress_rider :
      String → NetFault
  ingress_without_service : ℤ → NetFault
  bad_ingress_port bad_target_port bad_pod_ip : String → NetFault
  ingress_claimed_twice : ℤ → NetFault
  bad_identity : String → NetFault
  inconsistent : NetFault

abbrev pub fault_if : Bool → NetFault → Option NetFault
fault_if b e = if b then some e else none

-- The first of two faults.
infixr 40 ◌else_check◌
abbrev pub ◌else_check◌ : Option NetFault → Option NetFault → Option NetFault
none else_check b = b
some e else_check b = some e

abbrev pub is_port : ℤ → Bool
is_port p = leb_ℤ (pos 1) p && leb_ℤ p (pos 65535)

module _ (parse_addr : String → Option ℕ) where
  abbrev pub is_literal : String → Bool
  is_literal s = is_some (parse_addr s)

  -- The loop of validateNet over the services, with the names seen
  unfoldable pub validate_services : List ServiceVip → List String → Option NetFault
  validate_services [] seen = none
  validate_services (s ∷ ss) seen =
      fault_if (s.service == "") (unnamed_service s.vip)
      else_check fault_if (contains seen s.service) (listed_twice s.service)
      else_check fault_if (not (is_literal s.vip)) (bad_vip s.service)
      else_check fault_if (not (is_port s.port)) (bad_service_port s.service)
      else_check validate_services ss (s.service ∷ seen)

  unfoldable pub validate_endpoint : String → Endpoint → Option NetFault
  validate_endpoint svc e =
      fault_if (not (is_literal e.ip)) (bad_endpoint_ip svc)
      else_check fault_if (not (is_port e.port)) (bad_endpoint_port svc)
      else_check fault_if (not (e.machine_address == "") && not (is_literal e.machine_address))
          (bad_machine_address svc)
      else_check fault_if (not (leb_ℤ (pos 0) e.ingress_port && leb_ℤ e.ingress_port (pos 65535)))
          (bad_ingress_rider svc)

  unfoldable pub validate_group : String → List Endpoint → Option NetFault
  unfolding validate_endpoint
  validate_group svc [] = none
  validate_group svc (e ∷ es) = validate_endpoint svc e else_check validate_group svc es

  -- validateEndpointGroups
  unfoldable pub validate_endpoint_groups : List EndpointGroup → List String → Option NetFault
  unfolding validate_group
  validate_endpoint_groups [] seen = none
  validate_endpoint_groups (g ∷ gs) seen =
      fault_if (contains seen g.service) (group_twice g.service)
      else_check validate_group g.service g.endpoints
      else_check validate_endpoint_groups gs (g.service ∷ seen)

  -- validateIngressListeners
  unfoldable pub validate_ingress_listeners : List IngressListener → List ℤ → Option NetFault
  validate_ingress_listeners [] seen = none
  validate_ingress_listeners (i ∷ is) seen =
      fault_if (i.service == "") (ingress_without_service i.port)
      else_check fault_if (not (is_port i.port)) (bad_ingress_port i.service)
      else_check fault_if (not (is_port i.target_port)) (bad_target_port i.service)
      else_check fault_if (not (is_literal i.pod_ip)) (bad_pod_ip i.service)
      else_check fault_if (any (λ p. eqb_ℤ p i.port) seen) (ingress_claimed_twice i.port)
      else_check validate_ingress_listeners is (i.port ∷ seen)

  unfoldable pub validate_identity : Map String → Option NetFault
  validate_identity [] = none
  validate_identity ((ip, svc) ∷ m) =
      fault_if (not (is_literal ip)) (bad_identity ip) else_check validate_identity m

  -- validateNet
  unfoldable pub validate_net : NetDesired → Option NetFault
  unfolding validate_services validate_endpoint_groups validate_ingress_listeners validate_identity
  validate_net net =
      validate_services net.services []
      else_check validate_endpoint_groups net.endpoints []
      else_check validate_ingress_listeners net.ingress_listeners []
      else_check validate_identity net.ip_identity

-- buildClusters
unfoldable pub build_clusters : List ServiceVip → List Cluster
build_clusters [] = []
build_clusters (s ∷ ss) = eds_cluster s.service ∷ build_clusters ss

-- healthStatus
unfoldable pub health_status : EndpointHealth → HealthStatus
health_status health_draining = unhealthy_draining
health_status health_ready = healthy
health_status health_unspecified = healthy

-- The endpoint as the consuming node dials it; `none` is one that it cannot reach yet.
unfoldable pub lb_endpoint : String → Endpoint → Option LbEndpoint
unfolding health_status
lb_endpoint node e =
    if e.node == "" || e.node == node
    then some (record {
      host = e.ip;
      port = e.port;
      health = health_status e.health;
      ingress_mtls = false;
    })
    else if ltb_ℤ (pos 0) e.ingress_port && not (e.machine_address == "")
    then some (record {
      host = e.machine_address;
      port = e.ingress_port;
      health = health_status e.health;
      ingress_mtls = true;
    })
    else none

unfoldable pub lb_endpoints_of : String → List Endpoint → List LbEndpoint
unfolding lb_endpoint
lb_endpoints_of node [] = []
lb_endpoints_of node (e ∷ es) =
    let rest = lb_endpoints_of node es in
    elim (lb_endpoint node e) [ none ↦ rest | some lb ↦ lb ∷ rest ]

-- buildLoadAssignment
unfoldable pub build_load_assignment : String → EndpointGroup → LoadAssignment
unfolding lb_endpoints_of
build_load_assignment node g = record {
  cluster_name = g.service;
  lb_endpoints = lb_endpoints_of node g.endpoints;
}

-- The empty assignments of the services that have no group, with the names seen.
unfoldable pub empty_assignments : List ServiceVip → List String → List LoadAssignment
empty_assignments [] seen = []
empty_assignments (s ∷ ss) seen =
    let rest = empty_assignments ss (s.service ∷ seen) in
    let skipped = empty_assignments ss seen in
    if contains seen s.service
    then skipped
    else record { cluster_name = s.service; lb_endpoints = [] } ∷ rest

-- buildEndpoints
unfoldable pub build_endpoints : String → NetDesired → List LoadAssignment
unfolding build_load_assignment empty_assignments
build_endpoints node net =
    map (build_load_assignment node) net.endpoints
    ++ empty_assignments net.services (map (λ g. g.service) net.endpoints)

-- buildIngressPair
unfoldable pub ingress_name : IngressListener → String
ingress_name i = concat "ingress/" (concat i.service (concat "/" (decimal (pos_part i.port))))

unfoldable pub build_ingress_pair : IngressListener → Listener × Cluster
unfolding ingress_name
build_ingress_pair i =
    let name = ingress_name i in
    (
      record {
        name = name;
        freebind = false;
        address = "0.0.0.0";
        port = i.port;
        client_certificate = true;
        filters = tcp_proxy name ∷ [];
      },
      static_cluster name (record {
        cluster_name = name;
        lb_endpoints =
            record { host = i.pod_ip; port = i.target_port; health = healthy; ingress_mtls = false }
            ∷ [];
      }),
    )

-- BuildSnapshot's resources
pub record Snapshot : Type 0 where
  pub version : String
  pub clusters : List Cluster
  pub assignments : List LoadAssignment
  pub listeners : List Listener

pub data Built : Type 0 where
  built : Snapshot → Built
  rejected : NetFault → Built

module _ (parse_addr : String → Option ℕ) (consistent : Snapshot → Bool) where
  -- buildListeners
  unfoldable pub build_listeners : NetDesired → List ServiceVip → List Listener
  build_listeners net [] = []
  build_listeners net (s ∷ ss) = build_listener parse_addr s net ∷ build_listeners net ss

  -- BuildSnapshot
  unfoldable pub build_snapshot : String → String → NetDesired → Built
  unfolding build_listeners build_clusters build_endpoints build_ingress_pair
  build_snapshot node version net = elim (validate_net parse_addr net) [
    | some e ↦ rejected e
    | none ↦
        let pairs = map build_ingress_pair net.ingress_listeners in
        let snap : Snapshot = record {
          version = version;
          clusters = build_clusters net.services ++ map (λ p. p.1) pairs;
          assignments = build_endpoints node net;
          listeners = build_listeners net net.services ++ map (λ p. p.0) pairs;
        } in
        if consistent snap then built snap else rejected inconsistent
  ]
