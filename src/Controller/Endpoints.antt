-- ===== src/Controller/Endpoints.antt =====
-- internal/controller/endpoints.go: the services, instances, nodes, policies and allocations of the
-- store become a snapshot for each node. A pass reads one state of the store; the listings do not
-- fail. The wake-ups of subscribers are left out, as are the callbacks.
pub mod Snapshots
pub mod Revisions
pub mod Identity
use k_lite.Common.{
  Bool, List, Map, Option, String, [], if◌then◌else◌, insert, keep, length, lookup, ltb, map, none,
  not, or_zero, some, sort_by, true, ℕ, ◌==◌, ◌||◌, ◌∷◌,
}
use k_lite.Common.Int.{eqb_ℤ, pos, ℤ}
use k_lite.Object.Types.{
  IngressAllocation, Instance, InstancePhase, NetworkPolicy, Node, Service, VipAllocation, draining,
  failed, instance_status, node_status, pending, phase_of, ready, running, terminating, unspecified,
}
use k_lite.Object.Registry.{
  ingress_kind, instance_kind, node_kind, policy_kind, service_kind, vip_kind,
}
use k_lite.Object.Envelopes.{
  ingresses_in, instances_in, nodes_in, policies_in, services_in, vips_in,
}
use k_lite.Store.{Memory, list}
use k_lite.Policy.{compile}
use k_lite.Net.{
  Endpoint, EndpointGroup, EndpointHealth, IngressListener, NetDesired, ProbeTarget, ServiceVip,
  health_draining, health_ready,
}
use k_lite.Controller.Vip.{allocation_name}
use k_lite.Controller.Ingress.{selects}

-- inputs
pub record Inputs : Type 0 where
  pub services : List Service
  pub instances : List Instance
  pub nodes : List String
  pub policies : List NetworkPolicy
  pub vips : Map String
  pub ingress : Map IngressAllocation
  pub advertise : Map String

-- The names of a set, sorted.
abbrev pub sorted_names : Map Bool → List String
sorted_names set = sort_by (λ n. n) (map (λ e. e.0) set)

unfoldable pub node_set : List Node → Map Bool → Map Bool
node_set [] set = set
node_set (n ∷ ns) set = node_set ns (insert n.meta.name true set)

unfoldable pub bound_set : List Instance → Map Bool → Map Bool
bound_set [] set = set
bound_set (i ∷ is) set =
    bound_set is (if not (i.spec.node == "") then insert i.spec.node true set else set)

unfoldable pub advertised : List Node → Map String → Map String
advertised [] m = m
advertised (n ∷ ns) m =
    let addr = (node_status n).advertise_address in
    advertised ns (if not (addr == "") then insert n.meta.name addr m else m)

-- listAllocations
unfoldable pub vip_table : List VipAllocation → Map String → Map String
vip_table [] m = m
vip_table (v ∷ vs) m = vip_table vs (insert v.meta.name v.vip m)

unfoldable pub ingress_table :
    List IngressAllocation → Map IngressAllocation → Map IngressAllocation
ingress_table [] m = m
ingress_table (i ∷ is) m = ingress_table is (insert i.meta.name i m)

-- listInputs
unfoldable pub list_inputs : Memory → Inputs
unfolding node_set bound_set advertised vip_table ingress_table
list_inputs m =
    let insts = sort_by (λ i. i.meta.name) (instances_in (list instance_kind m).0) in
    let nodes = nodes_in (list node_kind m).0 in
    record {
      services = sort_by (λ s. s.meta.name) (services_in (list service_kind m).0);
      instances = insts;
      nodes = sorted_names (bound_set insts (node_set nodes []));
      policies = policies_in (list policy_kind m).0;
      vips = vip_table (vips_in (list vip_kind m).0) [];
      ingress = ingress_table (ingresses_in (list ingress_kind m).0) [];
      advertise = advertised nodes [];
    }

-- endpointHealth; `none` is an instance that takes no connections
unfoldable pub endpoint_health : InstancePhase → Option EndpointHealth
endpoint_health ready = some health_ready
endpoint_health draining = some health_draining
endpoint_health unspecified = none
endpoint_health pending = none
endpoint_health running = none
endpoint_health failed = none
endpoint_health terminating = none

-- The endpoint that an instance gives a service.
unfoldable pub endpoint_of : Inputs → Service → Instance → Option Endpoint
unfolding endpoint_health
endpoint_of inputs svc i =
    if not (selects svc i) then none else elim (endpoint_health (phase_of i)) [
      | none ↦ none
      | some health ↦
          if (instance_status i).instance_ip == ""
          then none
          else some (record {
            ip = (instance_status i).instance_ip;
            port = svc.spec.target_port;
            node = i.spec.node;
            health = health;
            ingress_port =
                elim (lookup (allocation_name svc.meta.name i.meta.name) inputs.ingress) [
                  | none ↦ pos 0
                  | some a ↦ a.ingress_port
                ];
            machine_address = or_zero "" (lookup i.spec.node inputs.advertise);
          })
    ]

unfoldable pub endpoints_of : Inputs → Service → List Instance → List Endpoint
unfolding endpoint_of
endpoints_of inputs svc [] = []
endpoints_of inputs svc (i ∷ is) =
    let rest = endpoints_of inputs svc is in
    elim (endpoint_of inputs svc i) [ none ↦ rest | some e ↦ e ∷ rest ]

-- buildGroups
unfoldable pub build_groups : Inputs → List Service → Map EndpointGroup → Map EndpointGroup
unfolding endpoints_of
build_groups inputs [] groups = groups
build_groups inputs (s ∷ ss) groups = build_groups inputs ss (
    insert s.meta.name
      (record { service = s.meta.name; endpoints = endpoints_of inputs s inputs.instances }) groups)

-- The first service that selects an instance.
unfoldable pub first_selecting : List Service → Instance → Option Service
first_selecting [] i = none
first_selecting (s ∷ ss) i = if selects s i then some s else first_selecting ss i

-- buildIPIdentity
unfoldable pub build_ip_identity : List Service → List Instance → Map String → Map String
unfolding first_selecting
build_ip_identity services [] m = m
build_ip_identity services (i ∷ is) m =
    let ip = (instance_status i).instance_ip in
    build_ip_identity services is (
      if ip == ""
      then m
      else elim (first_selecting services i) [ none ↦ m | some s ↦ insert ip s.meta.name m ])

-- fallbackProbePort
unfoldable pub fallback_probe_port : List Service → Instance → ℤ
unfolding first_selecting
fallback_probe_port services i = elim (first_selecting services i) [
  | none ↦ pos 0
  | some s ↦ s.spec.target_port
]

-- buildProbeTargets
unfoldable pub build_probe_targets : Inputs → String → List Instance → List ProbeTarget
unfolding fallback_probe_port
build_probe_targets inputs node [] = []
build_probe_targets inputs node (i ∷ is) =
    let rest = build_probe_targets inputs node is in
    let ip = (instance_status i).instance_ip in
    let named = or_zero (pos 0) i.spec.container.readiness_probe in
    let port = if eqb_ℤ named (pos 0) then fallback_probe_port inputs.services i else named in
    if not (i.spec.node == node) || ip == "" || eqb_ℤ port (pos 0)
    then rest
    else record { instance_name = i.meta.name; ip = ip; port = port } ∷ rest

-- targetPorts[name], where the last service of the name counts
unfoldable pub target_ports : List Service → Map ℤ → Map ℤ
target_ports [] m = m
target_ports (s ∷ ss) m = target_ports ss (insert s.meta.name s.spec.target_port m)

unfoldable pub addresses : List Instance → Map String → Map String
addresses [] m = m
addresses (i ∷ is) m = addresses is (insert i.meta.name (instance_status i).instance_ip m)

-- buildIngressListeners, over the allocations in the order of their names
unfoldable pub ingress_listeners_of :
    Map ℤ → Map String → String → List IngressAllocation → List IngressListener
ingress_listeners_of ports ips node [] = []
ingress_listeners_of ports ips node (a ∷ as') =
    let rest = ingress_listeners_of ports ips node as' in
    let ip = or_zero "" (lookup a.ingress_instance ips) in
    if not (a.ingress_node == node) || ip == ""
    then rest
    else elim (lookup a.ingress_service ports) [
      | none ↦ rest
      | some port ↦
          record {
            service = a.ingress_service;
            port = a.ingress_port;
            pod_ip = ip;
            target_port = port;
          }
          ∷ rest
    ]

unfoldable pub build_ingress_listeners : Inputs → String → List IngressListener
unfolding target_ports addresses ingress_listeners_of
build_ingress_listeners inputs node =
    ingress_listeners_of (target_ports inputs.services []) (addresses inputs.instances []) node
      (map (λ e. e.1) (sort_by (λ e. e.0) inputs.ingress))

-- nodeInstances
abbrev pub node_instances : Inputs → String → List Instance
node_instances inputs node = keep (λ i. i.spec.node == node) inputs.instances

-- The services of a node that have an address there.
unfoldable pub vips_on : Inputs → String → List Service → List ServiceVip
vips_on inputs node [] = []
vips_on inputs node (s ∷ ss) =
    let rest = vips_on inputs node ss in
    elim (lookup (allocation_name s.meta.name node) inputs.vips) [
      | none ↦ rest
      | some vip ↦
          record {
            service = s.meta.name;
            vip = vip;
            port = s.spec.port;
            target_port = s.spec.target_port;
          }
          ∷ rest
    ]

-- The endpoint groups of those services, where they have endpoints.
unfoldable pub groups_on : Map EndpointGroup → Inputs → String → List Service → List EndpointGroup
groups_on groups inputs node [] = []
groups_on groups inputs node (s ∷ ss) =
    let rest = groups_on groups inputs node ss in
    elim (lookup (allocation_name s.meta.name node) inputs.vips) [
      | none ↦ rest
      | some vip ↦ elim (lookup s.meta.name groups) [
        | none ↦ rest
        | some g ↦ if ltb 0 (length g.endpoints) then g ∷ rest else rest
      ]
    ]

-- NodeSnapshot
pub record NodeSnapshot : Type 0 where
  pub revision : ℕ
  pub instances : List Instance
  pub net : NetDesired

-- The snapshot that buildAll makes for one node.
unfoldable pub build_node : Inputs → String → NodeSnapshot
unfolding build_groups build_ip_identity build_probe_targets build_ingress_listeners vips_on
    groups_on
build_node inputs node = record {
  revision = 0;
  instances = node_instances inputs node;
  net = record {
    services = vips_on inputs node inputs.services;
    endpoints = groups_on (build_groups inputs inputs.services []) inputs node inputs.services;
    policies = compile inputs.policies;
    ip_identity = build_ip_identity inputs.services inputs.instances [];
    probe_targets = build_probe_targets inputs node inputs.instances;
    ingress_listeners = build_ingress_listeners inputs node;
  };
}

-- buildAll
unfoldable pub build_all : Inputs → List String → Map NodeSnapshot → Map NodeSnapshot
unfolding build_node
build_all inputs [] out = out
build_all inputs (n ∷ ns) out = build_all inputs ns (insert n (build_node inputs n) out)
