-- ===== src/Facade.antt =====
-- internal/facade/topology.go: the graph that the user interface draws from the five listings. Maps are
-- walked in the order of the list; a name that two instances share is one entry, as in Go.
use k_lite.Object.Types.{
  Instance, InstancePhase, NetworkPolicy, Node, NodePhase, PolicyAction, PolicyRule, Service,
  Workload, WorkloadStatus, action_unspecified, allow, deny, draining, failed, instance_status,
  node_draining, node_ready, node_status, node_unspecified, not_ready, pending, phase_of, ready,
  running, terminating, unspecified,
}
use k_lite.Common.{
  Bool, List, Map, String, [], false, if◌then◌else◌, insert, keep, lookup, map, not, or_zero,
  sort_by, true, ℕ, ◌&&◌, ◌==◌, ◌∷◌,
}
use k_lite.Common.Int.{ℤ}

pub record TopoInstance : Type 0 where
  pub topo_name : String
  pub topo_workload : String
  pub topo_phase : String
  pub topo_restarts : ℕ
  pub topo_ip : String

pub record TopoNode : Type 0 where
  pub node_name : String
  pub node_phase : String
  pub cordoned : Bool
  pub node_instances : List TopoInstance

pub record TopoService : Type 0 where
  pub service_name : String
  pub service_port : ℤ
  pub service_target : ℤ
  pub service_selector : Map String
  pub service_endpoints : List String

pub record TopoPolicy : Type 0 where
  pub policy_title : String
  pub policy_verb : String
  pub policy_rules : List PolicyRule

pub record TopoWorkload : Type 0 where
  pub workload_name : String
  pub ready_count : ℕ
  pub total_count : ℤ

pub record Topology : Type 0 where
  pub nodes : List TopoNode
  pub services : List TopoService
  pub policies : List TopoPolicy
  pub workloads : List TopoWorkload
  pub unscheduled : List TopoInstance

-- wl.GetStatus() on nil
abbrev empty_workload_status : WorkloadStatus
empty_workload_status = record { ready_instances = 0; total_instances = 0; status_hash = "" }

-- displayPhase on the names of the instance phases
unfoldable pub display_phase : InstancePhase → String
display_phase unspecified = "Unknown"
display_phase pending = "Pending"
display_phase running = "Running"
display_phase ready = "Ready"
display_phase draining = "Draining"
display_phase failed = "Failed"
display_phase terminating = "Terminating"

-- displayPhase on the names of the node phases
unfoldable pub display_node_phase : NodePhase → String
display_node_phase node_unspecified = "Unknown"
display_node_phase node_ready = "Ready"
display_node_phase not_ready = "NotReady"
display_node_phase node_draining = "Draining"

unfoldable pub display_action : PolicyAction → String
display_action allow = "ALLOW"
display_action deny = "DENY"
display_action action_unspecified = "UNKNOWN"

-- The loop of selectorMatches.
unfoldable pub pairs_match : Map String → Map String → Bool
pairs_match [] labels = true
pairs_match ((k, v) ∷ selector) labels =
    let rest = pairs_match selector labels in
    if not (or_zero "" (lookup k labels) == v) then false else rest

-- selectorMatches
unfoldable pub selector_matches : Map String → Map String → Bool
unfolding pairs_match
selector_matches [] labels = false
selector_matches (pair ∷ selector) labels = pairs_match (pair ∷ selector) labels

unfoldable pub topo_instance : Instance → TopoInstance
unfolding display_phase
topo_instance i = record {
  topo_name = i.meta.name;
  topo_workload = i.spec.workload;
  topo_phase = display_phase (phase_of i);
  topo_restarts = (instance_status i).restarts;
  topo_ip = (instance_status i).instance_ip;
}

-- Whether an instance of that phase is drawn as an endpoint.
unfoldable pub is_routable_phase : InstancePhase → Bool
is_routable_phase running = true
is_routable_phase ready = true
is_routable_phase _ = false

-- The map from the workloads to the labels of their templates.
unfoldable pub template_labels_of : List Workload → Map (Map String) → Map (Map String)
template_labels_of [] m = m
template_labels_of (w ∷ ws) m =
    template_labels_of ws (insert w.meta.name w.spec.template.template_labels m)

-- The maps instanceWorkload and routable.
unfoldable pub workload_of_each : List Instance → Map String → Map String
workload_of_each [] m = m
workload_of_each (i ∷ is) m = workload_of_each is (insert i.meta.name i.spec.workload m)

unfoldable pub routable_of : List Instance → Map Bool → Map Bool
unfolding is_routable_phase
routable_of [] m = m
routable_of (i ∷ is) m =
    routable_of is (if is_routable_phase (phase_of i) then insert i.meta.name true m else m)

-- The instances that the placement picks, in the order of the listing.
unfoldable pub placed_on : String → List Instance → List TopoInstance
unfolding topo_instance
placed_on node is = map (λ i. topo_instance i) (keep (λ (i : Instance). i.spec.node == node) is)

unfoldable pub topo_node : List Instance → Node → TopoNode
unfolding placed_on display_node_phase
topo_node is n = record {
  node_name = n.meta.name;
  node_phase = display_node_phase (node_status n).phase;
  cordoned = (node_status n).unschedulable;
  node_instances =
      if n.meta.name == ""
      then []
      else sort_by (λ (t : TopoInstance). t.topo_name) (placed_on n.meta.name is);
}

unfoldable pub topo_endpoints : Map (Map String) → Map Bool → Map String → Map String → List String
unfolding selector_matches
topo_endpoints templates routable selector [] = []
topo_endpoints templates routable selector ((name, w) ∷ each) =
    let rest = topo_endpoints templates routable selector each in
    if or_zero false (lookup name routable)
      && selector_matches selector (or_zero [] (lookup w templates))
    then name ∷ rest
    else rest

unfoldable pub topo_service : List Workload → List Instance → Service → TopoService
unfolding topo_endpoints template_labels_of routable_of workload_of_each
topo_service ws is s = record {
  service_name = s.meta.name;
  service_port = s.spec.port;
  service_target = s.spec.target_port;
  service_selector = s.spec.selector;
  service_endpoints =
      sort_by (λ (n : String). n)
        (topo_endpoints (template_labels_of ws []) (routable_of is []) s.spec.selector
          (workload_of_each is []));
}

-- ComposeTopology
unfoldable pub compose_topology :
    List Workload → List Instance → List Node → List Service → List NetworkPolicy → Topology
unfolding topo_node topo_service placed_on display_action
compose_topology ws is ns ss ps = record {
  nodes = sort_by (λ (n : TopoNode). n.node_name) (map (λ n. topo_node is n) ns);
  services = sort_by (λ (s : TopoService). s.service_name) (map (λ s. topo_service ws is s) ss);
  policies =
      sort_by (λ (p : TopoPolicy). p.policy_title)
        (map
          (λ (p : NetworkPolicy). record {
            policy_title = p.meta.name;
            policy_verb = display_action p.action;
            policy_rules = p.rules;
          })
          ps);
  workloads =
      sort_by (λ (w : TopoWorkload). w.workload_name)
        (map
          (λ (w : Workload). record {
            workload_name = w.meta.name;
            ready_count = (or_zero empty_workload_status w.status).ready_instances;
            total_count = w.spec.replicas;
          })
          ws);
  unscheduled = sort_by (λ (t : TopoInstance). t.topo_name) (placed_on "" is);
}
