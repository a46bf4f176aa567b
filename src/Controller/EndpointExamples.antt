-- ===== src/Controller/EndpointExamples.antt =====
-- Two nodes with a service and an instance, and the theorems on endpoints and snapshots at them.
use native.Mathlib.Decide.{ℕ_discrete}
use k_lite.Common.{
  Bool, Bool-cases, List, String, [], any, ap, arith, eq_iff, false, false≢true, inl, inr, insert,
  lookup, none, refl, some, sym, true, ◌==◌, ◌∙◌, ◌∷◌, ◌≡◌,
}
use k_lite.Common.Int.{pos}
use k_lite.Object.Types.{
  Instance, NetworkPolicy, Service, deny, empty_instance_status, empty_meta, ready,
}
use k_lite.Policy.{evaluate}
use k_lite.Net.{Endpoint, EndpointGroup, NetDesired, ServiceVip, empty_net, health_draining}
use k_lite.Xds.{LbEndpoint, build_listener, unhealthy_draining}
use k_lite.Xds.Examples.{documented, every_literal}
use k_lite.Xds.Resources.{
  build_endpoints, validate_endpoint, validate_endpoint_groups, validate_group, validate_identity,
  validate_ingress_listeners, validate_net, validate_services,
}
use k_lite.Xds.Screened.{assignment_for, build_endpoints-consistent, unique_assignments}
use k_lite.Controller.Ingress.{labels_match, selects}
use k_lite.Controller.Endpoints.{Inputs, NodeSnapshot, build_all, build_node, first_selecting}
use k_lite.Controller.Endpoints.Identity.{build_node-evaluate}
use k_lite.Controller.Endpoints.Snapshots.{
  Engine, SameContent, empty_snapshot, is_departed, is_unchanged, stamp_all, stamped,
  store_snapshots, with_decayed,
}
use k_lite.Controller.Endpoints.Revisions.{
  IsEngine, store_snapshots-IsEngine, store_snapshots-revision,
}

abbrev client_service : Service
client_service = record {
  meta = record empty_meta { name = "a" };
  spec = record { selector = ("app", "a") ∷ []; port = pos 80; target_port = pos 8080 };
}

abbrev client : Instance
client = record {
  meta = record empty_meta { name = "a-1"; labels = ("app", "a") ∷ [] };
  spec = record {
    workload = "a";
    node = "n1";
    container = record {
      container_name = "main";
      image = "app";
      env = [];
      ports = [];
      readiness_probe = none;
    };
    template_hash = "h";
    drain = none;
  };
  status = some (record empty_instance_status { phase = ready; instance_ip = "10.44.128.2" });
}

abbrev deny_all : NetworkPolicy
deny_all = record {
  meta = record empty_meta { name = "deny" };
  action = deny;
  rules = record { from = "a"; to = "c"; except = [] } ∷ [];
}

abbrev small : Inputs
small = record {
  services = client_service ∷ [];
  instances = client ∷ [];
  nodes = "n1" ∷ [];
  policies = deny_all ∷ [];
  vips = ("a.n1", "10.44.64.1") ∷ [];
  ingress = [];
  advertise = [];
}

abbrev c_vip : ServiceVip
c_vip = record { service = "c"; vip = "10.44.64.2"; port = pos 80; target_port = pos 8080 }

build_node-evaluate_example :
    documented.admits_source
      (build_listener every_literal c_vip (build_node small "n1").net).filters
      "10.44.128.2"
    ≡ (evaluate (deny_all ∷ []) "a" "c").allowed
unfolding first_selecting selects labels_match lookup
build_node-evaluate_example =
    build_node-evaluate every_literal documented small "n1" c_vip client client_service 32
      (inl refl) refl refl refl refl

abbrev remote : Endpoint
remote = record {
  ip = "10.44.128.9";
  port = pos 8080;
  node = "n2";
  health = health_draining;
  ingress_port = pos 20032;
  machine_address = "192.0.2.7";
}

abbrev group : EndpointGroup
group = record { service = "a"; endpoints = remote ∷ [] }

abbrev dialled : LbEndpoint
dialled = record {
  host = "192.0.2.7";
  port = pos 20032;
  health = unhealthy_draining;
  ingress_mtls = true;
}

abbrev one_group : NetDesired
one_group = record empty_net { services = c_vip ∷ []; endpoints = group ∷ [] }

build_endpoints-consistent_example :
    (unique_assignments (build_endpoints "n1" one_group) ≡ true)
    × ((name : String)
        → any (λ s. s.service == name) one_group.services ≡ true
        → assignment_for name (build_endpoints "n1" one_group) ≡ true)
unfolding validate_net validate_services validate_endpoint_groups validate_group validate_endpoint
    validate_ingress_listeners validate_identity
build_endpoints-consistent_example = build_endpoints-consistent every_literal "n1" one_group refl

string_discrete : Discrete String
string_discrete s t = elim (Bool-cases (s == t)) [
  | inl e ↦ yes ((eq_iff s t).0 e)
  | inr e ↦ no (λ q. false≢true (sym e ∙ (eq_iff s t).1 q))
]

content_discrete : Discrete (List Instance × NetDesired)
content_discrete = hlevel (ℕ_discrete, string_discrete)

-- A comparison of the contents.
abbrev same_content : NodeSnapshot → NodeSnapshot → Bool
same_content a b = elim (content_discrete (a.instances, a.net) (b.instances, b.net)) [
  | yes e ↦ true
  | no e ↦ false
]

split :
    (a b : NodeSnapshot)
    (d : Dec (◌≡◌ {A = List Instance × NetDesired} (a.instances, a.net) (b.instances, b.net)))
    → elim d [ yes e ↦ true | no e ↦ false ] ≡ true
    → SameContent a b
split a b (yes e) h = (ap (λ p. p.0) e, ap (λ p. p.1) e)
split a b (no e) h = cc

same_content-sound : (a b : NodeSnapshot) → same_content a b ≡ true → SameContent a b
same_content-sound a b h = split a b (content_discrete (a.instances, a.net) (b.instances, b.net)) h

abbrev engine : Engine
engine = record {
  ready = true;
  version = 3;
  nodes = ("n1", record empty_snapshot { revision = 3 }) ∷ [];
}

engine-IsEngine : IsEngine same_content same_content-sound engine
unfolding lookup
engine-IsEngine = record { once = refl; versioned = λ node s h. ground arith }

store_snapshots-IsEngine_example :
    IsEngine same_content same_content-sound
      (store_snapshots same_content (build_all small ("n1" ∷ []) []) engine).0
store_snapshots-IsEngine_example =
    store_snapshots-IsEngine same_content same_content-sound (build_all small ("n1" ∷ []) []) engine
      engine-IsEngine

-- A pass that finds the node as it was keeps its revision.
abbrev quiet : NodeSnapshot
quiet = record empty_snapshot { revision = 3 }

store_snapshots-revision_example : SameContent quiet quiet
unfolding lookup insert store_snapshots with_decayed stamp_all stamped is_departed is_unchanged
    string_discrete content_discrete
store_snapshots-revision_example =
    store_snapshots-revision same_content same_content-sound (("n1", empty_snapshot) ∷ []) engine
      "n1" quiet quiet refl engine-IsEngine.versioned refl refl refl
