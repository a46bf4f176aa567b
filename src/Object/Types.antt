-- ===== src/Object/Types.antt =====
-- The messages of internal/gen/klitev1/objects.pb.go and meta.pb.go that the program reads.
-- A sub-message whose absence the code tests is an `Option`; any other nil pointer is the zero
-- record, which its getters cannot tell apart. An `int32` that may be negative is a `ℤ`.
use k_lite.Common.{Bool, List, Map, Option, String, [], false, or_zero, true, ℕ}
use k_lite.Common.Int.{pos, ℤ}

pub record Meta : Type 0 where
  pub name : String
  pub uid : String
  pub labels : Map String
  pub resource_version : ℕ
  pub created_unix : ℕ

abbrev pub empty_meta : Meta
empty_meta = record { name = ""; uid = ""; labels = []; resource_version = 0; created_unix = 0 }

pub record EnvVar : Type 0 where
  pub env_name : String
  pub value : String

pub record Container : Type 0 where
  pub container_name : String
  pub image : String
  pub env : List EnvVar
  pub ports : List ℤ
  pub readiness_probe : Option ℤ

pub record Template : Type 0 where
  pub template_labels : Map String
  pub containers : List Container

pub record DrainSpec : Type 0 where
  pub drain_timeout_seconds : ℤ
  pub termination_grace_seconds : ℤ

abbrev pub empty_drain : DrainSpec
empty_drain = record { drain_timeout_seconds = pos 0; termination_grace_seconds = pos 0 }

pub record WorkloadSpec : Type 0 where
  pub replicas : ℤ
  pub node_name : String
  pub template : Template
  pub drain : Option DrainSpec

pub record WorkloadStatus : Type 0 where
  pub ready_instances : ℕ
  pub total_instances : ℕ
  pub status_hash : String

pub record Workload : Type 0 where
  pub meta : Meta
  pub spec : WorkloadSpec
  pub status : Option WorkloadStatus

pub record ServiceSpec : Type 0 where
  pub selector : Map String
  pub port : ℤ
  pub target_port : ℤ

pub record Service : Type 0 where
  pub meta : Meta
  pub spec : ServiceSpec

pub data NodePhase : Type 0 where
  node_unspecified node_ready not_ready node_draining : NodePhase

pub record NodeStatus : Type 0 where
  pub phase : NodePhase
  pub unschedulable : Bool
  pub last_heartbeat_unix : ℕ
  pub node_index : ℕ
  pub instance_count : ℕ
  pub advertise_address : String

abbrev pub empty_node_status : NodeStatus
empty_node_status = record {
  phase = node_unspecified;
  unschedulable = false;
  last_heartbeat_unix = 0;
  node_index = 0;
  instance_count = 0;
  advertise_address = "";
}

pub record Node : Type 0 where
  pub meta : Meta
  pub max_instances : ℤ
  pub status : Option NodeStatus

pub data PolicyAction : Type 0 where
  action_unspecified allow deny : PolicyAction

pub record PolicyRule : Type 0 where
  pub from : String
  pub to : String
  pub except : List String

pub record NetworkPolicy : Type 0 where
  pub meta : Meta
  pub action : PolicyAction
  pub rules : List PolicyRule

pub data InstancePhase : Type 0 where
  unspecified pending running ready draining failed terminating : InstancePhase

pub InstancePhase-discrete : Discrete InstancePhase
InstancePhase-discrete = hlevel

pub record InstanceSpec : Type 0 where
  pub workload : String
  pub node : String
  pub container : Container
  pub template_hash : String
  pub drain : Option DrainSpec

pub record InstanceStatus : Type 0 where
  pub phase : InstancePhase
  pub restarts : ℕ
  pub instance_ip : String
  pub container_id : String
  pub message : String

abbrev pub empty_instance_status : InstanceStatus
empty_instance_status = record {
  phase = unspecified;
  restarts = 0;
  instance_ip = "";
  container_id = "";
  message = "";
}

pub record Instance : Type 0 where
  pub meta : Meta
  pub spec : InstanceSpec
  pub status : Option InstanceStatus

pub record VipAllocation : Type 0 where
  pub meta : Meta
  pub vip_service : String
  pub vip_node : String
  pub vip : String

pub record IngressAllocation : Type 0 where
  pub meta : Meta
  pub ingress_service : String
  pub ingress_instance : String
  pub ingress_node : String
  pub ingress_port : ℤ

-- The envelope; `nothing` is the envelope with no message.
pub data Object : Type 0 where
  workload_object : Workload → Object
  service_object : Service → Object
  node_object : Node → Object
  policy_object : NetworkPolicy → Object
  instance_object : Instance → Object
  vip_object : VipAllocation → Object
  ingress_object : IngressAllocation → Object
  nothing : Object

-- inst.GetStatus() and node.GetStatus(), whose getters answer zero values on nil
abbrev pub instance_status : Instance → InstanceStatus
instance_status i = or_zero empty_instance_status i.status

abbrev pub node_status : Node → NodeStatus
node_status n = or_zero empty_node_status n.status

abbrev pub phase_of : Instance → InstancePhase
phase_of i = (instance_status i).phase

abbrev pub is_phase : InstancePhase → InstancePhase → Bool
is_phase unspecified unspecified = true
is_phase pending pending = true
is_phase running running = true
is_phase ready ready = true
is_phase draining draining = true
is_phase failed failed = true
is_phase terminating terminating = true
is_phase _ _ = false

abbrev pub is_node_phase : NodePhase → NodePhase → Bool
is_node_phase node_unspecified node_unspecified = true
is_node_phase node_ready node_ready = true
is_node_phase not_ready not_ready = true
is_node_phase node_draining node_draining = true
is_node_phase _ _ = false
