-- ===== src/Object/Defaults.antt =====
-- internal/object/default.go: the values of omitted fields. A nil spec is the zero record.
use k_lite.Common.{Bool-cases, if◌then◌else◌, inl, inr, or_zero, refl, some, ◌≡◌}
use k_lite.Common.Int.{eqb_ℤ, pos, ℤ}
use k_lite.Object.Types.{
  DrainSpec, Node, Object, Service, Workload, empty_drain, ingress_object, instance_object,
  node_object, nothing, policy_object, service_object, vip_object, workload_object,
}

abbrev pub drain_timeout_default : ℤ
drain_timeout_default = pos 30

abbrev pub termination_grace_default : ℤ
termination_grace_default = pos 15

abbrev pub max_instances_default : ℤ
max_instances_default = pos 32

-- A field that is zero takes the value given.
abbrev filled : ℤ → ℤ → ℤ
filled d x = if eqb_ℤ x (pos 0) then d else x

abbrev default_drain : DrainSpec → DrainSpec
default_drain d = record {
  drain_timeout_seconds = filled drain_timeout_default d.drain_timeout_seconds;
  termination_grace_seconds = filled termination_grace_default d.termination_grace_seconds;
}

pub default_workload : Workload → Workload
default_workload w = record w {
  spec = record w.spec { drain = some (default_drain (or_zero empty_drain w.spec.drain)) };
}

pub default_service : Service → Service
default_service s = record s {
  spec = record s.spec { target_port = filled s.spec.port s.spec.target_port };
}

pub default_node : Node → Node
default_node n = record n { max_instances = filled max_instances_default n.max_instances }

-- Default
unfoldable pub default_object : Object → Object
unfolding default_workload default_service default_node
default_object (workload_object w) = workload_object (default_workload w)
default_object (service_object s) = service_object (default_service s)
default_object (node_object n) = node_object (default_node n)
default_object o = o

filled-filled : (d x : ℤ) → filled d (filled d x) ≡ filled d x
filled-filled d x = elim (Bool-cases (eqb_ℤ x (pos 0))) [
  | inl e ↦ rw e (elim (Bool-cases (eqb_ℤ d (pos 0))) [ inl q ↦ rw q refl | inr q ↦ rw q refl ])
  | inr e ↦ rw (e, e) refl
]

-- Defaulting is idempotent: applying a stored object again changes none of its fields.
pub default_object_idem : (o : Object) → default_object (default_object o) ≡ default_object o
unfolding default_object
default_object_idem (workload_object w) =
    let d = or_zero empty_drain w.spec.drain in
    cc (
      filled-filled drain_timeout_default d.drain_timeout_seconds,
      filled-filled termination_grace_default d.termination_grace_seconds,
    )
default_object_idem (service_object s) = cc (filled-filled s.spec.port s.spec.target_port)
default_object_idem (node_object n) = cc (filled-filled max_instances_default n.max_instances)
default_object_idem (policy_object p) = refl
default_object_idem (instance_object i) = refl
default_object_idem (vip_object v) = refl
default_object_idem (ingress_object i) = refl
default_object_idem nothing = refl
