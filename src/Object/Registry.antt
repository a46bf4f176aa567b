-- ===== src/Object/Registry.antt =====
-- internal/object/object.go: the kinds, their aliases, and the envelope's kind and metadata.
use k_lite.Common.{
  Bool, List, Map, Option, String, [], arith, false, insert, lookup, none, some, true, ◌↔◌, ◌∷◌,
  ◌≡◌,
}
use k_lite.Object.Types.{
  Meta, Object, empty_meta, ingress_object, instance_object, node_object, nothing, policy_object,
  service_object, vip_object, workload_object,
}

pub data Kind : Type 0 where
  workload_kind service_kind node_kind policy_kind instance_kind vip_kind ingress_kind : Kind

abbrev pub kinds : List Kind
kinds =
    workload_kind ∷ service_kind ∷ node_kind ∷ policy_kind ∷ instance_kind ∷ vip_kind ∷ ingress_kind
    ∷ []

-- The canonical names.
unfoldable pub kind_name : Kind → String
kind_name workload_kind = "Workload"
kind_name service_kind = "Service"
kind_name node_kind = "Node"
kind_name policy_kind = "NetworkPolicy"
kind_name instance_kind = "Instance"
kind_name vip_kind = "VIPAllocation"
kind_name ingress_kind = "IngressAllocation"

unfoldable pub plural : Kind → String
plural workload_kind = "workloads"
plural service_kind = "services"
plural node_kind = "nodes"
plural policy_kind = "networkpolicies"
plural instance_kind = "instances"
plural vip_kind = "vipallocations"
plural ingress_kind = "ingressallocations"

-- The alias table, built by a loop over the kinds; a later entry replaces an earlier one.
alias_table : (String → String) → List Kind → Map Kind → Map Kind
unfolding kind_name plural
alias_table to_lower [] m = m
alias_table to_lower (k ∷ ks) m =
    alias_table to_lower ks (insert (plural k) k (insert (to_lower (kind_name k)) k m))

-- Canonical; `strings.ToLower` is the argument
unfoldable pub canonical : (String → String) → String → Option Kind
unfolding alias_table
canonical to_lower s = lookup (to_lower s) (alias_table to_lower kinds [])

-- KindOf; `none` is the empty envelope
unfoldable pub kind_of : Object → Option Kind
kind_of (workload_object w) = some workload_kind
kind_of (service_object s) = some service_kind
kind_of (node_object n) = some node_kind
kind_of (policy_object p) = some policy_kind
kind_of (instance_object i) = some instance_kind
kind_of (vip_object v) = some vip_kind
kind_of (ingress_object i) = some ingress_kind
kind_of nothing = none

-- MetaOf, read
unfoldable pub meta_of : Object → Meta
meta_of (workload_object w) = w.meta
meta_of (service_object s) = s.meta
meta_of (node_object n) = n.meta
meta_of (policy_object p) = p.meta
meta_of (instance_object i) = i.meta
meta_of (vip_object v) = v.meta
meta_of (ingress_object i) = i.meta
meta_of nothing = empty_meta

-- MetaOf, written through
unfoldable pub with_meta : Meta → Object → Object
with_meta m (workload_object w) = workload_object (record w { meta = m })
with_meta m (service_object s) = service_object (record s { meta = m })
with_meta m (node_object n) = node_object (record n { meta = m })
with_meta m (policy_object p) = policy_object (record p { meta = m })
with_meta m (instance_object i) = instance_object (record i { meta = m })
with_meta m (vip_object v) = vip_object (record v { meta = m })
with_meta m (ingress_object i) = ingress_object (record i { meta = m })
with_meta m nothing = nothing

abbrev pub is_kind : Kind → Kind → Bool
is_kind workload_kind workload_kind = true
is_kind service_kind service_kind = true
is_kind node_kind node_kind = true
is_kind policy_kind policy_kind = true
is_kind instance_kind instance_kind = true
is_kind vip_kind vip_kind = true
is_kind ingress_kind ingress_kind = true
is_kind _ _ = false

pub is_kind_iff : (a b : Kind) → (is_kind a b ≡ true) ↔ (a ≡ b)
is_kind_iff a b = ground arith

pub kind_of-with_meta : (m : Meta) (o : Object) → kind_of (with_meta m o) ≡ kind_of o
unfolding kind_of with_meta
kind_of-with_meta m o = ground arith

pub meta_of-with_meta :
    (m : Meta) (o : Object) (k : Kind) → kind_of o ≡ some k → meta_of (with_meta m o) ≡ m
unfolding kind_of meta_of with_meta
meta_of-with_meta m o k h = ground arith

pub with_meta-with_meta : (m n : Meta) (o : Object) → with_meta m (with_meta n o) ≡ with_meta m o
unfolding with_meta
with_meta-with_meta m n o = ground arith
