-- ===== src/Object/Envelopes.antt =====
-- The getters of the envelope (o.GetInstance() and so on) over a listing of one kind.
use k_lite.Common.{List, [], ◌∷◌}
use k_lite.Object.Types.{
  IngressAllocation, Instance, NetworkPolicy, Node, Object, Service, VipAllocation, Workload,
  ingress_object, instance_object, node_object, policy_object, service_object, vip_object,
  workload_object,
}

abbrev pub instances_in : List Object → List Instance
instances_in [] = []
instances_in (instance_object i ∷ os) = i ∷ instances_in os
instances_in (_ ∷ os) = instances_in os

abbrev pub nodes_in : List Object → List Node
nodes_in [] = []
nodes_in (node_object n ∷ os) = n ∷ nodes_in os
nodes_in (_ ∷ os) = nodes_in os

abbrev pub workloads_in : List Object → List Workload
workloads_in [] = []
workloads_in (workload_object w ∷ os) = w ∷ workloads_in os
workloads_in (_ ∷ os) = workloads_in os

abbrev pub services_in : List Object → List Service
services_in [] = []
services_in (service_object s ∷ os) = s ∷ services_in os
services_in (_ ∷ os) = services_in os

abbrev pub policies_in : List Object → List NetworkPolicy
policies_in [] = []
policies_in (policy_object p ∷ os) = p ∷ policies_in os
policies_in (_ ∷ os) = policies_in os

abbrev pub vips_in : List Object → List VipAllocation
vips_in [] = []
vips_in (vip_object v ∷ os) = v ∷ vips_in os
vips_in (_ ∷ os) = vips_in os

abbrev pub ingresses_in : List Object → List IngressAllocation
ingresses_in [] = []
ingresses_in (ingress_object i ∷ os) = i ∷ ingresses_in os
ingresses_in (_ ∷ os) = ingresses_in os
