-- ===== src/Controller/Ingress.antt =====
-- internal/controller/ingress.go: one host port for each pair of a service and a selected instance,
-- from the slice of ports of the instance's node. Ports and bases are int32, which wrap around; node
-- indexes are those that the server hands out, from 1.
pub mod Ranges
use k_lite.Common.{
  Bool, List, Map, Option, String, [], erase, false, if◌then◌else◌, insert, is_some, lookup, ltb,
  map, none, not, or_zero, some, sort_by, true, ℕ, ◌%◌, ◌&&◌, ◌*◌, ◌++◌, ◌+◌, ◌-◌, ◌==◌, ◌||◌, ◌∷◌,
}
use k_lite.Common.Int.{eqb_ℤ, leb_ℤ, ltb_ℤ, negsuc, pos, pos_part, ℤ}
use k_lite.Object.Types.{
  IngressAllocation, Instance, Node, Service, empty_meta, ingress_object, node_status,
}
use k_lite.Object.Registry.{ingress_kind, instance_kind, node_kind, service_kind}
use k_lite.Object.Envelopes.{ingresses_in, instances_in, nodes_in, services_in}
use k_lite.Store.{Error, Memory, delete_if_revision, list, put, rev_create}
use k_lite.Controller.{join}
use k_lite.Controller.NodeHealth.{absent_is_fine}
use k_lite.Controller.Pools.{first_free, is_used}
use k_lite.Controller.Vip.{allocation_name, taken_is_fine}

abbrev pub default_ingress_port_base : ℤ
default_ingress_port_base = pos 20000

abbrev pub ingress_ports_per_node : ℕ
ingress_ports_per_node = 32

-- IngressPortBase
unfoldable pub ingress_port_base : ℤ → ℤ
ingress_port_base flag = if eqb_ℤ flag (pos 0) then default_ingress_port_base else flag

-- The bits of an int32, and the int32 of 32 bits.
abbrev pub to_bits : ℤ → ℕ
to_bits (pos n) = n % 4294967296
to_bits (negsuc n) = 4294967295 - n % 4294967296

abbrev pub of_bits : ℕ → ℤ
of_bits u = if ltb u 2147483648 then pos u else negsuc (4294967295 - u)

-- nodeRange: the half-open slice, or `none` while the node has none
unfoldable pub node_range : ℤ → ℕ → Option (ℤ × ℤ)
node_range base index =
    let low = (to_bits base + ingress_ports_per_node * (index - 1)) % 4294967296 in
    let high = (low + ingress_ports_per_node) % 4294967296 in
    if ltb index 1 || ltb_ℤ (of_bits low) (pos 1) || ltb_ℤ (pos 65536) (of_bits high)
    then none
    else some (of_bits low, of_bits high)

-- firstFreePort; the slice is within the ports, so its bounds are not negative
unfoldable pub first_free_port : ℤ → ℤ → List ℕ → Option ℕ
unfolding first_free
first_free_port lo hi used = first_free (λ p. true) used (pos_part hi - pos_part lo) (pos_part lo)

-- selects, of internal/controller/endpoints.go
unfoldable pub labels_match : Map String → Map String → Bool
labels_match [] labels = true
labels_match ((k, v) ∷ sel) labels = or_zero "" (lookup k labels) == v && labels_match sel labels

unfoldable pub selects : Service → Instance → Bool
unfolding labels_match
selects svc inst = elim svc.spec.selector [
  | [] ↦ false
  | x ∷ sel ↦ labels_match (x ∷ sel) inst.meta.labels
]

-- The endpoint that an allocation is for.
pub record Endpoint : Type 0 where
  pub service : String
  pub instance_name : String
  pub node : String

pub data IngressFault : Type 0 where
  ingress_store_fault : Error → IngressFault
  range_exhausted : String → IngressFault

abbrev pub ingress_fault : Option Error → Option IngressFault
ingress_fault none = none
ingress_fault (some e) = some (ingress_store_fault e)

pub record IngressPass : Type 0 where
  pub want : Map Endpoint
  pub used : List ℕ
  pub memory : Memory

-- index[node], whose zero value stands for an unknown node
abbrev pub index_of : Map ℕ → String → ℕ
index_of index node = or_zero 0 (lookup node index)

abbrev pub node_indexes : List Node → Map ℕ → Map ℕ
node_indexes [] index = index
node_indexes (n ∷ ns) index = node_indexes ns (insert n.meta.name (node_status n).node_index index)

-- release
unfoldable pub release_ingress : String → ℕ → Memory → Option Error × Memory
release_ingress name rev m = absent_is_fine (delete_if_revision ingress_kind name (pos rev) m)

module _ (base : ℤ) where
  wanted_for : Service → List Instance → Map ℕ → Map Endpoint → Map Endpoint
  unfolding selects node_range
  wanted_for svc [] index want = want
  wanted_for svc (i ∷ is) index want =
      let endpoint : Endpoint = record {
        service = svc.meta.name;
        instance_name = i.meta.name;
        node = i.spec.node;
      } in
      let skipped =
        i.spec.node == ""
        || not (selects svc i)
        || not (is_some (node_range base (index_of index i.spec.node))) in
      wanted_for svc is index
        (if skipped then want else insert (allocation_name svc.meta.name i.meta.name) endpoint want)

  -- wanted
  unfoldable pub ingress_want : List Service → List Instance → Map ℕ → Map Endpoint → Map Endpoint
  unfolding wanted_for
  ingress_want [] insts index want = want
  ingress_want (s ∷ ss) insts index want =
      ingress_want ss insts index (wanted_for s insts index want)

  -- reconcileAllocation
  unfoldable pub reconcile_ingress :
      IngressAllocation → Map ℕ → IngressPass → Option IngressFault × IngressPass
  unfolding release_ingress node_range
  reconcile_ingress alloc index p =
      let name = alloc.meta.name in
      let port = alloc.ingress_port in
      let valid : Bool = elim (node_range base (index_of index alloc.ingress_node)) [
        | none ↦ false
        | some (lo, hi) ↦ leb_ℤ lo port && ltb_ℤ port hi
      ] in
      let duplicate = valid && is_used p.used (pos_part port) in
      let used = if ltb_ℤ (pos 0) port then pos_part port ∷ p.used else p.used in
      let want = erase name p.want in
      let (e, m) = release_ingress name alloc.meta.resource_version p.memory in
      elim (lookup name p.want) [
        | none ↦ (ingress_fault e, record { want = want; used = used; memory = m })
        | some spec ↦
            if not (spec.node == alloc.ingress_node) || not valid || duplicate
            then (ingress_fault e, record { want = insert name spec want; used = used; memory = m })
            else (none, record { want = want; used = used; memory = p.memory })
      ]

  unfoldable pub reconcile_ingress_each :
      List IngressAllocation → Map ℕ → IngressPass → List IngressFault × IngressPass
  unfolding reconcile_ingress
  reconcile_ingress_each [] index p = ([], p)
  reconcile_ingress_each (a ∷ others) index p =
      let (e, p') = reconcile_ingress a index p in
      let (es, p'') = reconcile_ingress_each others index p' in (join e es, p'')

  -- allocate
  unfoldable pub allocate_ingress :
      ℕ → Endpoint → List ℕ → Map ℕ → Memory → Option IngressFault × List ℕ × Memory
  unfolding first_free_port
  allocate_ingress now spec used index m = elim (node_range base (index_of index spec.node)) [
    | none ↦ (none, used, m)
    | some (lo, hi) ↦ elim (first_free_port lo hi used) [
      | none ↦ (some (range_exhausted spec.node), used, m)
      | some port ↦
          let alloc : IngressAllocation = record {
            meta = record empty_meta { name = allocation_name spec.service spec.instance_name };
            ingress_service = spec.service;
            ingress_instance = spec.instance_name;
            ingress_node = spec.node;
            ingress_port = pos port;
          } in
          let (e, m') = taken_is_fine (put now (ingress_object alloc) rev_create m) in
          (ingress_fault e, port ∷ used, m')
    ]
  ]

  unfoldable pub allocate_ingress_each :
      ℕ → List Endpoint → List ℕ → Map ℕ → Memory → List IngressFault × List ℕ × Memory
  unfolding allocate_ingress
  allocate_ingress_each now [] used index m = ([], used, m)
  allocate_ingress_each now (s ∷ ss) used index m =
      let (e, used', m') = allocate_ingress now s used index m in
      let (es, used'', m'') = allocate_ingress_each now ss used' index m' in
      (join e es, used'', m'')

  -- reconcile
  unfoldable pub reconcile_ingresses : ℕ → Memory → List IngressFault × Memory
  unfolding ingress_want reconcile_ingress_each allocate_ingress_each
  reconcile_ingresses now m =
      let services = services_in (list service_kind m).0 in
      let insts = instances_in (list instance_kind m).0 in
      let index = node_indexes (nodes_in (list node_kind m).0) [] in
      let start : IngressPass = record {
        want = ingress_want services insts index [];
        used = [];
        memory = m;
      } in
      let (es, p) = reconcile_ingress_each (ingresses_in (list ingress_kind m).0) index start in
      let wanted = map (λ w. w.1) (sort_by (λ w. w.0) p.want) in
      let (fs, used, m') = allocate_ingress_each now wanted p.used index p.memory in (es ++ fs, m')
