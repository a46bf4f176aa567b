-- ===== src/Controller/Vip.antt =====
-- internal/controller/vip.go: one virtual address for each pair of a service and a node. An IPv4
-- address is its 32-bit number. `parse_addr` stands for netip.ParseAddr on IPv4 addresses (another
-- address is outside the pool like a text that does not parse) and `show_addr` for Addr.String.
pub mod Distinct
use k_lite.Common.{
  Bool, List, Map, Option, String, [], concat, eqb, erase, false, if◌then◌else◌, insert, leb,
  lookup, ltb, map, none, not, some, sort_by, ℕ, ◌%◌, ◌&&◌, ◌++◌, ◌+◌, ◌-◌, ◌||◌, ◌∷◌,
}
use k_lite.Common.Int.{pos}
use k_lite.Object.Types.{Node, Service, VipAllocation, empty_meta, vip_object}
use k_lite.Object.Registry.{node_kind, service_kind, vip_kind}
use k_lite.Object.Envelopes.{nodes_in, services_in, vips_in}
use k_lite.Store.{
  Error, Memory, Result, already_exists, delete_if_revision, err, list, ok, put, rev_create,
}
use k_lite.Controller.{join}
use k_lite.Controller.NodeHealth.{absent_is_fine}
use k_lite.Controller.Pools.{first_free, is_used}

-- 10.44.64.0/18
abbrev pub pool_start : ℕ
pool_start = 170672128

abbrev pub pool_size : ℕ
pool_size = 16384

abbrev pub in_pool : ℕ → Bool
in_pool ip = leb pool_start ip && ltb ip (pool_start + pool_size)

-- Neither .0 nor .255
abbrev pub is_host : ℕ → Bool
is_host ip = not (eqb (ip % 256) 0 || eqb (ip % 256) 255)

-- firstFreeVIP; `none` is the exhausted pool
unfoldable pub first_free_vip : List ℕ → Option ℕ
unfolding first_free
first_free_vip used = first_free is_host used (pool_size - 1) (pool_start + 1)

-- AllocationName
abbrev pub allocation_name : String → String → String
allocation_name service node = concat service (concat "." node)

pub data VipFault : Type 0 where
  vip_store_fault : Error → VipFault
  pool_exhausted : VipFault

abbrev pub vip_fault : Option Error → Option VipFault
vip_fault none = none
vip_fault (some e) = some (vip_store_fault e)

-- The services and nodes that still want an allocation, and the addresses that were seen.
pub record VipPass : Type 0 where
  pub want : Map (String × String)
  pub used : List ℕ
  pub memory : Memory

for_nodes : String → List Node → Map (String × String) → Map (String × String)
for_nodes service [] want = want
for_nodes service (n ∷ ns) want =
    for_nodes service ns (insert (allocation_name service n.meta.name) (service, n.meta.name) want)

unfoldable pub vip_want : List Service → List Node → Map (String × String) → Map (String × String)
unfolding for_nodes
vip_want [] nodes want = want
vip_want (s ∷ ss) nodes want = vip_want ss nodes (for_nodes s.meta.name nodes want)

-- release
unfoldable pub release_vip : String → ℕ → Memory → Option Error × Memory
release_vip name rev m = absent_is_fine (delete_if_revision vip_kind name (pos rev) m)

-- What a create does with its error: the name may be taken by an earlier leader.
abbrev pub taken_is_fine : Result ℕ × Memory → Option Error × Memory
taken_is_fine (ok r, m) = (none, m)
taken_is_fine (err already_exists, m) = (none, m)
taken_is_fine (err e, m) = (some e, m)

pub new_vip : (ℕ → String) → String × String → ℕ → VipAllocation
new_vip show_addr pair ip = record {
  meta = record empty_meta { name = allocation_name pair.0 pair.1 };
  vip_service = pair.0;
  vip_node = pair.1;
  vip = show_addr ip;
}

module _ (parse_addr : String → Option ℕ) (show_addr : ℕ → String) where
  -- reconcileAllocation
  unfoldable pub reconcile_vip : VipAllocation → VipPass → Option VipFault × VipPass
  unfolding release_vip
  reconcile_vip alloc p =
      let name = alloc.meta.name in
      let ip = parse_addr alloc.vip in
      let valid : Bool = elim ip [ none ↦ false | some x ↦ in_pool x ] in
      let duplicate : Bool = elim ip [ none ↦ false | some x ↦ valid && is_used p.used x ] in
      let used : List ℕ = elim ip [ none ↦ p.used | some x ↦ x ∷ p.used ] in
      let spec = lookup name p.want in
      let want = erase name p.want in
      let (e, m) = release_vip name alloc.meta.resource_version p.memory in
      elim spec [
        | none ↦ (vip_fault e, record { want = want; used = used; memory = m })
        | some pair ↦
            if not valid || duplicate
            then (vip_fault e, record { want = insert name pair want; used = used; memory = m })
            else (none, record { want = want; used = used; memory = p.memory })
      ]

  unfoldable pub reconcile_vip_each : List VipAllocation → VipPass → List VipFault × VipPass
  unfolding reconcile_vip
  reconcile_vip_each [] p = ([], p)
  reconcile_vip_each (a ∷ others) p =
      let (e, p') = reconcile_vip a p in
      let (es, p'') = reconcile_vip_each others p' in (join e es, p'')

  -- allocate
  unfoldable pub allocate_vip :
      ℕ → String × String → List ℕ → Memory → Option VipFault × List ℕ × Memory
  unfolding new_vip
  allocate_vip now pair used m = elim (first_free_vip used) [
    | none ↦ (some pool_exhausted, used, m)
    | some ip ↦
        let (e, m') =
          taken_is_fine (put now (vip_object (new_vip show_addr pair ip)) rev_create m) in
        (vip_fault e, ip ∷ used, m')
  ]

  unfoldable pub allocate_vip_each :
      ℕ → List (String × String) → List ℕ → Memory → List VipFault × List ℕ × Memory
  unfolding allocate_vip
  allocate_vip_each now [] used m = ([], used, m)
  allocate_vip_each now (pair ∷ pairs) used m =
      let (e, used', m') = allocate_vip now pair used m in
      let (es, used'', m'') = allocate_vip_each now pairs used' m' in (join e es, used'', m'')

  -- reconcile
  unfoldable pub reconcile_vips : ℕ → Memory → List VipFault × Memory
  unfolding vip_want reconcile_vip_each allocate_vip_each
  reconcile_vips now m =
      let services = services_in (list service_kind m).0 in
      let nodes = nodes_in (list node_kind m).0 in
      let start : VipPass = record { want = vip_want services nodes []; used = []; memory = m } in
      let (es, p) = reconcile_vip_each (vips_in (list vip_kind m).0) start in
      let wanted = map (λ w. w.1) (sort_by (λ w. w.0) p.want) in
      let (fs, used, m') = allocate_vip_each now wanted p.used p.memory in (es ++ fs, m')
