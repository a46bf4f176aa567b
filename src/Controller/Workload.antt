-- ===== src/Controller/Workload.antt =====
-- internal/controller/workload.go and rollout.go: the instances of each workload. Times are in
-- nanoseconds, as in Go's `time`. `template_hash` stands for object.TemplateHash, whose digest is
-- SHA-256, and `suffix n` for the n-th result of hexSuffix, which is random.
-- Replica counts are not negative, which Validate sees to; the slice of the scale-down would panic.
pub mod Roles
pub mod Steps
pub mod Partition
pub mod Keeps
pub mod Serving
use k_lite.Common.{
  Bool, List, Map, Option, String, [], any, concat, contains, eqb, false, if◌then◌else◌, insert,
  keep, leb, length, lookup, none, not, or_zero, some, suc, zero, ℕ, ◌&&◌, ◌*◌, ◌++◌, ◌+◌, ◌/◌,
  ◌==◌, ◌∷◌,
}
use k_lite.Common.Int.{ltb_ℤ, pos, pos_part}
use k_lite.Object.Types.{
  Container, Instance, Node, Template, Workload, WorkloadStatus, draining, empty_drain,
  empty_instance_status, empty_meta, instance_object, instance_status, is_node_phase, is_phase,
  node_draining, node_status, pending, phase_of, ready, workload_object,
}
use k_lite.Object.Registry.{instance_kind, node_kind, workload_kind}
use k_lite.Object.Envelopes.{instances_in, nodes_in, workloads_in}
use k_lite.Store.{
  Error, Memory, Result, already_exists, conflict, delete_if_revision, err, invalid_name,
  invalid_rev, list, not_found, ok, put, rev_create, unknown_kind,
}
use k_lite.Controller.{join}
use k_lite.Controller.Scheduler.{lost_race_is_fine}
use k_lite.Controller.Workload.Roles.{
  Step, classify, fall_back, restore, roll, scale_down, step_of, surge, wait,
}

abbrev pub second : ℕ
second = 1000000000

abbrev pub default_drain_timeout_seconds : ℕ
default_drain_timeout_seconds = 30

abbrev pub cas_retries : ℕ
cas_retries = 5

-- The errors of the controller.
pub data Fault : Type 0 where
  store_fault : Error → Fault
  not_one_container : String → Fault
  hash_fault : String → Fault
  kept_colliding : String → Fault

-- The state of the pass: the store, the deadlines by UID, how many suffixes were drawn, and the
-- names of the listed instances that `retire` has marked DRAINING in place, which later readers of
-- the same listing see.
pub record Pass : Type 0 where
  pub memory : Memory
  pub deadlines : Map ℕ
  pub rolls : ℕ
  pub marked : List String

-- drainTimeout
unfoldable pub drain_timeout : Instance → ℕ
drain_timeout inst =
    let s = (or_zero empty_drain inst.spec.drain).drain_timeout_seconds in
    if ltb_ℤ (pos 0) s then pos_part s * second else default_drain_timeout_seconds * second

-- deleteInstance
unfoldable pub delete_instance : Instance → Pass → Option Fault × Pass
delete_instance inst p =
    let (r, m) =
      delete_if_revision instance_kind inst.meta.name (pos inst.meta.resource_version) p.memory in
    (
      elim r [
        | ok done ↦ none
        | err e ↦ elim e [
          | not_found ↦ none
          | conflict ↦ none
          | already_exists ↦ some (store_fault already_exists)
          | invalid_name ↦ some (store_fault invalid_name)
          | invalid_rev ↦ some (store_fault invalid_rev)
          | unknown_kind ↦ some (store_fault unknown_kind)
        ]
      ],
      record p { memory = m },
    )

pub retired : Instance → String → Instance
retired inst reason = record inst {
  status = some (record (instance_status inst) { phase = draining; message = reason });
}

-- What retire does after its write.
unfoldable pub after_retire : ℕ → Instance → Result ℕ → Pass → Option Fault × Pass
unfolding drain_timeout
after_retire now inst (ok r) p =
    (none, record p { deadlines = insert inst.meta.uid (now + drain_timeout inst) p.deadlines })
after_retire now inst (err conflict) p = (none, p)
after_retire now inst (err e) p = (some (store_fault e), p)

-- retire
unfoldable pub retire : ℕ → Instance → String → Pass → Option Fault × Pass
unfolding delete_instance retired after_retire
retire now inst reason p =
    if not (is_phase (phase_of inst) ready)
    then delete_instance inst p
    else let (r, m) =
        put (now / second) (instance_object (retired inst reason)) (pos inst.meta.resource_version)
          p.memory in
      after_retire now inst r (record p { memory = m; marked = inst.meta.name ∷ p.marked })

-- One turn of expireDrains.
unfoldable pub expire_drain : ℕ → Instance → Pass → Option Fault × Pass
unfolding drain_timeout delete_instance
expire_drain now inst p = elim (lookup inst.meta.uid p.deadlines) [
  | none ↦
      (none, record p { deadlines = insert inst.meta.uid (now + drain_timeout inst) p.deadlines })
  | some deadline ↦ if leb deadline now then delete_instance inst p else (none, p)
]

-- The loops over instances, which collect the errors.
unfoldable pub each :
    (Instance → Pass → Option Fault × Pass) → List Instance → Pass → List Fault × Pass
each f [] p = ([], p)
each f (i ∷ is) p = let (e, p') = f i p in let (es, p'') = each f is p' in (join e es, p'')

-- What createInstance does after a try: `again` is the next one.
abbrev pub after_try : Result ℕ → Option Fault × Pass → Pass → Option Fault × Pass
after_try (ok n) again p = (none, p)
after_try (err already_exists) again p = again
after_try (err e) again p = (some (store_fault e), p)

module _ (suffix : ℕ → String) where
  pub new_instance : Workload → Container → String → String → Instance
  new_instance w container hash name = record {
    meta = record empty_meta { name = name; labels = w.spec.template.template_labels };
    spec = record {
      workload = w.meta.name;
      node = "";
      container = container;
      template_hash = hash;
      drain = w.spec.drain;
    };
    status = some (record empty_instance_status { phase = pending });
  }

  -- createInstance, with the tries that are left
  unfoldable pub create_tries : ℕ → ℕ → Workload → Container → String → Pass → Option Fault × Pass
  unfolding new_instance
  create_tries zero now w container hash p = (some (kept_colliding w.meta.name), p)
  create_tries (suc tries) now w container hash p =
      let name = concat w.meta.name (concat "-" (suffix p.rolls)) in
      let (r, m) =
        put (now / second) (instance_object (new_instance w container hash name)) rev_create
          p.memory in
      let p' : Pass = record p { memory = m; rolls = p.rolls + 1 } in
      let again = create_tries tries now w container hash p' in after_try r again p'

  unfoldable pub create_instance : ℕ → Workload → Container → String → Pass → Option Fault × Pass
  unfolding create_tries
  create_instance now w container hash p = create_tries cas_retries now w container hash p

  unfoldable pub create_many : ℕ → ℕ → Workload → Container → String → Pass → List Fault × Pass
  unfolding create_instance
  create_many zero now w container hash p = ([], p)
  create_many (suc n) now w container hash p =
      let (e, p') = create_instance now w container hash p in
      let (es, p'') = create_many n now w container hash p' in (join e es, p'')

  -- The action of a step.
  unfoldable pub perform : Step → ℕ → Workload → Container → String → Pass → List Fault × Pass
  unfolding retire create_many each
  perform (scale_down is) now w container hash p = each (λ i. retire now i "scale-down") is p
  perform (restore n) now w container hash p = create_many n now w container hash p
  perform wait now w container hash p = ([], p)
  perform surge now w container hash p = create_many 1 now w container hash p
  perform (roll i) now w container hash p = each (λ j. retire now j "rollout") (i ∷ []) p
  perform (fall_back i) now w container hash p =
      each (λ j. retire now j "drain-first fallback: no capacity to surge") (i ∷ []) p

  -- advance
  unfoldable pub advance :
      ℕ → Workload → Container → String → List Instance → List String → Pass → List Fault × Pass
  unfolding each delete_instance expire_drain perform classify step_of
  advance now w container hash instances draining_nodes p =
      let g = classify hash instances draining_nodes in
      let (es, p1) = each delete_instance g.doomed p in
      let (fs, p2) = each (expire_drain now) g.in_drain p1 in
      let (gs, p3) = perform (step_of (pos_part w.spec.replicas) g) now w container hash p2 in
      (es ++ fs ++ gs, p3)

-- proto.Equal on the two statuses
abbrev pub status_eq : Option WorkloadStatus → WorkloadStatus → Bool
status_eq none b = false
status_eq (some a) b =
    eqb a.ready_instances b.ready_instances
    && eqb a.total_instances b.total_instances
    && a.status_hash == b.status_hash

-- The counts that updateStatus observes.
unfoldable pub observed : String → List Instance → List String → WorkloadStatus
observed hash instances marked = record {
  ready_instances =
      length
        (keep (λ i. is_phase (phase_of i) ready && not (contains marked i.meta.name)) instances);
  total_instances = length instances;
  status_hash = hash;
}

-- updateStatus
unfoldable pub update_status : ℕ → Workload → String → List Instance → Pass → Option Fault × Pass
unfolding observed
update_status now w hash instances p =
    let next = observed hash instances p.marked in
    if status_eq w.status next
    then (none, p)
    else let (e, m) = lost_race_is_fine (
        put (now / second) (workload_object (record w { status = some next }))
          (pos w.meta.resource_version) p.memory) in
      (elim e [ none ↦ none | some x ↦ some (store_fault x) ], record p { memory = m })

-- drainingNodes
unfoldable pub draining_nodes_of : List Node → List String
draining_nodes_of [] = []
draining_nodes_of (n ∷ ns) =
    let rest = draining_nodes_of ns in
    if is_node_phase (node_status n).phase node_draining then n.meta.name ∷ rest else rest

-- The container of a template that holds exactly one.
unfoldable pub one_container : List Container → Option Container
one_container [] = none
one_container (c ∷ []) = some c
one_container (c ∷ d ∷ ds) = none

module _ (template_hash : Template → Option String) (suffix : ℕ → String) where
  -- reconcileWorkload
  unfoldable pub reconcile_workload :
      ℕ → Workload → List Instance → List String → Pass → List Fault × Pass
  unfolding advance update_status one_container
  reconcile_workload now w instances draining_nodes p =
      elim (one_container w.spec.template.containers) [
        | none ↦ (not_one_container w.meta.name ∷ [], p)
        | some c ↦ elim (template_hash w.spec.template) [
          | none ↦ (hash_fault w.meta.name ∷ [], p)
          | some hash ↦
              let (es, p1) = advance suffix now w c hash instances draining_nodes p in
              let (e, p2) = update_status now w hash instances p1 in (es ++ join e [], p2)
        ]
      ]

  unfoldable pub reconcile_each :
      ℕ → List Workload → List Instance → List String → Pass → List Fault × Pass
  unfolding reconcile_workload
  reconcile_each now [] insts draining_nodes p = ([], p)
  reconcile_each now (w ∷ ws) insts draining_nodes p =
      let owned = keep (λ i. i.spec.workload == w.meta.name) insts in
      let (es, p1) = reconcile_workload now w owned draining_nodes p in
      let (fs, p2) = reconcile_each now ws insts draining_nodes p1 in (es ++ fs, p2)

  -- reconcile. Orphans go in the order of the listing, where Go's map leaves the order open.
  unfoldable pub reconcile_workloads : ℕ → Pass → List Fault × Pass
  unfolding reconcile_each draining_nodes_of each delete_instance
  reconcile_workloads now p =
      let wls = workloads_in (list workload_kind p.memory).0 in
      let insts = instances_in (list instance_kind p.memory).0 in
      let nodes = draining_nodes_of (nodes_in (list node_kind p.memory).0) in
      let known = keep (λ d. any (λ i. i.meta.uid == d.0) insts) p.deadlines in
      let p0 : Pass = record p { deadlines = known } in
      let (es, p1) = reconcile_each now wls insts nodes p0 in
      let orphans = keep (λ i. not (any (λ w. w.meta.name == i.spec.workload) wls)) insts in
      let (fs, p2) = each delete_instance orphans p1 in (es ++ fs, p2)
