-- ===== src/Controller/Scheduler.antt =====
-- internal/controller/scheduler.go: pending instances are bound to nodes.
pub mod Choice
pub mod Capacity
pub mod Bound
pub mod Filled
use k_lite.Common.{
  Bool, List, Map, Option, String, [], concat, eqb, if◌then◌else◌, insert, keep, lookup, ltb, none,
  not, or_zero, refl, some, str_lt, true, ℕ, ◌&&◌, ◌==◌, ◌||◌, ◌∷◌, ◌≡◌,
}
use k_lite.Common.Int.{leb_ℤ, pos}
use k_lite.Object.Types.{
  Instance, Node, Workload, empty_instance_status, instance_object, instance_status, is_node_phase,
  is_phase, node_ready, node_status, pending, phase_of,
}
use k_lite.Object.Registry.{instance_kind, node_kind, workload_kind}
use k_lite.Object.Envelopes.{instances_in, nodes_in, workloads_in}
use k_lite.Store.{
  Error, Memory, Result, already_exists, conflict, err, invalid_name, invalid_rev, list, not_found,
  ok, put, unknown_kind,
}
use k_lite.Controller.{bump, count_of, join}

abbrev pub msg_no_capacity : String
msg_no_capacity = "no ready schedulable node with free capacity"

-- The message with `%q`; a pin is a DNS label, which needs no escapes.
abbrev pub msg_pinned : String → String
msg_pinned pin = concat "pinned node \"" (concat pin "\" is not schedulable")

-- The tests of the loop in pickNode that skip a node.
unfoldable pub is_feasible : String → Map ℕ → Node → Bool
is_feasible pin counts n =
    let name = n.meta.name in
    not (not (pin == "") && not (name == pin))
    && is_node_phase (node_status n).phase node_ready
    && not (node_status n).unschedulable
    && not (leb_ℤ n.max_instances (pos (count_of name counts)))

-- Whether the node displaces the best one so far.
unfoldable pub is_better : Map ℕ → Node → Option Node → Bool
is_better counts n none = true
is_better counts n (some best) =
    ltb (count_of n.meta.name counts) (count_of best.meta.name counts)
    || (eqb (count_of n.meta.name counts) (count_of best.meta.name counts)
        && str_lt n.meta.name best.meta.name)

unfoldable pub pick_loop : String → Map ℕ → List Node → Option Node → Option Node
pick_loop pin counts [] best = best
pick_loop pin counts (n ∷ ns) best =
    pick_loop pin counts ns
      (if is_feasible pin counts n && is_better counts n best then some n else best)

-- pickNode: the node, or the reason why there is none
pub data Pick : Type 0 where
  picked : String → Pick
  refused : String → Pick

unfoldable pub pick_node : String → List Node → Map ℕ → Pick
unfolding pick_loop
pick_node pin nodes counts = elim (pick_loop pin counts nodes none) [
  | some best ↦ picked best.meta.name
  | none ↦ if not (pin == "") then refused (msg_pinned pin) else refused msg_no_capacity
]

-- The error of a write whose conflict is left to the next pass.
abbrev pub lost_race_is_fine : Result ℕ × Memory → Option Error × Memory
lost_race_is_fine (ok r, m) = (none, m)
lost_race_is_fine (err conflict, m) = (none, m)
lost_race_is_fine (err e, m) = (some e, m)

pub race-memory : (r : Result ℕ × Memory) → (lost_race_is_fine r).1 ≡ r.1
race-memory (ok n, m) = refl
race-memory (err conflict, m) = refl
race-memory (err not_found, m) = refl
race-memory (err already_exists, m) = refl
race-memory (err invalid_name, m) = refl
race-memory (err invalid_rev, m) = refl
race-memory (err unknown_kind, m) = refl

pub bound_to : Instance → String → Instance
bound_to inst node = record inst {
  spec = record inst.spec { node = node };
  status = some (record (or_zero (record empty_instance_status { phase = pending }) inst.status) {
    message = "";
  });
}

-- bind
unfoldable pub bind : ℕ → Instance → String → Memory → Option Error × Memory
unfolding bound_to
bind now inst node m =
    lost_race_is_fine
      (put now (instance_object (bound_to inst node)) (pos inst.meta.resource_version) m)

pub explained : Instance → String → Instance
explained inst reason = record inst {
  status = some (record (instance_status inst) { phase = pending; message = reason });
}

-- explainPending
unfoldable pub explain_pending : ℕ → Instance → String → Memory → Option Error × Memory
unfolding explained
explain_pending now inst reason m =
    if (instance_status inst).message == reason && is_phase (phase_of inst) pending
    then (none, m)
    else lost_race_is_fine
        (put now (instance_object (explained inst reason)) (pos inst.meta.resource_version) m)

-- The first loop of reconcile counts the bound instances.
unfoldable pub bound_counts : List Instance → Map ℕ → Map ℕ
bound_counts [] counts = counts
bound_counts (i ∷ is) counts =
    bound_counts is (if not (i.spec.node == "") then bump i.spec.node counts else counts)

-- The pins of the workloads.
unfoldable pub pins_of : List Workload → Map String → Map String
pins_of [] pins = pins
pins_of (w ∷ ws) pins =
    pins_of ws
      (if not (w.spec.node_name == "") then insert w.meta.name w.spec.node_name pins else pins)

-- One turn of the last loop, where an empty name is no node: the error, the counts and the store after it.
unfoldable pub place :
    ℕ → Map String → List Node → Instance → Map ℕ → Memory → Option Error × Map ℕ × Memory
place now pins nodes inst counts m =
    elim (pick_node (or_zero "" (lookup inst.spec.workload pins)) nodes counts) [
      | refused reason ↦ let (e, m') = explain_pending now inst reason m in (e, counts, m')
      | picked node ↦
          let (e, m') = bind now inst node m in
          let (e', m'') = explain_pending now inst "" m in
          if node == ""
          then (e', counts, m'')
          else (e, elim e [ some x ↦ counts | none ↦ bump node counts ], m')
    ]

unfoldable pub place_all :
    ℕ → Map String → List Node → List Instance → Map ℕ → Memory → List Error × Map ℕ × Memory
unfolding place
place_all now pins nodes [] counts m = ([], counts, m)
place_all now pins nodes (i ∷ is) counts m =
    let (e, counts', m') = place now pins nodes i counts m in
    let (es, counts'', m'') = place_all now pins nodes is counts' m' in (join e es, counts'', m'')

unfoldable pub schedule : ℕ → Memory → List Error × Memory
unfolding bound_counts pins_of place_all
schedule now m =
    let insts = instances_in (list instance_kind m).0 in
    let nodes = nodes_in (list node_kind m).0 in
    let pins = pins_of (workloads_in (list workload_kind m).0) [] in
    let waiting = keep (λ i. i.spec.node == "") insts in
    let (es, counts, m') = place_all now pins nodes waiting (bound_counts insts []) m in (es, m')
