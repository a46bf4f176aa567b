-- ===== src/Controller/NodeHealth.antt =====
-- internal/controller/node.go: silent nodes turn NOT_READY, are evacuated after a grace, and drains
-- end. The listing is a list of copies, so the changes of a node's status stay in its own turn.
-- Times and silences are whole seconds; a heartbeat from the future gives a negative silence.
pub mod Phases
pub mod Silence
use k_lite.Common.{
  Bool, List, Map, Option, String, [], eqb, false, if◌then◌else◌, lookup, ltb, none, not, or_zero,
  some, true, ℕ, ◌&&◌, ◌++◌, ◌+◌, ◌==◌, ◌||◌, ◌∷◌,
}
use k_lite.Common.Int.{ltb_ℤ, pos, ℤ, ◌-ℤ◌}
use k_lite.Object.Types.{
  Instance, Meta, Node, NodeStatus, is_node_phase, node_draining, node_object, node_ready,
  node_status, not_ready,
}
use k_lite.Object.Registry.{instance_kind, node_kind}
use k_lite.Object.Envelopes.{instances_in, nodes_in}
use k_lite.Store.{
  Error, Memory, Result, conflict, delete_if_revision, err, list, not_found, ok, put,
}
use k_lite.Controller.{count_of, join}
use k_lite.Controller.Scheduler.{bound_counts, lost_race_is_fine}

abbrev pub heartbeat_timeout : ℕ
heartbeat_timeout = 15

abbrev pub evacuate_after : ℕ
evacuate_after = 30

abbrev pub label_pending_delete : String
label_pending_delete = "klite.io/pending-delete"

-- The switch of phaseTransition: the status after it, and whether it changed anything.
unfoldable pub transition : NodeStatus → Bool → Bool → Bool → NodeStatus × Bool
transition st late pending_delete empty =
    let is_ready = is_node_phase st.phase node_ready in
    let is_draining = is_node_phase st.phase node_draining in
    if late && (is_ready || is_draining)
    then (record st { phase = not_ready }, true)
    else if pending_delete && (is_ready || not st.unschedulable)
    then (record st { phase = node_draining; unschedulable = true }, true)
    else if is_draining && empty
    then (record st { phase = node_ready }, true)
    else (st, false)

-- phaseTransition
unfoldable pub phase_transition : NodeStatus → ℤ → ℕ → Bool → NodeStatus × Bool
unfolding transition
phase_transition st silence count pending_delete =
    transition st (ltb_ℤ (pos heartbeat_timeout) silence) pending_delete (eqb count 0)

-- How long the node has been silent; a node that never sent a heartbeat has nothing to time out.
unfoldable pub silence_of : ℕ → NodeStatus → ℤ
silence_of now st =
    if ltb 0 st.last_heartbeat_unix then pos now -ℤ pos st.last_heartbeat_unix else pos 0

-- An error of a pinned delete that the next pass decides on again.
abbrev pub absent_is_fine : Result (Unit {0}) × Memory → Option Error × Memory
absent_is_fine (ok done, m) = (none, m)
absent_is_fine (err not_found, m) = (none, m)
absent_is_fine (err conflict, m) = (none, m)
absent_is_fine (err e, m) = (some e, m)

-- evacuate
unfoldable pub evacuate : String → List Instance → Memory → List Error × Memory
evacuate node [] m = ([], m)
evacuate node (i ∷ is) m =
    let skipped = evacuate node is m in
    let (e, m') =
      absent_is_fine
        (delete_if_revision instance_kind i.meta.name (pos i.meta.resource_version) m) in
    let (es, m'') = evacuate node is m' in
    if not (i.spec.node == node) then skipped else (join e es, m'')

-- Whether the label asks for the deletion of the node.
unfoldable pub is_pending_delete : Meta → Bool
is_pending_delete meta = or_zero "" (lookup label_pending_delete meta.labels) == "true"

-- The write of a changed status.
unfoldable pub write_status : ℕ → Node → NodeStatus → Bool → Memory → Option Error × Memory
write_status now node st dirty m =
    if dirty
    then lost_race_is_fine (
        put now (node_object (record node { status = some st })) (pos node.meta.resource_version) m)
    else (none, m)

-- The status after phaseTransition and the recount, and whether it changed.
unfoldable pub refreshed : ℕ → Node → ℕ → NodeStatus × Bool
unfolding phase_transition silence_of is_pending_delete
refreshed now node count =
    let st = node_status node in
    let (st1, moved) =
      phase_transition st (silence_of now st) count (is_pending_delete node.meta) in
    let recounted = not (eqb count st1.instance_count) in
    (if recounted then record st1 { instance_count = count } else st1, moved || recounted)

-- Whether the node has been lost for longer than the grace.
unfoldable pub is_abandoned : ℤ → NodeStatus → Bool
is_abandoned silence st =
    is_node_phase st.phase not_ready && ltb_ℤ (pos (heartbeat_timeout + evacuate_after)) silence

-- What follows the write of the status.
unfoldable pub after_write :
    Option Error × Memory → Bool → String → List Instance → List Error × Memory
unfolding evacuate
after_write (some e, m) abandoned name insts = (e ∷ [], m)
after_write (none, m) true name insts = evacuate name insts m
after_write (none, m) false name insts = ([], m)

-- The deletion of an empty node.
unfoldable pub delete_drained : Node → Memory → List Error × Memory
delete_drained node m =
    let (e, m') =
      absent_is_fine
        (delete_if_revision node_kind node.meta.name (pos node.meta.resource_version) m) in
    (join e [], m')

-- reconcileNode
unfoldable pub reconcile_node : ℕ → Node → ℕ → List Instance → Memory → List Error × Memory
unfolding silence_of is_pending_delete write_status refreshed is_abandoned after_write
    delete_drained
reconcile_node now node count insts m =
    let (st, dirty) = refreshed now node count in
    let silence = silence_of now (node_status node) in
    if is_pending_delete node.meta && eqb count 0
    then delete_drained node m
    else after_write (write_status now node st dirty m) (is_abandoned silence st) node.meta.name
        insts

unfoldable pub reconcile_node_each :
    ℕ → List Node → Map ℕ → List Instance → Memory → List Error × Memory
unfolding reconcile_node
reconcile_node_each now [] counts insts m = ([], m)
reconcile_node_each now (n ∷ ns) counts insts m =
    let (es, m') = reconcile_node now n (count_of n.meta.name counts) insts m in
    let (fs, m'') = reconcile_node_each now ns counts insts m' in (es ++ fs, m'')

unfoldable pub reconcile_nodes : ℕ → Memory → List Error × Memory
unfolding bound_counts reconcile_node_each
reconcile_nodes now m =
    let nodes = nodes_in (list node_kind m).0 in
    let insts = instances_in (list instance_kind m).0 in
    reconcile_node_each now nodes (bound_counts insts []) insts m
