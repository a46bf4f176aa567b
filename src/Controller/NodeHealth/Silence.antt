-- ===== src/Controller/NodeHealth/Silence.antt =====
-- Which nodes lose their instances to reconcileNode of internal/controller/node.go.
use k_lite.Common.{
  Bool, Bool-cases, List, Map, Option, String, arith, eqb, false, inl, inr, none, refl, some, true,
  ℕ, ◌&&◌, ◌+◌, ◌∙◌, ◌≡◌,
}
use k_lite.Common.Int.{pos, ℤ, ◌≤ℤ◌}
use k_lite.Object.Types.{Instance, Node, NodeStatus, node_object, node_status}
use k_lite.Object.Registry.{instance_kind, kind_of, node_kind}
use k_lite.Store.{
  Entry, Error, Memory, Result, already_exists, conflict, delete_if_revision, err, invalid_name,
  invalid_rev, not_found, ok, put, unknown_kind,
}
use k_lite.Store.Laws.{put-other}
use k_lite.Controller.Scheduler.{race-memory}
use k_lite.Controller.NodeHealth.{
  absent_is_fine, after_write, delete_drained, evacuate_after, heartbeat_timeout, is_abandoned,
  is_pending_delete, reconcile_node, refreshed, silence_of, write_status,
}
use k_lite.Store.Changes.{delete_if_revision_effect}

abbrev insts_of : Memory → Map Entry
insts_of m = m.objs instance_kind

write_status-instances :
    (now : ℕ) (n : Node) (st : NodeStatus) (dirty : Bool) (m : Memory)
    → insts_of (write_status now n st dirty m).1 ≡ insts_of m
unfolding write_status kind_of
write_status-instances now n st false m = refl
write_status-instances now n st true m =
    let o = node_object (record n { status = some st }) in
    rw (race-memory (put now o (pos n.meta.resource_version) m))
      (put-other node_kind instance_kind now o (pos n.meta.resource_version) m refl refl)

fine-memory : (r : Result (Unit {0}) × Memory) → (absent_is_fine r).1 ≡ r.1
fine-memory (ok done, m) = refl
fine-memory (err not_found, m) = refl
fine-memory (err conflict, m) = refl
fine-memory (err already_exists, m) = refl
fine-memory (err invalid_name, m) = refl
fine-memory (err invalid_rev, m) = refl
fine-memory (err unknown_kind, m) = refl

node_delete-instances : (n : Node) (m : Memory) → insts_of (delete_drained n m).1 ≡ insts_of m
unfolding delete_drained
node_delete-instances n m =
    let x = pos n.meta.resource_version in
    rw (fine-memory (delete_if_revision node_kind n.meta.name x m))
      (elim (delete_if_revision_effect node_kind n.meta.name x m) [
        | inl q ↦ rw q refl
        | inr (e, at, rev, q) ↦ rw q refl
      ])

heard-is_abandoned :
    (silence : ℤ) (st : NodeStatus)
    → silence ≤ℤ pos (heartbeat_timeout + evacuate_after)
    → is_abandoned silence st ≡ false
unfolding is_abandoned
heard-is_abandoned silence st h = ground arith

after_write-instances :
    (r : Option Error × Memory) (name : String) (insts : List Instance)
    → insts_of (after_write r false name insts).1 ≡ insts_of r.1
unfolding after_write
after_write-instances (some e, m) name insts = refl
after_write-instances (none, m) name insts = refl

-- A node that was heard from within the timeout and the grace keeps its instances: reconcileNode
-- removes none of the instances in the store, whatever the node's phase and labels.
pub reconcile_node-keeps :
    (now : ℕ) (n : Node) (count : ℕ) (insts : List Instance) (m : Memory)
    → silence_of now (node_status n) ≤ℤ pos (heartbeat_timeout + evacuate_after)
    → (reconcile_node now n count insts m).1.objs instance_kind ≡ m.objs instance_kind
unfolding reconcile_node
reconcile_node-keeps now n count insts m h =
    let (st, dirty) = refreshed now n count in
    let heard = heard-is_abandoned (silence_of now (node_status n)) st h in
    elim (Bool-cases (is_pending_delete n.meta && eqb count 0)) [
      | inl e ↦ rw e (node_delete-instances n m)
      | inr e ↦
          rw (e, heard)
            (after_write-instances (write_status now n st dirty m) n.meta.name insts
              ∙ write_status-instances now n st dirty m)
    ]
