-- ===== src/Server/Examples.antt =====
-- A node, an instance and their stores, and the server theorems at them.
use k_lite.Server.Cluster.{
  apply_one, apply_valid, decide_apply, decide_drain, decide_mark, decide_uncordon, drop_status,
  is_materialized, merge_kind, merge_spec, sanitize,
}
use k_lite.Object.Registry.{Kind, instance_kind, kind_of, meta_of, node_kind, with_meta}
use k_lite.Server.Agent.{
  StatusUpdate, apply_instance_status, decide_report, decide_stamp, decide_status, free_node_index,
  stored,
}
use k_lite.Server.Indexes.{
  IsFreeIndex, decisions-index, free_node_index-IsFreeIndex, index_in, target,
}
use k_lite.Server.Auth.{Caller, admitted, authorize, node_principal, principal_of, recv_all}
use k_lite.Store.{
  Entry, Memory, admit, commit, empty_memory, get, ok, put, put_as, set_bucket, valid_name,
}
use k_lite.Common.{
  Bool, List, Option, String, [], any, false, insert, lookup, none, refl, some, sort_by, ℕ, ◌∷◌,
  ◌≡◌, ◌⊎◌,
}
use k_lite.Object.Types.{
  Node, Object, empty_instance_status, empty_meta, empty_node_status, node_object, node_ready,
  running,
}
use k_lite.Store.Examples.{
  empty_memory-IsBounded, one_instance, one_instance-IsBounded, serving_entry, serving_instance,
}
use k_lite.Common.Int.{pos}
use k_lite.Server.Cas.{cas_loop, cas_turn, cas_write, settle}
use k_lite.Store.Changes.{IsBounded, Reach, Reach-IsBounded, here, next, wrote}
use k_lite.Server.Gate.{IsEntitled, authorize-IsEntitled, is_foreign, recv_all_own}
use k_lite.Server.Forward.{IsForward, IsPinned-decide_status, apply_instance_status-IsForward}
use k_lite.Object.Defaults.{default_object}
use k_lite.Server.Atomic.{IsAtomic, cas_loop-IsAtomic}
use k_lite.Object.Validate.{validate}
use k_lite.Server.Owned.{IsOwned, apply_one-IsOwned}
use k_lite.Server.Drain.{Narrator, force_delete, new_narrator, view_of}
use k_lite.Server.Forced.{force_delete-keeps}
use k_lite.Server.Moments.{IsMoment}

abbrev none_other : ℕ → Memory → Memory
none_other j m = m

quiet : (j : ℕ) (n : Memory) → Reach n (none_other j n)
quiet j n = here

abbrev running_update : StatusUpdate
running_update = record {
  update_name = "web-1";
  update_uid = "u";
  update_status = some (record empty_instance_status { phase = running });
}

abbrev reported_store : Memory
reported_store = (apply_instance_status 9 none_other "n1" running_update one_instance).1

cas_loop-IsAtomic_example :
    (s : Memory) × IsMoment 9 none_other instance_kind "web-1"
      (decide_status "n1" running_update)
      5
      0
      one_instance
      s
    × IsAtomic 9 instance_kind "web-1" (decide_status "n1" running_update) stored s reported_store
unfolding apply_instance_status cas_loop cas_turn cas_write settle get put put_as admit commit
    valid_name kind_of meta_of with_meta lookup insert decide_status decide_report
cas_loop-IsAtomic_example =
    cas_loop-IsAtomic 9 none_other instance_kind "web-1" (decide_status "n1" running_update)
      (IsPinned-decide_status "n1" running_update) 5 0 one_instance reported_store stored
      one_instance-IsBounded quiet refl

apply_instance_status-IsForward_example :
    IsForward 9 none_other one_instance reported_store "n1" running_update
unfolding apply_instance_status cas_loop cas_turn cas_write settle get put put_as admit commit
    valid_name kind_of meta_of with_meta lookup insert decide_status decide_report
apply_instance_status-IsForward_example =
    apply_instance_status-IsForward "n1" running_update 9 none_other one_instance reported_store
      one_instance-IsBounded quiet refl

abbrev joined_node : Node
joined_node = record {
  meta = record empty_meta { name = "n1"; uid = "v"; created_unix = 5 };
  max_instances = pos 4;
  status = some (record empty_node_status { phase = node_ready; node_index = 2 });
}

abbrev node_entry : Entry
node_entry = record { obj = node_object joined_node; rev = 1 }

abbrev one_node : Memory
one_node = record {
  rev = 1;
  uid = 1;
  objs = set_bucket empty_memory node_kind (insert "n1" node_entry []);
}

one_node-IsBounded : IsBounded one_node
unfolding kind_of meta_of
one_node-IsBounded =
    Reach-IsBounded (next here (wrote node_kind "n1" node_entry (refl, refl) refl refl refl))
      empty_memory-IsBounded

abbrev applied_node : Object
applied_node = node_object (record joined_node { max_instances = pos 6; status = none })

abbrev unequal : Object → Object → Bool
unequal a b = false

abbrev applied_store : Memory
applied_store = (apply_one 9 none_other unequal applied_node one_node).1

apply_one-IsOwned_example :
    (k : Kind) × (kind_of applied_node ≡ some k)
    × IsOwned 9 none_other
        (decide_apply unequal (sanitize applied_node).1 (default_object (sanitize applied_node).0))
        one_node
        applied_store
        k
        (default_object (sanitize applied_node).0)
unfolding apply_one apply_valid cas_loop cas_turn cas_write settle get put put_as admit commit
    valid_name kind_of meta_of with_meta lookup insert decide_apply default_object sanitize
    drop_status validate merge_spec merge_kind is_materialized sort_by
apply_one-IsOwned_example =
    apply_one-IsOwned unequal 9 none_other applied_node false one_node applied_store
      one_node-IsBounded quiet refl

free_node_index-IsFreeIndex_example : IsFreeIndex (2 ∷ []) (free_node_index (joined_node ∷ []))
free_node_index-IsFreeIndex_example = free_node_index-IsFreeIndex (joined_node ∷ [])

decisions-index_example :
    let o = node_object joined_node in
    (index_in (target (decide_stamp 9 "" (ok (o, 1))) o) ≡ 2)
    × (index_in (target (decide_drain (ok (o, 1))) o) ≡ 2)
    × (index_in (target (decide_uncordon (ok (o, 1))) o) ≡ 2)
    × (index_in (target (decide_mark (ok (o, 1))) o) ≡ 2)
decisions-index_example = decisions-index 9 "" (node_object joined_node) 1

recv_all_own_example :
    (any (is_foreign "n1") (recv_all "n1" false ("n1" ∷ "" ∷ "n2" ∷ [])) ≡ false)
    × ((recv_all "n1" false ("n1" ∷ "" ∷ "n2" ∷ []) ≡ [])
        ⊎ ((rest : List String) × (recv_all "n1" false ("n1" ∷ "" ∷ "n2" ∷ []) ≡ "n1" ∷ rest)))
recv_all_own_example = recv_all_own "n1" ("n1" ∷ "" ∷ "n2" ∷ [])

-- Finds every prefix.
abbrev any_prefix : String → String → Option String
any_prefix s prefix = some s

abbrev certified_caller : Caller
certified_caller = record { peer = some "n1"; headers = [] }

authorize-IsEntitled_example : IsEntitled any_prefix "t" certified_caller "/envoy.service.ads"
unfolding authorize principal_of admitted
authorize-IsEntitled_example =
    authorize-IsEntitled any_prefix "t" certified_caller "/envoy.service.ads" (node_principal "n1")
      refl

abbrev watching : Narrator
watching = record (new_narrator "n1") { prev = insert "web-1" (view_of serving_instance) [] }

force_delete-keeps_example :
    lookup "web-1" ((force_delete watching one_instance).2.objs instance_kind) ≡ some serving_entry
unfolding lookup insert view_of
force_delete-keeps_example =
    force_delete-keeps watching "web-1" serving_entry one_instance refl refl
