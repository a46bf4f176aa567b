-- ===== src/Controller/Examples.antt =====
-- Concrete nodes and instances, and the controllers' theorems at them.
use k_lite.Common.{
  List, String, [], if◌then◌else◌, insert, insert_by, insert_with, lookup, max, none, refl, some,
  sort_by, sort_with, true, ◌<◌, ◌∷◌, ◌≡◌, ◌≤◌, ◌⊎◌,
}
use k_lite.Common.Int.{pos}
use k_lite.Object.Types.{
  Instance, InstancePhase, Node, Workload, empty_instance_status, empty_meta, empty_node_status,
  instance_object, node_object, node_ready, pending, ready,
}
use k_lite.Object.Registry.{instance_kind, is_kind, kind_of, meta_of, node_kind, with_meta}
use k_lite.Store.{Entry, Memory, empty_memory, list, read_entry, set_bucket}
use k_lite.Store.Changes.{IsBounded, Reach-IsBounded, here, next, wrote}
use k_lite.Controller.Scheduler.{is_better, is_feasible, pick_loop, pick_node, picked, schedule}
use k_lite.Controller.Scheduler.Choice.{IsChoice, pick_node-IsChoice}
use k_lite.Controller.Workload.{Pass, reconcile_each}
use k_lite.Controller.Workload.Roles.{classify, classify_loop, newer, roll, roll_step, step_of}
use k_lite.Controller.Workload.Steps.{IsSafe, step_of-IsSafe}
use k_lite.Controller.Workload.Keeps.{is_serving}
use k_lite.Controller.Workload.Serving.{reconcile_each-keeps}
use k_lite.Controller.Scheduler.Bound.{bound_in}
use k_lite.Controller.Workload.Partition.{IsPartition, classify-IsPartition}
use k_lite.Controller.Scheduler.Filled.{schedule-capacity}

abbrev node_of : String → Node
node_of n = record {
  meta = record empty_meta { name = n };
  max_instances = pos 2;
  status = some (record empty_node_status { phase = node_ready });
}

abbrev two_nodes : List Node
two_nodes = node_of "n2" ∷ node_of "n1" ∷ []

abbrev instance_of : String → String → InstancePhase → Instance
instance_of name hash phase = record {
  meta = record empty_meta { name = name; uid = name; created_unix = 5; resource_version = 1 };
  spec = record {
    workload = "web";
    node = "n1";
    container = record {
      container_name = "main";
      image = "app";
      env = [];
      ports = [];
      readiness_probe = none;
    };
    template_hash = hash;
    drain = none;
  };
  status = some (record empty_instance_status { phase = phase });
}

pick_n1 : pick_node "" two_nodes (("n2", 1) ∷ []) ≡ picked "n1"
unfolding pick_node pick_loop is_feasible is_better lookup
pick_n1 = refl

pick_node-IsChoice_example :
    IsChoice "" (("n2", 1) ∷ []) two_nodes (pick_node "" two_nodes (("n2", 1) ∷ []))
pick_node-IsChoice_example = pick_node-IsChoice "" two_nodes (("n2", 1) ∷ [])

-- A node with room for two, and three instances that wait for a node.
abbrev waiting_entry : String → Entry
waiting_entry name =
    let i = instance_of name "h" pending in
    record { obj = instance_object (record i { spec = record i.spec { node = "" } }); rev = 1 }

abbrev waiting_store : Memory
waiting_store = record {
  rev = 1;
  uid = 0;
  objs = λ k.
      if is_kind k node_kind
      then insert "n1" (record { obj = node_object (node_of "n1"); rev = 1 }) []
      else if is_kind k instance_kind
      then insert "a" (waiting_entry "a")
          (insert "b" (waiting_entry "b") (insert "c" (waiting_entry "c") []))
      else [];
}

schedule-capacity_example :
    bound_in "n1" (schedule 0 waiting_store).1 ≤ max (bound_in "n1" waiting_store) 2
unfolding list read_entry sort_by insert_by with_meta meta_of insert
schedule-capacity_example = schedule-capacity 0 waiting_store (λ n. 2) "n1" refl refl

abbrev rolling : List Instance
rolling = instance_of "old" "g" ready ∷ instance_of "new" "h" ready ∷ []

classify-IsPartition_example : IsPartition "h" [] rolling (classify "h" rolling [])
classify-IsPartition_example = classify-IsPartition "h" rolling []

step_of-IsSafe_example :
    IsSafe 1 rolling (classify "h" rolling []) (step_of 1 (classify "h" rolling []))
step_of-IsSafe_example = step_of-IsSafe 1 "h" rolling []

rolls_old : step_of 1 (classify "h" rolling []) ≡ roll (instance_of "old" "g" ready)
unfolding step_of roll_step classify classify_loop sort_with insert_with newer
rolls_old = refl

abbrev old_entry : Entry
old_entry = record { obj = instance_object (instance_of "old" "g" ready); rev = 1 }

abbrev serving_store : Memory
serving_store = record {
  rev = 1;
  uid = 0;
  objs = set_bucket empty_memory instance_kind (insert "old" old_entry []);
}

no_entries : IsBounded empty_memory
unfolding lookup
no_entries = record {
  below = λ k name e h. absurd (cc h);
  positive = λ k name e h. absurd (cc h);
  filed = λ k name e h. absurd (cc h);
}

serving_store-IsBounded : IsBounded serving_store
unfolding kind_of meta_of
serving_store-IsBounded =
    Reach-IsBounded (next here (wrote instance_kind "old" old_entry (refl, refl) refl refl refl))
      no_entries

abbrev web : Workload
web = record {
  meta = record empty_meta { name = "web" };
  spec = record {
    replicas = pos 0;
    node_name = "";
    template = record {
      template_labels = [];
      containers = (instance_of "x" "h" ready).spec.container ∷ [];
    };
    drain = none;
  };
  status = none;
}

abbrev web_pass : Pass
web_pass = record { memory = serving_store; deadlines = []; rolls = 0; marked = [] }

reconcile_each-keeps_example :
    let after =
      (reconcile_each
        (λ t. some "h")
        (λ n. "0a")
        9
        (web ∷ [])
        (instance_of "old" "g" ready ∷ [])
        []
        web_pass).1.memory in
    (x : Entry) × (lookup "old" (after.objs instance_kind) ≡ some x)
    × ((is_serving x.obj ≡ true) ⊎ (1 < x.rev))
unfolding lookup insert
reconcile_each-keeps_example =
    reconcile_each-keeps (λ t. some "h") (λ n. "0a") 9 (web ∷ []) (instance_of "old" "g" ready ∷ [])
      [] web_pass "old" old_entry serving_store-IsBounded
      (record { entry = old_entry; found = refl; revision = refl; same_phase = refl }, tt) refl refl
