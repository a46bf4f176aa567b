-- ===== src/Server/Cluster.antt =====
-- internal/server/server.go: the calls on declared objects. An envelope of another kind than the store's
-- bucket makes the Go code dereference nil, which is the reply `panicked`. Decoding YAML is left out:
-- Apply and Delete take the decoded objects. Watch only passes the store's events on.
use k_lite.Common.Int.{eqb_ℤ, ltb_ℤ, pos, ℤ}
use k_lite.Object.Types.{
  InstanceSpec, Meta, Node, NodeStatus, Object, PolicyAction, PolicyRule, ServiceSpec, WorkloadSpec,
  action_unspecified, instance_object, is_node_phase, node_draining, node_object, node_ready,
  node_status, policy_object, service_object, workload_object,
}
use k_lite.Object.Registry.{
  Kind, canonical, ingress_kind, instance_kind, is_kind, kind_of, meta_of, node_kind, policy_kind,
  vip_kind, with_meta, workload_kind,
}
use k_lite.Server.Cas.{
  Attempt, Intent, answer, broken, cas_loop, done, kept_losing, server_cas_retries, write,
}
use k_lite.Common.{
  Bool, List, String, [], false, if◌then◌else◌, insert, is_some, none, not, some, true, ℕ, ◌&&◌,
  ◌==◌, ◌||◌, ◌∷◌,
}
use k_lite.Controller.NodeHealth.{is_pending_delete, label_pending_delete}
use k_lite.Store.{
  Error, Memory, Result, already_exists, conflict, delete, err, get, invalid_name, invalid_rev,
  list, not_found, ok, rev_create, unknown_kind,
}
use k_lite.Policy.{Decision, evaluate}
use k_lite.Object.Validate.{Invalid, empty_envelope, validate, ◌then◌}
use k_lite.Object.Defaults.{default_object}
use k_lite.Object.Envelopes.{policies_in}

pub data Code : Type 0 where
  invalid_argument failed_precondition not_found_code already_exists_code aborted unavailable : Code
  permission_denied unauthenticated unimplemented : Code

pub data Reply (A : Type 0) : Type 0 where
  replied : A → Reply A
  status_code : Code → Reply A
  panicked : Reply A

-- storeStatus; the store's calls are not cancelled here
unfoldable pub store_status : Error → Code
store_status not_found = not_found_code
store_status already_exists = already_exists_code
store_status conflict = aborted
store_status invalid_name = unavailable
store_status invalid_rev = unavailable
store_status unknown_kind = unavailable

-- What follows the retry loop.
unfoldable pub finish : {A : Type 0} → Attempt (Reply A) → Reply A
unfolding store_status
finish (done r) = r
finish (broken e) = status_code (store_status e)
finish kept_losing = status_code aborted

-- node.Status, set when it was nil
abbrev pub with_node_status : Node → NodeStatus → Object
with_node_status n st = node_object (record n { status = some st })

unfoldable pub uncordoned : NodeStatus → NodeStatus
uncordoned st = record st {
  unschedulable = false;
  phase = if is_node_phase st.phase node_draining then node_ready else st.phase;
}

unfoldable pub decide_uncordon : Result (Object × ℕ) → Intent (Reply (Unit {0}))
unfolding is_pending_delete uncordoned store_status
decide_uncordon (err e) = answer (status_code (store_status e))
decide_uncordon (ok (node_object n, rev)) =
    let st = node_status n in
    if is_pending_delete n.meta
    then answer (status_code failed_precondition)
    else if not st.unschedulable && not (is_node_phase st.phase node_draining)
    then answer (replied tt)
    else write (replied tt) (with_node_status n (uncordoned st)) (pos rev) conflict
decide_uncordon (ok (o, rev)) = answer panicked

unfoldable pub decide_scale : ℤ → Result (Object × ℕ) → Intent (Reply (Unit {0}))
unfolding store_status
decide_scale count (err e) = answer (status_code (store_status e))
decide_scale count (ok (workload_object w, rev)) =
    if eqb_ℤ w.spec.replicas count
    then answer (replied tt)
    else write (replied tt)
        (workload_object (record w { spec = record w.spec { replicas = count } })) (pos rev)
        conflict
decide_scale count (ok (o, rev)) = answer panicked

-- How deleteOne ends: the action, or an error, which the caller turns into a status.
pub data Deleted : Type 0 where
  deleted : String → Deleted
  delete_error : Error → Deleted
  delete_raced delete_panicked : Deleted

abbrev finish_mark : Attempt Deleted → Deleted
finish_mark (done r) = r
finish_mark (broken e) = delete_error e
finish_mark kept_losing = delete_raced

-- storeStatus on the error of deleteOne: the status of a lost race is no error of the store.
unfoldable pub delete_status : Deleted → Reply String
unfolding store_status
delete_status (deleted action) = replied action
delete_status (delete_error e) = status_code (store_status e)
delete_status delete_raced = status_code unavailable
delete_status delete_panicked = panicked

-- The turn of markNodeForDelete.
unfoldable pub decide_mark : Result (Object × ℕ) → Intent Deleted
unfolding is_pending_delete
decide_mark (err e) = answer (delete_error e)
decide_mark (ok (node_object n, rev)) =
    let marked : Meta = record n.meta {
      labels = insert label_pending_delete "true" n.meta.labels;
    } in
    let st : NodeStatus = record (node_status n) { unschedulable = true; phase = node_draining } in
    if is_pending_delete n.meta
    then answer (deleted "draining (delete pending)")
    else write (deleted "draining (delete pending)")
        (node_object (record n { meta = marked; status = some st })) (pos rev) conflict
decide_mark (ok (o, rev)) = answer delete_panicked

-- The turn of markNodeDraining (drain.go).
unfoldable pub decide_drain : Result (Object × ℕ) → Intent (Reply (Unit {0}))
unfolding store_status
decide_drain (err e) = answer (status_code (store_status e))
decide_drain (ok (node_object n, rev)) =
    let st = node_status n in
    if st.unschedulable && is_node_phase st.phase node_draining
    then answer (replied tt)
    else write (replied tt)
        (with_node_status n (record st { unschedulable = true; phase = node_draining })) (pos rev)
        conflict
decide_drain (ok (o, rev)) = answer panicked

-- The specs that the getters answer on an envelope of another kind.
abbrev workload_spec_in : Object → WorkloadSpec
workload_spec_in (workload_object w) = w.spec
workload_spec_in _ = record {
  replicas = pos 0;
  node_name = "";
  template = record { template_labels = []; containers = [] };
  drain = none;
}

abbrev service_spec_in : Object → ServiceSpec
service_spec_in (service_object s) = s.spec
service_spec_in _ = record { selector = []; port = pos 0; target_port = pos 0 }

abbrev max_instances_in : Object → ℤ
max_instances_in (node_object n) = n.max_instances
max_instances_in _ = pos 0

abbrev action_in : Object → PolicyAction
action_in (policy_object p) = p.action
action_in _ = action_unspecified

abbrev rules_in : Object → List PolicyRule
rules_in (policy_object p) = p.rules
rules_in _ = []

abbrev instance_spec_in : Object → InstanceSpec
instance_spec_in (instance_object i) = i.spec
instance_spec_in _ = record {
  workload = "";
  node = "";
  container = record {
    container_name = "";
    image = "";
    env = [];
    ports = [];
    readiness_probe = none;
  };
  template_hash = "";
  drain = none;
}

-- The switch of mergeSpec.
unfoldable pub merge_kind : Object → Object → Object
merge_kind (workload_object w) o = workload_object (record w { spec = workload_spec_in o })
merge_kind (service_object s) o = service_object (record s { spec = service_spec_in o })
merge_kind (node_object n) o = node_object (record n { max_instances = max_instances_in o })
merge_kind (policy_object p) o =
    policy_object (record p { action = action_in o; rules = rules_in o })
merge_kind (instance_object i) o = instance_object (record i { spec = instance_spec_in o })
merge_kind existing o = existing

-- mergeSpec
unfoldable pub merge_spec : Object → Object → Object
unfolding merge_kind
merge_spec existing incoming =
    merge_kind
      (with_meta (record (meta_of existing) { labels = (meta_of incoming).labels }) existing)
      incoming

-- The switch of sanitize: the object without its status, and whether it had one.
unfoldable pub drop_status : Object → Object × Bool
drop_status (workload_object w) = (workload_object (record w { status = none }), is_some w.status)
drop_status (node_object n) = (node_object (record n { status = none }), is_some n.status)
drop_status (instance_object i) = (instance_object (record i { status = none }), is_some i.status)
drop_status o = (o, false)

-- sanitize
unfoldable pub sanitize : Object → Object × Bool
unfolding drop_status
sanitize o =
    drop_status
      (with_meta (record (meta_of o) { uid = ""; resource_version = 0; created_unix = 0 }) o)

-- The result of one apply: the action and whether a status was dropped, or the error.
pub data Applied : Type 0 where
  created unchanged updated : Bool → Applied
  read_only : Applied
  rejected : Invalid → Applied
  store_failed : Error → Applied
  lost_races : Applied

-- Kinds that only the server makes.
unfoldable pub is_materialized : Kind → Bool
is_materialized instance_kind = true
is_materialized vip_kind = true
is_materialized ingress_kind = true
is_materialized _ = false

abbrev pub applied : Attempt Applied → Applied
applied (done r) = r
applied (broken e) = store_failed e
applied kept_losing = lost_races

module _ (equal : Object → Object → Bool) where
  unfoldable pub decide_apply : Bool → Object → Result (Object × ℕ) → Intent Applied
  unfolding merge_spec
  decide_apply dropped o (err not_found) = write (created dropped) o rev_create already_exists
  decide_apply dropped o (err e) = answer (store_failed e)
  decide_apply dropped o (ok (existing, rev)) =
      if equal (merge_spec existing o) existing
      then answer (unchanged dropped)
      else write (updated dropped) (merge_spec existing o) (pos rev) conflict

module _ (now : ℕ) (others : ℕ → Memory → Memory) where
  unfoldable pub uncordon : String → Memory → Reply (Unit {0}) × Memory
  unfolding finish
  uncordon name m =
      let (r, m') = cas_loop now others server_cas_retries node_kind name decide_uncordon 0 m in
      if name == "" then (status_code invalid_argument, m) else (finish r, m')

  unfoldable pub scale : String → ℤ → Memory → Reply (Unit {0}) × Memory
  unfolding finish
  scale name count m =
      let (r, m') =
        cas_loop now others server_cas_retries workload_kind name (decide_scale count) 0 m in
      if name == ""
      then (status_code invalid_argument, m)
      else if ltb_ℤ count (pos 0)
      then (status_code invalid_argument, m)
      else (finish r, m')

  unfoldable pub mark_node_for_delete : String → Memory → Deleted × Memory
  mark_node_for_delete name m =
      let (r, m') = cas_loop now others server_cas_retries node_kind name decide_mark 0 m in
      (finish_mark r, m')

  unfoldable pub mark_node_draining : String → Memory → Reply (Unit {0}) × Memory
  unfolding finish
  mark_node_draining name m =
      let (r, m') = cas_loop now others server_cas_retries node_kind name decide_drain 0 m in
      (finish r, m')

  -- What follows the unpinned delete.
  abbrev after_delete : Result (Unit {0}) × Memory → Deleted × Memory
  after_delete (ok x, m) = (deleted "deleted", m)
  after_delete (err e, m) = (delete_error e, m)

  unfoldable pub delete_one : Kind → String → Memory → Deleted × Memory
  unfolding mark_node_for_delete
  delete_one k name m =
      if is_kind k node_kind
      then mark_node_for_delete name m
      else after_delete (delete k name (others 0 m))

  -- Delete of the objects that the YAML holds; an empty envelope has no name.
  unfoldable pub delete_each : List Object → Memory → List Deleted × Memory
  unfolding delete_one
  delete_each [] m = ([], m)
  delete_each (o ∷ os) m =
      let (r, m') : Deleted × Memory = elim (kind_of o) [
        | none ↦ (delete_error invalid_name, m)
        | some k ↦ delete_one k (meta_of o).name m
      ] in
      let (rs, m'') = delete_each os m' in (r ∷ rs, m'')

  -- Delete by kind and name.
  unfoldable pub delete_named : (String → String) → String → String → Memory → Reply String × Memory
  unfolding delete_one delete_status
  delete_named to_lower kind name m = elim (canonical to_lower kind) [
    | none ↦ (status_code invalid_argument, m)
    | some k ↦
        let (r, m') = delete_one k name m in
        if name == "" then (status_code invalid_argument, m) else (delete_status r, m')
  ]

  module _ (equal : Object → Object → Bool) where
    -- The retry loop of applyOne, on an object that is sane.
    unfoldable pub apply_valid : Bool → Object → Memory → Applied × Memory
    apply_valid dropped o m = elim (kind_of o) [
      | none ↦ (rejected empty_envelope, m)
      | some k ↦
          let (r, m') =
            cas_loop now others server_cas_retries k (meta_of o).name (decide_apply equal dropped o)
              0 m in
          (applied r, m')
    ]

    unfoldable pub apply_one : Object → Memory → Applied × Memory
    unfolding apply_valid sanitize
    apply_one o m =
        let (bare, dropped) = sanitize o in
        let sane = default_object bare in
        if elim (kind_of o) [ none ↦ false | some k ↦ is_materialized k ]
        then (read_only, m)
        else elim (validate sane) [ some e ↦ (rejected e, m) | none ↦ apply_valid dropped sane m ]

    -- Apply, on the objects that the YAML holds
    unfoldable pub apply_all : List Object → Memory → List Applied × Memory
    unfolding apply_one
    apply_all [] m = ([], m)
    apply_all (o ∷ os) m =
        let (r, m') = apply_one o m in let (rs, m'') = apply_all os m' in (r ∷ rs, m'')

    unfoldable pub apply : List Object → Memory → Reply (List Applied) × Memory
    unfolding apply_all
    apply [] m = (status_code invalid_argument, m)
    apply (o ∷ os) m = let (rs, m') = apply_all (o ∷ os) m in (replied rs, m')

-- List: all the objects of a kind, or the one named
unfoldable pub list_objects : (String → String) → String → String → Memory → Reply (List Object)
unfolding store_status
list_objects to_lower kind name m = elim (canonical to_lower kind) [
  | none ↦ status_code invalid_argument
  | some k ↦ if name == "" then replied (list k m).0 else elim (get k name m) [
    | ok (o, rev) ↦ replied (o ∷ [])
    | err e ↦ status_code (store_status e)
  ]
]

-- PolicyCheck (policy.go)
unfoldable pub policy_check : String → String → Memory → Reply Decision
policy_check from to m =
    if from == "" || to == ""
    then status_code invalid_argument
    else replied (evaluate (policies_in (list policy_kind m).0) from to)
