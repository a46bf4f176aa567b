-- ===== src/Server/Agent.antt =====
-- internal/server/agent.go: the registration of nodes, their indexes, and the status reports of their
-- agents. A call's store accesses see what other writers did before them (`others`). The lock that
-- serialises the assignment of indexes on one server needs no state here.
use k_lite.Object.Types.{
  Instance, InstancePhase, InstanceStatus, Node, NodePhase, NodeStatus, Object, draining,
  instance_object, instance_status, is_node_phase, is_phase, node_draining, node_object, node_ready,
  node_status, pending, ready, running,
}
use k_lite.Common.{
  Bool, List, Option, String, [], eqb, false, if◌then◌else◌, length, map, none, not, or_zero, some,
  suc, true, zero, ℕ, ◌&&◌, ◌+◌, ◌==◌, ◌||◌, ◌∷◌,
}
use k_lite.Store.{Error, Memory, Result, conflict, err, get, list, not_found, ok, put}
use k_lite.Controller.Pools.{first_free}
use k_lite.Server.Cluster.{
  Reply, finish, panicked, replied, status_code, store_status, with_node_status,
}
use k_lite.Server.Cas.{
  Attempt, Intent, Turn, again, answer, broken, cas_loop, done, is_error, kept_losing, over,
  server_cas_retries, write,
}
use k_lite.Object.Envelopes.{nodes_in}
use k_lite.Common.Int.{pos}
use k_lite.Object.Registry.{instance_kind, node_kind}

-- servingPhase
unfoldable pub serving_phase : InstancePhase → Bool
serving_phase ready = true
serving_phase running = true
serving_phase pending = true
serving_phase _ = false

pub record StatusUpdate : Type 0 where
  pub update_name : String
  pub update_uid : String
  pub update_status : Option InstanceStatus

-- How a status update ends, when its write does not fail.
pub data Updated : Type 0 where
  stored skipped foreign : Updated
  update_error : Error → Updated
  update_panic : Updated

-- The status that applyInstanceStatus writes: a drain only moves forward.
unfoldable pub merge_status : InstanceStatus → InstanceStatus → InstanceStatus
unfolding serving_phase
merge_status old reported =
    if is_phase old.phase draining && serving_phase reported.phase
    then record reported { phase = draining }
    else reported

-- The smallest index that none of the records holds, from 1.
unfoldable pub free_node_index : List Node → ℕ
free_node_index nodes =
    let used = map (λ (n : Node). (node_status n).node_index) nodes in
    or_zero 0 (first_free (λ i. true) used (suc (length nodes)) 1)

-- indexHolder
unfoldable pub index_holder : String → ℕ → List Node → String
index_holder name idx [] = ""
index_holder name idx (n ∷ ns) =
    if not (n.meta.name == name) && eqb (node_status n).node_index idx
    then n.meta.name
    else index_holder name idx ns

-- advertiseIP: an address that other nodes can dial, or ""
module _ (is_routable : String → Bool) where
  unfoldable pub advertise_ip : String → String
  advertise_ip addr = if addr == "" then "" else if is_routable addr then addr else ""

abbrev pub with_advertised : String → NodeStatus → NodeStatus
with_advertised addr st = if addr == "" then st else record st { advertise_address = addr }

-- proto.Equal on the status stored and the one to store
unfoldable pub is_same_status : Option InstanceStatus → InstanceStatus → Bool
is_same_status none s = false
is_same_status (some r) s =
    is_phase r.phase s.phase
    && eqb r.restarts s.restarts
    && r.instance_ip == s.instance_ip
    && r.container_id == s.container_id
    && r.message == s.message

-- What applyInstanceStatus does to an instance that the report is about; a report without a status
-- makes the Go code write through nil.
unfoldable pub decide_report : Option InstanceStatus → Instance → ℕ → Intent Updated
unfolding merge_status is_same_status
decide_report none i rev = answer update_panic
decide_report (some reported) i rev =
    let next_status = merge_status (instance_status i) reported in
    if is_same_status i.status next_status
    then answer skipped
    else write stored (instance_object (record i { status = some next_status })) (pos rev) conflict

-- The turn of applyInstanceStatus.
unfoldable pub decide_status : String → StatusUpdate → Result (Object × ℕ) → Intent Updated
unfolding decide_report
decide_status node u (err not_found) = answer skipped
decide_status node u (err e) = answer (update_error e)
decide_status node u (ok (instance_object i, rev)) =
    if not (i.spec.node == node)
    then answer foreign
    else if not (i.meta.uid == u.update_uid)
    then answer skipped
    else decide_report u.update_status i rev
decide_status node u (ok (o, rev)) = answer update_panic

-- The turn of stampNode: the stored index.
unfoldable pub decide_stamp : ℕ → String → Result (Object × ℕ) → Intent (Reply ℕ)
unfolding store_status
decide_stamp now addr (err e) = answer (status_code (store_status e))
decide_stamp now addr (ok (node_object n, rev)) =
    let st = node_status n in
    let phase' : NodePhase =
      if is_node_phase st.phase node_draining then node_draining else node_ready in
    let same_address = addr == "" || st.advertise_address == addr in
    if eqb st.last_heartbeat_unix now && is_node_phase st.phase phase' && same_address
    then answer (replied st.node_index)
    else write (replied st.node_index)
        (with_node_status n
          (with_advertised addr (record st { last_heartbeat_unix = now; phase = phase' })))
        (pos rev) conflict
decide_stamp now addr (ok (o, rev)) = answer panicked

-- How yieldIndexCollision ends.
pub data Yield : Type 0 where
  clear yielded : Yield
  yield_error : Error → Yield
  yield_panic : Yield

-- The turn of its loop.
unfoldable pub decide_yield : ℕ → Result (Object × ℕ) → Intent Yield
decide_yield idx (err e) = answer (yield_error e)
decide_yield idx (ok (node_object n, rev)) =
    let st = node_status n in
    if not (eqb st.node_index idx)
    then answer yielded
    else write yielded (with_node_status n (record st { node_index = 0 })) (pos rev) conflict
decide_yield idx (ok (o, rev)) = answer yield_panic

abbrev yield_of : Attempt Yield → Yield
yield_of (done y) = y
yield_of (broken e) = yield_error e
yield_of kept_losing = yield_error conflict

module _ (now : ℕ) (others : ℕ → Memory → Memory) where
  unfoldable pub apply_instance_status : String → StatusUpdate → Memory → Attempt Updated × Memory
  apply_instance_status node u m =
      cas_loop now others server_cas_retries instance_kind u.update_name (decide_status node u) 0 m

  -- The loop of ReportStatus over the instances, whose errors are only logged
  unfoldable pub apply_statuses : String → List StatusUpdate → Memory → Memory
  unfolding apply_instance_status
  apply_statuses node [] m = m
  apply_statuses node (u ∷ us) m = apply_statuses node us (apply_instance_status node u m).1

  unfoldable pub stamp_node : String → String → Memory → Reply ℕ × Memory
  stamp_node name addr m =
      let (r, m') =
        cas_loop now others server_cas_retries node_kind name (decide_stamp now addr) 0 m in
      (finish r, m')

  -- yieldIndexCollision, from its i-th store call on
  unfoldable pub yield_index_collision : ℕ → String → ℕ → Memory → Yield × Memory
  yield_index_collision i name idx m =
      let n = others i m in
      let (y, m') =
        cas_loop now others server_cas_retries node_kind name (decide_yield idx) (suc i) n in
      if index_holder name idx (nodes_in (list node_kind n).0) == ""
      then (clear, n)
      else (yield_of y, m')

  -- The write of healNodeIndex, and what follows it; its warnings are left out.
  abbrev after_heal : ℕ → String → ℕ → Result ℕ × Memory → Turn (Unit {0}) × Memory
  after_heal i name reported (ok r, m) =
      (over (done tt), (yield_index_collision i name reported m).1)
  after_heal i name reported (err e, m) = (if is_error e conflict then again else over (done tt), m)

  heal_object : ℕ → String → ℕ → Memory → Object → ℕ → Turn (Unit {0}) × Memory
  heal_object i name reported n (node_object node) rev =
      let m = others (i + 1) n in
      let healed = with_node_status node (record (node_status node) { node_index = reported }) in
      if not (eqb (node_status node).node_index 0)
      then (over (done tt), n)
      else if not (index_holder name reported (nodes_in (list node_kind m).0) == "")
      then (over (done tt), m)
      else after_heal (i + 3) name reported (put now healed (pos rev) (others (i + 2) m))
  heal_object i name reported n o rev = (over (done tt), n)

  unfoldable pub heal_turn : ℕ → String → ℕ → Memory → Turn (Unit {0}) × Memory
  unfolding heal_object yield_index_collision
  heal_turn i name reported m = elim (get node_kind name (others i m)) [
    | err e ↦ (over (done tt), others i m)
    | ok (o, rev) ↦ heal_object i name reported (others i m) o rev
  ]

  unfoldable pub heal_loop : ℕ → ℕ → String → ℕ → Memory → Memory
  unfolding heal_turn
  heal_loop zero i name reported m = m
  heal_loop (suc tries) i name reported m = elim (heal_turn i name reported m).0 [
    | over r ↦ (heal_turn i name reported m).1
    | again ↦ heal_loop tries (i + 16) name reported (heal_turn i name reported m).1
  ]

  unfoldable pub heal_node_index : String → ℕ → ℕ → Memory → Memory
  unfolding heal_loop
  heal_node_index name stored_index reported m =
      let m' = heal_loop server_cas_retries 0 name reported m in
      if eqb reported 0 || eqb stored_index reported
      then m
      else if not (eqb stored_index 0)
      then m
      else m'
