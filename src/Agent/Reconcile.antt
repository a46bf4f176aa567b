-- ===== src/Agent/Reconcile.antt =====
-- internal/agent/reconcile.go: the convergence of the containers of a node on the instances it is told to
-- run. The container runtime is a parameter: a state and its calls. Times are nanoseconds, and the
-- order in which Go walks the map of instances is that of the list.
pub mod Puts
pub mod Drains
pub mod Backoff
use k_lite.Object.Types.{
  Instance, InstancePhase, draining, failed, instance_status, is_phase, pending, phase_of, ready,
  running,
}
use k_lite.Common.{
  Bool, List, Map, Option, String, [], concat, eqb, erase, false, if◌then◌else◌, insert, is_some,
  keep, lookup, ltb, min, none, not, or_zero, some, true, ℕ, ◌&&◌, ◌*◌, ◌++◌, ◌+◌, ◌==◌, ◌||◌, ◌∷◌,
}
use k_lite.Common.Int.{leb_ℤ, pos, ℤ}
use k_lite.Object.Defaults.{termination_grace_default}
use k_lite.Controller.{join}

pub record RunningInstance : Type 0 where
  pub instance_name : String
  pub instance_uid : String
  pub running_hash : String
  pub running_container : String
  pub is_running : Bool
  pub running_ip : String
  pub exit_code : ℤ

pub record InstState : Type 0 where
  pub state_uid : String
  pub phase : InstancePhase
  pub restarts : ℕ
  pub state_container : String
  pub ip : String
  pub message : String
  pub backoff : ℕ
  pub next_try : ℕ
  pub awaiting_restart : Bool
  pub is_draining : Bool

-- The calls of the container runtime, each with its error's text.
pub record Runtime (R : Type 0) : Type 0 where
  pub ensure_image : String → R → Option String × R
  pub run_instance : Instance → String → String → R → Option String × String × R
  pub inspect_ip : String → R → String × R
  pub remove_instance : String → R → Option String × R
  pub stop_instance : String → ℤ → R → Option String × R

pub record AgentState : Type 0 where
  pub agent_node : String
  pub dns_ip : String
  pub desired : Map Instance
  pub states : Map InstState
  pub grace : Map ℤ
  pub probe_ready : Map Bool
  pub report_kicked : Bool

abbrev pub backoff_start : ℕ
backoff_start = 1000000000

abbrev pub backoff_cap : ℕ
backoff_cap = 30000000000

-- nextBackoff
unfoldable pub next_backoff : ℕ → ℕ
next_backoff d = if eqb d 0 then backoff_start else min (d * 2) backoff_cap

-- matchContainers: the containers paired with their instances, and the orphans
unfoldable pub match_containers :
    Map Instance
    → List RunningInstance
    → Map RunningInstance
    → List RunningInstance
    → Map RunningInstance × List RunningInstance
match_containers desired [] by_name orphans = (by_name, orphans)
match_containers desired (c ∷ cs) by_name orphans =
    let claimed : Bool = elim (lookup c.instance_name desired) [
      | none ↦ false
      | some i ↦
          not (is_some (lookup c.instance_name by_name))
          && c.instance_uid == i.meta.uid
          && c.running_hash == i.spec.template_hash
    ] in
    let matched = match_containers desired cs (insert c.instance_name c by_name) orphans in
    let unmatched = match_containers desired cs by_name (orphans ++ c ∷ []) in
    if claimed then matched else unmatched

-- stateFor
unfoldable pub state_for : AgentState → Instance → InstState
state_for a i =
    let fresh : InstState = record {
      state_uid = i.meta.uid;
      phase = pending;
      restarts = (instance_status i).restarts;
      state_container = "";
      ip = "";
      message = "";
      backoff = 0;
      next_try = 0;
      awaiting_restart = false;
      is_draining = false;
    } in
    elim (lookup i.meta.name a.states) [
      | none ↦ fresh
      | some st ↦ if st.state_uid == i.meta.uid then st else fresh
    ]

-- Whether a report would say something new.
unfoldable pub is_reportable : Option InstState → InstState → Bool
is_reportable none st = true
is_reportable (some prev) st =
    not (is_phase prev.phase st.phase)
    || not (eqb prev.restarts st.restarts)
    || not (prev.state_container == st.state_container)
    || not (prev.ip == st.ip)
    || not (prev.message == st.message)

-- putState
unfoldable pub put_state : String → InstState → AgentState → AgentState
unfolding is_reportable
put_state name st a = record a {
  states = insert name st a.states;
  report_kicked = a.report_kicked || is_reportable (lookup name a.states) st;
}

-- runningPhase
unfoldable pub running_phase : AgentState → Instance → InstancePhase
running_phase a i =
    if leb_ℤ (or_zero (pos 0) i.spec.container.readiness_probe) (pos 0)
    then ready
    else if or_zero false (lookup i.meta.name a.probe_ready)
    then ready
    else running

-- The state that observeDraining stores; `exited` prints the exit code.
unfoldable pub observed_draining : (ℤ → String) → Option RunningInstance → InstState → InstState
observed_draining exited none st = record st {
  phase = failed;
  message = "container gone while draining";
  state_container = "";
  ip = "";
}
observed_draining exited (some c) st =
    if c.is_running
    then record st {
      phase = draining;
      state_container = c.running_container;
      ip = if c.running_ip == "" then st.ip else c.running_ip;
      message = "";
    }
    else record st {
      phase = failed;
      message =
          concat (concat "container exited with code " (exited c.exit_code)) " while draining";
      state_container = c.running_container;
      ip = "";
    }

-- The state that markRunning stores.
unfoldable pub marked_running : InstancePhase → RunningInstance → InstState → InstState
marked_running p c st = record st {
  awaiting_restart = false;
  phase = p;
  state_container = c.running_container;
  ip = if c.running_ip == "" then st.ip else c.running_ip;
  message = "";
}

-- The state after the first sight of a crash.
unfoldable pub crashed : (ℤ → String) → ℕ → RunningInstance → InstState → InstState
unfolding next_backoff
crashed exited now c st = record st {
  awaiting_restart = true;
  backoff = next_backoff st.backoff;
  next_try = now + next_backoff st.backoff;
  phase = failed;
  message = concat "container exited with code " (exited c.exit_code);
  state_container = c.running_container;
  ip = "";
}

-- The state that failInstance stores.
unfoldable pub failed_with : ℕ → String → InstState → InstState
unfolding next_backoff
failed_with now error st = record st {
  phase = failed;
  message = error;
  backoff = next_backoff st.backoff;
  next_try = now + next_backoff st.backoff;
}

-- The state of an instance whose container was started.
unfoldable pub started : InstancePhase → String → String → InstState → InstState
started p id addr st = record st {
  restarts = if st.awaiting_restart then st.restarts + 1 else st.restarts;
  awaiting_restart = false;
  phase = p;
  state_container = id;
  message = "";
  ip = addr;
}

-- pruneState
unfoldable pub prune_state : AgentState → AgentState
prune_state a = record a { states = keep (λ e. is_some (lookup (e.0) a.desired)) a.states }

-- rememberedGrace, in seconds
unfoldable pub remembered_grace : AgentState → String → ℤ
remembered_grace a name = or_zero termination_grace_default (lookup name a.grace)

-- The working copy, with the sticky drain.
unfoldable pub working_copy : AgentState → Instance → InstState
unfolding state_for
working_copy a i =
    let st = state_for a i in
    record st { is_draining = st.is_draining || is_phase (phase_of i) draining }

module _ {R : Type 0} (rt : Runtime R) (exited : ℤ → String) (now : ℕ) where
  -- failInstance
  unfoldable pub fail_instance :
      String → InstState → String → AgentState → R → Option String × AgentState × R
  unfolding failed_with put_state
  fail_instance name st error a r = (some error, put_state name (failed_with now error st) a, r)

  -- The calls of startInstance once the gate is open.
  run_image : Instance → InstState → AgentState → R → Option String × AgentState × R
  unfolding fail_instance started put_state running_phase
  run_image i st a r =
      let (e, r1) = rt.ensure_image i.spec.container.image r in
      let (f, id, r2) = rt.run_instance i a.agent_node a.dns_ip r1 in
      let (addr, r3) = rt.inspect_ip id r2 in
      elim e [
        | some error ↦ fail_instance i.meta.name st error a r1
        | none ↦ elim f [
          | some error ↦ fail_instance i.meta.name st error a r2
          | none ↦ (none, put_state i.meta.name (started (running_phase a i) id addr st) a, r3)
        ]
      ]

  unfoldable pub start_instance :
      Instance → InstState → AgentState → R → Option String × AgentState × R
  unfolding run_image put_state
  start_instance i st a r =
      let run = run_image i st a r in
      if ltb now st.next_try then (none, put_state i.meta.name st a, r) else run

  -- The removal of a crashed container, and the start of the next.
  replace_container :
      Instance → RunningInstance → InstState → AgentState → R → Option String × AgentState × R
  unfolding fail_instance start_instance
  replace_container i c st a r =
      let (e, r1) = rt.remove_instance c.running_container r in
      elim e [
        | some error ↦ fail_instance i.meta.name st error a r1
        | none ↦ start_instance i st a r1
      ]

  unfoldable pub restart_instance :
      Instance → RunningInstance → InstState → AgentState → R → Option String × AgentState × R
  unfolding crashed put_state replace_container
  restart_instance i c st a r =
      let replaced = replace_container i c st a r in
      if not st.awaiting_restart
      then (none, put_state i.meta.name (crashed exited now c st) a, r)
      else if ltb now st.next_try
      then (none, put_state i.meta.name st a, r)
      else replaced

  -- The switch of reconcileInstance.
  converge :
      Instance
      → Option RunningInstance
      → InstState
      → AgentState
      → R
      → Option String × AgentState × R
  unfolding observed_draining put_state start_instance marked_running running_phase restart_instance
  converge i none st a r =
      if st.is_draining
      then (none, put_state i.meta.name (observed_draining exited none st) a, r)
      else start_instance i st a r
  converge i (some c) st a r =
      if st.is_draining
      then (none, put_state i.meta.name (observed_draining exited (some c) st) a, r)
      else if c.is_running
      then (none, put_state i.meta.name (marked_running (running_phase a i) c st) a, r)
      else restart_instance i c st a r

  unfoldable pub reconcile_instance :
      Instance → Option RunningInstance → AgentState → R → Option String × AgentState × R
  unfolding working_copy converge
  reconcile_instance i c a r = converge i c (working_copy a i) a r

  -- removeOrphan
  unfoldable pub remove_orphan : RunningInstance → AgentState → R → Option String × AgentState × R
  unfolding remembered_grace
  remove_orphan c a r =
      let (e, r1) : Option String × R =
        if c.is_running
        then rt.stop_instance c.running_container (remembered_grace a c.instance_name) r
        else (none, r) in
      let (f, r2) = rt.remove_instance c.running_container r1 in
      let forgotten : AgentState =
        if is_some (lookup c.instance_name a.desired)
        then a
        else record a { grace = erase c.instance_name a.grace } in
      elim e [
        | some error ↦ (some error, a, r1)
        | none ↦ elim f [ some error ↦ (some error, a, r2) | none ↦ (none, forgotten, r2) ]
      ]

  unfoldable pub remove_orphans :
      List RunningInstance → AgentState → R → List String × AgentState × R
  unfolding remove_orphan
  remove_orphans [] a r = ([], a, r)
  remove_orphans (c ∷ cs) a r =
      let (e, a1, r1) = remove_orphan c a r in
      let (es, a2, r2) = remove_orphans cs a1 r1 in (join e es, a2, r2)

  unfoldable pub reconcile_instances :
      Map Instance → Map RunningInstance → AgentState → R → List String × AgentState × R
  unfolding reconcile_instance
  reconcile_instances [] by_name a r = ([], a, r)
  reconcile_instances ((name, i) ∷ is) by_name a r =
      let (e, a1, r1) = reconcile_instance i (lookup name by_name) a r in
      let (es, a2, r2) = reconcile_instances is by_name a1 r1 in (join e es, a2, r2)

  -- reconcile, on the containers that the runtime lists
  unfoldable pub reconcile : List RunningInstance → AgentState → R → List String × AgentState × R
  unfolding match_containers remove_orphans reconcile_instances prune_state
  reconcile actual a r =
      let (by_name, orphans) = match_containers a.desired actual [] [] in
      let (es, a1, r1) = remove_orphans orphans a r in
      let (fs, a2, r2) = reconcile_instances a.desired by_name a1 r1 in
      (es ++ fs, prune_state a2, r2)
