-- ===== src/Server/Drain.antt =====
-- internal/server/drain.go: the drain of a node and the lines that tell of it. Maps are walked in the
-- order of the list; the polls' listings are arguments.
use k_lite.Controller.Scheduler.{msg_no_capacity}
use k_lite.Object.Types.{
  Instance, InstancePhase, draining, empty_drain, instance_status, is_phase, phase_of,
}
use k_lite.Common.{
  Bool, List, Map, Option, String, [], erase, false, if◌then◌else◌, insert, is_some, lookup, ltb,
  none, not, or_zero, some, true, ℕ, ◌&&◌, ◌++◌, ◌+◌, ◌==◌, ◌||◌, ◌∷◌,
}
use k_lite.Store.{Memory, delete_if_revision, err, ok}
use k_lite.Object.Registry.{instance_kind}
use k_lite.Common.Int.{leb_ℤ, pos, ℤ}
use k_lite.Object.Defaults.{drain_timeout_default}

pub record InstView : Type 0 where
  pub view_workload : String
  pub view_node : String
  pub view_phase : InstancePhase
  pub view_message : String
  pub drain_seconds : ℤ
  pub view_rev : ℕ

pub record Narrator : Type 0 where
  pub drained_node : String
  pub first : Bool
  pub prev : Map InstView
  pub workloads : Map Bool
  pub reported : Map Bool

-- newNarrator
abbrev pub new_narrator : String → Narrator
new_narrator node = record {
  drained_node = node;
  first = true;
  prev = [];
  workloads = [];
  reported = [];
}

-- A line of progress, with what it is printed from.
pub data Line : Type 0 where
  draining_count : ℕ → String → Line
  draining_line : String → ℤ → String → Line
  surged : String → String → Line
  surge_pending : String → String → Line
  drained : String → Line
  force_removed : String → Line

unfoldable pub view_of : Instance → InstView
view_of i = record {
  view_workload = i.spec.workload;
  view_node = i.spec.node;
  view_phase = phase_of i;
  view_message = (instance_status i).message;
  drain_seconds = (or_zero empty_drain i.spec.drain).drain_timeout_seconds;
  view_rev = i.meta.resource_version;
}

module _ (contains_text has_prefix_text : String → String → Bool) where
  -- drainNote, the message or ""
  unfoldable pub drain_note : String → String
  drain_note msg = if contains_text msg "fallback" then msg else ""

  -- blockedMessage
  unfoldable pub blocked_message : String → Bool
  blocked_message msg = msg == msg_no_capacity || has_prefix_text msg "pinned node "

  -- lineFor, with the instances already reported
  unfoldable pub line_for : Narrator → String → InstView → Option Line × Map Bool
  unfolding drain_note blocked_message
  line_for n name v =
      let old = lookup name n.prev in
      let here = v.view_node == n.drained_node in
      let follows = or_zero false (lookup v.view_workload n.workloads) in
      let changed : Bool = elim old [
        | none ↦ true
        | some o ↦ not (is_phase o.view_phase v.view_phase)
      ] in
      let placed : Bool = elim old [ none ↦ true | some o ↦ o.view_node == "" ] in
      if here && is_phase v.view_phase draining && changed
      then (
        some (
            draining_line name
              (if leb_ℤ v.drain_seconds (pos 0) then drain_timeout_default else v.drain_seconds)
              (drain_note v.view_message)),
        n.reported,
      )
      else if not here && not (v.view_node == "") && follows && placed
      then (some (surged name v.view_node), n.reported)
      else if v.view_node == ""
          && follows
          && blocked_message v.view_message
          && not (or_zero false (lookup name n.reported))
      then (some (surge_pending name v.view_message), insert name true n.reported)
      else (none, n.reported)

  -- The first loop of diff.
  unfoldable pub diff_now : Narrator → Map InstView → List Line × Narrator
  unfolding line_for
  diff_now n [] = ([], n)
  diff_now n ((name, v) ∷ cur) =
      let (line, reported) = line_for n name v in
      let (lines, after) = diff_now (record n { reported = reported }) cur in
      (elim line [ none ↦ lines | some l ↦ l ∷ lines ], after)

  -- The second loop of diff.
  unfoldable pub diff_gone : String → Map InstView → Map InstView → List Line
  diff_gone node cur [] = []
  diff_gone node cur ((name, old) ∷ before) =
      let rest = diff_gone node cur before in
      if not (is_some (lookup name cur)) && old.view_node == node then drained name ∷ rest else rest

  unfoldable pub diff : Narrator → Map InstView → List Line × Narrator
  unfolding diff_now diff_gone
  diff n cur =
      let (lines, after) = diff_now n cur in (lines ++ diff_gone n.drained_node cur n.prev, after)

  -- The loop of observe: the views, the number left on the node, and the workloads followed.
  unfoldable pub collect :
      String → List Instance → Map InstView → ℕ → Map Bool → Map InstView × ℕ × Map Bool
  unfolding view_of
  collect node [] cur left followed = (cur, left, followed)
  collect node (i ∷ is) cur left followed =
      let views = insert i.meta.name (view_of i) cur in
      let on_node = collect node is views (left + 1) (insert i.spec.workload true followed) in
      let elsewhere = collect node is views left followed in
      if i.spec.node == node then on_node else elsewhere

  unfoldable pub observe : Narrator → List Instance → List Line × ℕ × Narrator
  unfolding collect diff
  observe n insts =
      let (cur, left, followed) = collect n.drained_node insts [] 0 n.workloads in
      let known : Narrator = record n { workloads = followed } in
      let (lines, after) = diff known cur in
      if n.first
      then (
        if ltb 0 left then draining_count left n.drained_node ∷ [] else [],
        left,
        record known { first = false; prev = cur },
      )
      else (lines, left, record after { prev = cur })

-- The loop of forceDelete over the views: the lines, the views left and the store.
unfoldable pub force_each :
    String → Map InstView → Map InstView → Memory → List Line × Map InstView × Memory
force_each node [] prev m = ([], prev, m)
force_each node ((name, v) ∷ views) prev m =
    let skipped = force_each node views prev m in
    let (r, m1) = delete_if_revision instance_kind name (pos v.view_rev) m in
    let lost = force_each node views prev m1 in
    let (lines, prev2, m2) = force_each node views (erase name prev) m1 in
    if not (v.view_node == node) || not (is_phase v.view_phase draining)
    then skipped
    else elim r [ err e ↦ lost | ok x ↦ (force_removed name ∷ lines, prev2, m2) ]

-- forceDelete
unfoldable pub force_delete : Narrator → Memory → List Line × Narrator × Memory
unfolding force_each
force_delete n m =
    let (lines, prev, m') = force_each n.drained_node n.prev n.prev m in
    (lines, record n { prev = prev }, m')
