-- ===== src/Controller/Workload/Roles.antt =====
-- internal/controller/rollout.go: the roles of a workload's instances, and the step that the
-- conditions of advance and rollStep select.
use text.Mathlib.Text.{starts_with}
use k_lite.Common.{
  Bool, List, String, [], contains, eqb, false, if◌then◌else◌, keep, leb, length, ltb, min, not,
  sort_with, str_le, take, ℕ, ◌&&◌, ◌+◌, ◌-◌, ◌==◌, ◌||◌, ◌∷◌,
}
use k_lite.Object.Types.{Instance, draining, instance_status, is_phase, phase_of, ready}
use k_lite.Controller.Scheduler.{msg_no_capacity}

-- groups
pub record Groups : Type 0 where
  pub fresh : List Instance
  pub retiring : List Instance
  pub doomed : List Instance
  pub in_drain : List Instance

-- The comparison of sortNewestFirst: descending in time, revision and name.
unfoldable pub newer : Instance → Instance → Bool
newer x y =
    ltb y.meta.created_unix x.meta.created_unix
    || (eqb x.meta.created_unix y.meta.created_unix
        && (ltb y.meta.resource_version x.meta.resource_version
            || (eqb x.meta.resource_version y.meta.resource_version
                && str_le y.meta.name x.meta.name)))

-- The loop of classify, which appends to the groups.
unfoldable pub classify_loop : String → List Instance → List String → Groups
classify_loop hash [] nodes = record { fresh = []; retiring = []; doomed = []; in_drain = [] }
classify_loop hash (i ∷ is) nodes =
    let g = classify_loop hash is nodes in
    if is_phase (phase_of i) draining
    then record g { in_drain = i ∷ g.in_drain }
    else if i.spec.template_hash == hash && not (contains nodes i.spec.node)
    then record g { fresh = i ∷ g.fresh }
    else if is_phase (phase_of i) ready
    then record g { retiring = i ∷ g.retiring }
    else record g { doomed = i ∷ g.doomed }

-- classify
unfoldable pub classify : String → List Instance → List String → Groups
unfolding classify_loop newer
classify hash instances nodes =
    let g = classify_loop hash instances nodes in
    record g { fresh = sort_with newer g.fresh; retiring = sort_with newer g.retiring }

-- The message of a placement that the scheduler refused.
unfoldable pub is_refusal : String → Bool
is_refusal msg = msg == msg_no_capacity || starts_with msg "pinned node "

-- surgeBlocked
unfoldable pub surge_blocked : List Instance → Bool
unfolding is_refusal
surge_blocked [] = false
surge_blocked (i ∷ is) =
    if not (i.spec.node == "")
    then surge_blocked is
    else is_refusal (instance_status i).message || surge_blocked is

-- What a pass does to the instances in service: `fall_back` is the retirement of drain-first.
pub data Step : Type 0 where
  scale_down : List Instance → Step
  restore : ℕ → Step
  wait : Step
  surge : Step
  roll : Instance → Step
  fall_back : Instance → Step

abbrev pub ready_in : List Instance → ℕ
ready_in is = length (keep (λ i. is_phase (phase_of i) ready) is)

-- rollStep, with the first of the retiring instances and the others
unfoldable pub roll_step : ℕ → List Instance → Instance → List Instance → Step
unfolding surge_blocked
roll_step replicas fresh victim others =
    let both = length fresh + length (victim ∷ others) in
    if eqb both replicas && eqb (ready_in fresh) (length fresh)
    then surge
    else if ltb replicas both && leb (min replicas (length fresh)) (ready_in fresh)
    then roll victim
    else if ltb replicas both && surge_blocked fresh
    then fall_back victim
    else wait

-- The tests of advance after the drains.
unfoldable pub step_of : ℕ → Groups → Step
unfolding roll_step
step_of replicas g =
    if ltb replicas (length g.fresh)
    then scale_down (take (length g.fresh - replicas) g.fresh)
    else if ltb (length g.fresh + length g.retiring) replicas
    then restore (replicas - length g.fresh - length g.retiring)
    else elim g.retiring [
      | [] ↦ wait
      | victim ∷ others ↦
          if ltb 0 (length g.in_drain) then wait else roll_step replicas g.fresh victim others
    ]
