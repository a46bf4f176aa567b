-- ===== src/Agent/Reconcile/Drains.antt =====
-- A draining instance is never started again by its agent (internal/agent/reconcile.go, ADR 0010).
use k_lite.Object.Types.{Instance, draining, is_phase, phase_of}
use k_lite.Agent.Reconcile.{
  AgentState, InstState, RunningInstance, Runtime, converge, match_containers, observed_draining,
  prune_state, put_state, reconcile, reconcile_instance, reconcile_instances, remembered_grace,
  remove_orphan, remove_orphans, state_for, working_copy,
}
use k_lite.Common.Int.{ℤ}
use k_lite.Common.{
  Bool, Bool-cases, List, Map, Option, String, [], any, ap, arith, eq_iff, eq_refl, false,
  if◌then◌else◌, inl, inr, is_some, keep, lookup, lookup-insert, none, not, refl, some, subst, sym,
  true, ℕ, ◌&&◌, ◌==◌, ◌||◌, ◌∙◌, ◌∷◌, ◌≡◌, ◌⊎◌,
}
use k_lite.Server.Agent.{serving_phase}
use k_lite.Agent.Reconcile.Puts.{IsPut, elim_state, if_same, reconcile_instance-IsPut}

-- The result of a pass over a draining instance.
pub record IsUntouched {R : Type 0} (i : Instance) (r : R) (out : Option String × AgentState × R)
    : Type 0 where
  pub no_error : out.0 ≡ none
  pub same_runtime : out.2 ≡ r
  pub kept_state : InstState
  pub stored_state : lookup i.meta.name out.1.states ≡ some kept_state
  pub still_draining : kept_state.is_draining ≡ true
  pub not_serving : serving_phase kept_state.phase ≡ false

put-IsUntouched :
    {R : Type 0} (i : Instance) (a : AgentState) (r : R) (st : InstState)
    → (st.is_draining ≡ true) × (serving_phase st.phase ≡ false)
    → IsUntouched i r (none, put_state i.meta.name st a, r)
unfolding put_state
put-IsUntouched i a r st (d, s) = record {
  no_error = refl;
  same_runtime = refl;
  kept_state = st;
  stored_state =
      ground (arith, lookup-insert i.meta.name i.meta.name st a.states, eq_refl i.meta.name);
  still_draining = d;
  not_serving = s;
}

observed_drain :
    (exited : ℤ → String) (c : Option RunningInstance) (w : InstState)
    → w.is_draining ≡ true
    → ((observed_draining exited c w).is_draining ≡ true)
      × (serving_phase (observed_draining exited c w).phase ≡ false)
unfolding observed_draining serving_phase
observed_drain exited none w h = (h, refl)
observed_drain exited (some c) w h = (
  if_same (λ y. y.is_draining) c.is_running _ _ true h h,
  if_same (λ y. serving_phase y.phase) c.is_running _ _ false refl refl,
)

IsUntouched-if :
    {R : Type 0} (i : Instance) (r : R) (b : Bool) (x y : Option String × AgentState × R)
    → b ≡ true
    → IsUntouched i r x
    → IsUntouched i r (if b then x else y)
IsUntouched-if i r true x y h u = u
IsUntouched-if i r false x y h u = absurd (cc h)

-- The agent remembers a drain of the instance.
pub record IsDrained (name uid : String) (a : AgentState) : Type 0 where
  pub state : InstState
  pub found : lookup name a.states ≡ some state
  pub same_uid : state.state_uid ≡ uid
  pub drains : state.is_draining ≡ true

-- No other incarnation of the instance is among those.
abbrev pub has_other : String → String → Map Instance → Bool
has_other name uid instances =
    any (λ (e : String × Instance). e.1.meta.name == name && not (e.1.meta.uid == uid)) instances

state_for_found :
    (a : AgentState) (i : Instance) (st : InstState)
    → lookup i.meta.name a.states ≡ some st
    → st.state_uid ≡ i.meta.uid
    → state_for a i ≡ st
unfolding state_for
state_for_found a i st e u =
    let b : (st.state_uid == i.meta.uid) ≡ true = (eq_iff st.state_uid i.meta.uid).1 u in
    rw (e, b, state_for) refl

working_copy_draining :
    (a : AgentState) (i : Instance) (name uid : String)
    → IsDrained name uid a
    → i.meta.name ≡ name
    → i.meta.uid ≡ uid
    → ((working_copy a i).is_draining ≡ true) × ((working_copy a i).state_uid ≡ uid)
unfolding working_copy
working_copy_draining a i name uid d n u =
    let at = subst (λ (y : String). lookup y a.states ≡ some d.state) (sym n) d.found in
    let e = state_for_found a i d.state at (d.same_uid ∙ sym u) in
    let known : (state_for a i).is_draining ≡ true =
      ap (λ (y : InstState). y.is_draining) e ∙ d.drains in
    (
      ap (λ (y : Bool). y || is_phase (phase_of i) draining) known,
      ap (λ (y : InstState). y.state_uid) e ∙ d.same_uid,
    )

if_is : {A : Type 0} (b : Bool) (x y : A) → b ≡ true → (if b then x else y) ≡ x
if_is b x y h = rw h refl

if_not : {A : Type 0} (b : Bool) (x y : A) → b ≡ false → (if b then x else y) ≡ y
if_not b x y h = rw h refl

or_false : (b c : Bool) → (b || c) ≡ false → (b ≡ false) × (c ≡ false)
or_false b c h = ground arith

drain_known :
    (a : AgentState) (i : Instance)
    → (is_phase (phase_of i) draining ≡ true) ⊎ IsDrained i.meta.name i.meta.uid a
    → (working_copy a i).is_draining ≡ true
unfolding working_copy
drain_known a i (inl h) = ground (arith, h)
drain_known a i (inr d) = (working_copy_draining a i i.meta.name i.meta.uid d refl refl).0

module _ {R : Type 0} (rt : Runtime R) (exited : ℤ → String) (now : ℕ) where
  converge-IsUntouched :
      (i : Instance) (c : Option RunningInstance) (w : InstState) (a : AgentState) (r : R)
      → w.is_draining ≡ true
      → IsUntouched i r (converge rt exited now i c w a r)
  unfolding converge
  converge-IsUntouched i none w a r h =
      IsUntouched-if i r w.is_draining _ _ h
        (put-IsUntouched i a r (observed_draining exited none w) (observed_drain exited none w h))
  converge-IsUntouched i (some c) w a r h = IsUntouched-if i r w.is_draining _ _ h (
      put-IsUntouched i a r (observed_draining exited (some c) w)
        (observed_drain exited (some c) w h))

  -- An instance that the snapshot says is DRAINING, or whose drain the agent has seen in an earlier
  -- pass under the same uid, is not touched: the runtime is left as it is, nothing fails, and the
  -- stored state keeps the drain and has no serving phase: for all instances, containers, agent
  -- states and runtimes.
  pub reconcile_instance-IsUntouched :
      (i : Instance) (c : Option RunningInstance) (a : AgentState) (r : R)
      → (is_phase (phase_of i) draining ≡ true) ⊎ IsDrained i.meta.name i.meta.uid a
      → IsUntouched i r (reconcile_instance rt exited now i c a r)
  unfolding reconcile_instance
  reconcile_instance-IsUntouched i c a r h =
      converge-IsUntouched i c (working_copy a i) a r (drain_known a i h)

-- What a lookup finds after a state is stored.
lookup-put_state :
    (key name : String) (st : InstState) (a a' : AgentState)
    → a' ≡ put_state key st a
    → lookup name a'.states ≡ (if key == name then some st else lookup name a.states)
unfolding put_state
lookup-put_state key name st a a' q =
    ap (λ (y : AgentState). lookup name y.states) q ∙ lookup-insert key name st a.states

put_state-IsDrained :
    (now : ℕ) (i : Instance) (a a' : AgentState) (name uid : String)
    → IsPut now i (working_copy a i) a a'
    → (i.meta.name == name && not (i.meta.uid == uid)) ≡ false
    → IsDrained name uid a
    → IsDrained name uid a'
unfolding put_state
put_state-IsDrained now i a a' name uid p other d = elim (Bool-cases (i.meta.name == name)) [
  | inr e ↦ record {
    state = d.state;
    found = (lookup-put_state i.meta.name name p.state a a' p.effect ∙ if_not _ _ _ e ∙ d.found);
    same_uid = d.same_uid;
    drains = d.drains;
  }
  | inl e ↦
      let en : i.meta.name ≡ name = (eq_iff i.meta.name name).0 e in
      let eu : i.meta.uid ≡ uid = (eq_iff i.meta.uid uid).0 (ground (arith, e)) in
      let (wd, wu) = working_copy_draining a i name uid d en eu in
      record {
        state = p.state;
        found = lookup-put_state i.meta.name name p.state a a' p.effect ∙ if_is _ _ _ e;
        same_uid = p.uid_kept ∙ wu;
        drains = p.drain_kept ∙ wd;
      }
]

-- The fields that a pass only reads.
desired-put_state :
    (now : ℕ) (i : Instance) (w : InstState) (a a' : AgentState)
    → IsPut now i w a a'
    → a'.desired ≡ a.desired
unfolding put_state
desired-put_state now i w a a' p = ap (λ (y : AgentState). y.desired) p.effect

module _ {R : Type 0} (rt : Runtime R) (exited : ℤ → String) (now : ℕ) (name uid : String) where
  instances-IsDrained :
      (is : Map Instance) (by_name : Map RunningInstance) (a : AgentState) (r : R)
      → has_other name uid is ≡ false
      → IsDrained name uid a
      → IsDrained name uid (reconcile_instances rt exited now is by_name a r).1
        × ((reconcile_instances rt exited now is by_name a r).1.desired ≡ a.desired)
  unfolding reconcile_instances
  instances-IsDrained [] by_name a r h d = (d, refl)
  instances-IsDrained ((key, i) ∷ is) by_name a r h d =
      let out = reconcile_instance rt exited now i (lookup key by_name) a r in
      let p = reconcile_instance-IsPut rt exited now i (lookup key by_name) a r in
      let (f, g) = or_false _ _ h in
      let (later, same_desired) =
        instances-IsDrained is by_name out.1 out.2 g
          (put_state-IsDrained now i a out.1 name uid p f d) in
      (later, same_desired ∙ desired-put_state now i (working_copy a i) a out.1 p)

  orphan_states :
      (c : RunningInstance) (a : AgentState) (r : R)
      → ((remove_orphan rt exited now c a r).1.states ≡ a.states)
        × ((remove_orphan rt exited now c a r).1.desired ≡ a.desired)
  unfolding remove_orphan
  orphan_states c a r =
      let stopped : Option String × R =
        if c.is_running
        then rt.stop_instance c.running_container (remembered_grace a c.instance_name) r
        else (none, r) in
      let removed = rt.remove_instance c.running_container stopped.1 in
      let same = λ (y : AgentState). (y.states ≡ a.states) × (y.desired ≡ a.desired) in
      elim_state same stopped.0 _ _
        (elim_state same removed.0 _ _
          (elim (Bool-cases (is_some (lookup c.instance_name a.desired))) [
            | inl e ↦ rw e (refl, refl)
            | inr e ↦ rw e (refl, refl)
          ])
          (λ error. (refl, refl)))
        (λ error. (refl, refl))

  pub orphans_states :
      (cs : List RunningInstance) (a : AgentState) (r : R)
      → ((remove_orphans rt exited now cs a r).1.states ≡ a.states)
        × ((remove_orphans rt exited now cs a r).1.desired ≡ a.desired)
  unfolding remove_orphans
  orphans_states [] a r = (refl, refl)
  orphans_states (c ∷ cs) a r =
      let out = remove_orphan rt exited now c a r in
      let (s, d) = orphan_states c a r in
      let (t, e) = orphans_states cs out.1 out.2 in (t ∙ s, e ∙ d)

  lookup-keep_key :
      (q : String → Bool) (states : Map InstState)
      → q name ≡ true
      → lookup name (keep (λ (e : String × InstState). q (e.0)) states) ≡ lookup name states
  unfolding lookup
  lookup-keep_key q [] h = refl
  lookup-keep_key q ((key, st) ∷ states) h = elim (Bool-cases (key == name)) [
    | inl e ↦ let k : q key ≡ true = ap q ((eq_iff key name).0 e) ∙ h in rw (k, e) refl
    | inr e ↦ elim (Bool-cases (q key)) [
      | inl k ↦ rw (k, e) (lookup-keep_key q states h)
      | inr k ↦ rw (k, e) (lookup-keep_key q states h)
    ]
  ]

  -- A drain that the agent has seen stays seen through any pass, as long as the instance is desired
  -- and no other incarnation of it is: whatever containers run and whatever the runtime answers.
  pub reconcile-IsDrained :
      (actual : List RunningInstance) (a : AgentState) (r : R)
      → has_other name uid a.desired ≡ false
      → is_some (lookup name a.desired) ≡ true
      → IsDrained name uid a
      → IsDrained name uid (reconcile rt exited now actual a r).1
  unfolding reconcile prune_state
  reconcile-IsDrained actual a r alone wanted d =
      let (by_name, orphans) = match_containers a.desired actual [] [] in
      let out = remove_orphans rt exited now orphans a r in
      let (s, e) = orphans_states orphans a r in
      let carried : IsDrained name uid out.1 = record {
        state = d.state;
        found = ap (λ (y : Map InstState). lookup name y) s ∙ d.found;
        same_uid = d.same_uid;
        drains = d.drains;
      } in
      let (after, f) = instances-IsDrained a.desired by_name out.1 out.2 alone carried in
      let last = (reconcile_instances rt exited now a.desired by_name out.1 out.2).1 in
      let kept : is_some (lookup name last.desired) ≡ true =
        ap (λ (y : Map Instance). is_some (lookup name y)) (f ∙ e) ∙ wanted in
      record {
        state = after.state;
        found =
            lookup-keep_key (λ y. is_some (lookup y last.desired)) last.states kept ∙ after.found;
        same_uid = after.same_uid;
        drains = after.drains;
      }
