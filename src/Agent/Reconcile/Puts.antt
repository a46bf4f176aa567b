-- ===== src/Agent/Reconcile/Puts.antt =====
-- A pass of the agent stores one state of an instance (internal/agent/reconcile.go).
use k_lite.Object.Types.{Instance}
use k_lite.Agent.Reconcile.{
  AgentState, InstState, RunningInstance, Runtime, converge, crashed, fail_instance, failed_with,
  marked_running, next_backoff, observed_draining, put_state, reconcile_instance, replace_container,
  restart_instance, run_image, running_phase, start_instance, started, working_copy,
}
use k_lite.Common.Int.{ℤ}
use k_lite.Common.{
  Bool, Option, String, false, if◌then◌else◌, inl, inr, ltb, none, not, refl, some, true, ℕ, ◌+◌,
  ◌≡◌, ◌⊎◌,
}

-- One state is stored for the instance; its uid and its drain are those of the working copy.
pub record IsPut (now : ℕ) (i : Instance) (w : InstState) (a a' : AgentState) : Type 0 where
  pub state : InstState
  pub effect : a' ≡ put_state i.meta.name state a
  pub uid_kept : state.state_uid ≡ w.state_uid
  pub drain_kept : state.is_draining ≡ w.is_draining
  -- the back-off and its end are kept, or the back-off moves on and ends that much later
  pub backoff_moved :
      ((state.backoff ≡ w.backoff) × (state.next_try ≡ w.next_try))
      ⊎ (state.backoff ≡ next_backoff w.backoff) × (state.next_try ≡ now + next_backoff w.backoff)

IsPut-same :
    (now : ℕ) (i : Instance) (w st : InstState) (a : AgentState)
    → st.state_uid ≡ w.state_uid
    → st.is_draining ≡ w.is_draining
    → st.backoff ≡ w.backoff
    → st.next_try ≡ w.next_try
    → IsPut now i w a (put_state i.meta.name st a)
IsPut-same now i w st a u d b t = record {
  state = st;
  effect = refl;
  uid_kept = u;
  drain_kept = d;
  backoff_moved = inl (b, t);
}

IsPut-backed_off :
    (now : ℕ) (i : Instance) (w st : InstState) (a : AgentState)
    → st.state_uid ≡ w.state_uid
    → st.is_draining ≡ w.is_draining
    → st.backoff ≡ next_backoff w.backoff
    → st.next_try ≡ now + next_backoff w.backoff
    → IsPut now i w a (put_state i.meta.name st a)
IsPut-backed_off now i w st a u d b t = record {
  state = st;
  effect = refl;
  uid_kept = u;
  drain_kept = d;
  backoff_moved = inr (b, t);
}

pub if_same :
    {B : Type 0} (f : InstState → B) (b : Bool) (x y : InstState) (v : B)
    → f x ≡ v
    → f y ≡ v
    → f (if b then x else y) ≡ v
if_same f true x y v p q = p
if_same f false x y v p q = q

module _ {R : Type 0} (now : ℕ) (i : Instance) (w : InstState) (a : AgentState) where
  if_IsPut :
      (b : Bool) (x y : Option String × AgentState × R)
      → IsPut now i w a x.1
      → IsPut now i w a y.1
      → IsPut now i w a (if b then x else y).1
  if_IsPut true x y p q = p
  if_IsPut false x y p q = q

-- A property of the agent's state after a split on an error.
pub elim_state :
    {R : Type 0} (P : AgentState → Type 0) (o : Option String) (x : Option String × AgentState × R)
    (y : String → Option String × AgentState × R)
    → P x.1
    → ((e : String) → P (y e).1)
    → P
        (elim o as (λ (z : Option String). Option String × AgentState × R) [
          | some e ↦ y e
          | none ↦ x
        ]).1
elim_state P none x y p q = p
elim_state P (some e) x y p q = q e

module _ {R : Type 0} (rt : Runtime R) (exited : ℤ → String) (now : ℕ) where
  fail-IsPut :
      (i : Instance) (w : InstState) (a : AgentState) (r : R) (error : String)
      → IsPut now i w a (fail_instance rt exited now i.meta.name w error a r).1
  unfolding fail_instance failed_with
  fail-IsPut i w a r error =
      IsPut-backed_off now i w (failed_with now error w) a refl refl refl refl

  run_image-IsPut :
      (i : Instance) (w : InstState) (a : AgentState) (r : R)
      → IsPut now i w a (run_image rt exited now i w a r).1
  unfolding run_image started
  run_image-IsPut i w a r =
      let (e, r1) = rt.ensure_image i.spec.container.image r in
      let (f, id, r2) = rt.run_instance i a.agent_node a.dns_ip r1 in
      let begun = started (running_phase a i) id (rt.inspect_ip id r2).0 w in
      elim_state (IsPut now i w a) e _ _
        (elim_state (IsPut now i w a) f
          (none, put_state i.meta.name begun a, (rt.inspect_ip id r2).1) _
          (IsPut-same now i w begun a refl refl refl refl) (λ error. fail-IsPut i w a r2 error))
        (λ error. fail-IsPut i w a r1 error)

  start-IsPut :
      (i : Instance) (w : InstState) (a : AgentState) (r : R)
      → IsPut now i w a (start_instance rt exited now i w a r).1
  unfolding start_instance
  start-IsPut i w a r =
      if_IsPut now i w a (ltb now w.next_try) (none, put_state i.meta.name w a, r) _
        (IsPut-same now i w w a refl refl refl refl) (run_image-IsPut i w a r)

  replace-IsPut :
      (i : Instance) (c : RunningInstance) (w : InstState) (a : AgentState) (r : R)
      → IsPut now i w a (replace_container rt exited now i c w a r).1
  unfolding replace_container
  replace-IsPut i c w a r =
      let (e, r1) = rt.remove_instance c.running_container r in
      elim_state (IsPut now i w a) e _ _ (start-IsPut i w a r1) (λ error. fail-IsPut i w a r1 error)

  restart-IsPut :
      (i : Instance) (c : RunningInstance) (w : InstState) (a : AgentState) (r : R)
      → IsPut now i w a (restart_instance rt exited now i c w a r).1
  unfolding restart_instance crashed
  restart-IsPut i c w a r =
      if_IsPut now i w a (not w.awaiting_restart)
        (none, put_state i.meta.name (crashed exited now c w) a, r) _
        (IsPut-backed_off now i w (crashed exited now c w) a refl refl refl refl)
        (if_IsPut now i w a (ltb now w.next_try) (none, put_state i.meta.name w a, r) _
          (IsPut-same now i w w a refl refl refl refl) (replace-IsPut i c w a r))

  observed-IsPut :
      (i : Instance) (c : RunningInstance) (w : InstState) (a : AgentState)
      → IsPut now i w a (put_state i.meta.name (observed_draining exited (some c) w) a)
  unfolding observed_draining
  observed-IsPut i c w a =
      IsPut-same now i w (observed_draining exited (some c) w) a
        (if_same (λ y. y.state_uid) c.is_running _ _ w.state_uid refl refl)
        (if_same (λ y. y.is_draining) c.is_running _ _ w.is_draining refl refl)
        (if_same (λ y. y.backoff) c.is_running _ _ w.backoff refl refl)
        (if_same (λ y. y.next_try) c.is_running _ _ w.next_try refl refl)

  converge-IsPut :
      (i : Instance) (c : Option RunningInstance) (w : InstState) (a : AgentState) (r : R)
      → IsPut now i w a (converge rt exited now i c w a r).1
  unfolding converge observed_draining marked_running
  converge-IsPut i none w a r =
      if_IsPut now i w a w.is_draining
        (none, put_state i.meta.name (observed_draining exited none w) a, r) _
        (IsPut-same now i w (observed_draining exited none w) a refl refl refl refl)
        (start-IsPut i w a r)
  converge-IsPut i (some c) w a r =
      let adopted = marked_running (running_phase a i) c w in
      if_IsPut now i w a w.is_draining
        (none, put_state i.meta.name (observed_draining exited (some c) w) a, r) _
        (observed-IsPut i c w a)
        (if_IsPut now i w a c.is_running (none, put_state i.meta.name adopted a, r) _
          (IsPut-same now i w adopted a refl refl refl refl) (restart-IsPut i c w a r))

  -- The agent stores one state of the instance, whatever the runtime does.
  pub reconcile_instance-IsPut :
      (i : Instance) (c : Option RunningInstance) (a : AgentState) (r : R)
      → IsPut now i (working_copy a i) a (reconcile_instance rt exited now i c a r).1
  unfolding reconcile_instance
  reconcile_instance-IsPut i c a r = converge-IsPut i c (working_copy a i) a r
