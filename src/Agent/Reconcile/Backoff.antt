-- ===== src/Agent/Reconcile/Backoff.antt =====
-- The back-off between restarts (internal/agent/reconcile.go): 1 s, 2 s, 4 s, ... up to 30 s.
use k_lite.Agent.Reconcile.{
  AgentState, InstState, RunningInstance, Runtime, backoff_cap, backoff_start, match_containers,
  next_backoff, prune_state, put_state, reconcile, reconcile_instance, reconcile_instances,
  remove_orphans, state_for, working_copy,
}
use k_lite.Common.{
  Bool, Bool-cases, List, Map, Option-cases, String, [], ap, arith, inl, inr, insert, is_some, keep,
  lookup, min, refl, some, some-injective, subst, suc, sym, zero, ℕ, ◌*◌, ◌+◌, ◌==◌, ◌∙◌, ◌∷◌, ◌≡◌,
  ◌≤◌, ◌⊎◌,
}
use k_lite.Object.Types.{Instance}
use k_lite.Common.Int.{ℤ}
use k_lite.Agent.Reconcile.Puts.{IsPut, reconcile_instance-IsPut}
use k_lite.Agent.Reconcile.Drains.{orphans_states}

-- Powers of two.
abbrev pub doubling : ℕ → ℕ
doubling zero = 1
doubling (suc n) = doubling n * 2

doubling-positive : (n : ℕ) → 1 ≤ doubling n
doubling-positive zero = omega arith
doubling-positive (suc n) = omega (arith, doubling-positive n)

-- None, or a power of two of the first back-off, up to the cap.
abbrev pub IsBackoff : ℕ → Type 0
IsBackoff d = (d ≡ 0) ⊎ ((n : ℕ) × (d ≡ min (backoff_start * doubling n) backoff_cap))

next_capped :
    (d : ℕ)
    → 1 ≤ d
    → next_backoff (min (backoff_start * d) backoff_cap) ≡ min (backoff_start * (d * 2)) backoff_cap
unfolding next_backoff
next_capped d h = ground arith

next-IsBackoff : (d : ℕ) → IsBackoff d → IsBackoff (next_backoff d)
unfolding next_backoff
next-IsBackoff d (inl e) = inr (0, ground (arith, e))
next-IsBackoff d (inr (n, e)) =
    inr (suc n, ap next_backoff e ∙ next_capped (doubling n) (doubling-positive n))

IsBackoff-capped : (d : ℕ) → IsBackoff d → d ≤ backoff_cap
IsBackoff-capped d (inl e) = omega (arith, e)
IsBackoff-capped d (inr (n, e)) = ground (arith, e)

-- A state whose back-off is none or a power of two seconds, and that waits at most for the cap.
pub record IsPacing (now : ℕ) (st : InstState) : Type 0 where
  pub paced : IsBackoff st.backoff
  pub waits : st.next_try ≤ now + backoff_cap

-- Every state of the list does so.
abbrev pub IsPaced : ℕ → Map InstState → Type 0
IsPaced now [] = Unit {0}
IsPaced now ((name, st) ∷ states) = IsPacing now st × IsPaced now states

lookup-IsPaced :
    (now : ℕ) (name : String) (states : Map InstState) (st : InstState)
    → IsPaced now states
    → lookup name states ≡ some st
    → IsPacing now st
unfolding lookup
lookup-IsPaced now name [] st p e = absurd (cc e)
lookup-IsPaced now name ((key, x) ∷ states) st p e = elim (Bool-cases (key == name)) [
  | inl k ↦ subst (IsPacing now) (some-injective x st (rw k at e)) (p.0)
  | inr k ↦ lookup-IsPaced now name states st (p.1) (rw k at e)
]

insert-IsPaced :
    (now : ℕ) (name : String) (st : InstState) (states : Map InstState)
    → IsPacing now st
    → IsPaced now states
    → IsPaced now (insert name st states)
unfolding insert
insert-IsPaced now name st [] q p = (q, tt)
insert-IsPaced now name st ((key, x) ∷ states) q p = elim (Bool-cases (key == name)) [
  | inl k ↦ rw k (q, p.1)
  | inr k ↦ rw k (p.0, insert-IsPaced now name st states q (p.1))
]

keep-IsPaced :
    (now : ℕ) (b : String × InstState → Bool) (states : Map InstState)
    → IsPaced now states
    → IsPaced now (keep b states)
keep-IsPaced now b [] p = p
keep-IsPaced now b (e ∷ states) p = elim (Bool-cases (b e)) [
  | inl k ↦ rw k (p.0, keep-IsPaced now b states (p.1))
  | inr k ↦ rw k (keep-IsPaced now b states (p.1))
]

-- The state that a pass starts from: the stored one, or one without a back-off.
working_copy-IsPacing :
    (now : ℕ) (a : AgentState) (i : Instance)
    → IsPaced now a.states
    → IsPacing now (working_copy a i)
unfolding working_copy state_for
working_copy-IsPacing now a i p = elim (Option-cases (lookup i.meta.name a.states)) [
  | inl e ↦ rw (e, state_for) (record { paced = inl refl; waits = omega arith })
  | inr (st, e) ↦
      let q = lookup-IsPaced now i.meta.name a.states st p e in
      elim (Bool-cases (st.state_uid == i.meta.uid)) [
        | inl u ↦ rw (e, u, state_for) (record { paced = q.paced; waits = q.waits })
        | inr u ↦ rw (e, u, state_for) (record { paced = inl refl; waits = omega arith })
      ]
]

put-IsPacing :
    (now : ℕ) (i : Instance) (w : InstState) (a a' : AgentState)
    → (p : IsPut now i w a a') → IsPacing now w
    → IsPacing now p.state
put-IsPacing now i w a a' p q = elim p.backoff_moved [
  | inl (b, t) ↦ record {
    paced = subst IsBackoff (sym b) q.paced;
    waits = omega (arith, t, q.waits);
  }
  | inr (b, t) ↦
      let next = next-IsBackoff w.backoff q.paced in
      record {
        paced = subst IsBackoff (sym b) next;
        waits = omega (arith, t, IsBackoff-capped (next_backoff w.backoff) next);
      }
]

put_state-IsPaced :
    (now : ℕ) (i : Instance) (a a' : AgentState)
    → IsPut now i (working_copy a i) a a'
    → IsPaced now a.states
    → IsPaced now a'.states
unfolding put_state
put_state-IsPaced now i a a' p q =
    subst (λ (y : AgentState). IsPaced now y.states) (sym p.effect)
      (insert-IsPaced now i.meta.name p.state a.states
        (put-IsPacing now i (working_copy a i) a a' p (working_copy-IsPacing now a i q)) q)

module _ {R : Type 0} (rt : Runtime R) (exited : ℤ → String) (now : ℕ) where
  instances-IsPaced :
      (is : Map Instance) (by_name : Map RunningInstance) (a : AgentState) (r : R)
      → IsPaced now a.states
      → IsPaced now (reconcile_instances rt exited now is by_name a r).1.states
  unfolding reconcile_instances
  instances-IsPaced [] by_name a r p = p
  instances-IsPaced ((key, i) ∷ is) by_name a r p =
      let out = reconcile_instance rt exited now i (lookup key by_name) a r in
      let put = reconcile_instance-IsPut rt exited now i (lookup key by_name) a r in
      instances-IsPaced is by_name out.1 out.2 (put_state-IsPaced now i a out.1 put p)

  -- If every stored back-off is none or a power of two seconds capped at 30 seconds, and no stored
  -- instance waits longer than 30 seconds from now, then both hold of the states that a whole pass
  -- of the agent stores: for all containers that run and whatever the runtime answers.
  pub reconcile-IsPaced :
      (actual : List RunningInstance) (a : AgentState) (r : R)
      → IsPaced now a.states
      → IsPaced now (reconcile rt exited now actual a r).1.states
  unfolding reconcile prune_state
  reconcile-IsPaced actual a r p =
      let (by_name, orphans) = match_containers a.desired actual [] [] in
      let out = remove_orphans rt exited now orphans a r in
      let (s, e) = orphans_states rt exited now "" "" orphans a r in
      let last = (reconcile_instances rt exited now a.desired by_name out.1 out.2).1 in
      keep-IsPaced now (λ e. is_some (lookup (e.0) last.desired)) last.states
        (instances-IsPaced a.desired by_name out.1 out.2 (subst (IsPaced now) (sym s) p))
