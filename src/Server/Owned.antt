-- ===== src/Server/Owned.antt =====
-- What an apply may change of a stored object (internal/server/server.go, ADR 0042).
use k_lite.Object.Registry.{Kind, kind_of, meta_of, meta_of-with_meta, with_meta}
use k_lite.Object.Types.{
  InstanceStatus, Meta, NodeStatus, Object, WorkloadStatus, empty_meta, ingress_object,
  instance_object, node_object, nothing, policy_object, service_object, vip_object, workload_object,
}
use k_lite.Common.{
  Bool, Bool-cases, Option, Option-cases, String, ap, arith, false, inl, inr, none, refl, some,
  subst, sym, ℕ, ◌+◌, ◌∙◌, ◌≡◌, ◌⊎◌,
}
use k_lite.Server.Cluster.{
  Applied, applied, apply_one, apply_valid, decide_apply, drop_status, is_materialized, merge_kind,
  merge_spec, sanitize, updated,
}
use k_lite.Server.Atomic.{IsAtomic, IsPinned, answered, cas_loop-IsAtomic, get-IsFiled, written}
use k_lite.Store.{
  Error, Memory, Result, already_exists, conflict, err, get, invalid_name, invalid_rev, not_found,
  ok, unknown_kind,
}
use k_lite.Store.Changes.{IsBounded, Reach, Reach-IsBounded}
use k_lite.Common.Int.{pos, ℤ}
use k_lite.Server.Cas.{
  Attempt, Intent, answer, broken, cas_loop, done, kept_losing, server_cas_retries, write,
}
use k_lite.Store.Laws.{get-put}
use k_lite.Object.Defaults.{default_object}
use k_lite.Object.Validate.{empty_envelope, validate}
use k_lite.Server.Moments.{IsMoment, IsMoment-Reach}

-- The status that an envelope carries.
pub data StatusPart : Type 0 where
  workload_part : Option WorkloadStatus → StatusPart
  node_part : Option NodeStatus → StatusPart
  instance_part : Option InstanceStatus → StatusPart
  no_part : StatusPart

abbrev pub status_part : Object → StatusPart
status_part (workload_object w) = workload_part w.status
status_part (node_object n) = node_part n.status
status_part (instance_object i) = instance_part i.status
status_part _ = no_part

-- What is left of an object without its metadata and its status.
abbrev pub spec_part : Object → Object
spec_part o = (drop_status (with_meta empty_meta o)).0

kind_of-merge_spec : (e o : Object) → kind_of (merge_spec e o) ≡ kind_of e
unfolding kind_of merge_spec merge_kind with_meta
kind_of-merge_spec e o = ground arith

name-merge_spec : (e o : Object) → (meta_of (merge_spec e o)).name ≡ (meta_of e).name
unfolding meta_of merge_spec merge_kind with_meta
name-merge_spec e o = ground arith

labels-merge_spec :
    (e o : Object) (k : Kind)
    → kind_of e ≡ some k
    → (meta_of (merge_spec e o)).labels ≡ (meta_of o).labels
unfolding kind_of meta_of merge_spec merge_kind with_meta
labels-merge_spec (workload_object w) o k h = refl
labels-merge_spec (service_object w) o k h = refl
labels-merge_spec (node_object w) o k h = refl
labels-merge_spec (policy_object w) o k h = refl
labels-merge_spec (instance_object w) o k h = refl
labels-merge_spec (vip_object w) o k h = refl
labels-merge_spec (ingress_object w) o k h = refl
labels-merge_spec nothing o k h = absurd (cc h)

status_part-with_meta : (m : Meta) (o : Object) → status_part (with_meta m o) ≡ status_part o
unfolding with_meta
status_part-with_meta m o = ground arith

status_part-merge_spec : (e o : Object) → status_part (merge_spec e o) ≡ status_part e
unfolding merge_spec merge_kind with_meta
status_part-merge_spec e o = ground arith

spec_part-with_meta : (m : Meta) (o : Object) → spec_part (with_meta m o) ≡ spec_part o
unfolding with_meta drop_status
spec_part-with_meta m o = ground arith

spec_part-merge_spec :
    (e o : Object) (k : Kind)
    → kind_of e ≡ some k
    → kind_of o ≡ some k
    → is_materialized k ≡ false
    → spec_part (merge_spec e o) ≡ spec_part o
unfolding kind_of merge_spec merge_kind with_meta drop_status is_materialized
spec_part-merge_spec (workload_object w) (workload_object v) k h g f = refl
spec_part-merge_spec (service_object w) (service_object v) k h g f = refl
spec_part-merge_spec (node_object w) (node_object v) k h g f = refl
spec_part-merge_spec (policy_object w) (policy_object v) k h g f = refl
spec_part-merge_spec e o k h g f = absurd (ground arith)

-- An update of a stored object by an apply: the status stays, spec and labels are the caller's. The
-- state `at` is one that the apply's loop met, and its next revision is the one that was written.
pub record IsOwned (now : ℕ) (others : ℕ → Memory → Memory)
    (decide : Result (Object × ℕ) → Intent Applied) (m m' : Memory) (k : Kind) (incoming : Object)
    : Type 0 where
  pub at : Memory
  pub moment : IsMoment now others k (meta_of incoming).name decide server_cas_retries 0 m at
  pub existing : Object
  pub existing_rev : ℕ
  pub saved : Object
  pub saved_rev : ℕ
  pub before : get k (meta_of incoming).name at ≡ ok (existing, existing_rev)
  pub after : get k (meta_of incoming).name m' ≡ ok (saved, saved_rev)
  pub next_rev : saved_rev ≡ at.rev + 1
  pub same_status_part : status_part saved ≡ status_part existing
  pub same_spec_part : spec_part saved ≡ spec_part incoming
  pub same_labels : (meta_of saved).labels ≡ (meta_of incoming).labels

pair_of : {A B : Type 0} {a : A} {b : B} (p : A × B) → p.0 ≡ a → p.1 ≡ b → p ≡ (a, b)
pair_of (x, y) e f = cc

pub Result-cases :
    {A : Type 0} (r : Result A) → ((e : Error) × (r ≡ err e)) ⊎ ((a : A) × (r ≡ ok a))
Result-cases (err e) = inl (e, refl)
Result-cases (ok a) = inr (a, refl)

module _ (equal : Object → Object → Bool) where
  on_absent :
      (d : Bool) (o : Object) (k : Kind) (e : Error) (a : Applied) (new : Object) (x : ℤ)
      (lost : Error)
      → kind_of o ≡ some k
      → decide_apply equal d o (err e) ≡ write a new x lost
      → (e ≡ not_found)
        × (x ≡ pos 0)
        × (kind_of new ≡ some k)
        × ((meta_of new).name ≡ (meta_of o).name)
  unfolding decide_apply
  on_absent d o k not_found a new x lost kind h =
      let en : o ≡ new = cc h in
      (refl, cc h, sym (ap kind_of en) ∙ kind, sym (ap (λ (y : Object). (meta_of y).name) en))
  on_absent d o k already_exists a new x lost kind h = absurd (cc h)
  on_absent d o k conflict a new x lost kind h = absurd (cc h)
  on_absent d o k invalid_name a new x lost kind h = absurd (cc h)
  on_absent d o k invalid_rev a new x lost kind h = absurd (cc h)
  on_absent d o k unknown_kind a new x lost kind h = absurd (cc h)

  not_created :
      (d c : Bool) (o : Object) (e : Error) (new : Object) (x : ℤ) (lost : Error) (A : Type 0)
      → decide_apply equal d o (err e) ≡ write (updated c) new x lost
      → A
  unfolding decide_apply
  not_created d c o not_found new x lost A h = absurd (cc h)
  not_created d c o already_exists new x lost A h = absurd (cc h)
  not_created d c o conflict new x lost A h = absurd (cc h)
  not_created d c o invalid_name new x lost A h = absurd (cc h)
  not_created d c o invalid_rev new x lost A h = absurd (cc h)
  not_created d c o unknown_kind new x lost A h = absurd (cc h)

  not_answered :
      (d c : Bool) (o : Object) (r : Result (Object × ℕ)) (A : Type 0)
      → decide_apply equal d o r ≡ answer (updated c)
      → A
  unfolding decide_apply
  not_answered d c o (err not_found) A h = absurd (cc h)
  not_answered d c o (err already_exists) A h = absurd (cc h)
  not_answered d c o (err conflict) A h = absurd (cc h)
  not_answered d c o (err invalid_name) A h = absurd (cc h)
  not_answered d c o (err invalid_rev) A h = absurd (cc h)
  not_answered d c o (err unknown_kind) A h = absurd (cc h)
  not_answered d c o (ok (existing, rev)) A h =
      elim (Bool-cases (equal (merge_spec existing o) existing)) [
        | inl b ↦ absurd (cc (rw b at h))
        | inr b ↦ absurd (cc (rw b at h))
      ]

  update_of :
      (d c : Bool) (o existing new : Object) (rev : ℕ) (x : ℤ) (lost : Error)
      → decide_apply equal d o (ok (existing, rev)) ≡ write (updated c) new x lost
      → new ≡ merge_spec existing o
  unfolding decide_apply
  update_of d c o existing new rev x lost h =
      elim (Bool-cases (equal (merge_spec existing o) existing)) [
        | inl b ↦ absurd (cc (rw b at h))
        | inr b ↦ cc (rw b at h)
      ]

  decide_apply-IsPinned :
      (d : Bool) (o : Object) (k : Kind)
      → kind_of o ≡ some k
      → IsPinned k (meta_of o).name (decide_apply equal d o)
  unfolding decide_apply
  decide_apply-IsPinned d o k kind = record {
    on_object = λ existing rev a new x lost ek en h.
        elim (Bool-cases (equal (merge_spec existing o) existing)) [
          | inl b ↦ absurd (cc (rw b at h))
          | inr b ↦
              let h' = rw b at h in
              let en' : merge_spec existing o ≡ new = cc h' in
              let ex : pos rev ≡ x = cc h' in
              (
                sym ex,
                sym (ap kind_of en') ∙ kind_of-merge_spec existing o ∙ ek,
                sym (ap (λ (y : Object). (meta_of y).name) en') ∙ name-merge_spec existing o ∙ en,
              )
        ];
    on_error = λ e a new x lost h. on_absent d o k e a new x lost kind h;
  }

  saved-IsOwned :
      (now : ℕ) (others : ℕ → Memory → Memory) (k : Kind) (d c : Bool) (o : Object)
      (m s m' : Memory)
      → kind_of o ≡ some k
      → is_materialized k ≡ false
      → IsBounded m
      → ((j : ℕ) (n : Memory) → Reach n (others j n))
      → IsMoment now others k (meta_of o).name (decide_apply equal d o) server_cas_retries 0 m s
      → IsAtomic now k (meta_of o).name (decide_apply equal d o) (updated c) s m'
      → IsOwned now others (decide_apply equal d o) m m' k o
  saved-IsOwned now others k d c o m s m' kind free b reach t (answered e q) =
      not_answered d c o (get k (meta_of o).name s) _ e
  saved-IsOwned now others k d c o m s m' kind free b reach t (written new x lost n e p) =
      elim (Result-cases (get k (meta_of o).name s)) [
        | inl (f, q) ↦ not_created d c o f new x lost _ (sym (ap (decide_apply equal d o) q) ∙ e)
        | inr ((existing, rev), q) ↦
            let en =
              update_of d c o existing new rev x lost (sym (ap (decide_apply equal d o) q) ∙ e) in
            let r : Reach m s =
              IsMoment-Reach now others k (meta_of o).name (decide_apply equal d o)
                server_cas_retries 0 m s reach t in
            let (ek, em) = get-IsFiled k (meta_of o).name s existing rev (Reach-IsBounded r b) q in
            let nk : kind_of new ≡ some k = ap kind_of en ∙ kind_of-merge_spec existing o ∙ ek in
            let nm : (meta_of new).name ≡ (meta_of o).name =
              ap (λ (y : Object). (meta_of y).name) en ∙ name-merge_spec existing o ∙ em in
            let (er, (meta, read, en', el, ev)) = get-put k now new x s m' n nk p in
            record {
              at = s;
              moment = t;
              existing = existing;
              existing_rev = rev;
              saved = with_meta meta new;
              saved_rev = n;
              before = q;
              after = subst (λ (y : String). get k y m' ≡ ok (with_meta meta new, n)) nm read;
              next_rev = er;
              same_status_part =
                  status_part-with_meta meta new
                  ∙ ap (λ (y : Object). status_part y) en
                  ∙ status_part-merge_spec existing o;
              same_spec_part =
                  spec_part-with_meta meta new
                  ∙ ap (λ (y : Object). spec_part y) en
                  ∙ spec_part-merge_spec existing o k ek kind free;
              same_labels =
                  ap (λ (y : Meta). y.labels) (meta_of-with_meta meta new k nk)
                  ∙ el
                  ∙ ap (λ (y : Object). (meta_of y).labels) en
                  ∙ labels-merge_spec existing o k ek;
            }
      ]

  applied_done : (c : Bool) (r : Attempt Applied) → applied r ≡ updated c → r ≡ done (updated c)
  applied_done c (done a) h = cc
  applied_done c (broken e) h = absurd (cc h)
  applied_done c kept_losing h = absurd (cc h)

  apply_valid-IsOwned :
      (now : ℕ) (others : ℕ → Memory → Memory) (k : Kind) (d c : Bool) (o : Object) (m m' : Memory)
      → IsBounded m
      → ((j : ℕ) (n : Memory) → Reach n (others j n))
      → kind_of o ≡ some k
      → is_materialized k ≡ false
      → apply_valid now others equal d o m ≡ (updated c, m')
      → IsOwned now others (decide_apply equal d o) m m' k o
  unfolding apply_valid
  apply_valid-IsOwned now others k d c o m m' b reach kind free h =
      let both = rw (kind, apply_valid) at h in
      let run =
        cas_loop now others server_cas_retries k (meta_of o).name (decide_apply equal d o) 0 m in
      let first : run.0 ≡ done (updated c) =
        applied_done c run.0 (ap (λ (t : Applied × Memory). t.0) both) in
      let second : run.1 ≡ m' = ap (λ (t : Applied × Memory). t.1) both in
      let (s, rs, at) =
        cas_loop-IsAtomic now others k (meta_of o).name (decide_apply equal d o)
          (decide_apply-IsPinned d o k kind) server_cas_retries 0 m m' (updated c) b reach
          (pair_of run first second) in
      saved-IsOwned now others k d c o m s m' kind free b reach rs at

  kind_of-sanitized : (o : Object) → kind_of (default_object (sanitize o).0) ≡ kind_of o
  unfolding kind_of sanitize drop_status with_meta default_object
  kind_of-sanitized o = ground arith

  no_kind_valid : (o : Object) → kind_of o ≡ none → validate o ≡ some empty_envelope
  unfolding validate
  no_kind_valid o e = rw (e, validate) refl

  -- An apply that is answered with an update has kept the stored status and taken the caller's spec
  -- and labels, completed with the defaults and without the caller's own status: one of the states of
  -- the store that the call's loop read or wrote to holds an object with the status that the object
  -- under the name has after the write, whose revision is the next one of that state. For all calls
  -- of other writers before each store access of the call, if the store was well-formed.
  pub apply_one-IsOwned :
      (now : ℕ) (others : ℕ → Memory → Memory) (o : Object) (c : Bool) (m m' : Memory)
      → IsBounded m
      → ((j : ℕ) (n : Memory) → Reach n (others j n))
      → apply_one now others equal o m ≡ (updated c, m')
      → (k : Kind) × (kind_of o ≡ some k)
        × IsOwned now others
            (decide_apply equal (sanitize o).1 (default_object (sanitize o).0))
            m
            m'
            k
            (default_object (sanitize o).0)
  unfolding apply_one apply_valid
  apply_one-IsOwned now others o c m m' b reach h =
      let sane = default_object (sanitize o).0 in
      elim (Option-cases (kind_of o)) [
        | inl e ↦ absurd (cc (rw (e, no_kind_valid sane (kind_of-sanitized o ∙ e), apply_one) at h))
        | inr (k, e) ↦ elim (Bool-cases (is_materialized k)) [
          | inl f ↦ absurd (cc (rw (e, f, apply_one) at h))
          | inr f ↦ elim (Option-cases (validate sane)) [
            | inr (x, v) ↦ absurd (cc (rw (e, f, v, apply_one) at h))
            | inl v ↦ (
              k,
              e,
              apply_valid-IsOwned now others k (sanitize o).1 c sane m m' b reach
                  (kind_of-sanitized o ∙ e) f (rw (e, f, v, apply_one) at h),
            )
          ]
        ]
      ]
