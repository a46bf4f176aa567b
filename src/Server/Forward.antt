-- ===== src/Server/Forward.antt =====
-- Status reports never bring a draining instance back into service (internal/server/agent.go, ADR 0010).
use k_lite.Store.{
  Error, Memory, Result, already_exists, conflict, err, get, invalid_name, invalid_rev, not_found,
  ok, put, unknown_kind,
}
use k_lite.Server.Agent.{
  StatusUpdate, Updated, apply_instance_status, decide_report, decide_status, is_same_status,
  merge_status, serving_phase, stored,
}
use k_lite.Common.{
  Bool-cases, Option-cases, String, ap, arith, eq_iff, false, inl, inr, refl, some, subst, sym,
  true, ℕ, ◌&&◌, ◌+◌, ◌==◌, ◌∙◌, ◌≡◌, ◌⊎◌,
}
use k_lite.Object.Types.{
  Instance, InstanceStatus, Object, draining, ingress_object, instance_object, instance_status,
  is_phase, node_object, nothing, phase_of, policy_object, service_object, vip_object,
  workload_object,
}
use k_lite.Object.Registry.{instance_kind, kind_of, meta_of, with_meta}
use k_lite.Store.Changes.{IsBounded, Reach, Reach-IsBounded}
use k_lite.Server.Cas.{answer, done, server_cas_retries, write}
use k_lite.Server.Atomic.{IsPinned, answered, cas_loop-IsAtomic, get-IsFiled, written}
use k_lite.Common.Int.{pos, ℤ}
use k_lite.Server.Owned.{Result-cases}
use k_lite.Store.Laws.{get-put}
use k_lite.Server.Moments.{IsMoment, IsMoment-Reach}

-- What an answered status report did: one instance, of the reporting node and with the reported uid.
-- The state `at` is one that the report's loop met, and its next revision is the one that was written.
pub record IsForward (now : ℕ) (others : ℕ → Memory → Memory) (m m' : Memory) (node : String)
    (u : StatusUpdate) : Type 0 where
  pub at : Memory
  pub moment :
      IsMoment now others instance_kind u.update_name
        (decide_status node u)
        server_cas_retries
        0
        m
        at
  pub reported : InstanceStatus
  pub has_status : u.update_status ≡ some reported
  pub before_rev : ℕ
  pub after_rev : ℕ
  pub instance_before : Instance
  pub instance_after : Instance
  pub before : get instance_kind u.update_name at ≡ ok (instance_object instance_before, before_rev)
  pub after : get instance_kind u.update_name m' ≡ ok (instance_object instance_after, after_rev)
  pub on_node : instance_before.spec.node ≡ node
  pub same_uid : instance_before.meta.uid ≡ u.update_uid
  pub same_spec : instance_after.spec ≡ instance_before.spec
  pub drains_on :
      (is_phase (phase_of instance_before) draining && serving_phase (phase_of instance_after))
      ≡ false
  pub reports :
      (is_phase (phase_of instance_before) draining ≡ true)
      ⊎ (instance_status instance_after ≡ reported)
  pub same_rest : record (instance_status instance_after) { phase = reported.phase } ≡ reported
  pub next_rev : after_rev ≡ at.rev + 1

merge_status_draining :
    (old reported : InstanceStatus)
    → (is_phase old.phase draining && serving_phase (merge_status old reported).phase) ≡ false
unfolding merge_status serving_phase
merge_status_draining old reported = ground arith

merge_status_other :
    (old reported : InstanceStatus)
    → (is_phase old.phase draining ≡ true) ⊎ (merge_status old reported ≡ reported)
unfolding merge_status
merge_status_other old reported = elim (Bool-cases (is_phase old.phase draining)) [
  | inl e ↦ inl e
  | inr e ↦ inr (rw e refl)
]

merge_status_rest :
    (old reported : InstanceStatus)
    → record (merge_status old reported) { phase = reported.phase } ≡ reported
unfolding merge_status
merge_status_rest old reported =
    elim (Bool-cases (is_phase old.phase draining && serving_phase reported.phase)) [
      | inl e ↦ rw e refl
      | inr e ↦ rw e refl
    ]

-- The write of a report, and what the instance was.
pub data IsReport (node : String) (u : StatusUpdate) (o : Object) (rev : ℕ) (new : Object) (x : ℤ)
    : Type 0 where
  report :
      (i : Instance) (reported : InstanceStatus)
      → u.update_status ≡ some reported
      → o ≡ instance_object i
      → i.spec.node ≡ node
      → i.meta.uid ≡ u.update_uid
      → new
        ≡ instance_object (record i { status = some (merge_status (instance_status i) reported) })
      → x ≡ pos rev
      → IsReport node u o rev new x

module _ (node : String) (u : StatusUpdate) where
  decided-IsReport :
      (i : Instance) (rev : ℕ) (a : Updated) (new : Object) (x : ℤ) (lost : Error)
      → i.spec.node ≡ node
      → i.meta.uid ≡ u.update_uid
      → decide_report u.update_status i rev ≡ write a new x lost
      → IsReport node u (instance_object i) rev new x
  unfolding decide_report
  decided-IsReport i rev a new x lost n v h = elim (Option-cases u.update_status) [
    | inl e ↦ absurd (cc (rw (e, decide_report) at h))
    | inr (reported, e) ↦
        let merged = merge_status (instance_status i) reported in
        elim (Bool-cases (is_same_status i.status merged)) [
          | inl w ↦ absurd (cc (rw (e, w, decide_report) at h))
          | inr w ↦
              let h' = rw (e, w, decide_report) at h in report i reported e refl n v (cc h') (cc h')
        ]
  ]

  never_stored :
      (i : Instance) (rev : ℕ) (B : Type 0)
      → decide_report u.update_status i rev ≡ answer stored
      → B
  unfolding decide_report
  never_stored i rev B h = elim (Option-cases u.update_status) [
    | inl e ↦ absurd (cc (rw (e, decide_report) at h))
    | inr (reported, e) ↦
        elim (Bool-cases (is_same_status i.status (merge_status (instance_status i) reported))) [
          | inl w ↦ absurd (cc (rw (e, w, decide_report) at h))
          | inr w ↦ absurd (cc (rw (e, w, decide_report) at h))
        ]
  ]

  IsReport-write :
      (o : Object) (rev : ℕ) (a : Updated) (new : Object) (x : ℤ) (lost : Error)
      → decide_status node u (ok (o, rev)) ≡ write a new x lost
      → IsReport node u o rev new x
  unfolding decide_status
  IsReport-write (instance_object i) rev a new x lost h = elim (Bool-cases (i.spec.node == node)) [
    | inr n ↦ absurd (cc (rw n at h))
    | inl n ↦ elim (Bool-cases (i.meta.uid == u.update_uid)) [
      | inr v ↦ absurd (cc (rw (n, v) at h))
      | inl v ↦
          decided-IsReport i rev a new x lost ((eq_iff _ _).0 n) ((eq_iff _ _).0 v) (rw (n, v) at h)
    ]
  ]
  IsReport-write (workload_object w) rev a new x lost h = absurd (cc h)
  IsReport-write (service_object w) rev a new x lost h = absurd (cc h)
  IsReport-write (node_object w) rev a new x lost h = absurd (cc h)
  IsReport-write (policy_object w) rev a new x lost h = absurd (cc h)
  IsReport-write (vip_object w) rev a new x lost h = absurd (cc h)
  IsReport-write (ingress_object w) rev a new x lost h = absurd (cc h)
  IsReport-write nothing rev a new x lost h = absurd (cc h)

  no_report :
      (e : Error) (a : Updated) (new : Object) (x : ℤ) (lost : Error) (B : Type 0)
      → decide_status node u (err e) ≡ write a new x lost
      → B
  unfolding decide_status
  no_report not_found a new x lost B h = absurd (cc h)
  no_report already_exists a new x lost B h = absurd (cc h)
  no_report conflict a new x lost B h = absurd (cc h)
  no_report invalid_name a new x lost B h = absurd (cc h)
  no_report invalid_rev a new x lost B h = absurd (cc h)
  no_report unknown_kind a new x lost B h = absurd (cc h)

  pub IsPinned-decide_status : IsPinned instance_kind u.update_name (decide_status node u)
  unfolding kind_of meta_of
  IsPinned-decide_status = record {
    on_object = λ o rev a new x lost ek en h. elim (IsReport-write o rev a new x lost h) [
      | report i reported es eo n v e ex ↦ (
        ex,
        ap kind_of e,
        ap (λ (y : Object). (meta_of y).name) e
            ∙ sym (ap (λ (y : Object). (meta_of y).name) eo)
            ∙ en,
      )
    ];
    on_error = λ e a new x lost h. no_report e a new x lost _ h;
  }

  stored_report :
      (r : Result (Object × ℕ)) (B : Type 0) → decide_status node u r ≡ answer stored → B
  unfolding decide_status
  stored_report (err not_found) B h = absurd (cc h)
  stored_report (err already_exists) B h = absurd (cc h)
  stored_report (err conflict) B h = absurd (cc h)
  stored_report (err invalid_name) B h = absurd (cc h)
  stored_report (err invalid_rev) B h = absurd (cc h)
  stored_report (err unknown_kind) B h = absurd (cc h)
  stored_report (ok (workload_object w, rev)) B h = absurd (cc h)
  stored_report (ok (service_object w, rev)) B h = absurd (cc h)
  stored_report (ok (node_object w, rev)) B h = absurd (cc h)
  stored_report (ok (policy_object w, rev)) B h = absurd (cc h)
  stored_report (ok (vip_object w, rev)) B h = absurd (cc h)
  stored_report (ok (ingress_object w, rev)) B h = absurd (cc h)
  stored_report (ok (nothing, rev)) B h = absurd (cc h)
  stored_report (ok (instance_object i, rev)) B h = elim (Bool-cases (i.spec.node == node)) [
    | inr n ↦ absurd (cc (rw n at h))
    | inl n ↦ elim (Bool-cases (i.meta.uid == u.update_uid)) [
      | inr v ↦ absurd (cc (rw (n, v) at h))
      | inl v ↦ never_stored i rev B (rw (n, v) at h)
    ]
  ]

  report-IsForward :
      (now : ℕ) (others : ℕ → Memory → Memory) (m s m' : Memory) (o : Object) (rev n : ℕ)
      (new : Object) (x : ℤ)
      → IsMoment now others instance_kind u.update_name
          (decide_status node u)
          server_cas_retries
          0
          m
          s
      → get instance_kind u.update_name s ≡ ok (o, rev)
      → (meta_of new).name ≡ u.update_name
      → IsReport node u o rev new x
      → put now new x s ≡ (ok n, m')
      → IsForward now others m m' node u
  unfolding kind_of meta_of with_meta
  report-IsForward now others m s m' o rev n new x r q named (report i reported es eo on v e ex) p =
      let merged = merge_status (instance_status i) reported in
      let written_object : Object = instance_object (record i { status = some merged }) in
      let p' : put now written_object x s ≡ (ok n, m') =
        subst (λ (y : Object). put now y x s ≡ (ok n, m')) e p in
      let (er, (meta, read, en, el, ev)) =
        get-put instance_kind now written_object x s m' n refl p' in
      let named' : (meta_of written_object).name ≡ u.update_name =
        sym (ap (λ (y : Object). (meta_of y).name) e) ∙ named in
      record {
        at = s;
        moment = r;
        reported = reported;
        has_status = es;
        before_rev = rev;
        after_rev = n;
        instance_before = i;
        instance_after = record i { meta = meta; status = some merged };
        before = q ∙ ap (λ (y : Object). ok (y, rev)) eo;
        after =
            subst (λ (y : String). get instance_kind y m' ≡ ok (with_meta meta written_object, n))
              named' read;
        on_node = on;
        same_uid = v;
        same_spec = refl;
        drains_on = merge_status_draining (instance_status i) reported;
        reports = merge_status_other (instance_status i) reported;
        same_rest = merge_status_rest (instance_status i) reported;
        next_rev = er;
      }

  -- A status report that is answered as stored found, in one of the states of the store that its loop
  -- read or wrote to, an instance of the reporting node with the reported uid. After the write, which
  -- has the next revision of that state, the instance has the spec that it had and the reported
  -- status, except for the phase of an instance that was DRAINING, which is no serving phase
  -- afterwards. For all calls of other writers before each store access of the call, if the store was
  -- well-formed.
  pub apply_instance_status-IsForward :
      (now : ℕ) (others : ℕ → Memory → Memory) (m m' : Memory)
      → IsBounded m
      → ((j : ℕ) (n : Memory) → Reach n (others j n))
      → apply_instance_status now others node u m ≡ (done stored, m')
      → IsForward now others m m' node u
  unfolding apply_instance_status
  apply_instance_status-IsForward now others m m' b reach h =
      let (s, t, at) =
        cas_loop-IsAtomic now others instance_kind u.update_name (decide_status node u)
          IsPinned-decide_status server_cas_retries 0 m m' stored b reach h in
      let r : Reach m s =
        IsMoment-Reach now others instance_kind u.update_name (decide_status node u)
          server_cas_retries 0 m s reach t in
      elim at [
        | answered e q ↦ stored_report (get instance_kind u.update_name s) _ e
        | written new x lost n e p ↦ elim (Result-cases (get instance_kind u.update_name s)) [
          | inl (f, q) ↦ no_report f stored new x lost _ (sym (ap (decide_status node u) q) ∙ e)
          | inr ((o, rev), q) ↦
              let decided = sym (ap (decide_status node u) q) ∙ e in
              let (ek, em) =
                get-IsFiled instance_kind u.update_name s o rev (Reach-IsBounded r b) q in
              let (ex, nk, nm) =
                IsPinned-decide_status.on_object o rev stored new x lost ek em decided in
              report-IsForward now others m s m' o rev n new x t q nm
                (IsReport-write o rev stored new x lost decided) p
        ]
      ]
