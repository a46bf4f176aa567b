-- ===== src/Controller/Workload/Serving.antt =====
-- A whole pass over the workloads deletes no instance that is READY in the store
-- (internal/controller/workload.go and rollout.go).
use k_lite.Common.{
  All, All-keep, All-sort_with, All-take, Bool-cases, List, Option, Option-cases, String, [], arith,
  contains, eqb, false, if◌then◌else◌, inl, inr, keep, leb, length, lookup, ltb, min, not, some,
  true, ℕ, ◌&&◌, ◌+◌, ◌-◌, ◌/◌, ◌<◌, ◌==◌, ◌∷◌, ◌≡◌, ◌⊎◌,
}
use k_lite.Common.Int.{pos, pos_part}
use k_lite.Object.Types.{
  Container, Instance, InstancePhase, Template, Workload, draining, is_phase, phase_of, ready,
  workload_object,
}
use k_lite.Store.{Entry, Memory, put}
use k_lite.Store.Changes.{IsBounded, here, put-Write}
use k_lite.Controller.Workload.{
  Pass, advance, delete_instance, each, expire_drain, observed, one_container, perform,
  reconcile_each, reconcile_workload, retire, second, status_eq, update_status,
}
use k_lite.Controller.Workload.Roles.{
  Groups, Step, classify, classify_loop, fall_back, newer, ready_in, restore, roll, roll_step,
  scale_down, step_of, surge, surge_blocked, wait,
}
use k_lite.Controller.Workload.Keeps.{
  IsIdle, IsKept, IsListed, Write-IsKept, delete-IsKept, each-IsKept, expire-IsKept, is_serving,
  many-IsKept, retire-IsKept,
}
use k_lite.Object.Registry.{instance_kind}
use k_lite.Controller.Scheduler.{race-memory}

not_ready : (p : InstancePhase) → is_phase p draining ≡ true → is_phase p ready ≡ false
not_ready p h = ground arith

-- The doomed and the draining instances are not READY.
classify_loop-All :
    (P : Instance → Type 0) (hash : String) (is : List Instance) (nodes : List String)
    → All P is
    → let g = classify_loop hash is nodes in
      let Q : Instance → Type 0 = λ i. P i × (is_phase (phase_of i) ready ≡ false) in
      All P g.fresh × All P g.retiring × All Q g.doomed × All Q g.in_drain
unfolding classify_loop
classify_loop-All P hash [] nodes h = (tt, tt, tt, tt)
classify_loop-All P hash (i ∷ is) nodes (h, hs) =
    let (fresh, retiring, doomed, drains) = classify_loop-All P hash is nodes hs in
    elim (Bool-cases (is_phase (phase_of i) draining)) [
      | inl d ↦ rw d (fresh, retiring, doomed, ((h, not_ready (phase_of i) d), drains))
      | inr d ↦
          elim (Bool-cases (i.spec.template_hash == hash && not (contains nodes i.spec.node))) [
            | inl f ↦ rw (d, f) ((h, fresh), retiring, doomed, drains)
            | inr f ↦ elim (Bool-cases (is_phase (phase_of i) ready)) [
              | inl r ↦ rw (d, f, r) (fresh, (h, retiring), doomed, drains)
              | inr r ↦ rw (d, f, r) (fresh, retiring, ((h, r), doomed), drains)
            ]
          ]
    ]

classify-All :
    (P : Instance → Type 0) (hash : String) (is : List Instance) (nodes : List String)
    → All P is
    → let g = classify hash is nodes in
      let Q : Instance → Type 0 = λ i. P i × (is_phase (phase_of i) ready ≡ false) in
      All P g.fresh × All P g.retiring × All Q g.doomed × All Q g.in_drain
unfolding classify
classify-All P hash is nodes h =
    let (fresh, retiring, doomed, drains) = classify_loop-All P hash is nodes h in
    (All-sort_with P newer _ fresh, All-sort_with P newer _ retiring, doomed, drains)

module _ (start : Memory) (bounded : IsBounded start) (n : String) where
  -- The instances that a step names are among the fresh and the retiring ones.
  abbrev IsAbout : Step → Type 0
  IsAbout (scale_down is) = All (IsListed start) is
  IsAbout (roll i) = IsListed start i
  IsAbout (fall_back i) = IsListed start i
  IsAbout _ = Unit

  IsAbout-roll_step :
      (replicas : ℕ) (fresh : List Instance) (v : Instance) (others : List Instance)
      → IsListed start v
      → IsAbout (roll_step replicas fresh v others)
  unfolding roll_step
  IsAbout-roll_step replicas fresh v others h =
      let both = length fresh + length (v ∷ others) in
      elim (Bool-cases (eqb both replicas && eqb (ready_in fresh) (length fresh))) [
        | inl a ↦ rw a tt
        | inr a ↦
            elim (Bool-cases
              (ltb replicas both && leb (min replicas (length fresh)) (ready_in fresh))) [
                | inl b ↦ rw (a, b) h
                | inr b ↦ elim (Bool-cases (ltb replicas both && surge_blocked fresh)) [
                  | inl c ↦ rw (a, b, c) h
                  | inr c ↦ rw (a, b, c) tt
                ]
              ]
      ]

  IsAbout-retiring :
      (replicas : ℕ) (g : Groups) (rs : List Instance)
      → All (IsListed start) rs
      → IsAbout (elim rs [
        | [] ↦ wait
        | victim ∷ others ↦
            if ltb 0 (length g.in_drain) then wait else roll_step replicas g.fresh victim others
      ])
  IsAbout-retiring replicas g [] h = tt
  IsAbout-retiring replicas g (v ∷ others) (h, hs) = elim (Bool-cases (ltb 0 (length g.in_drain))) [
    | inl d ↦ rw d tt
    | inr d ↦ rw d (IsAbout-roll_step replicas g.fresh v others h)
  ]

  IsAbout-step_of :
      (replicas : ℕ) (g : Groups)
      → All (IsListed start) g.fresh
      → All (IsListed start) g.retiring
      → IsAbout (step_of replicas g)
  unfolding step_of
  IsAbout-step_of replicas g h k = elim (Bool-cases (ltb replicas (length g.fresh))) [
    | inl a ↦ rw a (All-take (IsListed start) (length g.fresh - replicas) g.fresh h)
    | inr a ↦ elim (Bool-cases (ltb (length g.fresh + length g.retiring) replicas)) [
      | inl b ↦ rw (a, b) tt
      | inr b ↦ rw (a, b) (IsAbout-retiring replicas g g.retiring k)
    ]
  ]

  perform-IsKept :
      (suffix : ℕ → String) (s : Step) (now : ℕ) (w : Workload) (c : Container) (hash : String)
      (p : Pass)
      → IsAbout s
      → IsKept start bounded n p.memory
      → IsKept start bounded n (perform suffix s now w c hash p).1.memory
  unfolding perform
  perform-IsKept suffix (scale_down is) now w c hash p h k =
      each-IsKept start bounded n (IsListed start) _
        (retire-IsKept start bounded n now "scale-down") is p h k
  perform-IsKept suffix (restore m) now w c hash p h k =
      many-IsKept start bounded n suffix m now w c hash p k
  perform-IsKept suffix wait now w c hash p h k = k
  perform-IsKept suffix surge now w c hash p h k =
      many-IsKept start bounded n suffix 1 now w c hash p k
  perform-IsKept suffix (roll i) now w c hash p h k =
      each-IsKept start bounded n (IsListed start) (λ j. retire now j "rollout")
        (retire-IsKept start bounded n now "rollout") (i ∷ []) p (h, tt) k
  perform-IsKept suffix (fall_back i) now w c hash p h k =
      each-IsKept start bounded n (IsListed start)
        (λ j. retire now j "drain-first fallback: no capacity to surge")
        (retire-IsKept start bounded n now "drain-first fallback: no capacity to surge") (i ∷ []) p
        (h, tt) k

  advance-IsKept :
      (suffix : ℕ → String) (now : ℕ) (w : Workload) (c : Container) (hash : String)
      (is : List Instance) (nodes : List String) (p : Pass)
      → All (IsListed start) is
      → IsKept start bounded n p.memory
      → IsKept start bounded n (advance suffix now w c hash is nodes p).1.memory
  unfolding advance
  advance-IsKept suffix now w c hash is nodes p h k =
      let g = classify hash is nodes in
      let (fresh, retiring, doomed, drains) = classify-All (IsListed start) hash is nodes h in
      let p1 = (each delete_instance g.doomed p).1 in
      let p2 = (each (expire_drain now) g.in_drain p1).1 in
      perform-IsKept suffix (step_of (pos_part w.spec.replicas) g) now w c hash p2
        (IsAbout-step_of (pos_part w.spec.replicas) g fresh retiring)
        (each-IsKept start bounded n (IsIdle start bounded n) (expire_drain now)
          (expire-IsKept start bounded n now) g.in_drain p1 drains
          (each-IsKept start bounded n (IsIdle start bounded n) delete_instance
            (delete-IsKept start bounded n) g.doomed p doomed k))

  status-IsKept :
      (now : ℕ) (w : Workload) (hash : String) (is : List Instance) (p : Pass)
      → IsKept start bounded n p.memory
      → IsKept start bounded n (update_status now w hash is p).1.memory
  unfolding update_status
  status-IsKept now w hash is p k =
      let seen = observed hash is p.marked in
      let o = workload_object (record w { status = some seen }) in
      let x = pos w.meta.resource_version in
      elim (Bool-cases (status_eq w.status seen)) [
        | inl e ↦ rw e k
        | inr e ↦
            rw (e, race-memory (put (now / second) o x p.memory))
              (Write-IsKept start bounded n (put-Write (now / second) o x p.memory) k)
      ]

  module _ (template_hash : Template → Option String) (suffix : ℕ → String) where
    workload-IsKept :
        (now : ℕ) (w : Workload) (is : List Instance) (nodes : List String) (p : Pass)
        → All (IsListed start) is
        → IsKept start bounded n p.memory
        → IsKept start bounded n (reconcile_workload template_hash suffix now w is nodes p).1.memory
    unfolding reconcile_workload
    workload-IsKept now w is nodes p h k =
        elim (Option-cases (one_container w.spec.template.containers)) [
          | inl e ↦ rw (e, reconcile_workload) k
          | inr (c, e) ↦ elim (Option-cases (template_hash w.spec.template)) [
            | inl f ↦ rw (e, f, reconcile_workload) k
            | inr (hash, f) ↦
                rw (e, f, reconcile_workload)
                  (status-IsKept now w hash is (advance suffix now w c hash is nodes p).1
                    (advance-IsKept suffix now w c hash is nodes p h k))
          ]
        ]

    each_workload-IsKept :
        (now : ℕ) (ws : List Workload) (is : List Instance) (nodes : List String) (p : Pass)
        → All (IsListed start) is
        → IsKept start bounded n p.memory
        → IsKept start bounded n (reconcile_each template_hash suffix now ws is nodes p).1.memory
    unfolding reconcile_each
    each_workload-IsKept now [] is nodes p h k = k
    each_workload-IsKept now (w ∷ ws) is nodes p h k =
        let owned = keep (λ i. i.spec.workload == w.meta.name) is in
        each_workload-IsKept now ws is nodes
          (reconcile_workload template_hash suffix now w owned nodes p).1 h
          (workload-IsKept now w owned nodes p
            (All-keep (IsListed start) (λ i. i.spec.workload == w.meta.name) is h) k)

-- The pass over the workloads leaves every instance in the store that is READY there: whatever was
-- listed, created, drained or expired, the name still has an entry, the READY one or one that the
-- pass wrote in its place. It holds if the pass starts from a store with no entry newer than itself
-- and works on instances that were read from it.
pub reconcile_each-keeps :
    (template_hash : Template → Option String) (suffix : ℕ → String) (now : ℕ) (ws : List Workload)
    (is : List Instance) (nodes : List String) (p : Pass) (n : String) (e : Entry)
    → IsBounded p.memory
    → All (IsListed p.memory) is
    → lookup n (p.memory.objs instance_kind) ≡ some e
    → is_serving e.obj ≡ true
    → let after = (reconcile_each template_hash suffix now ws is nodes p).1.memory in
      (x : Entry) × (lookup n (after.objs instance_kind) ≡ some x)
      × ((is_serving x.obj ≡ true) ⊎ (p.memory.rev < x.rev))
reconcile_each-keeps template_hash suffix now ws is nodes p n e bounded listed found live =
    (each_workload-IsKept p.memory bounded n template_hash suffix now ws is nodes p listed
      (here, (e, found, inl live))).1
