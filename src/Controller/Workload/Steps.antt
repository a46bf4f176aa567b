-- ===== src/Controller/Workload/Steps.antt =====
-- What the steps of a rollout guarantee (internal/controller/rollout.go).
use k_lite.Common.{
  Bool, Bool-cases, List, String, [], ap, arith, contains, eqb, every, every-sort_with, false,
  if◌then◌else◌, inl, inr, keep-sort_with, leb, length, length-keep-le, length-sort_with,
  length-take, ltb, min, not, refl, subst, suc, true, ℕ, ◌&&◌, ◌+◌, ◌-◌, ◌<◌, ◌==◌, ◌∙◌, ◌∷◌, ◌≡◌,
  ◌≤◌, ◌⊎◌,
}
use k_lite.Object.Types.{Instance, InstancePhase, draining, is_phase, phase_of, ready}
use k_lite.Controller.Workload.Roles.{
  Groups, Step, classify, classify_loop, fall_back, newer, ready_in, restore, roll, roll_step,
  scale_down, step_of, surge, surge_blocked, wait,
}

abbrev is_ready : Instance → Bool
is_ready i = is_phase (phase_of i) ready

ready-not_draining : (p : InstancePhase) → is_phase p draining ≡ true → is_phase p ready ≡ false
ready-not_draining p h = ground arith

-- The retiring instances are READY, and the READY ones are the retiring ones and some fresh ones.
abbrev pub IsSplit : List Instance → Groups → Type 0
IsSplit instances g =
    (length instances ≡ length g.fresh + length g.retiring + length g.doomed + length g.in_drain)
    × (ready_in instances ≡ ready_in g.fresh + length g.retiring)
    × (every is_ready g.retiring ≡ true)

classify_loop-IsSplit :
    (hash : String) (instances : List Instance) (nodes : List String)
    → IsSplit instances (classify_loop hash instances nodes)
unfolding classify_loop
classify_loop-IsSplit hash [] nodes = (refl, refl, refl)
classify_loop-IsSplit hash (i ∷ is) nodes =
    let (total, serving, all) = classify_loop-IsSplit hash is nodes in
    elim (Bool-cases (is_phase (phase_of i) draining)) [
      | inl d ↦ rw d (ground (arith, ready-not_draining (phase_of i)))
      | inr d ↦
          elim (Bool-cases (i.spec.template_hash == hash && not (contains nodes i.spec.node))) [
            | inl f ↦ rw (d, f) (ground arith)
            | inr f ↦ elim (Bool-cases (is_phase (phase_of i) ready)) [
              | inl r ↦ rw (d, f, r) (ground arith)
              | inr r ↦ rw (d, f, r) (ground arith)
            ]
          ]
    ]

-- The sizes of the roles add up to the number of instances, and the READY instances are as many as
-- the retiring ones and the READY ones among the fresh.
classify-IsSplit :
    (hash : String) (instances : List Instance) (nodes : List String)
    → IsSplit instances (classify hash instances nodes)
unfolding classify
classify-IsSplit hash instances nodes =
    let g = classify_loop hash instances nodes in
    let (total, serving, all) = classify_loop-IsSplit hash instances nodes in
    (
      omega (arith, length-sort_with newer g.fresh, length-sort_with newer g.retiring),
      omega (arith, keep-sort_with newer is_ready g.fresh, length-sort_with newer g.retiring),
      every-sort_with newer is_ready g.retiring ∙ all,
    )

-- What each step promises. A surge and a rollout start only when no drain is under way.
abbrev pub IsSafe : ℕ → List Instance → Groups → Step → Type 0
IsSafe replicas instances g (scale_down is) = length is + replicas ≡ length g.fresh
IsSafe replicas instances g (restore n) =
    (0 < n) × (length g.fresh + length g.retiring + n ≡ replicas)
IsSafe replicas instances g wait =
    (replicas ≤ length g.fresh + length g.retiring)
    × ((g.retiring ≡ []) ⊎ ((0 < length g.in_drain) ⊎ (ready_in g.fresh < length g.fresh)))
IsSafe replicas instances g surge =
    (length g.in_drain ≡ 0)
    × (replicas ≤ ready_in instances)
    × (length g.fresh + length g.retiring ≡ replicas)
IsSafe replicas instances g (roll victim) =
    (length g.in_drain ≡ 0) × (is_ready victim ≡ true) × (replicas < ready_in instances)
IsSafe replicas instances g (fall_back victim) =
    (length g.in_drain ≡ 0)
    × (is_ready victim ≡ true)
    × (surge_blocked g.fresh ≡ true)
    × (replicas < length g.fresh + length g.retiring)

ready_in-le : (is : List Instance) → ready_in is ≤ length is
ready_in-le is = length-keep-le is_ready is

roll_step-IsSafe :
    (replicas : ℕ) (instances : List Instance) (g : Groups) (v : Instance) (others : List Instance)
    → IsSplit instances g
    → g.retiring ≡ v ∷ others
    → length g.in_drain ≡ 0
    → replicas ≤ length g.fresh + length g.retiring
    → IsSafe replicas instances g (roll_step replicas g.fresh v others)
unfolding roll_step
roll_step-IsSafe replicas instances g v others (total, serving, all) e quiet enough =
    let sizes : length g.retiring ≡ suc (length others) =
      ap (λ (is : List Instance). length is) e in
    let live : every is_ready (v ∷ others) ≡ true =
      subst (λ (is : List Instance). every is_ready is ≡ true) e all in
    let both = length g.fresh + length (v ∷ others) in
    let low = ready_in-le g.fresh in
    elim (Bool-cases (eqb both replicas && eqb (ready_in g.fresh) (length g.fresh))) [
      | inl a ↦ rw a (ground arith)
      | inr a ↦
          elim (Bool-cases
            (ltb replicas both && leb (min replicas (length g.fresh)) (ready_in g.fresh))) [
              | inl b ↦ rw (a, b) (ground arith)
              | inr b ↦ elim (Bool-cases (ltb replicas both && surge_blocked g.fresh)) [
                | inl c ↦ rw (a, b, c) (ground arith)
                | inr c ↦ rw (a, b, c) (ground arith)
              ]
            ]
    ]

IsSafe-retiring :
    (replicas : ℕ) (instances : List Instance) (g : Groups) (rs : List Instance)
    → IsSplit instances g
    → g.retiring ≡ rs
    → replicas ≤ length g.fresh + length g.retiring
    → IsSafe replicas instances g (elim rs [
      | [] ↦ wait
      | victim ∷ others ↦
          if ltb 0 (length g.in_drain) then wait else roll_step replicas g.fresh victim others
    ])
IsSafe-retiring replicas instances g [] split e enough = (enough, inl e)
IsSafe-retiring replicas instances g (v ∷ others) split e enough =
    elim (Bool-cases (ltb 0 (length g.in_drain))) [
      | inl d ↦ rw d (enough, inr (inl (ground arith)))
      | inr d ↦ rw d (roll_step-IsSafe replicas instances g v others split e (ground arith) enough)
    ]

-- A pass over a workload never takes a READY instance out of service while the READY ones are no
-- more than the replicas, except on a scale-down or when the scheduler refused the surge; it
-- restores capacity exactly, surges only over full READY capacity and one at a time, and waits only
-- when nothing is left to retire, a drain is under way or a fresh instance is not READY yet.
pub step_of-IsSafe :
    (replicas : ℕ) (hash : String) (instances : List Instance) (nodes : List String)
    → let g = classify hash instances nodes in IsSafe replicas instances g (step_of replicas g)
unfolding step_of
step_of-IsSafe replicas hash instances nodes =
    let g = classify hash instances nodes in
    elim (Bool-cases (ltb replicas (length g.fresh))) [
      | inl a ↦ rw a (ground (arith, length-take (length g.fresh - replicas) g.fresh))
      | inr a ↦ elim (Bool-cases (ltb (length g.fresh + length g.retiring) replicas)) [
        | inl b ↦ rw (a, b) (ground arith)
        | inr b ↦
            rw (a, b)
              (IsSafe-retiring replicas instances g g.retiring
                (classify-IsSplit hash instances nodes) refl (ground arith))
      ]
    ]
