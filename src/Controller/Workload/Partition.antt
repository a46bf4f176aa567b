-- ===== src/Controller/Workload/Partition.antt =====
-- The roles of a workload's instances (internal/controller/rollout.go, classify).
use k_lite.Controller.Workload.Roles.{Groups, classify, classify_loop, newer}
use k_lite.Common.{
  Bool, Bool-cases, List, String, [], arith, contains, every, every-sort_with, inl, inr, keep,
  keep-sort_with, length, not, refl, true, ◌&&◌, ◌+◌, ◌==◌, ◌∙◌, ◌∷◌, ◌≡◌,
}
use k_lite.Object.Types.{Instance, draining, is_phase, phase_of, ready}

-- The tests of the roles: a draining instance is under way out, one of the current template on a
-- node that stays is fresh, of the others the READY ones are retiring and the rest is doomed.
abbrev pub drains : Instance → Bool
drains i = is_phase (phase_of i) draining

abbrev pub is_current : String → List String → Instance → Bool
is_current hash nodes i = i.spec.template_hash == hash && not (contains nodes i.spec.node)

abbrev pub is_fresh : String → List String → Instance → Bool
is_fresh hash nodes i = not (drains i) && is_current hash nodes i

abbrev pub is_retiring : String → List String → Instance → Bool
is_retiring hash nodes i =
    not (drains i) && not (is_current hash nodes i) && is_phase (phase_of i) ready

abbrev pub is_doomed : String → List String → Instance → Bool
is_doomed hash nodes i =
    not (drains i) && not (is_current hash nodes i) && not (is_phase (phase_of i) ready)

-- The four roles together have the instances, each as often as they do, and every member of a role
-- passes the role's test.
pub record IsPartition (hash : String) (nodes : List String) (instances : List Instance)
    (g : Groups) : Type 0 where
  pub counted :
      (p : Instance → Bool)
      → length (keep p instances)
        ≡ length (keep p g.fresh)
          + length (keep p g.retiring)
          + length (keep p g.doomed)
          + length (keep p g.in_drain)
  pub fresh_ones : every (is_fresh hash nodes) g.fresh ≡ true
  pub retiring_ones : every (is_retiring hash nodes) g.retiring ≡ true
  pub doomed_ones : every (is_doomed hash nodes) g.doomed ≡ true
  pub draining_ones : every drains g.in_drain ≡ true

module _ (hash : String) (nodes : List String) (i : Instance) (is : List Instance) (g : Groups)
    (d : IsPartition hash nodes is g) where
  fresh-IsPartition :
      is_fresh hash nodes i ≡ true
      → IsPartition hash nodes (i ∷ is) (record g { fresh = i ∷ g.fresh })
  fresh-IsPartition h = record {
    counted = λ p. elim (Bool-cases (p i)) [
      | inl e ↦ rw e (omega (arith, d.counted p))
      | inr e ↦ rw e (d.counted p)
    ];
    fresh_ones = rw h d.fresh_ones;
    retiring_ones = d.retiring_ones;
    doomed_ones = d.doomed_ones;
    draining_ones = d.draining_ones;
  }

  retiring-IsPartition :
      is_retiring hash nodes i ≡ true
      → IsPartition hash nodes (i ∷ is) (record g { retiring = i ∷ g.retiring })
  retiring-IsPartition h = record {
    counted = λ p. elim (Bool-cases (p i)) [
      | inl e ↦ rw e (omega (arith, d.counted p))
      | inr e ↦ rw e (d.counted p)
    ];
    fresh_ones = d.fresh_ones;
    retiring_ones = rw h d.retiring_ones;
    doomed_ones = d.doomed_ones;
    draining_ones = d.draining_ones;
  }

  doomed-IsPartition :
      is_doomed hash nodes i ≡ true
      → IsPartition hash nodes (i ∷ is) (record g { doomed = i ∷ g.doomed })
  doomed-IsPartition h = record {
    counted = λ p. elim (Bool-cases (p i)) [
      | inl e ↦ rw e (omega (arith, d.counted p))
      | inr e ↦ rw e (d.counted p)
    ];
    fresh_ones = d.fresh_ones;
    retiring_ones = d.retiring_ones;
    doomed_ones = rw h d.doomed_ones;
    draining_ones = d.draining_ones;
  }

  in_drain-IsPartition :
      drains i ≡ true → IsPartition hash nodes (i ∷ is) (record g { in_drain = i ∷ g.in_drain })
  in_drain-IsPartition h = record {
    counted = λ p. elim (Bool-cases (p i)) [
      | inl e ↦ rw e (omega (arith, d.counted p))
      | inr e ↦ rw e (d.counted p)
    ];
    fresh_ones = d.fresh_ones;
    retiring_ones = d.retiring_ones;
    doomed_ones = d.doomed_ones;
    draining_ones = rw h d.draining_ones;
  }

classify_loop-IsPartition :
    (hash : String) (instances : List Instance) (nodes : List String)
    → IsPartition hash nodes instances (classify_loop hash instances nodes)
unfolding classify_loop
classify_loop-IsPartition hash [] nodes = record {
  counted = λ p. refl;
  fresh_ones = refl;
  retiring_ones = refl;
  doomed_ones = refl;
  draining_ones = refl;
}
classify_loop-IsPartition hash (i ∷ is) nodes =
    let g = classify_loop hash is nodes in
    let rest = classify_loop-IsPartition hash is nodes in
    elim (Bool-cases (is_phase (phase_of i) draining)) [
      | inl d ↦ rw d (in_drain-IsPartition hash nodes i is g rest d)
      | inr d ↦
          elim (Bool-cases (i.spec.template_hash == hash && not (contains nodes i.spec.node))) [
            | inl f ↦ rw (d, f) (fresh-IsPartition hash nodes i is g rest (ground arith))
            | inr f ↦ elim (Bool-cases (is_phase (phase_of i) ready)) [
              | inl r ↦ rw (d, f, r) (retiring-IsPartition hash nodes i is g rest (ground arith))
              | inr r ↦ rw (d, f, r) (doomed-IsPartition hash nodes i is g rest (ground arith))
            ]
          ]
    ]

-- Every instance has exactly one role, the one whose test it passes, as often as it is listed: for
-- all hashes, instances and draining nodes.
pub classify-IsPartition :
    (hash : String) (instances : List Instance) (nodes : List String)
    → IsPartition hash nodes instances (classify hash instances nodes)
unfolding classify
classify-IsPartition hash instances nodes =
    let g = classify_loop hash instances nodes in
    let whole = classify_loop-IsPartition hash instances nodes in
    record {
      counted = λ p. omega (
        arith,
        whole.counted p,
        keep-sort_with newer p g.fresh,
        keep-sort_with newer p g.retiring,
      );
      fresh_ones = every-sort_with newer (is_fresh hash nodes) g.fresh ∙ whole.fresh_ones;
      retiring_ones =
          every-sort_with newer (is_retiring hash nodes) g.retiring ∙ whole.retiring_ones;
      doomed_ones = whole.doomed_ones;
      draining_ones = whole.draining_ones;
    }
