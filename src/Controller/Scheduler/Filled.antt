-- ===== src/Controller/Scheduler/Filled.antt =====
-- What a scheduling pass leaves in the store (internal/controller/scheduler.go): no node holds more
-- instances than its capacity.
use k_lite.Controller.Scheduler.{
  bind, bound_counts, bound_to, explain_pending, explained, lost_race_is_fine, pick_node, pins_of,
  place, place_all, race-memory, schedule,
}
use k_lite.Controller.Scheduler.Bound.{bound_in, listed-bound, put-bound}
use k_lite.Store.{Error, Memory, Result, err, list, ok, put}
use k_lite.Common.{
  Bool, Bool-cases, List, Map, Option-cases, String, [], ap, arith, eq_iff, every, false,
  if◌then◌else◌, inl, inr, keep, length, lookup, max, not, or_zero, refl, some, subst, sym, true, ℕ,
  ◌&&◌, ◌+◌, ◌==◌, ◌∙◌, ◌∷◌, ◌≡◌, ◌≤◌,
}
use k_lite.Object.Types.{
  Instance, Node, instance_object, instance_status, is_phase, pending, phase_of,
}
use k_lite.Controller.{bump, count_of, count_of-bump}
use k_lite.Common.Int.{pos}
use k_lite.Store.Laws.{put_error}
use k_lite.Controller.Scheduler.Capacity.{Pick-cases, is_limited, place_all-counts}
use k_lite.Object.Envelopes.{instances_in, nodes_in, workloads_in}
use k_lite.Object.Registry.{instance_kind, node_kind, workload_kind}

race_error :
    (r : Result ℕ × Memory) (x : Error)
    → (lost_race_is_fine r).0 ≡ some x
    → (e : Error) × (r.0 ≡ err e)
race_error (ok n, m) x h = cc
race_error (err e, m) x h = (e, refl)

-- A bind adds at most one instance to its node, and none when it fails.
bind-bound :
    (now : ℕ) (name node : String) (i : Instance) (m : Memory)
    → bound_in name (bind now i node m).1 ≤ bound_in name m + (if node == name then 1 else 0)
unfolding bind bound_to
bind-bound now name node i m =
    let r = put now (instance_object (bound_to i node)) (pos i.meta.resource_version) m in
    subst (λ (n : Memory). bound_in name n ≤ bound_in name m + (if node == name then 1 else 0))
      (sym (race-memory r)) (put-bound now name (bound_to i node) (pos i.meta.resource_version) m)

bind_failed :
    (now : ℕ) (node : String) (i : Instance) (m : Memory) (x : Error)
    → (bind now i node m).0 ≡ some x
    → (bind now i node m).1 ≡ m
unfolding bind bound_to
bind_failed now node i m x h =
    let o = instance_object (bound_to i node) in
    let r = put now o (pos i.meta.resource_version) m in
    let (e, q) = race_error r x h in
    race-memory r ∙ put_error now o (pos i.meta.resource_version) m e q

-- An instance that waits for a node stays without one.
explain_pending-bound :
    (now : ℕ) (name reason : String) (i : Instance) (m : Memory)
    → (name == "") ≡ false
    → (i.spec.node == "") ≡ true
    → bound_in name (explain_pending now i reason m).1 ≤ bound_in name m
unfolding explain_pending explained
explain_pending-bound now name reason i m named waits =
    elim (Bool-cases ((instance_status i).message == reason && is_phase (phase_of i) pending)) [
      | inl e ↦ rw e (omega arith)
      | inr e ↦
          let r = put now (instance_object (explained i reason)) (pos i.meta.resource_version) m in
          rw e (
            subst (λ (n : Memory). bound_in name n ≤ bound_in name m) (sym (race-memory r))
              (ground (
                arith,
                put-bound now name (explained i reason) (pos i.meta.resource_version) m,
                eq_iff i.spec.node name,
                eq_iff i.spec.node "",
                eq_iff name "",
              )))
    ]

bump_covers :
    (name node : String) (counts : Map ℕ) (before after : ℕ)
    → after ≤ before + (if node == name then 1 else 0)
    → before ≤ count_of name counts
    → after ≤ count_of name (bump node counts)
bump_covers name node counts before after h k = elim (Bool-cases (node == name)) [
  | inl e ↦
      let here : count_of node counts ≡ count_of name counts =
        ap (λ (s : String). count_of s counts) ((eq_iff node name).0 e) in
      ground (arith, count_of-bump node name counts, here)
  | inr e ↦ ground (arith, count_of-bump node name counts)
]

-- The counts stay above the store.
place-bound :
    (now : ℕ) (pins : Map String) (nodes : List Node) (i : Instance) (counts : Map ℕ) (m : Memory)
    (name : String)
    → (name == "") ≡ false
    → (i.spec.node == "") ≡ true
    → bound_in name m ≤ count_of name counts
    → let out = place now pins nodes i counts m in bound_in name out.2 ≤ count_of name out.1
unfolding place
place-bound now pins nodes i counts m name named waits h =
    elim (Pick-cases (pick_node (or_zero "" (lookup i.spec.workload pins)) nodes counts)) [
      | inr (reason, e) ↦
          rw (e, place) (omega (arith, explain_pending-bound now name reason i m named waits))
      | inl (node, e) ↦ elim (Bool-cases (node == "")) [
        | inl unnamed ↦
            rw (e, unnamed, place)
              (omega (arith, explain_pending-bound now name "" i m named waits))
        | inr chosen ↦ elim (Option-cases (bind now i node m).0) [
          | inr (x, q) ↦
              rw (e, chosen, q, place)
                (subst (λ (n : Memory). bound_in name n ≤ count_of name counts)
                  (sym (bind_failed now node i m x q)) h)
          | inl q ↦
              rw (e, chosen, q, place)
                (bump_covers name node counts _ _ (bind-bound now name node i m) h)
        ]
      ]
    ]

place_all-bound :
    (now : ℕ) (pins : Map String) (nodes : List Node) (is : List Instance) (counts : Map ℕ)
    (m : Memory) (name : String)
    → (name == "") ≡ false
    → every (λ i. i.spec.node == "") is ≡ true
    → bound_in name m ≤ count_of name counts
    → let out = place_all now pins nodes is counts m in bound_in name out.2 ≤ count_of name out.1
unfolding place_all
place_all-bound now pins nodes [] counts m name named waits h = h
place_all-bound now pins nodes (i ∷ is) counts m name named waits h =
    let (e, counts', m') = place now pins nodes i counts m in
    place_all-bound now pins nodes is counts' m' name named (ground arith)
      (place-bound now pins nodes i counts m name named (ground arith) h)

counted_one :
    (name node : String) (counts : Map ℕ)
    → (name == "") ≡ false
    → count_of name (if not (node == "") then bump node counts else counts)
      ≡ count_of name counts + (if node == name then 1 else 0)
counted_one name node counts named = elim (Bool-cases (node == name)) [
  | inl e ↦
      let same : node ≡ name = (eq_iff node name).0 e in
      let full : (node == "") ≡ false = ap (λ (s : String). s == "") same ∙ named in
      let here : count_of node counts ≡ count_of name counts =
        ap (λ (s : String). count_of s counts) same in
      rw (full, e) (ground (arith, count_of-bump node name counts, here))
  | inr e ↦ elim (Bool-cases (node == "")) [
    | inl q ↦ rw (q, e) (omega arith)
    | inr q ↦ rw (q, e) (ground (arith, count_of-bump node name counts))
  ]
]

bound_counts-count :
    (name : String) (is : List Instance) (counts : Map ℕ)
    → (name == "") ≡ false
    → count_of name (bound_counts is counts)
      ≡ count_of name counts + length (keep (λ (i : Instance). i.spec.node == name) is)
unfolding bound_counts
bound_counts-count name [] counts named = omega arith
bound_counts-count name (i ∷ is) counts named =
    let more = if not (i.spec.node == "") then bump i.spec.node counts else counts in
    ground (arith, counted_one name i.spec.node counts named, bound_counts-count name is more named)

every-keep : (p : Instance → Bool) (is : List Instance) → every p (keep p is) ≡ true
every-keep p [] = refl
every-keep p (i ∷ is) = ground (arith, every-keep p is)

-- No scheduling pass fills a node beyond its capacity: after the pass the store holds at most as
-- many instances that name the node as before it, or as the node's limit allows, where the limit
-- of a name is at least the capacity of each listed node of that name. For all stores and names
-- other than the empty one, whichever writes of the pass fail.
pub schedule-capacity :
    (now : ℕ) (m : Memory) (limit : String → ℕ) (name : String)
    → (name == "") ≡ false
    → is_limited limit (nodes_in (list node_kind m).0) ≡ true
    → bound_in name (schedule now m).1 ≤ max (bound_in name m) (limit name)
unfolding schedule lookup
schedule-capacity now m limit name named limited =
    let insts = instances_in (list instance_kind m).0 in
    let nodes = nodes_in (list node_kind m).0 in
    let pins = pins_of (workloads_in (list workload_kind m).0) [] in
    let waiting = keep (λ (i : Instance). i.spec.node == "") insts in
    let counts = bound_counts insts [] in
    let none_yet : count_of name [] ≡ 0 = refl in
    let start : count_of name counts ≡ bound_in name m =
      omega (arith, bound_counts-count name insts [] named, listed-bound name m, none_yet) in
    omega (
      arith,
      start,
      place_all-bound now pins nodes waiting counts m name named
          (every-keep (λ (i : Instance). i.spec.node == "") insts) (omega (arith, start)),
      place_all-counts now pins nodes waiting counts m limit name limited,
    )
