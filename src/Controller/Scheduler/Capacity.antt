-- ===== src/Controller/Scheduler/Capacity.antt =====
-- The counts that a scheduling pass keeps in memory (internal/controller/scheduler.go).
use k_lite.Common.{
  Bool, Bool-cases, List, Map, Option-cases, String, [], any, ap, arith, eq_iff, every, inl, inr,
  lookup, max, or_zero, refl, subst, true, ℕ, ◌&&◌, ◌<◌, ◌==◌, ◌∷◌, ◌≡◌, ◌≤◌, ◌⊎◌,
}
use k_lite.Common.Int.{leb_ℤ, pos}
use k_lite.Object.Types.{Instance, Node}
use k_lite.Store.{Memory}
use k_lite.Controller.{bump, count_of, count_of-bump}
use k_lite.Controller.Scheduler.{
  Pick, bind, is_feasible, pick_node, picked, place, place_all, refused,
}
use k_lite.Controller.Scheduler.Choice.{IsChoice, pick_node-IsChoice}

-- The capacity of each node of the list is at most the limit of its name.
abbrev pub is_limited : (String → ℕ) → List Node → Bool
is_limited limit nodes = every (λ n. leb_ℤ n.max_instances (pos (limit n.meta.name))) nodes

feasible-below :
    (pin : String) (counts : Map ℕ) (limit : String → ℕ) (n : Node)
    → is_feasible pin counts n ≡ true
    → leb_ℤ n.max_instances (pos (limit n.meta.name)) ≡ true
    → count_of n.meta.name counts < limit n.meta.name
unfolding is_feasible
feasible-below pin counts limit n h k = ground arith

any-below :
    (pin : String) (counts : Map ℕ) (limit : String → ℕ) (name : String) (nodes : List Node)
    → any (λ n. n.meta.name == name && is_feasible pin counts n) nodes ≡ true
    → is_limited limit nodes ≡ true
    → count_of name counts < limit name
any-below pin counts limit name [] h k = cc
any-below pin counts limit name (n ∷ ns) h k =
    elim (Bool-cases (n.meta.name == name && is_feasible pin counts n)) [
      | inr e ↦ any-below pin counts limit name ns (ground arith) (ground arith)
      | inl e ↦
          let same : n.meta.name ≡ name = (eq_iff n.meta.name name).0 (ground arith) in
          subst (λ (x : String). count_of x counts < limit x) same
            (feasible-below pin counts limit n (ground arith) (ground arith))
    ]

-- A node that pickNode returns has room.
pub pick_node-below :
    (pin : String) (nodes : List Node) (counts : Map ℕ) (limit : String → ℕ) (name : String)
    → is_limited limit nodes ≡ true
    → pick_node pin nodes counts ≡ picked name
    → count_of name counts < limit name
pick_node-below pin nodes counts limit name h k =
    let best =
      subst (λ (p : Pick). IsChoice pin counts nodes p) k (pick_node-IsChoice pin nodes counts) in
    any-below pin counts limit name nodes best.0 h

bumped :
    (node name : String) (counts : Map ℕ) (a b : ℕ)
    → count_of node counts < a
    → (node ≡ name → a ≡ b)
    → count_of name (bump node counts) ≤ max (count_of name counts) b
bumped node name counts a b h same = elim (Bool-cases (node == name)) [
  | inl e ↦
      let is = (eq_iff node name).0 e in
      let here : count_of node counts ≡ count_of name counts =
        ap (λ (s : String). count_of s counts) is in
      ground (arith, count_of-bump node name counts, same is, here)
  | inr e ↦ ground (arith, count_of-bump node name counts)
]

pub Pick-cases : (p : Pick) → ((n : String) × (p ≡ picked n)) ⊎ ((r : String) × (p ≡ refused r))
Pick-cases (picked n) = inl (n, refl)
Pick-cases (refused r) = inr (r, refl)

place-counts :
    (now : ℕ) (pins : Map String) (nodes : List Node) (i : Instance) (counts : Map ℕ) (m : Memory)
    (limit : String → ℕ) (name : String)
    → is_limited limit nodes ≡ true
    → count_of name (place now pins nodes i counts m).1 ≤ max (count_of name counts) (limit name)
unfolding place
place-counts now pins nodes i counts m limit name h =
    let pin = or_zero "" (lookup i.spec.workload pins) in
    elim (Pick-cases (pick_node pin nodes counts)) [
      | inr (reason, e) ↦ rw (e, place) (omega arith)
      | inl (node, e) ↦ elim (Bool-cases (node == "")) [
        | inl unnamed ↦ rw (e, unnamed, place) (omega arith)
        | inr named ↦ elim (Option-cases (bind now i node m).0) [
          | inr (x, q) ↦ rw (e, named, q, place) (omega arith)
          | inl q ↦
              let room = pick_node-below pin nodes counts limit node h e in
              rw (e, named, q, place)
                (bumped node name counts (limit node) (limit name) room (λ same. ap limit same))
        ]
      ]
    ]

-- After the pass each node counts at most as many instances as before it or as its limit allows,
-- whatever the store answers.
pub place_all-counts :
    (now : ℕ) (pins : Map String) (nodes : List Node) (insts : List Instance) (counts : Map ℕ)
    (m : Memory) (limit : String → ℕ) (name : String)
    → is_limited limit nodes ≡ true
    → count_of name (place_all now pins nodes insts counts m).1
      ≤ max (count_of name counts) (limit name)
unfolding place_all
place_all-counts now pins nodes [] counts m limit name h = omega arith
place_all-counts now pins nodes (i ∷ is) counts m limit name h =
    let (e, counts', m') = place now pins nodes i counts m in
    omega (
      arith,
      place-counts now pins nodes i counts m limit name h,
      place_all-counts now pins nodes is counts' m' limit name h,
    )
