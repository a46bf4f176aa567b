-- ===== src/Controller/Scheduler/Choice.antt =====
-- What pickNode of internal/controller/scheduler.go chooses.
use k_lite.Common.{
  Bool, Bool-cases, List, Map, Option, String, [], any, arith, eq_refl, eqb, every, false,
  if◌then◌else◌, inl, inr, ltb, none, not, refl, some, str_le, str_le_refl, str_le_trans,
  str_lt_connex, str_lt_le, true, ℕ, ◌&&◌, ◌==◌, ◌||◌, ◌∷◌, ◌≡◌, ◌⊎◌,
}
use k_lite.Object.Types.{Node}
use k_lite.Controller.{count_of}
use k_lite.Controller.Scheduler.{
  Pick, is_better, is_feasible, msg_no_capacity, msg_pinned, pick_loop, pick_node, picked, refused,
}

-- The order of pickNode: fewer instances, then the name.
unfoldable pub no_worse : Map ℕ → String → String → Bool
no_worse counts a b =
    ltb (count_of a counts) (count_of b counts)
    || (eqb (count_of a counts) (count_of b counts) && str_le a b)

no_worse_trans :
    (counts : Map ℕ) (a b c : String)
    → no_worse counts a b ≡ true
    → no_worse counts b c ≡ true
    → no_worse counts a c ≡ true
unfolding no_worse
no_worse_trans counts a b c h k = ground (arith, str_le_trans a b c)

no_worse_refl : (counts : Map ℕ) (a : String) → no_worse counts a a ≡ true
unfolding no_worse
no_worse_refl counts a = ground (arith, str_le_refl a)

-- No feasible node is better than the one of this name.
abbrev pub is_best : String → Map ℕ → List Node → String → Bool
is_best pin counts nodes name =
    every (λ n. not (is_feasible pin counts n) || no_worse counts name n.meta.name) nodes

-- The node is feasible and the best of all the feasible ones; or none is feasible.
abbrev pub IsChoice : String → Map ℕ → List Node → Pick → Type 0
IsChoice pin counts nodes (picked name) =
    (any (λ n. n.meta.name == name && is_feasible pin counts n) nodes ≡ true)
    × (is_best pin counts nodes name ≡ true)
IsChoice pin counts nodes (refused reason) = any (is_feasible pin counts) nodes ≡ false

better-no_worse :
    (counts : Map ℕ) (n b : Node)
    → is_better counts n (some b) ≡ true
    → no_worse counts n.meta.name b.meta.name ≡ true
unfolding no_worse is_better
better-no_worse counts n b h = ground (arith, str_lt_le n.meta.name b.meta.name)

not_better-no_worse :
    (counts : Map ℕ) (n b : Node)
    → is_better counts n (some b) ≡ false
    → no_worse counts b.meta.name n.meta.name ≡ true
unfolding no_worse is_better
not_better-no_worse counts n b h = ground (arith, str_lt_connex n.meta.name b.meta.name)

is_best_mono :
    (pin : String) (counts : Map ℕ) (ns : List Node) (a b : String)
    → no_worse counts a b ≡ true
    → is_best pin counts ns b ≡ true
    → is_best pin counts ns a ≡ true
is_best_mono pin counts [] a b h k = refl
is_best_mono pin counts (n ∷ ns) a b h k =
    ground (arith, no_worse_trans counts a b n.meta.name, is_best_mono pin counts ns a b h)

-- What the loop returns from a best node so far.
abbrev LoopResult : String → Map ℕ → List Node → Option Node → Option Node → Type 0
LoopResult pin counts ns none none = any (is_feasible pin counts) ns ≡ false
LoopResult pin counts ns none (some r) =
    (any (λ n. n.meta.name == r.meta.name && is_feasible pin counts n) ns ≡ true)
    × (is_best pin counts ns r.meta.name ≡ true)
LoopResult pin counts ns (some b) none = false ≡ true
LoopResult pin counts ns (some b) (some r) =
    ((r ≡ b) ⊎ (any (λ n. n.meta.name == r.meta.name && is_feasible pin counts n) ns ≡ true))
    × (no_worse counts r.meta.name b.meta.name ≡ true)
    × (is_best pin counts ns r.meta.name ≡ true)

skip_none :
    (pin : String) (counts : Map ℕ) (n : Node) (ns : List Node) (r : Option Node)
    → is_feasible pin counts n ≡ false
    → LoopResult pin counts ns none r
    → LoopResult pin counts (n ∷ ns) none r
skip_none pin counts n ns none f h = ground arith
skip_none pin counts n ns (some r) f h = ground arith

take_none :
    (pin : String) (counts : Map ℕ) (n : Node) (ns : List Node) (r : Option Node)
    → is_feasible pin counts n ≡ true
    → LoopResult pin counts ns (some n) r
    → LoopResult pin counts (n ∷ ns) none r
take_none pin counts n ns none f h = cc
take_none pin counts n ns (some r) f (from, le, rest) = ground (arith, eq_refl n.meta.name)

skip_some :
    (pin : String) (counts : Map ℕ) (n b : Node) (ns : List Node) (r : Option Node)
    → is_feasible pin counts n ≡ false
    → LoopResult pin counts ns (some b) r
    → LoopResult pin counts (n ∷ ns) (some b) r
skip_some pin counts n b ns none f h = cc
skip_some pin counts n b ns (some r) f (from, le, rest) = ground arith

take_some :
    (pin : String) (counts : Map ℕ) (n b : Node) (ns : List Node) (r : Option Node)
    → is_feasible pin counts n ≡ true
    → no_worse counts n.meta.name b.meta.name ≡ true
    → LoopResult pin counts ns (some n) r
    → LoopResult pin counts (n ∷ ns) (some b) r
take_some pin counts n b ns none f g h = cc
take_some pin counts n b ns (some r) f g (from, le, rest) =
    ground (arith, eq_refl n.meta.name, no_worse_trans counts r.meta.name n.meta.name b.meta.name)

keep_some :
    (pin : String) (counts : Map ℕ) (n b : Node) (ns : List Node) (r : Option Node)
    → is_feasible pin counts n ≡ true
    → no_worse counts b.meta.name n.meta.name ≡ true
    → LoopResult pin counts ns (some b) r
    → LoopResult pin counts (n ∷ ns) (some b) r
keep_some pin counts n b ns none f g h = cc
keep_some pin counts n b ns (some r) f g (from, le, rest) =
    ground (arith, no_worse_trans counts r.meta.name b.meta.name n.meta.name)

pick_loop-LoopResult :
    (pin : String) (counts : Map ℕ) (ns : List Node) (best : Option Node)
    → LoopResult pin counts ns best (pick_loop pin counts ns best)
unfolding pick_loop is_better
pick_loop-LoopResult pin counts [] none = refl
pick_loop-LoopResult pin counts [] (some b) = (inl refl, no_worse_refl counts b.meta.name, refl)
pick_loop-LoopResult pin counts (n ∷ ns) none = elim (Bool-cases (is_feasible pin counts n)) [
  | inr f ↦ rw f (skip_none pin counts n ns _ f (pick_loop-LoopResult pin counts ns none))
  | inl f ↦ rw f (take_none pin counts n ns _ f (pick_loop-LoopResult pin counts ns (some n)))
]
pick_loop-LoopResult pin counts (n ∷ ns) (some b) = elim (Bool-cases (is_feasible pin counts n)) [
  | inr f ↦ rw f (skip_some pin counts n b ns _ f (pick_loop-LoopResult pin counts ns (some b)))
  | inl f ↦ elim (Bool-cases (is_better counts n (some b))) [
    | inl g ↦
        rw (f, g)
          (take_some pin counts n b ns _ f (better-no_worse counts n b g)
            (pick_loop-LoopResult pin counts ns (some n)))
    | inr g ↦
        rw (f, g)
          (keep_some pin counts n b ns _ f (not_better-no_worse counts n b g)
            (pick_loop-LoopResult pin counts ns (some b)))
  ]
]

IsChoice-loop :
    (pin : String) (nodes : List Node) (counts : Map ℕ) (r : Option Node)
    → LoopResult pin counts nodes none r
    → IsChoice pin counts nodes (elim r [
      | some best ↦ picked best.meta.name
      | none ↦ if not (pin == "") then refused (msg_pinned pin) else refused msg_no_capacity
    ])
IsChoice-loop pin nodes counts (some r) h = h
IsChoice-loop pin nodes counts none h = elim (Bool-cases (pin == "")) [
  | inl e ↦ rw e h
  | inr e ↦ rw e h
]

-- pickNode returns a ready, schedulable node with room, no fuller than any other such node and the
-- first of these by name, or it refuses because there is none: for all nodes, pins and counts.
pub pick_node-IsChoice :
    (pin : String) (nodes : List Node) (counts : Map ℕ)
    → IsChoice pin counts nodes (pick_node pin nodes counts)
unfolding pick_node
pick_node-IsChoice pin nodes counts =
    IsChoice-loop pin nodes counts (pick_loop pin counts nodes none)
      (pick_loop-LoopResult pin counts nodes none)
