-- ===== src/Server/Indexes.antt =====
-- The index of a node (internal/server): the smallest free one, and no call but a registration, a heal
-- or a yield changes it.
use k_lite.Server.Agent.{decide_stamp, free_node_index, with_advertised}
use k_lite.Controller.Pools.{IsFirstFree, first_free, first_free-IsFirstFree, is_used}
use k_lite.Common.{
  Bool-cases, List, Option, String, [], ap, arith, eqb, false, if◌then◌else◌, inl, inr, length, map,
  none, not, or_zero, refl, some, subst, suc, sym, true, zero, ℕ, ◌&&◌, ◌+◌, ◌<◌, ◌==◌, ◌||◌, ◌∙◌,
  ◌∷◌, ◌≡◌, ◌≤◌,
}
use k_lite.Object.Types.{
  Node, NodeStatus, Object, ingress_object, instance_object, is_node_phase, node_draining,
  node_object, node_ready, node_status, nothing, policy_object, service_object, vip_object,
  workload_object,
}
use k_lite.Store.{Error, Result, ok}
use k_lite.Server.Cas.{Intent, answer, write}
use k_lite.Common.Int.{ℤ}
use k_lite.Server.Cluster.{decide_drain, decide_mark, decide_uncordon, uncordoned}
use k_lite.Controller.NodeHealth.{is_pending_delete}
use k_lite.Server.Moments.{Intent-cases}

-- The numbers other than one of them.
without : ℕ → List ℕ → List ℕ
without x [] = []
without x (y ∷ ys) = let rest = without x ys in if eqb y x then rest else y ∷ rest

length-without-le : (x : ℕ) (used : List ℕ) → length (without x used) ≤ length used
unfolding without
length-without-le x [] = omega arith
length-without-le x (y ∷ ys) = ground (arith, length-without-le x ys)

length-without-lt :
    (x : ℕ) (used : List ℕ) → is_used used x ≡ true → length (without x used) < length used
unfolding without
length-without-lt x [] h = absurd (cc h)
length-without-lt x (y ∷ ys) h = elim (Bool-cases (eqb y x)) [
  | inl e ↦ rw e (ground (arith, length-without-le x ys))
  | inr e ↦ rw e (ground (arith, length-without-lt x ys (rw e at h)))
]

is_used-without :
    (x z : ℕ) (used : List ℕ) → x < z → is_used used z ≡ true → is_used (without x used) z ≡ true
unfolding without
is_used-without x z [] lt h = absurd (cc h)
is_used-without x z (y ∷ ys) lt h = ground (arith, is_used-without x z ys lt)

-- A full row of numbers is no longer than the list that holds them all.
full_row :
    (count x : ℕ) (used : List ℕ)
    → ((z : ℕ) → x ≤ z → z < x + count → is_used used z ≡ true)
    → count ≤ length used
full_row zero x used h = omega arith
full_row (suc count) x used h =
    let fewer = length-without-lt x used (h x (omega arith) (omega arith)) in
    let rest =
      full_row count (x + 1) (without x used)
        (λ z a b. is_used-without x z used (omega arith) (h z (omega arith) (omega arith))) in
    omega arith

-- The index is positive, no record holds it, and every smaller positive one is held.
abbrev pub IsFreeIndex : List ℕ → ℕ → Type 0
IsFreeIndex used idx =
    (1 ≤ idx) × (is_used used idx ≡ false) × ((z : ℕ) → 1 ≤ z → z < idx → is_used used z ≡ true)

scanned :
    (used : List ℕ) (found : Option ℕ)
    → IsFirstFree (λ i. true) used (suc (length used)) 1 found
    → IsFreeIndex used (or_zero 0 found)
scanned used none h =
    absurd (omega (arith, full_row (suc (length used)) 1 used (λ z a b. h z a b refl)))
scanned used (some y) (a, b, c, d, e) = (a, d, λ z p q. e z p q refl)

length-map : {A B : Type 0} (f : A → B) (xs : List A) → length (map f xs) ≡ length xs
length-map f [] = refl
length-map f (x ∷ xs) = ap suc (length-map f xs)

-- The index that a registration gives out is positive, held by no record of the listing, and the
-- smallest such: for all listings.
pub free_node_index-IsFreeIndex :
    (nodes : List Node)
    → IsFreeIndex (map (λ (n : Node). (node_status n).node_index) nodes) (free_node_index nodes)
unfolding free_node_index
free_node_index-IsFreeIndex nodes =
    let index_of : Node → ℕ = λ n. (node_status n).node_index in
    let used = map index_of nodes in
    scanned used (first_free (λ i. true) used (suc (length nodes)) 1) (
      subst
        (λ (c : ℕ).
          IsFirstFree (λ i. true) used (suc c) 1
            (first_free (λ i. true) used (suc (length nodes)) 1))
        (sym (length-map index_of nodes))
        (first_free-IsFirstFree (λ i. true) used (suc (length nodes)) 1))

-- The index of the record in an envelope.
abbrev pub index_in : Object → ℕ
index_in (node_object n) = (node_status n).node_index
index_in _ = 0

-- Every write of a decision carries the index that was read.
abbrev KeepsIndex : {A : Type 0} → (Result (Object × ℕ) → Intent A) → Type 0
KeepsIndex {A} decide =
    (o : Object) (rev : ℕ) (a : A) (new : Object) (x : ℤ) (lost : Error)
    → decide (ok (o, rev)) ≡ write a new x lost
    → index_in new ≡ index_in o

written_index :
    {A : Type 0} {a b : A} {o new : Object} {x y : ℤ} {l k : Error}
    → write a o x l ≡ write b new y k
    → index_in new ≡ index_in o
written_index {A} {a} {b} {o} {new} h =
    let e : o ≡ new = cc h in sym (ap (λ (z : Object). index_in z) e)

decide_uncordon-KeepsIndex : KeepsIndex decide_uncordon
unfolding decide_uncordon uncordoned
decide_uncordon-KeepsIndex (node_object n) rev a new x lost h =
    elim (Bool-cases (is_pending_delete n.meta)) [
      | inl e ↦ absurd (cc (rw e at h))
      | inr e ↦
          elim (Bool-cases (
            not (node_status n).unschedulable
            && not (is_node_phase (node_status n).phase node_draining))) [
              | inl f ↦ absurd (cc (rw (e, f) at h))
              | inr f ↦ written_index (rw (e, f) at h)
            ]
    ]
decide_uncordon-KeepsIndex (workload_object w) rev a new x lost h = absurd (cc h)
decide_uncordon-KeepsIndex (service_object w) rev a new x lost h = absurd (cc h)
decide_uncordon-KeepsIndex (policy_object w) rev a new x lost h = absurd (cc h)
decide_uncordon-KeepsIndex (instance_object w) rev a new x lost h = absurd (cc h)
decide_uncordon-KeepsIndex (vip_object w) rev a new x lost h = absurd (cc h)
decide_uncordon-KeepsIndex (ingress_object w) rev a new x lost h = absurd (cc h)
decide_uncordon-KeepsIndex nothing rev a new x lost h = absurd (cc h)

decide_mark-KeepsIndex : KeepsIndex decide_mark
unfolding decide_mark
decide_mark-KeepsIndex (node_object n) rev a new x lost h =
    elim (Bool-cases (is_pending_delete n.meta)) [
      | inl e ↦ absurd (cc (rw e at h))
      | inr e ↦ written_index (rw e at h)
    ]
decide_mark-KeepsIndex (workload_object w) rev a new x lost h = absurd (cc h)
decide_mark-KeepsIndex (service_object w) rev a new x lost h = absurd (cc h)
decide_mark-KeepsIndex (policy_object w) rev a new x lost h = absurd (cc h)
decide_mark-KeepsIndex (instance_object w) rev a new x lost h = absurd (cc h)
decide_mark-KeepsIndex (vip_object w) rev a new x lost h = absurd (cc h)
decide_mark-KeepsIndex (ingress_object w) rev a new x lost h = absurd (cc h)
decide_mark-KeepsIndex nothing rev a new x lost h = absurd (cc h)

decide_drain-KeepsIndex : KeepsIndex decide_drain
unfolding decide_drain
decide_drain-KeepsIndex (node_object n) rev a new x lost h =
    elim (Bool-cases
      ((node_status n).unschedulable && is_node_phase (node_status n).phase node_draining)) [
        | inl e ↦ absurd (cc (rw e at h))
        | inr e ↦ written_index (rw e at h)
      ]
decide_drain-KeepsIndex (workload_object w) rev a new x lost h = absurd (cc h)
decide_drain-KeepsIndex (service_object w) rev a new x lost h = absurd (cc h)
decide_drain-KeepsIndex (policy_object w) rev a new x lost h = absurd (cc h)
decide_drain-KeepsIndex (instance_object w) rev a new x lost h = absurd (cc h)
decide_drain-KeepsIndex (vip_object w) rev a new x lost h = absurd (cc h)
decide_drain-KeepsIndex (ingress_object w) rev a new x lost h = absurd (cc h)
decide_drain-KeepsIndex nothing rev a new x lost h = absurd (cc h)

advertised_index :
    (addr : String) (st : NodeStatus) → (with_advertised addr st).node_index ≡ st.node_index
advertised_index addr st = elim (Bool-cases (addr == "")) [ inl e ↦ rw e refl | inr e ↦ rw e refl ]

decide_stamp-KeepsIndex : (now : ℕ) (addr : String) → KeepsIndex (decide_stamp now addr)
unfolding decide_stamp
decide_stamp-KeepsIndex now addr (node_object n) rev a new x lost h =
    elim (Bool-cases (
      eqb (node_status n).last_heartbeat_unix now
      && is_node_phase (node_status n).phase
          (if is_node_phase (node_status n).phase node_draining then node_draining else node_ready)
      && (addr == "" || (node_status n).advertise_address == addr))) [
        | inl e ↦ absurd (cc (rw e at h))
        | inr e ↦ written_index (rw e at h) ∙ advertised_index addr _
      ]
decide_stamp-KeepsIndex now addr (workload_object w) rev a new x lost h = absurd (cc h)
decide_stamp-KeepsIndex now addr (service_object w) rev a new x lost h = absurd (cc h)
decide_stamp-KeepsIndex now addr (policy_object w) rev a new x lost h = absurd (cc h)
decide_stamp-KeepsIndex now addr (instance_object w) rev a new x lost h = absurd (cc h)
decide_stamp-KeepsIndex now addr (vip_object w) rev a new x lost h = absurd (cc h)
decide_stamp-KeepsIndex now addr (ingress_object w) rev a new x lost h = absurd (cc h)
decide_stamp-KeepsIndex now addr nothing rev a new x lost h = absurd (cc h)

-- The object that a decision leaves in the store, where it finds the one given.
abbrev pub target : {A : Type 0} → Intent A → Object → Object
target (answer a) o = o
target (write a new x lost) o = new

target-index :
    {A : Type 0} (decide : Result (Object × ℕ) → Intent A) (o : Object) (rev : ℕ)
    → KeepsIndex decide
    → index_in (target (decide (ok (o, rev))) o) ≡ index_in o
target-index decide o rev keeps = elim (Intent-cases (decide (ok (o, rev)))) [
  | inl (a, e) ↦ rw e refl
  | inr (a, new, x, lost, e) ↦ rw e (keeps o rev a new x lost e)
]

-- A heartbeat, a drain, the end of a drain and the mark of a pending deletion leave a node with the
-- index that it had, whatever else they change: for all stored objects, times and addresses.
pub decisions-index :
    (now : ℕ) (addr : String) (o : Object) (rev : ℕ)
    → (index_in (target (decide_stamp now addr (ok (o, rev))) o) ≡ index_in o)
      × (index_in (target (decide_drain (ok (o, rev))) o) ≡ index_in o)
      × (index_in (target (decide_uncordon (ok (o, rev))) o) ≡ index_in o)
      × (index_in (target (decide_mark (ok (o, rev))) o) ≡ index_in o)
decisions-index now addr o rev = (
  target-index (decide_stamp now addr) o rev (decide_stamp-KeepsIndex now addr),
  target-index decide_drain o rev decide_drain-KeepsIndex,
  target-index decide_uncordon o rev decide_uncordon-KeepsIndex,
  target-index decide_mark o rev decide_mark-KeepsIndex,
)
