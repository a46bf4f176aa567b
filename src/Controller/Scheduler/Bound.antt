-- ===== src/Controller/Scheduler/Bound.antt =====
-- How many instances of the store name a node (internal/controller/scheduler.go).
use k_lite.Store.Laws.{Creation, created, put-Creation, refused}
use k_lite.Store.{Entry, Memory, list, put, read_entry}
use k_lite.Common.{
  Bool, List, Map, String, [], ap, arith, false, if◌then◌else◌, insert, insert_by, keep, length,
  map, refl, sort_by, subst, sym, ℕ, ◌+◌, ◌==◌, ◌∙◌, ◌∷◌, ◌≡◌, ◌≤◌,
}
use k_lite.Object.Registry.{Kind, instance_kind, kind_of, meta_of, with_meta}
use k_lite.Object.Types.{
  Instance, Meta, Object, ingress_object, instance_object, node_object, nothing, policy_object,
  service_object, vip_object, workload_object,
}
use k_lite.Object.Envelopes.{instances_in}
use k_lite.Common.Int.{ℤ}

-- Whether the object is an instance that names the node.
abbrev pub on_node : String → Object → Bool
on_node name (instance_object i) = i.spec.node == name
on_node name _ = false

abbrev is_bound : String → String × Entry → Bool
is_bound name e = on_node name (e.1.obj)

-- The number of instances in the store that name the node.
abbrev pub bound_in : String → Memory → ℕ
bound_in name m = length (keep (is_bound name) (m.objs instance_kind))

on_node-with_meta :
    (name : String) (meta : Meta) (o : Object) → on_node name (with_meta meta o) ≡ on_node name o
unfolding with_meta
on_node-with_meta name meta o = ground arith

length-insert-le :
    (p : String × Entry → Bool) (key : String) (e : Entry) (table : Map Entry)
    → length (keep p (insert key e table)) ≤ length (keep p table) + (if p (key, e) then 1 else 0)
unfolding insert
length-insert-le p key e [] = ground arith
length-insert-le p key e ((other, found) ∷ table) = ground (arith, length-insert-le p key e table)

-- A write of an instance adds at most that instance to its node.
Creation-bound :
    (name : String) (i : Instance) (m m' : Memory)
    → Creation instance_kind (instance_object i) m m'
    → bound_in name m' ≤ bound_in name m + (if i.spec.node == name then 1 else 0)
Creation-bound name i m m' (refused q) =
    subst
      (λ (n : Memory). bound_in name n ≤ bound_in name m + (if i.spec.node == name then 1 else 0))
      (sym q) (omega arith)
Creation-bound name i m m' (created meta r e made o) =
    let key = (meta_of (instance_object i)).name in
    let same : is_bound name (key, e) ≡ (i.spec.node == name) =
      ap (on_node name) made ∙ on_node-with_meta name meta (instance_object i) in
    let now : bound_in name m'
        ≡ length (keep (is_bound name) (insert key e (m.objs instance_kind))) =
      ap (λ (f : Kind → Map Entry). length (keep (is_bound name) (f instance_kind))) o in
    ground (arith, same, now, length-insert-le (is_bound name) key e (m.objs instance_kind))

-- The same of a write of that instance under any revision.
pub put-bound :
    (now : ℕ) (name : String) (i : Instance) (x : ℤ) (m : Memory)
    → bound_in name (put now (instance_object i) x m).1
      ≤ bound_in name m + (if i.spec.node == name then 1 else 0)
unfolding kind_of
put-bound now name i x m =
    Creation-bound name i m (put now (instance_object i) x m).1
      (put-Creation instance_kind now (instance_object i) x m refl)

instances-on_node :
    (name : String) (os : List Object)
    → length (keep (λ (i : Instance). i.spec.node == name) (instances_in os))
      ≡ length (keep (on_node name) os)
instances-on_node name [] = refl
instances-on_node name (instance_object i ∷ os) = ground (arith, instances-on_node name os)
instances-on_node name (workload_object w ∷ os) = instances-on_node name os
instances-on_node name (service_object s ∷ os) = instances-on_node name os
instances-on_node name (node_object n ∷ os) = instances-on_node name os
instances-on_node name (policy_object n ∷ os) = instances-on_node name os
instances-on_node name (vip_object n ∷ os) = instances-on_node name os
instances-on_node name (ingress_object n ∷ os) = instances-on_node name os
instances-on_node name (nothing ∷ os) = instances-on_node name os

entries-on_node :
    (name : String) (entries : Map Entry)
    → length (keep (on_node name) (map (λ e. read_entry (e.1)) entries))
      ≡ length (keep (is_bound name) entries)
unfolding read_entry
entries-on_node name [] = refl
entries-on_node name (e ∷ entries) = ground (
  arith,
  on_node-with_meta name (record (meta_of (e.1.obj)) { resource_version = e.1.rev }) (e.1.obj),
  entries-on_node name entries,
)

module _ {A : Type 0} (key : A → String) (p : A → Bool) where
  keep-insert_by :
      (x : A) (xs : List A) → length (keep p (insert_by key x xs)) ≡ length (keep p (x ∷ xs))
  unfolding insert_by
  keep-insert_by x [] = refl
  keep-insert_by x (y ∷ ys) = ground (arith, keep-insert_by x ys)

  keep-sort_by : (xs : List A) → length (keep p (sort_by key xs)) ≡ length (keep p xs)
  unfolding sort_by
  keep-sort_by [] = refl
  keep-sort_by (x ∷ xs) = ground (arith, keep-insert_by x (sort_by key xs), keep-sort_by xs)

-- The listing of the instances has as many on a node as the store.
pub listed-bound :
    (name : String) (m : Memory)
    → length (keep (λ (i : Instance). i.spec.node == name) (instances_in (list instance_kind m).0))
      ≡ bound_in name m
unfolding list
listed-bound name m =
    let entries = sort_by (λ (e : String × Entry). e.0) (m.objs instance_kind) in
    instances-on_node name (map (λ e. read_entry (e.1)) entries)
    ∙ entries-on_node name entries
    ∙ keep-sort_by (λ (e : String × Entry). e.0) (is_bound name) (m.objs instance_kind)
