-- ===== src/Store/Changes.antt =====
-- What one call may do to the store (internal/store/storetest/memory.go), and what a pinned
-- revision guarantees across any calls of other writers.
use k_lite.Common.{
  Bool-cases, Map, Option, Option-cases, String, ap, arith, eq_iff, erase, if◌then◌else◌, inl, inr,
  insert, lookup, lookup-erase, lookup-insert, none, refl, some, some-injective, subst, suc, sym,
  zero, ℕ, ◌&&◌, ◌+◌, ◌<◌, ◌==◌, ◌∙◌, ◌≡◌, ◌≤◌, ◌⊎◌,
}
use k_lite.Common.Int.{eqb_ℤ, eqb_ℤ_iff, leb_ℤ, negsuc, pos, ℤ}
use k_lite.Object.Types.{Meta, Object}
use k_lite.Object.Registry.{
  Kind, is_kind, is_kind_iff, kind_of, kind_of-with_meta, meta_of, meta_of-with_meta, with_meta,
}
use k_lite.Store.{
  Entry, Memory, Result, admit, commit, delete, delete_if_revision, err, ok, put, put_as,
  set_bucket, valid_name,
}

-- An entry lies in the bucket of its kind, under its name.
abbrev pub IsFiled : Kind → String → Entry → Type 0
IsFiled k name e = (kind_of e.obj ≡ some k) × ((meta_of e.obj).name ≡ name)

-- Nothing, one entry written under the next revision, or one entry removed.
pub data Change (m m' : Memory) : Type 0 where
  same : m' ≡ m → Change m m'
  wrote :
      (k : Kind) (name : String) (e : Entry)
      → IsFiled k name e
      → e.rev ≡ m.rev + 1
      → m'.rev ≡ m.rev + 1
      → m'.objs ≡ set_bucket m k (insert name e (m.objs k))
      → Change m m'
  removed :
      (k : Kind) (name : String)
      → m'.rev ≡ m.rev + 1
      → m'.objs ≡ set_bucket m k (erase name (m.objs k))
      → Change m m'

-- What a write may do: nothing, or one entry under the next revision.
pub data Write (m m' : Memory) : Type 0 where
  kept : m' ≡ m → Write m m'
  stored :
      (k : Kind) (name : String) (e : Entry)
      → IsFiled k name e
      → e.rev ≡ m.rev + 1
      → m'.rev ≡ m.rev + 1
      → m'.objs ≡ set_bucket m k (insert name e (m.objs k))
      → Write m m'

pub Write-Change : {m m' : Memory} → Write m m' → Change m m'
Write-Change (kept q) = same q
Write-Change (stored k name e f fresh q o) = wrote k name e f fresh q o

-- `stampNew` touches the uid counter only.
admit-objs :
    (now : ℕ) (meta : Meta) (cur : Option Entry) (x : ℤ) (m : Memory) {r : Meta × Memory}
    → admit now meta cur x m ≡ ok r
    → (r.0.name ≡ meta.name) × (r.1.objs ≡ m.objs) × (r.1.rev ≡ m.rev)
unfolding admit
admit-objs now meta none (pos zero) m h = ground arith
admit-objs now meta (some e) (pos zero) m h = ground arith
admit-objs now meta none (pos (suc n)) m h = ground arith
admit-objs now meta (some e) (pos (suc n)) m h = ground arith
admit-objs now meta none (negsuc zero) m h = ground arith
admit-objs now meta (some e) (negsuc zero) m h = ground arith
admit-objs now meta cur (negsuc (suc n)) m h = ground arith

commit-Write :
    (k : Kind) (name : String) (o : Object) (r : Result (Meta × Memory)) (m : Memory)
    → kind_of o ≡ some k
    → ((x : Meta × Memory) → r ≡ ok x → (x.0.name ≡ name) × (x.1.objs ≡ m.objs) × (x.1.rev ≡ m.rev))
    → Write m (commit k name o r m).1
unfolding commit
commit-Write k name o (err e) m kind h = kept refl
commit-Write k name o (ok (meta, n)) m kind h =
    let (en, eo, er) = h (meta, n) refl in
    let entry : Entry = record { obj = with_meta meta o; rev = n.rev + 1 } in
    let written : (Kind → Map Entry) → Kind → Map Entry =
      λ b j. if is_kind k j then insert name entry (b k) else b j in
    stored k name entry
      (
        kind_of-with_meta meta o ∙ kind,
        ap (λ (a : Meta). a.name) (meta_of-with_meta meta o k kind) ∙ en,
      )
      (ap (λ (x : ℕ). x + 1) er) (ap (λ (x : ℕ). x + 1) er) (ap written eo)

put_as-Write :
    (k : Kind) (now : ℕ) (o : Object) (x : ℤ) (m : Memory)
    → kind_of o ≡ some k
    → Write m (put_as k now o x m).1
unfolding put_as
put_as-Write k now o x m kind = elim (Bool-cases (valid_name (meta_of o).name)) [
  | inl v ↦ rw v (
      commit-Write k (meta_of o).name o _ m kind (λ r e.
        admit-objs now (record (meta_of o) { resource_version = 0 })
          (lookup (meta_of o).name (m.objs k)) x m e))
  | inr v ↦ rw v (kept refl)
]

pub put-Write : (now : ℕ) (o : Object) (x : ℤ) (m : Memory) → Write m (put now o x m).1
unfolding put
put-Write now o x m = elim (Option-cases (kind_of o)) [
  | inl e ↦ rw (e, put) (kept refl)
  | inr (k, e) ↦ rw (e, put) (put_as-Write k now o x m e)
]

pub put-Change : (now : ℕ) (o : Object) (x : ℤ) (m : Memory) → Change m (put now o x m).1
put-Change now o x m = Write-Change (put-Write now o x m)

pub delete-Change : (k : Kind) (name : String) (m : Memory) → Change m (delete k name m).1
unfolding delete
delete-Change k name m = elim (Bool-cases (valid_name name)) [
  | inr v ↦ rw v (same refl)
  | inl v ↦ elim (Option-cases (lookup name (m.objs k))) [
    | inl e ↦ rw (v, e, delete) (same refl)
    | inr (x, e) ↦ rw (v, e, delete) (removed k name refl refl)
  ]
]

-- A pinned delete removes exactly the entry at that revision, or leaves the store as it is.
pub delete_if_revision_effect :
    (k : Kind) (name : String) (x : ℤ) (m : Memory)
    → ((delete_if_revision k name x m).1 ≡ m)
      ⊎ ((e : Entry) × (lookup name (m.objs k) ≡ some e)
          × (pos e.rev ≡ x)
          × ((delete_if_revision k name x m).1
              ≡ record m { rev = m.rev + 1; objs = set_bucket m k (erase name (m.objs k)) }))
unfolding delete_if_revision
delete_if_revision_effect k name x m = elim (Bool-cases (valid_name name)) [
  | inr v ↦ inl (rw v refl)
  | inl v ↦ elim (Bool-cases (leb_ℤ x (pos 0))) [
    | inl p ↦ inl (rw (v, p) refl)
    | inr p ↦ elim (Option-cases (lookup name (m.objs k))) [
      | inl e ↦ inl (rw (v, p, e, delete_if_revision) refl)
      | inr (n, e) ↦ elim (Bool-cases (eqb_ℤ (pos n.rev) x)) [
        | inr q ↦ inl (rw (v, p, e, q, delete_if_revision) refl)
        | inl q ↦
            inr (n, e, (eqb_ℤ_iff (pos n.rev) x).0 q, rw (v, p, e, q, delete_if_revision) refl)
      ]
    ]
  ]
]

pub delete_if_revision-Change :
    (k : Kind) (name : String) (x : ℤ) (m : Memory) → Change m (delete_if_revision k name x m).1
delete_if_revision-Change k name x m = elim (delete_if_revision_effect k name x m) [
  | inl e ↦ same e
  | inr (n, e, p, q) ↦ rw q (removed k name refl refl)
]

-- No entry is newer than the store, none has revision zero, and each lies under its kind and name.
pub record IsBounded (m : Memory) : Type 0 where
  pub below :
      (k : Kind) (name : String) (e : Entry) → lookup name (m.objs k) ≡ some e → e.rev ≤ m.rev
  pub positive :
      (k : Kind) (name : String) (e : Entry) → lookup name (m.objs k) ≡ some e → 0 < e.rev
  pub filed :
      (k : Kind) (name : String) (e : Entry) → lookup name (m.objs k) ≡ some e → IsFiled k name e

-- Any number of calls, by anyone.
pub data Reach (m : Memory) : Memory → Type 0 where
  here : Reach m m
  next : {n p : Memory} → Reach m n → Change n p → Reach m p

pub lookup-set_bucket :
    (m : Memory) (j k : Kind) (b : Map Entry) (name : String)
    → lookup name (set_bucket m j b k)
      ≡ (if is_kind j k then lookup name b else lookup name (m.objs k))
lookup-set_bucket m j k b name = elim (Bool-cases (is_kind j k)) [ inl e ↦ rw e | inr e ↦ rw e ]

-- What a lookup may find after a change: what was there, or a newer entry.
found_after :
    {m m' : Memory} (k : Kind) (name : String) (e : Entry)
    → Change m m'
    → lookup name (m'.objs k) ≡ some e
    → (lookup name (m.objs k) ≡ some e) ⊎ (e.rev ≡ m'.rev) × (m'.rev ≡ m.rev + 1) × IsFiled k name e
found_after {m} {m'} k name e (same q) h =
    inl (subst (λ (n : Memory). lookup name (n.objs k) ≡ some e) q h)
found_after {m} {m'} k name e (wrote j other new (kinded, named) fresh q o) h =
    let at : lookup name (set_bucket m j (insert other new (m.objs j)) k) ≡ some e =
      subst (λ (f : Kind → Map Entry). lookup name (f k) ≡ some e) o h in
    let both : (if is_kind j k
          then lookup name (insert other new (m.objs j))
          else lookup name (m.objs k))
        ≡ some e =
      sym (lookup-set_bucket m j k (insert other new (m.objs j)) name) ∙ at in
    elim (Bool-cases (is_kind j k)) [
      | inr b ↦ inl (rw b at both)
      | inl b ↦ elim (Bool-cases (other == name)) [
        | inr c ↦
            inl (
              ground
                (arith, rw b at both, lookup-insert other name new (m.objs j), is_kind_iff j k))
        | inl c ↦
            let here : some new ≡ some e =
              ground (arith, rw b at both, lookup-insert other name new (m.objs j)) in
            let en : new ≡ e = some-injective new e here in
            let ej : j ≡ k = (is_kind_iff j k).0 b in
            let eo : other ≡ name = (eq_iff other name).0 c in inr (cc, q, (cc, cc))
      ]
    ]
found_after {m} {m'} k name e (removed j other q o) h =
    let at : lookup name (set_bucket m j (erase other (m.objs j)) k) ≡ some e =
      subst (λ (f : Kind → Map Entry). lookup name (f k) ≡ some e) o h in
    ground (
      arith,
      at,
      lookup-set_bucket m j k (erase other (m.objs j)) name,
      lookup-erase other name (m.objs j),
      is_kind_iff j k,
    )

rev_after : {m m' : Memory} → Change m m' → m.rev ≤ m'.rev
rev_after (same q) = ground (arith, ap (λ (n : Memory). n.rev) q)
rev_after (wrote j other new filed fresh q o) = omega arith
rev_after (removed j other q o) = omega arith

Change-IsBounded : {m m' : Memory} → Change m m' → IsBounded m → IsBounded m'
Change-IsBounded {m} {m'} c b = record {
  below = λ k name e h. elim (found_after k name e c h) [
    | inl old ↦ omega (arith, b.below k name e old, rev_after c)
    | inr (er, mr, f) ↦ omega arith
  ];
  positive = λ k name e h. elim (found_after k name e c h) [
    | inl old ↦ b.positive k name e old
    | inr (er, mr, f) ↦ omega arith
  ];
  filed = λ k name e h. elim (found_after k name e c h) [
    | inl old ↦ b.filed k name e old
    | inr (er, mr, f) ↦ f
  ];
}

-- Whatever calls are made from the empty store, no entry is newer than the store.
pub Reach-IsBounded : {m m' : Memory} → Reach m m' → IsBounded m → IsBounded m'
Reach-IsBounded here b = b
Reach-IsBounded (next r c) b = Change-IsBounded c (Reach-IsBounded r b)

pub Reach-rev : {m m' : Memory} → Reach m m' → m.rev ≤ m'.rev
Reach-rev here = omega arith
Reach-rev (next r c) = omega (arith, Reach-rev r, rev_after c)

-- A revision is never used again: an entry that the store holds later at a revision that it had
-- already reached is the entry that it held then, untouched since.
pub Reach-lookup_old :
    {m m' : Memory} (k : Kind) (name : String) (e : Entry)
    → Reach m m'
    → e.rev ≤ m.rev
    → lookup name (m'.objs k) ≡ some e
    → lookup name (m.objs k) ≡ some e
Reach-lookup_old k name e here le h = h
Reach-lookup_old k name e (next r c) le h = elim (found_after k name e c h) [
  | inl old ↦ Reach-lookup_old k name e r le old
  | inr (er, mr, f) ↦ absurd (omega (arith, Reach-rev r))
]

-- A write keeps every entry, or puts one under a newer revision in its place.
pub lookup_then :
    {m m' : Memory} (k : Kind) (name : String) (e : Entry)
    → Write m m'
    → lookup name (m.objs k) ≡ some e
    → (lookup name (m'.objs k) ≡ some e)
      ⊎ ((n : Entry) × (lookup name (m'.objs k) ≡ some n) × (n.rev ≡ m.rev + 1))
lookup_then {m} {m'} k name e (kept q) h =
    inl (subst (λ (n : Memory). lookup name (n.objs k) ≡ some e) (sym q) h)
lookup_then {m} {m'} k name e (stored j other new filed fresh q o) h =
    let at : lookup name (m'.objs k)
        ≡ lookup name (set_bucket m j (insert other new (m.objs j)) k) =
      ap (λ (f : Kind → Map Entry). lookup name (f k)) o in
    elim (Bool-cases (is_kind j k && other == name)) [
      | inl b ↦ inr (
        new,
        ground (
          arith,
          at,
          lookup-set_bucket m j k (insert other new (m.objs j)) name,
          lookup-insert other name new (m.objs j),
        ),
        fresh,
      )
      | inr b ↦ inl (
          ground (
            arith,
            at,
            lookup-set_bucket m j k (insert other new (m.objs j)) name,
            lookup-insert other name new (m.objs j),
            is_kind_iff j k,
          ))
    ]
