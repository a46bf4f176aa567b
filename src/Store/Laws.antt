-- ===== src/Store/Laws.antt =====
-- Reads after writes (internal/store/storetest/memory.go).
use k_lite.Common.{
  Bool-cases, Map, Option, Option-cases, String, ap, arith, eq_refl, false, if◌then◌else◌, inl, inr,
  insert, lookup, lookup-insert, none, refl, some, suc, sym, true, zero, ℕ, ◌+◌, ◌∙◌, ◌≡◌,
}
use k_lite.Common.Int.{negsuc, pos, ℤ}
use k_lite.Object.Types.{Meta, Object}
use k_lite.Object.Registry.{
  Kind, is_kind, is_kind_iff, kind_of, meta_of, meta_of-with_meta, with_meta, with_meta-with_meta,
}
use k_lite.Store.{
  Entry, Error, Memory, Result, admit, commit, err, get, ok, put, put_as, read_entry, set_bucket,
  valid_name,
}

pub put-put_as :
    (k : Kind) (now : ℕ) (o : Object) (x : ℤ) (m : Memory)
    → kind_of o ≡ some k
    → put now o x m ≡ put_as k now o x m
unfolding put
put-put_as k now o x m h = rw (h, put) refl

-- What is stored besides the object: the name and labels are the caller's, and the revision field
-- is left to reads.
admit_meta :
    (now : ℕ) (meta : Meta) (cur : Option Entry) (x : ℤ) (m : Memory) (r : Meta × Memory)
    → admit now meta cur x m ≡ ok r
    → (r.0.name ≡ meta.name) × (r.0.labels ≡ meta.labels) × (r.1.rev ≡ m.rev) × (r.1.objs ≡ m.objs)
unfolding admit
admit_meta now meta none (pos zero) m r h = ground arith
admit_meta now meta (some e) (pos zero) m r h = ground arith
admit_meta now meta none (pos (suc n)) m r h = ground arith
admit_meta now meta (some e) (pos (suc n)) m r h = ground arith
admit_meta now meta none (negsuc zero) m r h = ground arith
admit_meta now meta (some e) (negsuc zero) m r h = ground arith
admit_meta now meta cur (negsuc (suc n)) m r h = ground arith

commit_error :
    (k : Kind) (name : String) (o : Object) (r : Result (Meta × Memory)) (m : Memory) (e : Error)
    → (commit k name o r m).0 ≡ err e
    → (commit k name o r m).1 ≡ m
unfolding commit
commit_error k name o (err x) m e h = refl
commit_error k name o (ok (meta, n)) m e h = cc

-- A write that fails leaves the store as it was: for all errors.
pub put_error :
    (now : ℕ) (o : Object) (x : ℤ) (m : Memory) (e : Error)
    → (put now o x m).0 ≡ err e
    → (put now o x m).1 ≡ m
unfolding put put_as
put_error now o x m e h = elim (Option-cases (kind_of o)) [
  | inl q ↦ rw (q, put) refl
  | inr (k, q) ↦ elim (Bool-cases (valid_name (meta_of o).name)) [
    | inr v ↦ rw (q, v, put) refl
    | inl v ↦ rw (q, v, put) (commit_error k _ o _ m e (rw (q, v, put) at h))
  ]
]

read_entry-with_meta :
    (k : Kind) (meta : Meta) (o : Object) (r : ℕ)
    → kind_of o ≡ some k
    → read_entry (record { obj = with_meta meta o; rev = r })
      ≡ with_meta (record meta { resource_version = r }) o
unfolding read_entry
read_entry-with_meta k meta o r h = rw (with_meta-with_meta, meta_of-with_meta meta o k h) refl

get-commit :
    (k : Kind) (name : String) (o : Object) (res : Result (Meta × Memory)) (m m' : Memory) (r : ℕ)
    → kind_of o ≡ some k
    → valid_name name ≡ true
    → commit k name o res m ≡ (ok r, m')
    → (meta : Meta) × (n : Memory) × (res ≡ ok (meta, n))
      × (r ≡ n.rev + 1)
      × (get k name m' ≡ ok (with_meta (record meta { resource_version = r }) o, r))
unfolding commit get
get-commit k name o (err e) m m' r kind v h = cc
get-commit k name o (ok (meta, n)) m m' r kind v h =
    let entry : Entry = record { obj = with_meta meta o; rev = n.rev + 1 } in
    let er : r ≡ n.rev + 1 = ground arith in
    let stored : lookup name (m'.objs k) ≡ some entry =
      ground (arith, lookup-insert name name entry (n.objs k), eq_refl name, is_kind_iff k k) in
    (
      meta,
      n,
      refl,
      er,
      rw (v, stored, get) (cc (er, read_entry-with_meta k meta o (n.rev + 1) kind)),
    )

-- What a read of the same name returns after a successful write: the object that was written, with
-- its name and labels, at the new revision, which is one more than the store's was.
pub get-put :
    (k : Kind) (now : ℕ) (o : Object) (x : ℤ) (m m' : Memory) (r : ℕ)
    → kind_of o ≡ some k
    → put now o x m ≡ (ok r, m')
    → (r ≡ m.rev + 1)
      × ((meta : Meta) × (get k (meta_of o).name m' ≡ ok (with_meta meta o, r))
          × (meta.name ≡ (meta_of o).name)
          × (meta.labels ≡ (meta_of o).labels)
          × (meta.resource_version ≡ r))
unfolding put_as
get-put k now o x m m' r kind h = elim (Bool-cases (valid_name (meta_of o).name)) [
  | inr v ↦ absurd (ground (arith, put-put_as k now o x m kind))
  | inl v ↦
      let call = sym (put-put_as k now o x m kind) ∙ h in
      let (meta, n, got, er, read) =
        get-commit k (meta_of o).name o _ m m' r kind v (rw v at call) in
      let (en, el, ev, eo) =
        admit_meta now (record (meta_of o) { resource_version = 0 })
          (lookup (meta_of o).name (m.objs k)) x m (meta, n) got in
      (er ∙ ap (λ (y : ℕ). y + 1) ev, (record meta { resource_version = r }, read, en, el, refl))
]

commit-other :
    (k j : Kind) (name : String) (o : Object) (r : Result (Meta × Memory)) (m : Memory)
    → ((x : Meta × Memory) → r ≡ ok x → x.1.objs ≡ m.objs)
    → is_kind k j ≡ false
    → (commit k name o r m).1.objs j ≡ m.objs j
unfolding commit
commit-other k j name o (err e) m h other = refl
commit-other k j name o (ok (meta, n)) m h other =
    rw other (ap (λ (f : Kind → Map Entry). f j) (h (meta, n) refl))

-- A write of one kind leaves the objects of the other kinds.
pub put-other :
    (k j : Kind) (now : ℕ) (o : Object) (x : ℤ) (m : Memory)
    → kind_of o ≡ some k
    → is_kind k j ≡ false
    → (put now o x m).1.objs j ≡ m.objs j
unfolding put_as
put-other k j now o x m kind other =
    rw (put-put_as k now o x m kind) (elim (Bool-cases (valid_name (meta_of o).name)) [
      | inr v ↦ rw v refl
      | inl v ↦ rw v (
          commit-other k j (meta_of o).name o _ m
            (λ r e.
              (admit_meta now (record (meta_of o) { resource_version = 0 })
                (lookup (meta_of o).name (m.objs k)) x m r e).3)
            other)
    ])

-- What a create may do: nothing, or the object, under new metadata with its name, in a free place.
pub data Creation (k : Kind) (o : Object) (m m' : Memory) : Type 0 where
  refused : m' ≡ m → Creation k o m m'
  created :
      (meta : Meta) (r : ℕ)
      → (entry : Entry) → entry.obj ≡ with_meta meta o
      → m'.objs ≡ set_bucket m k (insert (meta_of o).name entry (m.objs k))
      → Creation k o m m'

commit-Creation :
    (k : Kind) (o : Object) (r : Result (Meta × Memory)) (m : Memory)
    → ((x : Meta × Memory) → r ≡ ok x → x.1.objs ≡ m.objs)
    → Creation k o m (commit k (meta_of o).name o r m).1
unfolding commit
commit-Creation k o (err e) m h = refused refl
commit-Creation k o (ok (meta, n)) m h =
    let entry : Entry = record { obj = with_meta meta o; rev = n.rev + 1 } in
    let written : (Kind → Map Entry) → Kind → Map Entry =
      λ b j. if is_kind k j then insert (meta_of o).name entry (b k) else b j in
    created meta 0 entry refl (ap written (h (meta, n) refl))

pub put-Creation :
    (k : Kind) (now : ℕ) (o : Object) (x : ℤ) (m : Memory)
    → kind_of o ≡ some k
    → Creation k o m (put now o x m).1
unfolding put_as
put-Creation k now o x m kind =
    rw (put-put_as k now o x m kind) (elim (Bool-cases (valid_name (meta_of o).name)) [
      | inr v ↦ rw v (refused refl)
      | inl v ↦ rw v (
          commit-Creation k o _ m (λ r e.
            (admit_meta now (record (meta_of o) { resource_version = 0 })
              (lookup (meta_of o).name (m.objs k)) x m r e).3))
    ])
