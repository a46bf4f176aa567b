-- ===== src/Controller/Workload/Keeps.antt =====
-- The workload controller deletes no instance that is READY in the store: its deletes are pinned
-- to the revisions that the pass listed (internal/controller/workload.go and rollout.go).
use k_lite.Common.{
  All, Bool, Bool-cases, List, Option, Option-cases, String, [], ap, arith, concat, eq_iff, false,
  false≢true, inl, inr, leb, lookup, lookup-erase, refl, some, subst, suc, sym, true, zero, ℕ, ◌+◌,
  ◌/◌, ◌<◌, ◌∙◌, ◌∷◌, ◌≡◌, ◌≢◌, ◌⊎◌,
}
use k_lite.Common.Int.{pos}
use k_lite.Object.Types.{
  Container, Instance, Object, Workload, instance_object, is_phase, phase_of, ready,
}
use k_lite.Object.Registry.{instance_kind, is_kind_iff}
use k_lite.Store.{
  Entry, Memory, Result, already_exists, conflict, delete_if_revision, err, invalid_name,
  invalid_rev, not_found, ok, put, rev_create, unknown_kind,
}
use k_lite.Store.Changes.{
  IsBounded, Reach, Reach-lookup_old, Reach-rev, Write, Write-Change, delete_if_revision-Change,
  delete_if_revision_effect, lookup_then, next, put-Write,
}
use k_lite.Controller.Workload.{
  Fault, Pass, after_retire, after_try, cas_retries, create_instance, create_many, create_tries,
  delete_instance, each, expire_drain, new_instance, retire, retired, second,
}
use k_lite.Store.Stale.{pos-injective}

-- Whether a stored entry is a READY instance.
abbrev pub is_serving : Object → Bool
is_serving (instance_object i) = is_phase (phase_of i) ready
is_serving _ = false

-- The instance is what a read of the store returns.
pub record IsListed (start : Memory) (i : Instance) : Type 0 where
  pub entry : Entry
  pub found : lookup i.meta.name (start.objs instance_kind) ≡ some entry
  pub revision : entry.rev ≡ i.meta.resource_version
  pub same_phase : is_serving entry.obj ≡ is_phase (phase_of i) ready

some-injective : {A : Type 0} (a b : A) → some a ≡ some b → a ≡ b
some-injective a b h = cc

after_retire-memory :
    (now : ℕ) (i : Instance) (r : Result ℕ) (p : Pass)
    → (after_retire now i r p).1.memory ≡ p.memory
unfolding after_retire
after_retire-memory now i (ok n) p = refl
after_retire-memory now i (err conflict) p = refl
after_retire-memory now i (err not_found) p = refl
after_retire-memory now i (err already_exists) p = refl
after_retire-memory now i (err invalid_name) p = refl
after_retire-memory now i (err invalid_rev) p = refl
after_retire-memory now i (err unknown_kind) p = refl

module _ (start : Memory) (bounded : IsBounded start) (n : String) where
  -- The store was reached from the listing, and holds under the name a READY instance or an entry
  -- that is newer than the listing.
  abbrev pub IsKept : Memory → Type 0
  IsKept m =
      Reach start m
      × ((e : Entry) × (lookup n (m.objs instance_kind) ≡ some e)
          × ((is_serving e.obj ≡ true) ⊎ (start.rev < e.rev)))

  pub Write-IsKept : {m m' : Memory} → Write m m' → IsKept m → IsKept m'
  Write-IsKept w (r, (e, h, old)) = elim (lookup_then instance_kind n e w h) [
    | inl found ↦ (next r (Write-Change w), (e, found, old))
    | inr (x, at, fresh) ↦ (next r (Write-Change w), (x, at, inr (omega (arith, Reach-rev r))))
  ]

  abbrev pub IsIdle : Instance → Type 0
  IsIdle i = IsListed start i × (is_phase (phase_of i) ready ≡ false)

  -- A delete at the listed revision that meets an entry under the name meets the listed one.
  hit :
      (i : Instance)
      → IsListed start i
      → is_phase (phase_of i) ready ≡ false
      → (m : Memory) → Reach start m
      → (d : Entry) → lookup i.meta.name (m.objs instance_kind) ≡ some d
      → pos d.rev ≡ pos i.meta.resource_version
      → (e : Entry) → lookup n (m.objs instance_kind) ≡ some e
      → (is_serving e.obj ≡ true) ⊎ (start.rev < e.rev)
      → i.meta.name ≢ n
  hit i l idle m r d at rev e h old equal =
      let below = bounded.below instance_kind i.meta.name l.entry l.found in
      let rev' : d.rev ≡ i.meta.resource_version = pos-injective d.rev _ rev in
      let was =
        Reach-lookup_old instance_kind i.meta.name d r (omega (arith, l.revision, below, rev'))
          at in
      let listed : d ≡ l.entry = some-injective d l.entry (sym was ∙ l.found) in
      let same_entry : d ≡ e =
        some-injective d e
          (sym at ∙ ap (λ (x : String). lookup x (m.objs instance_kind)) equal ∙ h) in
      let serving : is_serving d.obj ≡ false =
        ap (λ (x : Entry). is_serving x.obj) listed ∙ l.same_phase ∙ idle in
      let serving' : is_serving d.obj ≡ is_serving e.obj =
        ap (λ (x : Entry). is_serving x.obj) same_entry in
      let revs : d.rev ≡ e.rev = ap (λ (x : Entry). x.rev) same_entry in
      elim old [
        | inl live ↦ false≢true (sym serving ∙ serving' ∙ live)
        | inr newer ↦ omega (arith, l.revision, below, rev')
      ]

  pub delete-IsKept :
      (i : Instance) (p : Pass) → IsIdle i → IsKept p.memory → IsKept (delete_instance i p).1.memory
  unfolding delete_instance
  delete-IsKept i p (l, idle) (r, (e, h, old)) =
      let x = pos i.meta.resource_version in
      let c = delete_if_revision-Change instance_kind i.meta.name x p.memory in
      let after = (delete_if_revision instance_kind i.meta.name x p.memory).1 in
      elim (delete_if_revision_effect instance_kind i.meta.name x p.memory) [
        | inl q ↦ (
          next r c,
          (e, subst (λ (m : Memory). lookup n (m.objs instance_kind) ≡ some e) (sym q) h, old),
        )
        | inr (d, at, rev, q) ↦
            let other : i.meta.name ≢ n = λ equal. hit i l idle p.memory r d at rev e h old equal in
            (
              next r c,
              (
                e,
                subst (λ (m : Memory). lookup n (m.objs instance_kind) ≡ some e) (sym q)
                    (ground (
                      arith,
                      lookup-erase i.meta.name n (p.memory.objs instance_kind),
                      eq_iff i.meta.name n,
                      is_kind_iff instance_kind instance_kind,
                      other,
                    )),
                old,
              ),
            )
      ]

  pub retire-IsKept :
      (now : ℕ) (reason : String) (i : Instance) (p : Pass)
      → IsListed start i
      → IsKept p.memory
      → IsKept (retire now i reason p).1.memory
  unfolding retire
  retire-IsKept now reason i p l k = elim (Bool-cases (is_phase (phase_of i) ready)) [
    | inr idle ↦ rw idle (delete-IsKept i p (l, idle) k)
    | inl live ↦
        let x = pos i.meta.resource_version in
        let o = instance_object (retired i reason) in
        rw (live, after_retire-memory) (Write-IsKept (put-Write (now / second) o x p.memory) k)
  ]

  pub expire-IsKept :
      (now : ℕ) (i : Instance) (p : Pass)
      → IsIdle i
      → IsKept p.memory
      → IsKept (expire_drain now i p).1.memory
  unfolding expire_drain
  expire-IsKept now i p l k = elim (Option-cases (lookup i.meta.uid p.deadlines)) [
    | inl e ↦ rw (e, expire_drain) k
    | inr (d, e) ↦ elim (Bool-cases (leb d now)) [
      | inl late ↦ rw (e, late, expire_drain) (delete-IsKept i p l k)
      | inr early ↦ rw (e, early, expire_drain) k
    ]
  ]

  pub each-IsKept :
      (Q : Instance → Type 0) (f : Instance → Pass → Option Fault × Pass)
      → ((i : Instance) (p : Pass) → Q i → IsKept p.memory → IsKept (f i p).1.memory)
      → (is : List Instance) (p : Pass) → All Q is
      → IsKept p.memory
      → IsKept (each f is p).1.memory
  unfolding each
  each-IsKept Q f step [] p q k = k
  each-IsKept Q f step (i ∷ is) p (q, qs) k = each-IsKept Q f step is (f i p).1 qs (step i p q k)

  try-IsKept :
      (r : Result ℕ) (again : Option Fault × Pass) (p : Pass)
      → IsKept p.memory
      → IsKept again.1.memory
      → IsKept (after_try r again p).1.memory
  try-IsKept (ok n) again p k j = k
  try-IsKept (err already_exists) again p k j = j
  try-IsKept (err not_found) again p k j = k
  try-IsKept (err conflict) again p k j = k
  try-IsKept (err invalid_name) again p k j = k
  try-IsKept (err invalid_rev) again p k j = k
  try-IsKept (err unknown_kind) again p k j = k

  create-IsKept :
      (suffix : ℕ → String) (tries now : ℕ) (w : Workload) (c : Container) (hash : String)
      (p : Pass)
      → IsKept p.memory
      → IsKept (create_tries suffix tries now w c hash p).1.memory
  unfolding create_tries
  create-IsKept suffix zero now w c hash p k = k
  create-IsKept suffix (suc tries) now w c hash p k =
      let name = concat w.meta.name (concat "-" (suffix p.rolls)) in
      let o = instance_object (new_instance suffix w c hash name) in
      let (r, m) = put (now / second) o rev_create p.memory in
      let p' : Pass = record p { memory = m; rolls = p.rolls + 1 } in
      let k' = Write-IsKept (put-Write (now / second) o rev_create p.memory) k in
      try-IsKept r (create_tries suffix tries now w c hash p') p' k'
        (create-IsKept suffix tries now w c hash p' k')

  pub many-IsKept :
      (suffix : ℕ → String) (n now : ℕ) (w : Workload) (c : Container) (hash : String) (p : Pass)
      → IsKept p.memory
      → IsKept (create_many suffix n now w c hash p).1.memory
  unfolding create_many create_instance
  many-IsKept suffix zero now w c hash p k = k
  many-IsKept suffix (suc n) now w c hash p k =
      many-IsKept suffix n now w c hash (create_tries suffix cas_retries now w c hash p).1
        (create-IsKept suffix cas_retries now w c hash p k)
