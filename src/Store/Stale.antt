-- ===== src/Store/Stale.antt =====
-- Writes and deletes pinned to a revision that was read earlier (internal/store): whatever other
-- writers did in between, they act on the entry that was read, or on nothing.
use k_lite.Common.{
  Option-cases, String, arith, eq_refl, inl, inr, lookup, lookup-erase, none, some, suc, sym, ℕ,
  ◌-◌, ◌<◌, ◌∙◌, ◌≡◌, ◌⊎◌,
}
use k_lite.Common.Int.{pos}
use k_lite.Object.Types.{Object}
use k_lite.Object.Registry.{Kind, is_kind_iff, kind_of, meta_of}
use k_lite.Store.{Entry, Memory, delete_if_revision, ok, put, put_as}
use k_lite.Store.Changes.{IsBounded, Reach, Reach-lookup_old, delete_if_revision_effect}
use k_lite.Store.Laws.{put-put_as}

pub pos-injective : (a b : ℕ) → pos a ≡ pos b → a ≡ b
pos-injective a b h = cc

-- A delete pinned to the revision of an entry that was read earlier either changes nothing, or
-- removes that very entry, untouched since it was read, after which the name is free: for all
-- calls of other writers in between, if the store that was read had no entry newer than itself.
pub stale_delete :
    (k : Kind) (name : String) (e : Entry) (m m' : Memory)
    → IsBounded m
    → lookup name (m.objs k) ≡ some e
    → Reach m m'
    → let after = (delete_if_revision k name (pos e.rev) m').1 in
      (after ≡ m') ⊎ (lookup name (m'.objs k) ≡ some e) × (lookup name (after.objs k) ≡ none)
stale_delete k name e m m' b h r = elim (delete_if_revision_effect k name (pos e.rev) m') [
  | inl q ↦ inl q
  | inr (n, found, p, q) ↦
      let p' : n.rev ≡ e.rev = pos-injective n.rev e.rev p in
      let old = Reach-lookup_old k name n r (omega (arith, b.below k name e h)) found in
      inr (
        found ∙ sym old ∙ h,
        rw q (ground (arith, lookup-erase name name (m'.objs k), eq_refl name, is_kind_iff k k)),
      )
]

put_as_conflict :
    (k : Kind) (now : ℕ) (o : Object) (r n : ℕ) (m m' : Memory)
    → put_as k now o (pos (suc r)) m ≡ (ok n, m')
    → (e : Entry) × (lookup (meta_of o).name (m.objs k) ≡ some e) × (e.rev ≡ suc r)
unfolding put_as
put_as_conflict k now o r n m m' h = elim (Option-cases (lookup (meta_of o).name (m.objs k))) [
  | inl q ↦ ground arith
  | inr (e, q) ↦ (e, q, ground arith)
]

-- A write pinned to the revision of an entry that was read earlier succeeds only while the store
-- still holds that very entry, untouched since it was read: for all calls of other writers, if the
-- store that was read had no entry newer than itself and the entry's revision is not zero.
pub stale_put :
    (k : Kind) (now : ℕ) (o : Object) (e : Entry) (n : ℕ) (m m' m'' : Memory)
    → IsBounded m
    → kind_of o ≡ some k
    → lookup (meta_of o).name (m.objs k) ≡ some e
    → 0 < e.rev
    → Reach m m'
    → put now o (pos e.rev) m' ≡ (ok n, m'')
    → lookup (meta_of o).name (m'.objs k) ≡ some e
stale_put k now o e n m m' m'' b kind h positive r done =
    let exact : suc (e.rev - 1) ≡ e.rev = omega arith in
    let call : put_as k now o (pos (suc (e.rev - 1))) m' ≡ (ok n, m'') =
      rw exact (sym (put-put_as k now o (pos e.rev) m' kind) ∙ done) in
    let (x, found, at) = put_as_conflict k now o (e.rev - 1) n m' m'' call in
    let old =
      Reach-lookup_old k (meta_of o).name x r (omega (arith, b.below k (meta_of o).name e h))
        found in
    found ∙ sym old ∙ h
