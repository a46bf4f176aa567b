-- ===== src/Server/Forced.antt =====
-- What a forced drain may delete (internal/server/drain.go).
use k_lite.Common.Int.{pos}
use k_lite.Server.Drain.{InstView, Narrator, force_delete, force_each}
use k_lite.Common.{
  Bool, Bool-cases, Map, String, [], any, ap, arith, eq_iff, eqb, erase, false, inl, inr, lookup,
  lookup-erase, not, some, some-injective, subst, sym, ℕ, ◌&&◌, ◌==◌, ◌||◌, ◌∙◌, ◌∷◌, ◌≡◌,
}
use k_lite.Store.{Entry, Memory, delete_if_revision}
use k_lite.Object.Types.{draining, is_phase}
use k_lite.Object.Registry.{instance_kind}
use k_lite.Server.Owned.{Result-cases}
use k_lite.Store.Changes.{delete_if_revision_effect}
use k_lite.Store.Stale.{pos-injective}

-- Whether a view lets the forced drain delete the entry under the name.
abbrev pub is_target : String → String → Entry → String × InstView → Bool
is_target node name e (key, v) =
    key == name && v.view_node == node && is_phase v.view_phase draining && eqb v.view_rev e.rev

or_false : (b c : Bool) → (b || c) ≡ false → (b ≡ false) × (c ≡ false)
or_false b c h = ground arith

not_key :
    (key name : String) (r : ℕ) (e x : Entry) (m : Memory)
    → lookup key (m.objs instance_kind) ≡ some x
    → lookup name (m.objs instance_kind) ≡ some e
    → x.rev ≡ r
    → (key == name && eqb r e.rev) ≡ false
    → (key == name) ≡ false
not_key key name r e x m found h same_rev other = elim (Bool-cases (key == name)) [
  | inr b ↦ b
  | inl b ↦
      let ek : key ≡ name = (eq_iff key name).0 b in
      let found_here = subst (λ (y : String). lookup y (m.objs instance_kind) ≡ some x) ek found in
      let one : x ≡ e = some-injective x e (sym found_here ∙ h) in
      let revs : r ≡ e.rev = sym same_rev ∙ ap (λ (y : Entry). y.rev) one in
      absurd (ground (arith, other, b, revs))
]

kept_by_delete :
    (key name : String) (r : ℕ) (e : Entry) (m : Memory)
    → lookup name (m.objs instance_kind) ≡ some e
    → (key == name && eqb r e.rev) ≡ false
    → lookup name ((delete_if_revision instance_kind key (pos r) m).1.objs instance_kind) ≡ some e
kept_by_delete key name r e m h other =
    elim (delete_if_revision_effect instance_kind key (pos r) m) [
      | inl q ↦ ap (λ (y : Memory). lookup name (y.objs instance_kind)) q ∙ h
      | inr (x, found, p, q) ↦
          let same_rev : x.rev ≡ r = pos-injective x.rev r p in
          let apart : (key == name) ≡ false = not_key key name r e x m found h same_rev other in
          ap (λ (y : Memory). lookup name (y.objs instance_kind)) q
          ∙ ground (arith, lookup-erase key name (m.objs instance_kind), apart, h)
    ]

pub force_each-keeps :
    (node name : String) (e : Entry) (views prev : Map InstView) (m : Memory)
    → lookup name (m.objs instance_kind) ≡ some e
    → any (is_target node name e) views ≡ false
    → lookup name ((force_each node views prev m).2.objs instance_kind) ≡ some e
unfolding force_each
force_each-keeps node name e [] prev m h t = h
force_each-keeps node name e ((key, v) ∷ views) prev m h t =
    let deleted_one = delete_if_revision instance_kind key (pos v.view_rev) m in
    let (spared, later) =
      or_false (is_target node name e (key, v)) (any (is_target node name e) views) t in
    elim (Bool-cases (not (v.view_node == node) || not (is_phase v.view_phase draining))) [
      | inl b ↦ rw (b, force_each) (force_each-keeps node name e views prev m h later)
      | inr b ↦
          let stays = kept_by_delete key name v.view_rev e m h (ground (arith, spared, b)) in
          elim (Result-cases deleted_one.0) [
            | inl (f, q) ↦
                rw (b, q, force_each)
                  (force_each-keeps node name e views prev deleted_one.1 stays later)
            | inr (x, q) ↦
                rw (b, q, force_each)
                  (force_each-keeps node name e views (erase key prev) deleted_one.1 stays later)
          ]
    ]

-- A forced drain leaves every instance that it did not see DRAINING on the node at the revision that
-- the store holds: an instance that was rewritten or created since the poll survives. For all stores,
-- names and narrators.
pub force_delete-keeps :
    (n : Narrator) (name : String) (e : Entry) (m : Memory)
    → lookup name (m.objs instance_kind) ≡ some e
    → any (is_target n.drained_node name e) n.prev ≡ false
    → lookup name ((force_delete n m).2.objs instance_kind) ≡ some e
unfolding force_delete
force_delete-keeps n name e m h t = force_each-keeps n.drained_node name e n.prev n.prev m h t
