-- ===== src/Controller/Vip/Distinct.antt =====
-- No two allocations hold one virtual address (internal/controller/vip.go).
use k_lite.Common.{
  Bool-cases, List, Map, Option, Option-cases, String, [], ap, arith, eq_iff, false, false≢true,
  inl, inr, insert, lookup, lookup-insert, none, refl, some, subst, sym, true, ℕ, ◌+◌, ◌-◌, ◌<◌,
  ◌==◌, ◌∙◌, ◌∷◌, ◌≡◌, ◌≢◌, ◌≤◌, ◌⊎◌,
}
use k_lite.Object.Types.{Meta, Object, vip_object}
use k_lite.Object.Registry.{Kind, kind_of, meta_of, vip_kind, with_meta}
use k_lite.Store.{
  Entry, Memory, Result, already_exists, conflict, err, invalid_name, invalid_rev, not_found, ok,
  put, rev_create, set_bucket, unknown_kind,
}
use k_lite.Store.Laws.{Creation, created, put-Creation, refused}
use k_lite.Controller.Pools.{IsFirstFree, first_free-IsFirstFree, is_used}
use k_lite.Controller.Vip.{
  allocate_vip, allocate_vip_each, first_free_vip, in_pool, is_host, new_vip, pool_size, pool_start,
  taken_is_fine,
}

-- The address that a stored object holds.
abbrev pub vip_of : (String → Option ℕ) → Object → Option ℕ
vip_of parse_addr (vip_object v) = parse_addr v.vip
vip_of parse_addr _ = none

-- Every address that the store's allocations hold is in the set, and no two hold the same one.
pub record IsDistinct (parse_addr : String → Option ℕ) (used : List ℕ) (m : Memory) : Type 0 where
  pub seen :
      (a : String) (e : Entry) (x : ℕ)
      → lookup a (m.objs vip_kind) ≡ some e
      → vip_of parse_addr e.obj ≡ some x
      → is_used used x ≡ true
  pub once :
      (a b : String) (e f : Entry) (x : ℕ)
      → lookup a (m.objs vip_kind) ≡ some e
      → lookup b (m.objs vip_kind) ≡ some f
      → vip_of parse_addr e.obj ≡ some x
      → vip_of parse_addr f.obj ≡ some x
      → a ≡ b

pool_row : (x : ℕ) → pool_start + 1 ≤ x → x < pool_start + 1 + (pool_size - 1) → in_pool x ≡ true
pool_row x low high = ground arith

some-injective : {A : Type 0} (a b : A) → some a ≡ some b → a ≡ b
some-injective a b h = cc

module _ (parse_addr : String → Option ℕ) (show_addr : ℕ → String)
    (round_trip : (x : ℕ) → in_pool x ≡ true → parse_addr (show_addr x) ≡ some x) where
  used-more : (used : List ℕ) (x y : ℕ) → is_used used y ≡ true → is_used (x ∷ used) y ≡ true
  used-more used x y h = ground arith

  widen :
      (used : List ℕ) (x : ℕ) (m : Memory)
      → IsDistinct parse_addr used m
      → IsDistinct parse_addr (x ∷ used) m
  widen used x m d = record {
    seen = λ a e y h k. used-more used x y (d.seen a e y h k);
    once = d.once;
  }

  created_vip :
      (meta : Meta) (pair : String × String) (ip : ℕ)
      → in_pool ip ≡ true
      → vip_of parse_addr (with_meta meta (vip_object (new_vip show_addr pair ip))) ≡ some ip
  unfolding with_meta new_vip
  created_vip meta pair ip h = round_trip ip h

  -- What a lookup finds after the create: the new entry under its name, or what was there.
  found_then :
      (name a : String) (new e : Entry) (m m' : Memory)
      → m'.objs ≡ set_bucket m vip_kind (insert name new (m.objs vip_kind))
      → lookup a (m'.objs vip_kind) ≡ some e
      → ((a ≡ name) × (e ≡ new)) ⊎ (lookup a (m.objs vip_kind) ≡ some e)
  found_then name a new e m m' o h =
      let at : lookup a (insert name new (m.objs vip_kind)) ≡ some e =
        subst (λ (f : Kind → Map Entry). lookup a (f vip_kind) ≡ some e) o h in
      elim (Bool-cases (name == a)) [
        | inl q ↦ inl (
          sym ((eq_iff name a).0 q),
          some-injective e new (ground (arith, lookup-insert name a new (m.objs vip_kind))),
        )
        | inr q ↦ inr (ground (arith, lookup-insert name a new (m.objs vip_kind)))
      ]

  is_used-here : (used : List ℕ) (ip x : ℕ) → x ≡ ip → is_used (ip ∷ used) x ≡ true
  is_used-here used ip x h = ground arith

  Creation-IsDistinct :
      (pair : String × String) (used : List ℕ) (ip : ℕ) (m m' : Memory)
      → in_pool ip ≡ true
      → is_used used ip ≡ false
      → IsDistinct parse_addr used m
      → Creation vip_kind (vip_object (new_vip show_addr pair ip)) m m'
      → IsDistinct parse_addr (ip ∷ used) m'
  Creation-IsDistinct pair used ip m m' inside free d (refused q) =
      subst (λ (n : Memory). IsDistinct parse_addr (ip ∷ used) n) (sym q) (widen used ip m d)
  Creation-IsDistinct pair used ip m m' inside free d (created meta r new made o) =
      let name = (meta_of (vip_object (new_vip show_addr pair ip))).name in
      let holds : vip_of parse_addr new.obj ≡ some ip =
        ap (λ (x : Object). vip_of parse_addr x) made ∙ created_vip meta pair ip inside in
      let held : (e : Entry) (x : ℕ) → e ≡ new → vip_of parse_addr e.obj ≡ some x → x ≡ ip =
        λ e x q h.
          some-injective x ip (sym h ∙ ap (λ (y : Entry). vip_of parse_addr y.obj) q ∙ holds) in
      let clash : (b : String) (f : Entry) (x : ℕ)
          → lookup b (m.objs vip_kind) ≡ some f
          → vip_of parse_addr f.obj ≡ some x
          → x ≢ ip =
        λ b f x h k q.
          false≢true (sym free ∙ subst (λ (y : ℕ). is_used used y ≡ true) q (d.seen b f x h k)) in
      record {
        seen = λ a e x h k. elim (found_then name a new e m m' o h) [
          | inl (n, q) ↦ is_used-here used ip x (held e x q k)
          | inr old ↦ used-more used ip x (d.seen a e x old k)
        ];
        once = λ a b e f x h j k l. elim (found_then name a new e m m' o h) [
          | inl (n, q) ↦ elim (found_then name b new f m m' o j) [
            | inl (n', q') ↦ n ∙ sym n'
            | inr old ↦ absurd (clash b f x old l (held e x q k))
          ]
          | inr old ↦ elim (found_then name b new f m m' o j) [
            | inl (n', q') ↦ absurd (clash a e x old k (held f x q' l))
            | inr old' ↦ d.once a b e f x old old' k l
          ]
        ];
      }

  put-IsDistinct :
      (now : ℕ) (pair : String × String) (used : List ℕ) (ip : ℕ) (m : Memory)
      → in_pool ip ≡ true
      → is_used used ip ≡ false
      → IsDistinct parse_addr used m
      → IsDistinct parse_addr
          (ip ∷ used)
          (put now (vip_object (new_vip show_addr pair ip)) rev_create m).1
  unfolding kind_of
  put-IsDistinct now pair used ip m inside free d =
      let o = vip_object (new_vip show_addr pair ip) in
      Creation-IsDistinct pair used ip m (put now o rev_create m).1 inside free d
        (put-Creation vip_kind now o rev_create m refl)

  taken-memory : (r : Result ℕ × Memory) → (taken_is_fine r).1 ≡ r.1
  taken-memory (ok n, m) = refl
  taken-memory (err conflict, m) = refl
  taken-memory (err not_found, m) = refl
  taken-memory (err already_exists, m) = refl
  taken-memory (err invalid_name, m) = refl
  taken-memory (err invalid_rev, m) = refl
  taken-memory (err unknown_kind, m) = refl

  allocate-IsDistinct :
      (now : ℕ) (pair : String × String) (used : List ℕ) (m : Memory)
      → IsDistinct parse_addr used m
      → let r = allocate_vip parse_addr show_addr now pair used m in IsDistinct parse_addr r.1 r.2
  unfolding allocate_vip first_free_vip
  allocate-IsDistinct now pair used m d = elim (Option-cases (first_free_vip used)) [
    | inl e ↦ rw (e, allocate_vip) d
    | inr (ip, e) ↦
        let at =
          subst (λ (r : Option ℕ). IsFirstFree is_host used (pool_size - 1) (pool_start + 1) r) e
            (first_free-IsFirstFree is_host used (pool_size - 1) (pool_start + 1)) in
        rw (e, allocate_vip)
          (subst (λ (n : Memory). IsDistinct parse_addr (ip ∷ used) n)
            (sym (taken-memory (put now (vip_object (new_vip show_addr pair ip)) rev_create m)))
            (put-IsDistinct now pair used ip m (pool_row ip at.0 at.1) at.3 d))
  ]

  -- The pass gives no address to two allocations: if the addresses that the store's allocations
  -- hold are all in the set of those that were seen, and no two hold the same one, the same is
  -- true after `allocate` has run for any list of pairs, whichever of its writes fail. It relies on
  -- an address of the pool being what its printed form parses to.
  pub allocate_vip_each-IsDistinct :
      (now : ℕ) (pairs : List (String × String)) (used : List ℕ) (m : Memory)
      → IsDistinct parse_addr used m
      → let r = allocate_vip_each parse_addr show_addr now pairs used m in
        IsDistinct parse_addr r.1 r.2
  unfolding allocate_vip_each
  allocate_vip_each-IsDistinct now [] used m d = d
  allocate_vip_each-IsDistinct now (pair ∷ pairs) used m d =
      let (e, used', m') = allocate_vip parse_addr show_addr now pair used m in
      allocate_vip_each-IsDistinct now pairs used' m' (allocate-IsDistinct now pair used m d)
