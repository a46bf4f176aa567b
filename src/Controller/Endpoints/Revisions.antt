-- ===== src/Controller/Endpoints/Revisions.antt =====
-- The revisions that the engine hands out (internal/controller/endpoints.go): a watcher that compares
-- revisions sees every change.
use k_lite.Common.{
  Among, Bool, Bool-cases, Map, Option-cases, String, [], ap, arith, eq_iff, false, if◌then◌else◌,
  inl, inr, insert, keep, keep-Among, keep-unique_keys, length, lookup, lookup-insert, lookup-keep,
  ltb, not, refl, some, some-injective, sym, true, unique_keys, unique_keys-insert, ℕ, ◌+◌, ◌==◌,
  ◌∙◌, ◌∷◌, ◌≡◌, ◌≤◌, ◌⊎◌,
}
use k_lite.Controller.Endpoints.{NodeSnapshot}
use k_lite.Controller.Endpoints.Snapshots.{
  Engine, SameContent, is_departed, is_unchanged, stamp_all, stamped, store_snapshots, with_decayed,
}

-- No revision is above the engine's version.
abbrev pub IsVersioned : ℕ → Map NodeSnapshot → Type 0
IsVersioned v nodes =
    (node : String) (s : NodeSnapshot) → lookup node nodes ≡ some s → s.revision ≤ v

module _ (equal : NodeSnapshot → NodeSnapshot → Bool)
    (sound : (a b : NodeSnapshot) → equal a b ≡ true → SameContent a b) where
  -- What a lookup finds after the stamping: what was there, or a stamped snapshot of the node.
  stamp_all-lookup :
      (nodes : Map NodeSnapshot) (v : ℕ) (all out : Map NodeSnapshot) (node : String)
      (s : NodeSnapshot)
      → lookup node (stamp_all equal nodes v all out) ≡ some s
      → (lookup node out ≡ some s)
        ⊎ ((next : NodeSnapshot) × Among (node, next) all × (s ≡ stamped equal nodes v node next))
  unfolding stamp_all
  stamp_all-lookup nodes v [] out node s h = inl h
  stamp_all-lookup nodes v ((other, next) ∷ rest) out node s h =
      elim (stamp_all-lookup nodes v rest (insert other (stamped equal nodes v other next) out) node
        s h) [
          | inr (later, m, e) ↦ inr (later, inr m, e)
          | inl there ↦ elim (Bool-cases (other == node)) [
            | inr e ↦
                inl
                  (ground (arith, lookup-insert other node (stamped equal nodes v other next) out))
            | inl e ↦
                let same : other ≡ node = (eq_iff other node).0 e in
                let found : some (stamped equal nodes v other next) ≡ some s =
                  ground (arith, lookup-insert other node (stamped equal nodes v other next) out) in
                inr (
                  next,
                  inl (ap (λ (n : String). (n, next)) same),
                  sym (cc found) ∙ ap (λ (n : String). stamped equal nodes v n next) same,
                )
          ]
        ]

  -- A stamped revision is the old one, of the same content, or the next version.
  abbrev Stamp : Map NodeSnapshot → ℕ → String → NodeSnapshot → Type 0
  Stamp nodes v node next =
      (is_unchanged equal nodes node next ≡ false)
        × ((stamped equal nodes v node next).revision ≡ v)
      ⊎ ((prev : NodeSnapshot) × (lookup node nodes ≡ some prev)
          × ((stamped equal nodes v node next).revision ≡ prev.revision)
          × SameContent prev next)

  stamped-Stamp :
      (nodes : Map NodeSnapshot) (v : ℕ) (node : String) (next : NodeSnapshot)
      → Stamp nodes v node next
  unfolding stamped is_unchanged
  stamped-Stamp nodes v node next = elim (Option-cases (lookup node nodes)) [
    | inl e ↦ inl (rw (e, is_unchanged) refl, rw (e, stamped) refl)
    | inr (prev, e) ↦ elim (Bool-cases (equal prev next)) [
      | inl same ↦ inr (prev, e, rw (e, same, stamped) refl, sound prev next same)
      | inr moved ↦ inl (rw (e, moved, is_unchanged) refl, rw (e, moved, stamped) refl)
    ]
  ]

  stamped-content :
      (nodes : Map NodeSnapshot) (v : ℕ) (node : String) (next : NodeSnapshot)
      → SameContent next (stamped equal nodes v node next)
  unfolding stamped
  stamped-content nodes v node next = (refl, refl)

  -- A watcher that reads a node's snapshot, lets a pass go by and finds the revision that it has seen
  -- already has also seen the content: for all inputs, if `equal` holds of equal contents only, the
  -- engine holds one snapshot for each node, and no revision is above its version.
  pub store_snapshots-revision :
      (built : Map NodeSnapshot) (e : Engine) (node : String) (a b : NodeSnapshot)
      → unique_keys e.nodes ≡ true
      → IsVersioned e.version e.nodes
      → lookup node e.nodes ≡ some a
      → lookup node (store_snapshots equal built e).0.nodes ≡ some b
      → a.revision ≡ b.revision
      → SameContent a b
  unfolding store_snapshots
  store_snapshots-revision built e node a b u low before after same =
      let all = with_decayed equal e.nodes built in
      let kept = keep (λ d. not (is_departed equal built d)) e.nodes in
      let moved : String × NodeSnapshot → Bool = λ d. not (is_unchanged equal kept (d.0) (d.1)) in
      let version = if ltb 0 (length (keep moved all)) then e.version + 1 else e.version in
      let old : (s : NodeSnapshot) → lookup node kept ≡ some s → s ≡ a = λ s h.
        some-injective s a
          (sym (lookup-keep (λ d. not (is_departed equal built d)) node e.nodes s u h) ∙ before) in
      elim (stamp_all-lookup kept version all kept node b after) [
        | inl there ↦
            let e = old b there in
            (
              ap (λ (s : NodeSnapshot). s.instances) (sym e),
              ap (λ (s : NodeSnapshot). s.net) (sym e),
            )
        | inr (next, m, made) ↦ elim (stamped-Stamp kept version node next) [
          | inr (prev, found, r, content) ↦
              let (i, n) = stamped-content kept version node next in
              let e = old prev found in
              (
                ap (λ (s : NodeSnapshot). s.instances) (sym e)
                    ∙ content.0
                    ∙ i
                    ∙ ap (λ (s : NodeSnapshot). s.instances) (sym made),
                ap (λ (s : NodeSnapshot). s.net) (sym e)
                    ∙ content.1
                    ∙ n
                    ∙ ap (λ (s : NodeSnapshot). s.net) (sym made),
              )
          | inl (new, r) ↦
              let counted = keep-Among moved (node, next) all m (ap not new) in
              let rev : b.revision ≡ version = ap (λ (s : NodeSnapshot). s.revision) made ∙ r in
              absurd (ground (arith, counted, rev, low node a before))
        ]
      ]

  -- The engine holds one snapshot for each node, and no revision above its version.
  pub record IsEngine (e : Engine) : Type 0 where
    pub once : unique_keys e.nodes ≡ true
    pub versioned : IsVersioned e.version e.nodes

  stamp_all-unique_keys :
      (nodes : Map NodeSnapshot) (v : ℕ) (all out : Map NodeSnapshot)
      → unique_keys out ≡ true
      → unique_keys (stamp_all equal nodes v all out) ≡ true
  unfolding stamp_all
  stamp_all-unique_keys nodes v [] out h = h
  stamp_all-unique_keys nodes v ((node, next) ∷ rest) out h =
      stamp_all-unique_keys nodes v rest (insert node (stamped equal nodes v node next) out)
        (unique_keys-insert node (stamped equal nodes v node next) out h)

  -- One snapshot for each node, and no revision above the engine's version, also after the engine has
  -- taken in any newly built snapshots: for all engines of which that holds.
  pub store_snapshots-IsEngine :
      (built : Map NodeSnapshot) (e : Engine)
      → IsEngine e
      → IsEngine (store_snapshots equal built e).0
  unfolding store_snapshots
  store_snapshots-IsEngine built e g =
      let all = with_decayed equal e.nodes built in
      let kept = keep (λ d. not (is_departed equal built d)) e.nodes in
      let moved : String × NodeSnapshot → Bool = λ d. not (is_unchanged equal kept (d.0) (d.1)) in
      let version = if ltb 0 (length (keep moved all)) then e.version + 1 else e.version in
      let grows : e.version ≤ version = ground arith in
      let low : IsVersioned version kept = λ node s h. omega (
        arith,
        grows,
        g.versioned node s
            (lookup-keep (λ d. not (is_departed equal built d)) node e.nodes s g.once h),
      ) in
      record {
        once =
            stamp_all-unique_keys kept version all kept
              (keep-unique_keys (λ d. not (is_departed equal built d)) e.nodes g.once);
        versioned = λ node s h. elim (stamp_all-lookup kept version all kept node s h) [
          | inl there ↦ low node s there
          | inr (next, m, made) ↦
              let at : s.revision ≡ (stamped equal kept version node next).revision =
                ap (λ (x : NodeSnapshot). x.revision) made in
              elim (stamped-Stamp kept version node next) [
                | inl (new, r) ↦ omega (arith, at, r)
                | inr (prev, found, r, content) ↦ omega (arith, at, r, low node prev found)
              ]
        ];
      }
