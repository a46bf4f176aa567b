-- ===== src/Controller/Endpoints/Snapshots.antt =====
-- internal/controller/endpoints.go: how the engine keeps the snapshots of the nodes from pass to
-- pass. `equal` stands for proto.Equal on the content of two snapshots. Go's maps are walked in any
-- order; each node is settled by itself, so the order does not matter here.
use k_lite.Common.{
  Bool, List, Map, Option, String, [], false, has_key, if◌then◌else◌, insert, keep, length, lookup,
  ltb, map, none, not, or_zero, some, sort_by, true, ℕ, ◌&&◌, ◌+◌, ◌||◌, ◌∷◌, ◌≡◌,
}
use k_lite.Net.{empty_net}
use k_lite.Controller.Endpoints.{NodeSnapshot}

-- The fields of Endpoints that a pass changes.
pub record Engine : Type 0 where
  pub ready : Bool
  pub version : ℕ
  pub nodes : Map NodeSnapshot

abbrev pub new_engine : Engine
new_engine = record { ready = false; version = 0; nodes = [] }

abbrev pub empty_snapshot : NodeSnapshot
empty_snapshot = record { revision = 0; instances = []; net = empty_net }

-- What a watcher reads.
abbrev pub SameContent : NodeSnapshot → NodeSnapshot → Type 0
SameContent a b = (a.instances ≡ b.instances) × (a.net ≡ b.net)

-- Snapshot
unfoldable pub snapshot : String → Engine → Option NodeSnapshot
snapshot node e = if not e.ready then none else some (or_zero empty_snapshot (lookup node e.nodes))

module _ (equal : NodeSnapshot → NodeSnapshot → Bool) where
  -- A node that left the inputs and has already decayed.
  unfoldable pub is_departed : Map NodeSnapshot → String × NodeSnapshot → Bool
  is_departed built (node, prev) = not (has_key node built) && equal prev empty_snapshot

  -- A node that left the inputs decays to an empty snapshot.
  unfoldable pub with_decayed : Map NodeSnapshot → Map NodeSnapshot → Map NodeSnapshot
  unfolding is_departed
  with_decayed [] built = built
  with_decayed ((node, prev) ∷ rest) built = with_decayed rest (
      if has_key node built || equal prev empty_snapshot
      then built
      else insert node empty_snapshot built)

  unfoldable pub is_unchanged : Map NodeSnapshot → String → NodeSnapshot → Bool
  is_unchanged nodes node next = elim (lookup node nodes) [
    | none ↦ false
    | some prev ↦ equal prev next
  ]

  -- The revision that a new snapshot gets: the old one, or the next version.
  unfoldable pub stamped : Map NodeSnapshot → ℕ → String → NodeSnapshot → NodeSnapshot
  stamped nodes version node next = record next {
    revision = elim (lookup node nodes) [
      | none ↦ version
      | some prev ↦ if equal prev next then prev.revision else version
    ];
  }

  unfoldable pub stamp_all :
      Map NodeSnapshot → ℕ → Map NodeSnapshot → Map NodeSnapshot → Map NodeSnapshot
  unfolding stamped
  stamp_all nodes version [] out = out
  stamp_all nodes version ((node, next) ∷ rest) out =
      stamp_all nodes version rest (insert node (stamped nodes version node next) out)

  -- store
  unfoldable pub store_snapshots : Map NodeSnapshot → Engine → Engine × List String × List String
  unfolding is_departed with_decayed is_unchanged stamp_all
  store_snapshots built e =
      let all = with_decayed e.nodes built in
      let kept = keep (λ d. not (is_departed built d)) e.nodes in
      let changed = keep (λ d. not (is_unchanged kept (d.0) (d.1))) all in
      let version = if ltb 0 (length changed) then e.version + 1 else e.version in
      let removed = keep (is_departed built) e.nodes in
      (
        record { ready = true; version = version; nodes = stamp_all kept version all kept },
        sort_by (λ n. n) (map (λ d. d.0) changed),
        sort_by (λ n. n) (map (λ d. d.0) removed),
      )
