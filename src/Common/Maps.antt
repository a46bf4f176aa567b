-- ===== src/Common/Maps.antt =====
-- Go's `map[string]V` as an association list: a read of a missing key is `none`, a write replaces.
use Prim.Native.String.{String}
use mathlib.Core.Path.{◌≡◌, refl}
use mathlib.Core.Bool.{Bool, true, false, not, ◌&&◌, ◌||◌}
use mathlib.Core.Option.{Option, none, some}
use mathlib.Core.List.{List, [], ◌∷◌}
use native.Mathlib.Omega.{arith}
use text.Mathlib.Text.{◌==◌}
use text.Mathlib.TextEquality.{eq_iff}
use k_lite.Common.Lists.{keep}
use k_lite.Common.Tests.{if◌then◌else◌, is_some}

abbrev pub Map {ℓ} : Type ℓ → Type ℓ
Map V = List (String × V)

module _ {ℓ} {V : Type ℓ} where
  -- table[key], with the second result of the comma-ok form
  unfoldable pub lookup : String → Map V → Option V
  lookup key [] = none
  lookup key ((other, value) ∷ table) = if other == key then some value else lookup key table

  -- table[key] = value
  unfoldable pub insert : String → V → Map V → Map V
  insert key value [] = (key, value) ∷ []
  insert key value ((other, found) ∷ table) =
      if other == key then (key, value) ∷ table else (other, found) ∷ insert key value table

  -- delete(table, key)
  unfoldable pub erase : String → Map V → Map V
  erase key [] = []
  erase key ((other, found) ∷ table) =
      let rest = erase key table in if other == key then rest else (other, found) ∷ rest

  pub lookup-insert :
      (key other : String) (value : V) (table : Map V)
      → lookup other (insert key value table)
        ≡ (if key == other then some value else lookup other table)
  unfolding lookup insert
  lookup-insert key other value [] = refl
  lookup-insert key other value ((first, found) ∷ table) = ground (
    arith,
    eq_iff key other,
    eq_iff first key,
    eq_iff first other,
    lookup-insert key other value table,
  )

  pub lookup-erase :
      (key other : String) (table : Map V)
      → lookup other (erase key table) ≡ (if key == other then none else lookup other table)
  unfolding lookup erase
  lookup-erase key other [] = ground arith
  lookup-erase key other ((first, found) ∷ table) =
      ground (
        arith,
        eq_iff key other,
        eq_iff first key,
        eq_iff first other,
        lookup-erase key other table,
      )

module _ {ℓ} {V : Type ℓ} where
  abbrev pub has_key : String → Map V → Bool
  has_key key [] = false
  has_key key ((other, value) ∷ table) = other == key || has_key key table

  -- Each key stands once, as in a Go map.
  abbrev pub unique_keys : Map V → Bool
  unique_keys [] = true
  unique_keys ((other, value) ∷ table) = not (has_key other table) && unique_keys table

  pub has_key-insert :
      (key other : String) (value : V) (table : Map V)
      → has_key other (insert key value table) ≡ (key == other || has_key other table)
  unfolding insert
  has_key-insert key other value [] = refl
  has_key-insert key other value ((first, found) ∷ table) =
      ground (arith, eq_iff first key, has_key-insert key other value table)

  pub unique_keys-insert :
      (key : String) (value : V) (table : Map V)
      → unique_keys table ≡ true
      → unique_keys (insert key value table) ≡ true
  unfolding insert
  unique_keys-insert key value [] h = refl
  unique_keys-insert key value ((first, found) ∷ table) h = ground (
    arith,
    eq_iff first key,
    eq_iff key first,
    has_key-insert key first value table,
    unique_keys-insert key value table,
  )

  pub lookup-has_key :
      (key : String) (table : Map V) → has_key key table ≡ is_some (lookup key table)
  unfolding lookup
  lookup-has_key key [] = refl
  lookup-has_key key ((other, value) ∷ table) = ground (arith, lookup-has_key key table)

module _ {ℓ} {V : Type ℓ} where
  not_key-lookup :
      (key : String) (table : Map V) → has_key key table ≡ false → lookup key table ≡ none
  unfolding lookup
  not_key-lookup key [] h = refl
  not_key-lookup key ((other, value) ∷ table) h = ground (arith, not_key-lookup key table)

  pub keep-has_key :
      (p : String × V → Bool) (key : String) (table : Map V)
      → has_key key table ≡ false
      → has_key key (keep p table) ≡ false
  keep-has_key p key [] h = refl
  keep-has_key p key (d ∷ table) h = ground (arith, keep-has_key p key table)

  pub keep-unique_keys :
      (p : String × V → Bool) (table : Map V)
      → unique_keys table ≡ true
      → unique_keys (keep p table) ≡ true
  keep-unique_keys p [] h = refl
  keep-unique_keys p (d ∷ table) h =
      ground (arith, keep-has_key p (d.0) table, keep-unique_keys p table)

  -- Where keys are unique, what a filtered map holds is what the map holds.
  pub lookup-keep :
      (p : String × V → Bool) (key : String) (table : Map V) (value : V)
      → unique_keys table ≡ true
      → lookup key (keep p table) ≡ some value
      → lookup key table ≡ some value
  unfolding lookup
  lookup-keep p key [] value u h = h
  lookup-keep p key ((other, found) ∷ table) value u h = ground (
    arith,
    lookup-keep p key table value,
    eq_iff other key,
    keep-has_key p key table,
    not_key-lookup key (keep p table),
  )

pub ruleset map_laws = (lookup-insert, lookup-erase)
