-- ===== src/Store.antt =====
-- internal/store/store.go and internal/store/storetest/memory.go: the store of objects with
-- optimistic concurrency. A bucket of the Go code is the map of one kind; the time is an argument.
-- Names are checked as the code checks them; every caller passes a canonical kind.
pub mod Changes
pub mod Laws
pub mod Stale
pub mod History
pub mod Examples
use text.Mathlib.Text.{find?}
use k_lite.Common.{
  Bool, List, Map, Option, String, [], concat, eqb, erase, if◌then◌else◌, insert, is_some, lookup,
  ltb, map, none, not, some, sort_by, suc, zero, ℕ, ◌%◌, ◌+◌, ◌/◌, ◌==◌, ◌||◌,
}
use k_lite.Common.Int.{eqb_ℤ, leb_ℤ, negsuc, pos, ℤ}
use k_lite.Object.Types.{Meta, Object}
use k_lite.Object.Registry.{Kind, is_kind, kind_of, meta_of, with_meta}

pub data Error : Type 0 where
  not_found already_exists conflict invalid_name invalid_rev unknown_kind : Error

pub data Result {ℓ} (A : Type ℓ) : Type ℓ where
  ok : A → Result A
  err : Error → Result A

pub record Entry : Type 0 where
  pub obj : Object
  pub rev : ℕ

pub record Memory : Type 0 where
  pub rev : ℕ
  pub uid : ℕ
  pub objs : Kind → Map Entry

abbrev pub empty_memory : Memory
empty_memory = record { rev = 0; uid = 0; objs = λ k. [] }

-- The sentinels RevCreate and RevAny.
abbrev pub rev_create : ℤ
rev_create = pos 0

abbrev pub rev_any : ℤ
rev_any = negsuc 0

-- strconv.FormatInt in base 10
digit : ℕ → String
digit n =
    if eqb n 0
    then "0"
    else if eqb n 1
    then "1"
    else if eqb n 2
    then "2"
    else if eqb n 3
    then "3"
    else if eqb n 4
    then "4"
    else if eqb n 5
    then "5"
    else if eqb n 6
    then "6"
    else if eqb n 7
    then "7"
    else if eqb n 8
    then "8"
    else "9"

decimal_fuel : ℕ → ℕ → String
decimal_fuel zero n = digit n
decimal_fuel (suc fuel) n =
    let high = decimal_fuel fuel (n / 10) in
    if ltb n 10 then digit n else concat high (digit (n % 10))

-- A number has fewer digits than its value plus one.
pub decimal : ℕ → String
decimal n = decimal_fuel n n

-- checkName
unfoldable pub valid_name : String → Bool
valid_name name = not (name == "" || is_some (find? name "/"))

abbrev pub set_bucket : Memory → Kind → Map Entry → Kind → Map Entry
set_bucket m k b j = if is_kind k j then b else m.objs j

-- stampNew
unfoldable pub stamp_new : ℕ → Meta → Memory → Meta × Memory
stamp_new now meta m =
    let taken : Bool = meta.uid == "" in
    let m' : Memory = if taken then record m { uid = m.uid + 1 } else m in
    let meta' : Meta =
      if taken then record meta { uid = concat "uid-" (decimal m'.uid) } else meta in
    (if eqb meta'.created_unix 0 then record meta' { created_unix = now } else meta', m')

-- adopt
unfoldable pub adopt : ℕ → Meta → Option Entry → Memory → Meta × Memory
unfolding stamp_new
adopt now meta none m = stamp_new now meta m
adopt now meta (some cur) m =
    let cur_meta = meta_of cur.obj in
    let meta' : Meta = if meta.uid == "" then record meta { uid = cur_meta.uid } else meta in
    (
      if eqb meta'.created_unix 0
          then record meta' { created_unix = cur_meta.created_unix }
          else meta',
      m,
    )

-- The switch on expectedRev: the metadata to store, or the error.
unfoldable pub admit : ℕ → Meta → Option Entry → ℤ → Memory → Result (Meta × Memory)
unfolding stamp_new adopt
admit now meta cur (pos zero) m = elim cur [
  | none ↦ ok (stamp_new now meta m)
  | some e ↦ err already_exists
]
admit now meta cur (negsuc zero) m = ok (adopt now meta cur m)
admit now meta cur (pos (suc r)) m = elim cur [
  | none ↦ err conflict
  | some e ↦ if eqb e.rev (suc r) then ok (adopt now meta (some e) m) else err conflict
]
admit now meta cur (negsuc (suc r)) m = err invalid_rev

-- The new entry goes under the next revision.
unfoldable pub commit : Kind → String → Object → Result (Meta × Memory) → Memory → Result ℕ × Memory
commit k name obj (err e) before = (err e, before)
commit k name obj (ok (meta, m)) before =
    let rev' = m.rev + 1 in
    let entry : Entry = record { obj = with_meta meta obj; rev = rev' } in
    (ok rev', record m { rev = rev'; objs = set_bucket m k (insert name entry (m.objs k)) })

unfoldable pub put_as : Kind → ℕ → Object → ℤ → Memory → Result ℕ × Memory
unfolding admit commit valid_name
put_as k now obj expected m =
    let meta = record (meta_of obj) { resource_version = 0 } in
    let name = (meta_of obj).name in
    if not (valid_name name)
    then (err invalid_name, m)
    else commit k name obj (admit now meta (lookup name (m.objs k)) expected m) m

unfoldable pub put : ℕ → Object → ℤ → Memory → Result ℕ × Memory
unfolding put_as
put now obj expected m = elim (kind_of obj) [
  | none ↦ (err unknown_kind, m)
  | some k ↦ put_as k now obj expected m
]

-- The copy that a read hands out.
unfoldable pub read_entry : Entry → Object
read_entry e = with_meta (record (meta_of e.obj) { resource_version = e.rev }) e.obj

unfoldable pub get : Kind → String → Memory → Result (Object × ℕ)
unfolding valid_name read_entry
get k name m =
    if not (valid_name name)
    then err invalid_name
    else elim (lookup name (m.objs k)) [ none ↦ err not_found | some e ↦ ok (read_entry e, e.rev) ]

-- List: the objects in the order of their names, and the revision of the whole store
unfoldable pub list : Kind → Memory → List Object × ℕ
unfolding read_entry
list k m = (map (λ e. read_entry (e.1)) (sort_by (λ e. e.0) (m.objs k)), m.rev)

unfoldable pub delete : Kind → String → Memory → Result (Unit {0}) × Memory
unfolding valid_name
delete k name m =
    if not (valid_name name) then (err invalid_name, m) else elim (lookup name (m.objs k)) [
      | none ↦ (err not_found, m)
      | some e ↦
          (ok tt, record m { rev = m.rev + 1; objs = set_bucket m k (erase name (m.objs k)) })
    ]

unfoldable pub delete_if_revision : Kind → String → ℤ → Memory → Result (Unit {0}) × Memory
unfolding valid_name
delete_if_revision k name expected m =
    if not (valid_name name)
    then (err invalid_name, m)
    else if leb_ℤ expected (pos 0)
    then (err invalid_rev, m)
    else elim (lookup name (m.objs k)) [
      | none ↦ (err not_found, m)
      | some e ↦
          if not (eqb_ℤ (pos e.rev) expected)
          then (err conflict, m)
          else (ok tt, record m { rev = m.rev + 1; objs = set_bucket m k (erase name (m.objs k)) })
    ]
