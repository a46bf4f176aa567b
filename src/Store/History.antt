-- ===== src/Store/History.antt =====
-- The store under any sequence of its calls (internal/store/storetest/memory.go).
-- The calls that may change the store: Put, Delete and DeleteIfRevision.
use k_lite.Store.{Entry, Memory, delete, delete_if_revision, put}
use k_lite.Common.{List, String, [], arith, lookup, some, ℕ, ◌∷◌, ◌≡◌, ◌≤◌}
use k_lite.Store.Changes.{
  Change, Reach-lookup_old, Reach-rev, delete-Change, delete_if_revision-Change, here, next,
  put-Change,
}
use k_lite.Object.Types.{Object}
use k_lite.Object.Registry.{Kind}
use k_lite.Common.Int.{ℤ}

pub data Call : Type 0 where
  put_call : ℕ → Object → ℤ → Call
  delete_call : Kind → String → Call
  pinned_delete_call : Kind → String → ℤ → Call

abbrev run_call : Call → Memory → Memory
run_call (put_call now o x) m = (put now o x m).1
run_call (delete_call k name) m = (delete k name m).1
run_call (pinned_delete_call k name x) m = (delete_if_revision k name x m).1

-- The store after the calls, in their order.
abbrev pub run_calls : List Call → Memory → Memory
run_calls [] m = m
run_calls (c ∷ calls) m = run_calls calls (run_call c m)

run_call-Change : (c : Call) (m : Memory) → Change m (run_call c m)
run_call-Change (put_call now o x) m = put-Change now o x m
run_call-Change (delete_call k name) m = delete-Change k name m
run_call-Change (pinned_delete_call k name x) m = delete_if_revision-Change k name x m

-- A revision is never used again: an entry that the store holds after any calls of Put, Delete and
-- DeleteIfRevision, with any arguments, at a revision that the store had reached before them is the
-- entry that it held before them under that kind and name.
pub run_calls-lookup_old :
    (calls : List Call) (m : Memory) (k : Kind) (name : String) (e : Entry)
    → e.rev ≤ m.rev
    → lookup name ((run_calls calls m).objs k) ≡ some e
    → lookup name (m.objs k) ≡ some e
run_calls-lookup_old [] m k name e le h = h
run_calls-lookup_old (c ∷ calls) m k name e le h =
    let one = next here (run_call-Change c m) in
    Reach-lookup_old k name e one le
      (run_calls-lookup_old calls (run_call c m) k name e (omega (arith, Reach-rev one)) h)
