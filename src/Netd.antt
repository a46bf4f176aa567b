-- ===== src/Netd.antt =====
-- internal/netd/queries.go: the ring of the DNS answers that a node served. Times are milliseconds
-- since 1970, far past the retention; a negative cursor reads like zero. The lock makes each call one
-- step. The array is a function of the slot.
pub mod Window
pub mod Zone
pub mod Resolve
pub mod Daemon
mod Examples
use k_lite.Common.{
  List, String, [], eqb, if◌then◌else◌, keep, leb, max, min, suc, zero, ℕ, ◌%◌, ◌+◌, ◌-◌, ◌∷◌,
}

abbrev pub query_retention_ms : ℕ
query_retention_ms = 30000

abbrev pub query_capacity : ℕ
query_capacity = 4096

pub record QueryEntry : Type 0 where
  pub source_ip : String
  pub service : String
  pub unix_ms : ℕ

abbrev pub empty_entry : QueryEntry
empty_entry = record { source_ip = ""; service = ""; unix_ms = 0 }

pub record QueryLog : Type 0 where
  pub buf : ℕ → QueryEntry
  pub next : ℕ
  pub size : ℕ

-- newQueryLog
abbrev pub new_query_log : QueryLog
new_query_log = record { buf = λ slot. empty_entry; next = 0; size = 0 }

-- record, with the time that it reads in the entry
unfoldable pub record_query : QueryEntry → QueryLog → QueryLog
record_query e l = record {
  buf = λ slot. if eqb slot l.next then e else l.buf slot;
  next = (l.next + 1) % query_capacity;
  size = min (l.size + 1) query_capacity;
}

-- The loop of since: `count` entries from the i-th. The size is at most the capacity, so the
-- difference is not negative.
unfoldable pub entries_from : ℕ → ℕ → QueryLog → List QueryEntry
entries_from zero i l = []
entries_from (suc count) i l =
    l.buf ((l.next + query_capacity - l.size + i) % query_capacity) ∷ entries_from count (i + 1) l

-- since
unfoldable pub since : ℕ → ℕ → QueryLog → List QueryEntry
unfolding entries_from
since now since_unix_ms l =
    let floor = max since_unix_ms (now - query_retention_ms) in
    keep (λ e. leb floor e.unix_ms) (entries_from l.size 0 l)
