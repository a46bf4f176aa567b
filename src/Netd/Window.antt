-- ===== src/Netd/Window.antt =====
-- The ring is a window on the whole history of answers (internal/netd/queries.go).
use k_lite.Common.{
  Bool, Bool-cases, List, [], ap, arith, eqb, inl, inr, keep, leb, max, min, refl, suc, zero, ℕ,
  ◌%◌, ◌+◌, ◌-◌, ◌<◌, ◌∙◌, ◌∷◌, ◌≡◌, ◌≤◌,
}
use k_lite.Netd.{
  QueryEntry, QueryLog, entries_from, new_query_log, query_capacity, query_retention_ms,
  record_query, since,
}

-- The log after the first n answers of a history.
abbrev pub log_after : (ℕ → QueryEntry) → ℕ → QueryLog
log_after h zero = new_query_log
log_after h (suc n) = record_query (h n) (log_after h n)

-- `count` answers of the history, in order, from the first one given.
abbrev pub window : (ℕ → QueryEntry) → ℕ → ℕ → List QueryEntry
window h zero first = []
window h (suc count) first = h first ∷ window h count (first + 1)

-- The slots hold the last answers, each in the place of its number.
record IsRing (h : ℕ → QueryEntry) (n : ℕ) (l : QueryLog) : Type 0 where
  at_next : l.next ≡ n % query_capacity
  at_size : l.size ≡ min n query_capacity
  holds : (k : ℕ) → k < n → n ≤ k + query_capacity → l.buf (k % query_capacity) ≡ h k

record_query-IsRing :
    (h : ℕ → QueryEntry) (n : ℕ) (l : QueryLog)
    → IsRing h n l
    → IsRing h (suc n) (record_query (h n) l)
unfolding record_query
record_query-IsRing h n l r = record {
  at_next = omega (arith, r.at_next);
  at_size = omega (arith, r.at_size);
  holds = λ k a b. elim (Bool-cases (eqb (k % query_capacity) l.next)) [
    | inl e ↦ let same : n ≡ k = ground (arith, r.at_next) in rw e (ap h same)
    | inr e ↦
        let earlier : k < n = ground (arith, r.at_next) in rw e (r.holds k earlier (omega arith))
  ];
}

log_after-IsRing : (h : ℕ → QueryEntry) (n : ℕ) → IsRing h n (log_after h n)
log_after-IsRing h zero = record {
  at_next = omega arith;
  at_size = omega arith;
  holds = λ k a b. absurd (omega arith);
}
log_after-IsRing h (suc n) = record_query-IsRing h n (log_after h n) (log_after-IsRing h n)

entries_from-window :
    (h : ℕ → QueryEntry) (n : ℕ) (l : QueryLog) (count i : ℕ)
    → IsRing h n l
    → i + count ≡ min n query_capacity
    → entries_from count i l ≡ window h count (n - min n query_capacity + i)
unfolding entries_from
entries_from-window h n l zero i r e = refl
entries_from-window h n l (suc count) i r e =
    let k = n - min n query_capacity + i in
    let slot : (l.next + query_capacity - l.size + i) % query_capacity ≡ k % query_capacity =
      omega (arith, r.at_next, r.at_size) in
    let here : l.buf ((l.next + query_capacity - l.size + i) % query_capacity) ≡ h k =
      ap l.buf slot ∙ r.holds k (omega arith) (omega arith) in
    let later : entries_from count (i + 1) l ≡ window h count (k + 1) =
      entries_from-window h n l count (i + 1) r (omega arith)
      ∙ ap (λ (x : ℕ). window h count x) (omega arith) in
    cc (here, later)

-- RecentQueries reads the log as if nothing had been overwritten but what is older than the last 4096
-- answers: after any number of answers, since returns, oldest first, exactly those of the last 4096
-- that are no older than the cursor and the retention.
pub since-window :
    (h : ℕ → QueryEntry) (n now cursor : ℕ)
    → let shown = min n query_capacity in
      since now cursor (log_after h n)
      ≡ keep
          (λ e. leb (max cursor (now - query_retention_ms)) e.unix_ms)
          (window h shown (n - shown))
unfolding since
since-window h n now cursor =
    let r = log_after-IsRing h n in
    let shown = min n query_capacity in
    let fresh : QueryEntry → Bool = λ e. leb (max cursor (now - query_retention_ms)) e.unix_ms in
    ap (λ (c : ℕ). keep fresh (entries_from c 0 (log_after h n))) r.at_size
    ∙ ap (keep fresh) (
        entries_from-window h n (log_after h n) shown 0 r (omega arith)
        ∙ ap (λ (x : ℕ). window h shown x) (omega arith))
