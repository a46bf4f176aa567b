-- ===== src/Controller.antt =====
-- internal/controller: the reconcile loops of the leader. Each loop is a function of the time and
-- the store; the objects that it lists may be older than the store that it writes to.
pub mod Scheduler
pub mod Workload
pub mod NodeHealth
pub mod Pools
pub mod Vip
pub mod Ingress
pub mod Endpoints
mod Examples
mod PoolExamples
mod EndpointExamples
use k_lite.Common.{
  List, Map, Option, String, arith, if◌then◌else◌, insert, lookup, lookup-insert, none, or_zero,
  some, ℕ, ◌+◌, ◌==◌, ◌∷◌, ◌≡◌,
}
use k_lite.Store.{Error}

-- errors.Join drops the nils.
abbrev pub join {ℓ} : {A : Type ℓ} → Option A → List A → List A
join none es = es
join (some e) es = e ∷ es

-- counts[name]++ on a map of counters that starts empty
unfoldable pub bump : String → Map ℕ → Map ℕ
bump name m = insert name (or_zero 0 (lookup name m) + 1) m

abbrev pub count_of : String → Map ℕ → ℕ
count_of name m = or_zero 0 (lookup name m)

pub count_of-bump :
    (k j : String) (m : Map ℕ)
    → count_of j (bump k m) ≡ (if k == j then count_of k m + 1 else count_of j m)
unfolding bump
count_of-bump k j m = ground (arith, lookup-insert k j (or_zero 0 (lookup k m) + 1) m)
