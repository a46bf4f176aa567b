-- ===== src/Server/Cas.antt =====
-- The retry loop of internal/server: read an object, decide, write it back pinned to the revision that
-- was read, and start again when another writer came first. What other writers do just before the
-- n-th store call is the parameter `others`.
use k_lite.Object.Types.{Object}
use k_lite.Common.{Bool, String, false, if◌then◌else◌, suc, true, zero, ℕ, ◌+◌}
use k_lite.Store.{
  Error, Memory, Result, already_exists, conflict, err, get, invalid_name, invalid_rev, not_found,
  ok, put, unknown_kind,
}
use k_lite.Common.Int.{ℤ}
use k_lite.Object.Registry.{Kind}

pub data Intent (A : Type 0) : Type 0 where
  answer : A → Intent A
  -- the answer once the write succeeds, the object, the expected revision, and the lost race
  write : A → Object → ℤ → Error → Intent A

pub data Attempt (A : Type 0) : Type 0 where
  done : A → Attempt A
  broken : Error → Attempt A
  kept_losing : Attempt A

-- One turn of the loop: over, or once more.
pub data Turn (A : Type 0) : Type 0 where
  over : Attempt A → Turn A
  again : Turn A

abbrev pub server_cas_retries : ℕ
server_cas_retries = 5

abbrev pub is_error : Error → Error → Bool
is_error not_found not_found = true
is_error already_exists already_exists = true
is_error conflict conflict = true
is_error invalid_name invalid_name = true
is_error invalid_rev invalid_rev = true
is_error unknown_kind unknown_kind = true
is_error _ _ = false

-- What a turn makes of the result of its write.
unfoldable pub settle : {A : Type 0} → A → Error → Result ℕ × Memory → Turn A × Memory
settle a lost (ok r, m) = (over (done a), m)
settle a lost (err e, m) = (if is_error e lost then again else over (broken e), m)

module _ (now : ℕ) (others : ℕ → Memory → Memory) where
  unfoldable pub cas_write : {A : Type 0} → ℕ → Intent A → Memory → Turn A × Memory
  unfolding settle
  cas_write i (answer a) m = (over (done a), m)
  cas_write i (write a o x lost) m = settle a lost (put now o x (others (suc i) m))

  unfoldable pub cas_turn :
      {A : Type 0} → Kind → String → (Result (Object × ℕ) → Intent A) → ℕ → Memory → Turn A × Memory
  unfolding cas_write
  cas_turn k name decide i m = let n = others i m in cas_write i (decide (get k name n)) n

  unfoldable pub cas_loop :
      {A : Type 0}
      → ℕ
      → Kind
      → String
      → (Result (Object × ℕ) → Intent A)
      → ℕ
      → Memory
      → Attempt A × Memory
  unfolding cas_turn
  cas_loop zero k name decide i m = (kept_losing, m)
  cas_loop (suc tries) k name decide i m = elim (cas_turn k name decide i m).0 [
    | over r ↦ (r, (cas_turn k name decide i m).1)
    | again ↦ cas_loop tries k name decide (i + 2) (cas_turn k name decide i m).1
  ]
