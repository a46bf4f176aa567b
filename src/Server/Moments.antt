-- ===== src/Server/Moments.antt =====
-- The states of the store that a call of internal/server meets: the loop of Server/Cas reads and writes
-- the store at them.
use k_lite.Server.Cas.{
  Attempt, Intent, Turn, again, answer, cas_turn, cas_write, over, settle, write,
}
use k_lite.Common.{String, inl, inr, refl, subst, suc, sym, zero, ℕ, ◌+◌, ◌≡◌, ◌⊎◌}
use k_lite.Store.{Error, Memory, Result, err, get, ok, put}
use k_lite.Store.Changes.{Reach, here, next, put-Change}
use k_lite.Object.Registry.{Kind}
use k_lite.Object.Types.{Object}
use k_lite.Common.Int.{ℤ}

pub Turn-cases : {A : Type 0} (t : Turn A) → ((r : Attempt A) × (t ≡ over r)) ⊎ (t ≡ again)
Turn-cases (over r) = inl (r, refl)
Turn-cases again = inr refl

pub Intent-cases :
    {A : Type 0} (d : Intent A)
    → ((a : A) × (d ≡ answer a))
      ⊎ ((a : A) × (o : Object) × (x : ℤ) × (lost : Error) × (d ≡ write a o x lost))
Intent-cases (answer a) = inl (a, refl)
Intent-cases (write a o x lost) = inr (a, o, x, lost, refl)

pub Reach-trans : {m n p : Memory} → Reach m n → Reach n p → Reach m p
Reach-trans r here = r
Reach-trans r (next s c) = next (Reach-trans r s) c

module _ {A : Type 0} (now : ℕ) (others : ℕ → Memory → Memory) (k : Kind) (name : String)
    (decide : Result (Object × ℕ) → Intent A) where
  settle-store : (a : A) (lost : Error) (p : Result ℕ × Memory) → (settle a lost p).1 ≡ p.1
  unfolding settle
  settle-store a lost (ok r, m) = refl
  settle-store a lost (err e, m) = refl

  settle-Reach :
      (a : A) (lost : Error) (new : Object) (x : ℤ) (m n : Memory)
      → Reach m n
      → Reach m (settle a lost (put now new x n)).1
  settle-Reach a lost new x m n r =
      subst (λ (y : Memory). Reach m y) (sym (settle-store a lost (put now new x n)))
        (next r (put-Change now new x n))

  pub turn-Reach :
      (i : ℕ) (m : Memory)
      → ((j : ℕ) (n : Memory) → Reach n (others j n))
      → Reach m (cas_turn now others k name decide i m).1
  unfolding cas_turn cas_write
  turn-Reach i m reach = elim (Intent-cases (decide (get k name (others i m)))) [
    | inl (c, d) ↦ rw d (reach i m)
    | inr (c, new, x, lost, d) ↦
        rw d (settle-Reach c lost new x m _ (Reach-trans (reach i m) (reach (suc i) (others i m))))
  ]

  -- The states at which the loop, with the tries that are left, its next store access and the store
  -- before it, accesses the store: the one that its turn reads, the one that its turn writes to, and
  -- those of the turns after a lost race.
  pub data IsMoment : ℕ → ℕ → Memory → Memory → Type 0 where
    at_read : (tries i : ℕ) (m : Memory) → IsMoment (suc tries) i m (others i m)
    at_write :
        (tries i : ℕ) (m : Memory) (a : A) (new : Object) (x : ℤ) (lost : Error)
        → decide (get k name (others i m)) ≡ write a new x lost
        → IsMoment (suc tries) i m (others (suc i) (others i m))
    at_retry :
        (tries i : ℕ) (m s : Memory)
        → (cas_turn now others k name decide i m).0 ≡ again
        → IsMoment tries (i + 2) (cas_turn now others k name decide i m).1 s
        → IsMoment (suc tries) i m s

  pub IsMoment-Reach :
      (tries i : ℕ) (m s : Memory)
      → ((j : ℕ) (n : Memory) → Reach n (others j n))
      → IsMoment tries i m s
      → Reach m s
  IsMoment-Reach zero i m s reach t = elim t [ ]
  IsMoment-Reach (suc tries) i m s reach (at_read _ _ _) = reach i m
  IsMoment-Reach (suc tries) i m s reach (at_write _ _ _ a new x lost d) =
      Reach-trans (reach i m) (reach (suc i) (others i m))
  IsMoment-Reach (suc tries) i m s reach (at_retry _ _ _ _ e t) =
      Reach-trans (turn-Reach i m reach)
        (IsMoment-Reach tries (i + 2) (cas_turn now others k name decide i m).1 s reach t)
