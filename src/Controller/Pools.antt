-- ===== src/Controller/Pools.antt =====
-- The scans of firstFreeVIP (internal/controller/vip.go) and firstFreePort
-- (internal/controller/ingress.go): the first of a row of numbers that is fit and not used.
use k_lite.Common.{
  Bool, Bool-cases, List, Option, any, arith, eqb, false, if◌then◌else◌, inl, inr, none, not, some,
  subst, suc, sym, true, zero, ℕ, ◌+◌, ◌<◌, ◌||◌, ◌≡◌, ◌≤◌,
}

-- A set of numbers, as Go's map to bool.
abbrev pub is_used : List ℕ → ℕ → Bool
is_used used x = any (λ y. eqb y x) used

-- The loop over `count` numbers from the first one.
unfoldable pub first_free : (ℕ → Bool) → List ℕ → ℕ → ℕ → Option ℕ
first_free fit used zero x = none
first_free fit used (suc count) x =
    let later = first_free fit used count (x + 1) in
    if not (fit x) || is_used used x then later else some x

-- The number is in the row, fit and not used, and every fit one before it is used; or all are used.
abbrev pub IsFirstFree : (ℕ → Bool) → List ℕ → ℕ → ℕ → Option ℕ → Type 0
IsFirstFree fit used count x (some y) =
    (x ≤ y)
    × (y < x + count)
    × (fit y ≡ true)
    × (is_used used y ≡ false)
    × ((z : ℕ) → x ≤ z → z < y → fit z ≡ true → is_used used z ≡ true)
IsFirstFree fit used count x none =
    (z : ℕ) → x ≤ z → z < x + count → fit z ≡ true → is_used used z ≡ true

at_start :
    (fit : ℕ → Bool) (used : List ℕ) (x z : ℕ)
    → z ≡ x
    → (fit x ≡ true → is_used used x ≡ true)
    → fit z ≡ true
    → is_used used z ≡ true
at_start fit used x z e h c =
    subst (λ (n : ℕ). is_used used n ≡ true) (sym e) (h (subst (λ (n : ℕ). fit n ≡ true) e c))

skip_used : (a b : Bool) → a ≡ true → (not a || b) ≡ true → b ≡ true
skip_used a b f h = ground arith

skipped :
    (fit : ℕ → Bool) (used : List ℕ) (count x : ℕ) (r : Option ℕ)
    → (fit x ≡ true → is_used used x ≡ true)
    → IsFirstFree fit used count (x + 1) r
    → IsFirstFree fit used (suc count) x r
skipped fit used count x (some y) h (low, high, f, free, before) = (
  omega arith,
  omega arith,
  f,
  free,
  λ z a b c. elim (Bool-cases (eqb z x)) [
    | inl e ↦ at_start fit used x z (ground arith) h c
    | inr e ↦ before z (ground arith) b c
  ],
)
skipped fit used count x none h before = λ z a b c. elim (Bool-cases (eqb z x)) [
  | inl e ↦ at_start fit used x z (ground arith) h c
  | inr e ↦ before z (ground arith) (ground arith) c
]

-- The scans find the first free number, or there is none: for all rows, tests and used sets.
pub first_free-IsFirstFree :
    (fit : ℕ → Bool) (used : List ℕ) (count x : ℕ)
    → IsFirstFree fit used count x (first_free fit used count x)
unfolding first_free
first_free-IsFirstFree fit used zero x = λ z a b c. absurd (omega arith)
first_free-IsFirstFree fit used (suc count) x = elim (Bool-cases (not (fit x) || is_used used x)) [
  | inl e ↦ rw e (
      skipped fit used count x _ (λ f. skip_used (fit x) _ f e)
        (first_free-IsFirstFree fit used count (x + 1)))
  | inr e ↦
      rw e (omega arith, omega arith, ground arith, ground arith, λ z a b c. absurd (omega arith))
]
