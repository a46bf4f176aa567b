-- ===== src/Common/Lists.antt =====
-- Lists measured by native numbers, and Boolean quantifiers over them, under the library's names.
use Prim.Native.Nat.{ℕ, zero, suc, ◌+◌, ◌≤◌, ◌<◌, min}
use mathlib.Core.Path.{◌≡◌, refl, ap, ◌∙◌}
use mathlib.Core.Logic.{inl, inr, ◌⊎◌}
use mathlib.Core.Bool.{Bool, true, false, ◌||◌, ◌&&◌}
use mathlib.Core.List.{List, [], ◌∷◌, ◌++◌}
use native.Mathlib.Omega.{arith}
use k_lite.Common.Tests.{Bool-cases, if◌then◌else◌}

module _ {ℓ} {A : Type ℓ} where
  abbrev pub length : List A → ℕ
  length [] = 0
  length (x ∷ xs) = suc (length xs)

  abbrev pub take : ℕ → List A → List A
  take zero xs = []
  take (suc n) [] = []
  take (suc n) (x ∷ xs) = x ∷ take n xs

  abbrev pub drop : ℕ → List A → List A
  drop zero xs = xs
  drop (suc n) [] = []
  drop (suc n) (x ∷ xs) = drop n xs

  -- Whether some member passes the test.
  abbrev pub any : (A → Bool) → List A → Bool
  any p [] = false
  any p (x ∷ xs) = p x || any p xs

  -- Whether every member passes the test.
  abbrev pub every : (A → Bool) → List A → Bool
  every p [] = true
  every p (x ∷ xs) = p x && every p xs

  -- The members that pass the test, in order.
  abbrev pub keep : (A → Bool) → List A → List A
  keep p [] = []
  keep p (x ∷ xs) = let rest = keep p xs in if p x then x ∷ rest else rest

  pub length-append : (xs ys : List A) → length (xs ++ ys) ≡ length xs + length ys
  length-append [] ys = omega arith
  length-append (x ∷ xs) ys = omega (arith, length-append xs ys)

  pub any-append : (p : A → Bool) (xs ys : List A) → any p (xs ++ ys) ≡ (any p xs || any p ys)
  any-append p [] ys = refl
  any-append p (x ∷ xs) ys = ground (arith, any-append p xs ys)

  pub length-keep-le : (p : A → Bool) (xs : List A) → length (keep p xs) ≤ length xs
  length-keep-le p [] = omega arith
  length-keep-le p (x ∷ xs) = ground (arith, length-keep-le p xs)

  pub length-take : (n : ℕ) (xs : List A) → length (take n xs) ≡ min n (length xs)
  length-take zero xs = omega arith
  length-take (suc n) [] = omega arith
  length-take (suc n) (x ∷ xs) = omega (arith, length-take n xs)

  -- A predicate of every member, by recursion.
  abbrev pub All {κ} : (A → Type κ) → List A → Type κ
  All P [] = Unit
  All P (x ∷ xs) = P x × All P xs

module _ {A : Type 0} where
  -- A place in a list where a member stands.
  abbrev pub Among : A → List A → Type 0
  Among x [] = ⊥
  Among x (y ∷ ys) = (y ≡ x) ⊎ Among x ys

  -- A test that a member passes keeps something.
  pub keep-Among :
      (p : A → Bool) (x : A) (xs : List A) → Among x xs → p x ≡ true → 0 < length (keep p xs)
  keep-Among p x [] m h = elim m [ ]
  keep-Among p x (y ∷ ys) (inl e) h = let e' : p y ≡ true = ap p e ∙ h in rw e' (omega arith)
  keep-Among p x (y ∷ ys) (inr m) h = elim (Bool-cases (p y)) [
    | inl e ↦ rw e (omega arith)
    | inr e ↦ rw e (keep-Among p x ys m h)
  ]

module _ {ℓ κ} {A : Type ℓ} (P : A → Type κ) where
  pub All-append : (xs ys : List A) → All P xs → All P ys → All P (xs ++ ys)
  All-append [] ys h k = k
  All-append (x ∷ xs) ys (h, hs) k = (h, All-append xs ys hs k)

  pub All-take : (n : ℕ) (xs : List A) → All P xs → All P (take n xs)
  All-take zero xs h = tt
  All-take (suc n) [] h = tt
  All-take (suc n) (x ∷ xs) (h, hs) = (h, All-take n xs hs)

  pub All-keep : (p : A → Bool) (xs : List A) → All P xs → All P (keep p xs)
  All-keep p [] h = tt
  All-keep p (x ∷ xs) (h, hs) = elim (Bool-cases (p x)) [
    | inl e ↦ rw e (h, All-keep p xs hs)
    | inr e ↦ rw e (All-keep p xs hs)
  ]

module _ {ℓ} {A : Type ℓ} (before : A → A → Bool) where
  unfoldable pub insert_with : A → List A → List A
  insert_with x [] = x ∷ []
  insert_with x (y ∷ ys) =
      let rest = insert_with x ys in if before x y then x ∷ y ∷ ys else y ∷ rest

  -- `slices.SortFunc`, as an insertion sort
  unfoldable pub sort_with : List A → List A
  sort_with [] = []
  sort_with (x ∷ xs) = insert_with x (sort_with xs)

  pub length-insert_with : (x : A) (xs : List A) → length (insert_with x xs) ≡ suc (length xs)
  unfolding insert_with
  length-insert_with x [] = refl
  length-insert_with x (y ∷ ys) = ground (arith, length-insert_with x ys)

  pub length-sort_with : (xs : List A) → length (sort_with xs) ≡ length xs
  unfolding sort_with
  length-sort_with [] = refl
  length-sort_with (x ∷ xs) =
      ground (arith, length-insert_with x (sort_with xs), length-sort_with xs)

  pub every-insert_with :
      (p : A → Bool) (x : A) (xs : List A) → every p (insert_with x xs) ≡ (p x && every p xs)
  unfolding insert_with
  every-insert_with p x [] = refl
  every-insert_with p x (y ∷ ys) = ground (arith, every-insert_with p x ys)

  pub every-sort_with : (p : A → Bool) (xs : List A) → every p (sort_with xs) ≡ every p xs
  unfolding sort_with
  every-sort_with p [] = refl
  every-sort_with p (x ∷ xs) =
      ground (arith, every-insert_with p x (sort_with xs), every-sort_with p xs)

  pub any-insert_with :
      (p : A → Bool) (x : A) (xs : List A) → any p (insert_with x xs) ≡ (p x || any p xs)
  unfolding insert_with
  any-insert_with p x [] = refl
  any-insert_with p x (y ∷ ys) = ground (arith, any-insert_with p x ys)

  pub any-sort_with : (p : A → Bool) (xs : List A) → any p (sort_with xs) ≡ any p xs
  unfolding sort_with
  any-sort_with p [] = refl
  any-sort_with p (x ∷ xs) = ground (arith, any-insert_with p x (sort_with xs), any-sort_with p xs)

  -- Sorting keeps how many members pass a test.
  pub keep-insert_with :
      (p : A → Bool) (x : A) (xs : List A)
      → length (keep p (insert_with x xs)) ≡ length (keep p (x ∷ xs))
  unfolding insert_with
  keep-insert_with p x [] = refl
  keep-insert_with p x (y ∷ ys) = ground (arith, keep-insert_with p x ys)

  pub keep-sort_with :
      (p : A → Bool) (xs : List A) → length (keep p (sort_with xs)) ≡ length (keep p xs)
  unfolding sort_with
  keep-sort_with p [] = refl
  keep-sort_with p (x ∷ xs) =
      ground (arith, keep-insert_with p x (sort_with xs), keep-sort_with p xs)

module _ {ℓ κ} {A : Type ℓ} (P : A → Type κ) (before : A → A → Bool) where
  All-insert_with : (x : A) (xs : List A) → P x → All P xs → All P (insert_with before x xs)
  unfolding insert_with
  All-insert_with x [] h k = (h, tt)
  All-insert_with x (y ∷ ys) h (k, ks) = elim (Bool-cases (before x y)) [
    | inl e ↦ rw e (h, (k, ks))
    | inr e ↦ rw e (k, All-insert_with x ys h ks)
  ]

  pub All-sort_with : (xs : List A) → All P xs → All P (sort_with before xs)
  unfolding sort_with
  All-sort_with [] h = tt
  All-sort_with (x ∷ xs) (h, hs) = All-insert_with x (sort_with before xs) h (All-sort_with xs hs)
