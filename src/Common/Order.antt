-- ===== src/Common/Order.antt =====
-- The byte order of strings is a strict order.
use Prim.Native.Nat.{ℕ, Ordering, compare as compare_ℕ}
use Prim.Native.Char.{code}
use Prim.Native.String.{String, compare, then}
use Prim.Native.String.compare
use mathlib.Core.Path.{◌≡◌, refl}
use mathlib.Core.Bool.{true, false}
use native.Mathlib.Omega.{arith}
use text.Mathlib.Text.{is_le, is_lt}
use k_lite.Common.Text.{str_le, str_lt}

-- The orders of the first characters and of the rests decide.
then_lt_trans :
    (c d e : ℕ) (x y z : Ordering)
    → (is_lt x ≡ true → is_lt y ≡ true → is_lt z ≡ true)
    → is_lt (then (compare_ℕ c d) x) ≡ true
    → is_lt (then (compare_ℕ d e) y) ≡ true
    → is_lt (then (compare_ℕ c e) z) ≡ true
then_lt_trans c d e x y z ih h k = ground arith

not_lt_nil : (s : String) → str_lt s String.[] ≡ false
not_lt_nil String.[] = refl
not_lt_nil (String.◌∷◌ c s) = rw (compare.cons-nil c s)

pub str_lt_trans : (s t u : String) → str_lt s t ≡ true → str_lt t u ≡ true → str_lt s u ≡ true
str_lt_trans s t String.[] h k = absurd (cc (not_lt_nil t))
str_lt_trans s String.[] (String.◌∷◌ e u) h k = absurd (cc (not_lt_nil s))
str_lt_trans String.[] (String.◌∷◌ d t) (String.◌∷◌ e u) h k = rw (compare.nil-cons e u)
str_lt_trans (String.◌∷◌ c s) (String.◌∷◌ d t) (String.◌∷◌ e u) h k =
    rw (compare.cons-cons c e s u) (
      then_lt_trans (code c) (code d) (code e) (compare s t) (compare t u) (compare s u)
        (str_lt_trans s t u) (rw (compare.cons-cons c d s t) at h)
        (rw (compare.cons-cons d e t u) at k))

then_le_trans :
    (c d e : ℕ) (x y z : Ordering)
    → (is_le x ≡ true → is_le y ≡ true → is_le z ≡ true)
    → is_le (then (compare_ℕ c d) x) ≡ true
    → is_le (then (compare_ℕ d e) y) ≡ true
    → is_le (then (compare_ℕ c e) z) ≡ true
then_le_trans c d e x y z ih h k = ground arith

then_connex :
    (c d : ℕ) (x y : Ordering)
    → (is_lt x ≡ false → is_le y ≡ true)
    → is_lt (then (compare_ℕ c d) x) ≡ false
    → is_le (then (compare_ℕ d c) y) ≡ true
then_connex c d x y ih h = ground arith

le_nil : (t : String) → str_le String.[] t ≡ true
le_nil String.[] = refl
le_nil (String.◌∷◌ d t) = rw (compare.nil-cons d t)

pub str_le_trans : (s t u : String) → str_le s t ≡ true → str_le t u ≡ true → str_le s u ≡ true
str_le_trans String.[] t u h k = le_nil u
str_le_trans (String.◌∷◌ c s) String.[] u h k = absurd (ground (arith, compare.cons-nil c s))
str_le_trans (String.◌∷◌ c s) (String.◌∷◌ d t) String.[] h k =
    absurd (ground (arith, compare.cons-nil d t))
str_le_trans (String.◌∷◌ c s) (String.◌∷◌ d t) (String.◌∷◌ e u) h k =
    rw (compare.cons-cons c e s u) (
      then_le_trans (code c) (code d) (code e) (compare s t) (compare t u) (compare s u)
        (str_le_trans s t u) (rw (compare.cons-cons c d s t) at h)
        (rw (compare.cons-cons d e t u) at k))

pub str_lt_connex : (s t : String) → str_lt s t ≡ false → str_le t s ≡ true
str_lt_connex s String.[] h = le_nil s
str_lt_connex String.[] (String.◌∷◌ d t) h = absurd (ground (arith, compare.nil-cons d t))
str_lt_connex (String.◌∷◌ c s) (String.◌∷◌ d t) h = rw (compare.cons-cons d c t s) (
    then_connex (code c) (code d) (compare s t) (compare t s) (str_lt_connex s t)
      (rw (compare.cons-cons c d s t) at h))

pub str_lt_le : (s t : String) → str_lt s t ≡ true → str_le s t ≡ true
str_lt_le s t h = ground arith

pub str_le_refl : (s : String) → str_le s s ≡ true
str_le_refl String.[] = refl
str_le_refl (String.◌∷◌ c s) = rw (compare.cons-cons c c s s) (ground (arith, str_le_refl s))
