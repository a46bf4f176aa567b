-- ===== src/Controller/Ingress/Ranges.antt =====
-- The port slices of the nodes (internal/controller/ingress.go).
use k_lite.Common.{
  Bool, Bool-cases, arith, false, inl, inr, ltb, refl, some, subst, ℕ, ◌%◌, ◌*◌, ◌+◌, ◌-◌, ◌<◌,
  ◌||◌, ◌≡◌, ◌≢◌, ◌≤◌, ◌⊎◌,
}
use k_lite.Common.Int.{ltb_ℤ, neg_part, negsuc, pos, pos_part, ℤ}
use k_lite.Controller.Ingress.{ingress_ports_per_node, node_range, of_bits, to_bits}

-- A slice lies in the ports and is 32 ports wide.
abbrev pub IsSlice : ℤ × ℤ → Type 0
IsSlice (lo, hi) =
    (1 ≤ pos_part lo)
    × (neg_part lo ≡ 0)
    × (pos_part hi ≡ pos_part lo + ingress_ports_per_node)
    × (pos_part hi ≤ 65536)

three : (a b c : Bool) → (a || b || c) ≡ false → (a ≡ false) × (b ≡ false) × (c ≡ false)
three a b c h = ground arith

some-injective : {A : Type 0} (a b : A) → some a ≡ some b → a ≡ b
some-injective a b h = cc

-- The bits of the lower bound, where nothing wraps: the bound itself.
low_bits :
    (base : ℤ) (n u : ℕ)
    → pos_part base ≤ 1073741824
    → neg_part base ≤ 1073741824
    → n < 33554400
    → u ≡ (to_bits base + 32 * n) % 4294967296
    → ltb_ℤ (of_bits u) (pos 1) ≡ false
    → (u < 2147483584) × (u + neg_part base ≡ pos_part base + 32 * n)
low_bits (pos b) n u h k l e f = ground arith
low_bits (negsuc b) n u h k l e f = ground arith

IsSlice-of_bits :
    (u : ℕ)
    → u < 2147483584
    → ltb_ℤ (of_bits u) (pos 1) ≡ false
    → ltb_ℤ (pos 65536) (of_bits ((u + 32) % 4294967296)) ≡ false
    → IsSlice (of_bits u, of_bits ((u + 32) % 4294967296)) × (pos_part (of_bits u) ≡ u)
IsSlice-of_bits u h f g = ground arith

apart :
    (b c i j p q p' q' : ℕ)
    → i ≢ j
    → 1 ≤ i
    → 1 ≤ j
    → p + c ≡ b + 32 * (i - 1)
    → q + c ≡ b + 32 * (j - 1)
    → p' ≡ p + 32
    → q' ≡ q + 32
    → (p' ≤ q) ⊎ (q' ≤ p)
apart b c i j p q p' q' d f g h k l m = ground arith

-- A slice starts where the base and the index say.
IsSlice-start :
    (base : ℤ) (i : ℕ) (r : ℤ × ℤ)
    → pos_part base ≤ 1073741824
    → neg_part base ≤ 1073741824
    → i < 33554400
    → node_range base i ≡ some r
    → IsSlice r × (pos_part r.0 + neg_part base ≡ pos_part base + 32 * (i - 1)) × (1 ≤ i)
unfolding node_range
IsSlice-start base i r h k l e =
    let u = (to_bits base + 32 * (i - 1)) % 4294967296 in
    let v = (u + 32) % 4294967296 in
    elim (Bool-cases (ltb i 1 || ltb_ℤ (of_bits u) (pos 1) || ltb_ℤ (pos 65536) (of_bits v))) [
      | inl q ↦ absurd (cc (rw q at e))
      | inr q ↦
          let (f, g, w) = three (ltb i 1) _ _ q in
          let (small, sum) = low_bits base (i - 1) u h k (omega arith) refl g in
          let (slice, exact) = IsSlice-of_bits u small g w in
          let same : (of_bits u, of_bits v) ≡ r = some-injective _ r (rw q at e) in
          subst
            (λ (x : ℤ × ℤ).
              IsSlice x × (pos_part x.0 + neg_part base ≡ pos_part base + 32 * (i - 1)) × (1 ≤ i))
            same (slice, omega (arith, exact, sum), ground arith)
    ]

-- The slice of a node lies in the ports 1 to 65535 and is 32 wide, and the slices of two nodes with
-- different indexes share no port: for every base between -2^30 and 2^30 and all indexes below
-- 33554400, where the 32-bit sums do not wrap.
pub node_range-apart :
    (base : ℤ) (i j : ℕ) (r s : ℤ × ℤ)
    → pos_part base ≤ 1073741824
    → neg_part base ≤ 1073741824
    → i < 33554400
    → j < 33554400
    → node_range base i ≡ some r
    → node_range base j ≡ some s
    → i ≢ j
    → IsSlice r × IsSlice s × ((pos_part r.1 ≤ pos_part s.0) ⊎ (pos_part s.1 ≤ pos_part r.0))
node_range-apart base i j r s low high a b h k d =
    let (x, p, f) = IsSlice-start base i r low high a h in
    let (y, q, g) = IsSlice-start base j s low high b k in
    (x, y, apart (pos_part base) (neg_part base) i j _ _ _ _ d f g p q x.2 y.2)
