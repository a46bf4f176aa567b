-- ===== src/Policy/Reasons.antt =====
-- The reason and the policy that a decision names (internal/policy/policy.go).
use k_lite.Common.{
  Bool, Bool-cases, List, Option, String, [], any, any-sort_by, arith, eq_iff, eqb, false, inl, inr,
  none, refl, some, suc, true, ℕ, ◌&&◌, ◌==◌, ◌||◌, ◌∷◌, ◌≡◌,
}
use k_lite.Object.Types.{NetworkPolicy, PolicyAction, PolicyRule, allow, deny}
use k_lite.Policy.{
  Decision, Reason, Scan, allow_policies, allow_rules, allowed_by, decided, default_allow,
  denied_by, deny_policies, deny_rules, evaluate, fall_back, not_admitted, rule_from_matches,
  rule_matches, rule_targets, scanned, sorted_by_name,
}
use k_lite.Policy.Verdict.{Scans, allow_policies-Scans, is_admitted, is_allow, is_deny, is_targeted}

-- Rule number `k` passes the test, where the list's first rule has number `i`.
abbrev pub numbered : (PolicyRule → Bool) → ℕ → ℕ → List PolicyRule → Bool
numbered p i k [] = false
numbered p i k (r ∷ rs) = (eqb i k && p r) || numbered p (suc i) k rs

-- One of the policies has that name and action, and its rule number `i`, counted from 1, covers the connection.
abbrev pub cites : (PolicyAction → Bool) → List NetworkPolicy → String → String → String → ℕ → Bool
cites test ps f t name i =
    any
      (λ p. test p.action && p.meta.name == name && numbered (λ r. rule_matches r f t) 1 i p.rules)
      ps

-- What each reason asserts of the policies.
abbrev pub Explains : List NetworkPolicy → String → String → Decision → Type 0
Explains ps f t d = elim d.reason [
  | denied_by name i ↦
      (d.allowed ≡ false) × (d.matched_policy ≡ name) × (cites is_deny ps f t name i ≡ true)
  | allowed_by name i ↦
      (d.allowed ≡ true) × (d.matched_policy ≡ name) × (cites is_allow ps f t name i ≡ true)
  | default_allow s ↦ (d.allowed ≡ true) × (s ≡ t) × (is_targeted ps t ≡ false)
  | not_admitted s c ↦ (d.allowed ≡ false) × (s ≡ t) × (c ≡ f) × (is_targeted ps t ≡ true)
]

-- The decisions of the two loops.
abbrev denial : String → ℕ → Decision
denial name k = record { allowed = false; matched_policy = name; reason = denied_by name k }

abbrev admission : String → ℕ → Decision
admission name k = record { allowed = true; matched_policy = name; reason = allowed_by name k }

abbrev decision_of : Scan → Option Decision
decision_of (decided d) = some d
decision_of (scanned b) = none

module _ (f t : String) (test : PolicyAction → Bool) (made : String → ℕ → Decision) where
  -- A decision was made at a rule of the list whose first rule has number `i`.
  abbrev MadeIn : ℕ → String → List PolicyRule → Option Decision → Type 0
  MadeIn i name rs none = Unit
  MadeIn i name rs (some d) =
      (k : ℕ) × (d ≡ made name k) × (numbered (λ r. rule_matches r f t) i k rs ≡ true)

  -- A decision was made at a rule of one of the policies.
  abbrev MadeBy : List NetworkPolicy → Option Decision → Type 0
  MadeBy ps none = Unit
  MadeBy ps (some d) =
      (name : String) × (k : ℕ) × (d ≡ made name k) × (cites test ps f t name k ≡ true)

  MadeIn-tail :
      (i : ℕ) (name : String) (r : PolicyRule) (rs : List PolicyRule) (o : Option Decision)
      → MadeIn (suc i) name rs o
      → MadeIn i name (r ∷ rs) o
  MadeIn-tail i name r rs none h = tt
  MadeIn-tail i name r rs (some d) (k, e, n) = (k, e, ground arith)

  MadeBy-head :
      (p : NetworkPolicy) (ps : List NetworkPolicy) (o : Option Decision)
      → test p.action ≡ true
      → MadeIn 1 p.meta.name p.rules o
      → MadeBy (p ∷ ps) o
  MadeBy-head p ps none a h = tt
  MadeBy-head p ps (some d) a (k, e, n) =
      (p.meta.name, k, e, ground (arith, eq_iff p.meta.name p.meta.name))

  MadeBy-tail :
      (p : NetworkPolicy) (ps : List NetworkPolicy) (o : Option Decision)
      → MadeBy ps o
      → MadeBy (p ∷ ps) o
  MadeBy-tail p ps none h = tt
  MadeBy-tail p ps (some d) (name, k, e, n) = (name, k, e, ground arith)

module _ (f t : String) where
  deny_rules-MadeIn :
      (i : ℕ) (name : String) (rs : List PolicyRule)
      → MadeIn f t is_deny denial i name rs (deny_rules i name rs f t)
  unfolding deny_rules
  deny_rules-MadeIn i name [] = tt
  deny_rules-MadeIn i name (r ∷ rs) = elim (Bool-cases (rule_matches r f t)) [
    | inl hit ↦ rw hit (i, refl, ground arith)
    | inr miss ↦ rw miss (
        MadeIn-tail f t is_deny denial i name r rs (deny_rules (suc i) name rs f t)
          (deny_rules-MadeIn (suc i) name rs))
  ]

  deny_step-MadeBy :
      (p : NetworkPolicy) (ps : List NetworkPolicy) (a : PolicyAction) (o rest : Option Decision)
      → p.action ≡ a
      → MadeIn f t is_deny denial 1 p.meta.name p.rules o
      → MadeBy f t is_deny denial ps rest
      → MadeBy f t is_deny denial
          (p ∷ ps)
          (elim a [ deny ↦ elim o [ some d ↦ some d | none ↦ rest ] | _ ↦ rest ])
  deny_step-MadeBy p ps deny (some d) rest e h r =
      MadeBy-head f t is_deny denial p ps (some d) (ground arith) h
  deny_step-MadeBy p ps deny none rest e h r = MadeBy-tail f t is_deny denial p ps rest r
  deny_step-MadeBy p ps _ o rest e h r = MadeBy-tail f t is_deny denial p ps rest r

  deny_policies-MadeBy :
      (ps : List NetworkPolicy) → MadeBy f t is_deny denial ps (deny_policies ps f t)
  unfolding deny_policies
  deny_policies-MadeBy [] = tt
  deny_policies-MadeBy (p ∷ ps) =
      deny_step-MadeBy p ps p.action (deny_rules 1 p.meta.name p.rules f t) (deny_policies ps f t)
        refl (deny_rules-MadeIn 1 p.meta.name p.rules) (deny_policies-MadeBy ps)

  allow_rules-MadeIn :
      (i : ℕ) (name : String) (rs : List PolicyRule) (b : Bool)
      → MadeIn f t is_allow admission i name rs (decision_of (allow_rules i name rs f t b))
  unfolding allow_rules rule_matches
  allow_rules-MadeIn i name [] b = tt
  allow_rules-MadeIn i name (r ∷ rs) b = elim (Bool-cases (rule_targets r t)) [
    | inr off ↦
        rw off
          (MadeIn-tail f t is_allow admission i name r rs _ (allow_rules-MadeIn (suc i) name rs b))
    | inl on ↦ elim (Bool-cases (rule_from_matches r f)) [
      | inl hit ↦ rw (on, hit) (i, refl, ground arith)
      | inr miss ↦
          rw (on, miss)
            (MadeIn-tail f t is_allow admission i name r rs _
              (allow_rules-MadeIn (suc i) name rs true))
    ]
  ]

  allow_step-MadeBy :
      (p : NetworkPolicy) (ps : List NetworkPolicy) (a : PolicyAction) (s : Scan)
      (rest : Bool → Scan) (b : Bool)
      → p.action ≡ a
      → MadeIn f t is_allow admission 1 p.meta.name p.rules (decision_of s)
      → ((c : Bool) → MadeBy f t is_allow admission ps (decision_of (rest c)))
      → MadeBy f t is_allow admission (p ∷ ps) (
          decision_of
            (elim a [ allow ↦ elim s [ decided d ↦ decided d | scanned c ↦ rest c ] | _ ↦ rest b ]))
  allow_step-MadeBy p ps allow (decided d) rest b e h r =
      MadeBy-head f t is_allow admission p ps (some d) (ground arith) h
  allow_step-MadeBy p ps allow (scanned c) rest b e h r =
      MadeBy-tail f t is_allow admission p ps (decision_of (rest c)) (r c)
  allow_step-MadeBy p ps _ s rest b e h r =
      MadeBy-tail f t is_allow admission p ps (decision_of (rest b)) (r b)

  allow_policies-MadeBy :
      (ps : List NetworkPolicy) (b : Bool)
      → MadeBy f t is_allow admission ps (decision_of (allow_policies ps f t b))
  unfolding allow_policies
  allow_policies-MadeBy [] b = tt
  allow_policies-MadeBy (p ∷ ps) b =
      allow_step-MadeBy p ps p.action (allow_rules 1 p.meta.name p.rules f t b)
        (allow_policies ps f t) b refl (allow_rules-MadeIn 1 p.meta.name p.rules b)
        (allow_policies-MadeBy ps)

  Explains-loops :
      (ps : List NetworkPolicy) (o : Option Decision) (s : Scan)
      → MadeBy f t is_deny denial ps o
      → MadeBy f t is_allow admission ps (decision_of s)
      → Scans f t false (is_targeted ps t) (is_admitted ps f t) s
      → Explains ps f t (elim o [ some d ↦ d | none ↦ fall_back s f t ])
  unfolding fall_back
  Explains-loops ps (some d) s (name, k, e, n) a sc = rw e (refl, refl, n)
  Explains-loops ps none (decided d) h (name, k, e, n) sc = rw e (refl, refl, n)
  Explains-loops ps none (scanned true) h a sc = (refl, refl, refl, ground arith)
  Explains-loops ps none (scanned false) h a sc = (refl, refl, ground arith)

  evaluate_sorted-Explains :
      (ps : List NetworkPolicy) → Explains (sorted_by_name ps) f t (evaluate ps f t)
  unfolding evaluate
  evaluate_sorted-Explains ps =
      let sorted = sorted_by_name ps in
      Explains-loops sorted (deny_policies sorted f t) (allow_policies sorted f t false)
        (deny_policies-MadeBy sorted) (allow_policies-MadeBy sorted false)
        (allow_policies-Scans f t sorted false)

  Explains-sorted :
      (ps : List NetworkPolicy) (a : Bool) (m : String) (r : Reason)
      → let d : Decision = record { allowed = a; matched_policy = m; reason = r } in
        Explains (sorted_by_name ps) f t d → Explains ps f t d
  unfolding sorted_by_name
  Explains-sorted ps a m (denied_by name i) (x, y, z) = (x, y, rw any-sort_by at z)
  Explains-sorted ps a m (allowed_by name i) (x, y, z) = (x, y, rw any-sort_by at z)
  Explains-sorted ps a m (default_allow s) (x, y, z) = (x, y, rw any-sort_by at z)
  Explains-sorted ps a m (not_admitted s c) (x, y, u, z) = (x, y, u, rw any-sort_by at z)

-- The reason that a decision carries is true of the policies: "denied by P rule i" and "allowed by
-- P rule i" name a policy of the list with that action whose rule number i covers the connection,
-- "no ALLOW targets" is said only where none does, and "allowlist-mode" only where some ALLOW rule
-- targets the destination; the verdict and the matched policy agree with the reason.
pub evaluate-Explains : (ps : List NetworkPolicy) (f t : String) → Explains ps f t (evaluate ps f t)
evaluate-Explains ps f t =
    let d = evaluate ps f t in
    Explains-sorted f t ps d.allowed d.matched_policy d.reason (evaluate_sorted-Explains f t ps)
