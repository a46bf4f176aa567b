-- ===== src/Policy/Verdict.antt =====
-- The verdict of `Evaluate` (internal/policy/policy.go) against a description with no loops.
use k_lite.Common.{
  Bool, List, Option, Perm, String, [], any, any-perm, any-sort_by, arith, false, none, not, refl,
  some, suc, true, ℕ, ◌&&◌, ◌||◌, ◌∙◌, ◌∷◌, ◌≡◌,
}
use k_lite.Object.Types.{NetworkPolicy, PolicyAction, PolicyRule, allow, deny}
use k_lite.Policy.{
  Decision, Scan, allow_policies, allow_rules, decided, deny_policies, deny_rules, evaluate,
  rule_matches, rule_targets, scanned, sorted_by_name,
}

abbrev pub is_deny : PolicyAction → Bool
is_deny deny = true
is_deny _ = false

abbrev pub is_allow : PolicyAction → Bool
is_allow allow = true
is_allow _ = false

-- Some DENY rule covers the connection.
abbrev pub is_denied : List NetworkPolicy → String → String → Bool
is_denied ps f t = any (λ p. is_deny p.action && any (λ r. rule_matches r f t) p.rules) ps

-- Some ALLOW rule targets the destination.
abbrev pub is_targeted : List NetworkPolicy → String → Bool
is_targeted ps t = any (λ p. is_allow p.action && any (λ r. rule_targets r t) p.rules) ps

-- Some ALLOW rule covers the connection.
abbrev pub is_admitted : List NetworkPolicy → String → String → Bool
is_admitted ps f t = any (λ p. is_allow p.action && any (λ r. rule_matches r f t) p.rules) ps

-- Not denied, and admitted wherever the destination is in allowlist mode.
abbrev pub admits : List NetworkPolicy → String → String → Bool
admits ps f t = not (is_denied ps f t) && (not (is_targeted ps t) || is_admitted ps f t)

module _ (f t : String) where
  -- What the deny loop returns when it finds a rule, and that it finds one exactly when there is one.
  abbrev Denies : Bool → Option Decision → Type 0
  Denies hit none = hit ≡ false
  Denies hit (some d) = (hit ≡ true) × (d.allowed ≡ false)

  deny_rules-Denies :
      (i : ℕ) (name : String) (rs : List PolicyRule)
      → Denies (any (λ r. rule_matches r f t) rs) (deny_rules i name rs f t)
  unfolding deny_rules
  deny_rules-Denies i name [] = refl
  deny_rules-Denies i name (r ∷ rs) = ground (arith, deny_rules-Denies (suc i) name rs)

  deny_policies-Denies :
      (ps : List NetworkPolicy) → Denies (is_denied ps f t) (deny_policies ps f t)
  unfolding deny_policies
  deny_policies-Denies [] = refl
  deny_policies-Denies (p ∷ ps) =
      ground (arith, deny_rules-Denies 1 p.meta.name p.rules, deny_policies-Denies ps)

  -- What the allow loop returns from a flag: a decision exactly when a rule covers the connection,
  -- and otherwise whether the flag was set or some rule targets the service.
  abbrev pub Scans : Bool → Bool → Bool → Scan → Type 0
  Scans before target hit (scanned after) = (hit ≡ false) × (after ≡ (before || target))
  Scans before target hit (decided d) = (hit ≡ true) × (d.allowed ≡ true)

  allow_rules-Scans :
      (i : ℕ) (name : String) (rs : List PolicyRule) (b : Bool)
      → Scans b
          (any (λ r. rule_targets r t) rs)
          (any (λ r. rule_matches r f t) rs)
          (allow_rules i name rs f t b)
  unfolding allow_rules rule_matches
  allow_rules-Scans i name [] b = ground arith
  allow_rules-Scans i name (r ∷ rs) b =
      ground (arith, allow_rules-Scans (suc i) name rs b, allow_rules-Scans (suc i) name rs true)

  pub allow_policies-Scans :
      (ps : List NetworkPolicy) (b : Bool)
      → Scans b (is_targeted ps t) (is_admitted ps f t) (allow_policies ps f t b)
  unfolding allow_policies
  allow_policies-Scans [] b = ground arith
  allow_policies-Scans (p ∷ ps) b = ground (
    arith,
    allow_rules-Scans 1 p.meta.name p.rules b,
    allow_policies-Scans ps b,
    allow_policies-Scans ps true,
    allow_policies-Scans ps false,
  )

  evaluate_sorted :
      (ps sorted : List NetworkPolicy)
      → sorted_by_name ps ≡ sorted
      → (evaluate ps f t).allowed ≡ admits sorted f t
  unfolding evaluate
  evaluate_sorted ps sorted e =
      ground (arith, deny_policies-Denies sorted, allow_policies-Scans sorted false)

  pub admits-sorted : (ps : List NetworkPolicy) → admits (sorted_by_name ps) f t ≡ admits ps f t
  unfolding sorted_by_name
  admits-sorted ps = simp any-sort_by

-- `Evaluate` admits a connection exactly when no DENY rule covers it and, where some ALLOW rule
-- targets the destination, some ALLOW rule covers it: for all policies and services.
pub evaluate-allowed :
    (ps : List NetworkPolicy) (f t : String) → (evaluate ps f t).allowed ≡ admits ps f t
evaluate-allowed ps f t = evaluate_sorted f t ps _ refl ∙ admits-sorted f t ps

-- The verdict does not depend on the order in which the store lists the policies.
pub evaluate-perm :
    (ps qs : List NetworkPolicy) (f t : String)
    → Perm ps qs
    → (evaluate ps f t).allowed ≡ (evaluate qs f t).allowed
evaluate-perm ps qs f t h =
    rw (evaluate-allowed ps f t, evaluate-allowed qs f t)
      (cc (
        any-perm (λ p. is_deny p.action && any (λ r. rule_matches r f t) p.rules) ps qs h,
        any-perm (λ p. is_allow p.action && any (λ r. rule_targets r t) p.rules) ps qs h,
        any-perm (λ p. is_allow p.action && any (λ r. rule_matches r f t) p.rules) ps qs h,
      ))
