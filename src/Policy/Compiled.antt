-- ===== src/Policy/Compiled.antt =====
-- The flat rules of `Compile` carry the verdict (internal/policy/policy.go).
use k_lite.Common.{
  Bool, List, String, [], any, any-append, arith, contains, if◌then◌else◌, map, not, refl, sym,
  true, ◌&&◌, ◌==◌, ◌||◌, ◌∙◌, ◌∷◌, ◌≡◌,
}
use k_lite.Object.Types.{NetworkPolicy, PolicyAction, PolicyRule}
use k_lite.Policy.{
  CompiledPolicy, compile, compile_rule, compile_sorted, evaluate, rule_from_matches, rule_matches,
  rule_targets, sorted_by_name,
}
use k_lite.Policy.Verdict.{admits, admits-sorted, evaluate-allowed, is_allow, is_deny}

-- The destination of a compiled rule covers the service.
abbrev pub compiled_targets : CompiledPolicy → String → Bool
compiled_targets c t = if c.to == t then true else c.to == "*" && not (contains c.except t)

abbrev pub compiled_from_matches : CompiledPolicy → String → Bool
compiled_from_matches c f = c.from == "*" || c.from == f

abbrev pub compiled_matches : CompiledPolicy → String → String → Bool
compiled_matches c f t = compiled_from_matches c f && compiled_targets c t

-- The verdict read off the compiled rules alone.
abbrev pub compiled_admits : List CompiledPolicy → String → String → Bool
compiled_admits cs f t =
    not (any (λ c. is_deny c.action && compiled_matches c f t) cs)
    && (not (any (λ c. is_allow c.action && compiled_targets c t) cs)
        || any (λ c. is_allow c.action && compiled_matches c f t) cs)

module _ (test : PolicyAction → Bool) (f t : String) where
  any-compile_rule-matches :
      (p : NetworkPolicy) (rs : List PolicyRule)
      → any (λ c. test c.action && compiled_matches c f t) (map (compile_rule p) rs)
        ≡ (test p.action && any (λ r. rule_matches r f t) rs)
  unfolding compile_rule rule_matches rule_from_matches rule_targets
  any-compile_rule-matches p [] = ground arith
  any-compile_rule-matches p (r ∷ rs) = ground (arith, any-compile_rule-matches p rs)

  any-compile_rule-targets :
      (p : NetworkPolicy) (rs : List PolicyRule)
      → any (λ c. test c.action && compiled_targets c t) (map (compile_rule p) rs)
        ≡ (test p.action && any (λ r. rule_targets r t) rs)
  unfolding compile_rule rule_targets
  any-compile_rule-targets p [] = ground arith
  any-compile_rule-targets p (r ∷ rs) = ground (arith, any-compile_rule-targets p rs)

  any-compile_sorted-matches :
      (ps : List NetworkPolicy)
      → any (λ c. test c.action && compiled_matches c f t) (compile_sorted ps)
        ≡ any (λ p. test p.action && any (λ r. rule_matches r f t) p.rules) ps
  unfolding compile_sorted
  any-compile_sorted-matches [] = refl
  any-compile_sorted-matches (p ∷ ps) =
      any-append _ (map (compile_rule p) p.rules) (compile_sorted ps)
      ∙ cc (any-compile_rule-matches p p.rules, any-compile_sorted-matches ps)

  any-compile_sorted-targets :
      (ps : List NetworkPolicy)
      → any (λ c. test c.action && compiled_targets c t) (compile_sorted ps)
        ≡ any (λ p. test p.action && any (λ r. rule_targets r t) p.rules) ps
  unfolding compile_sorted
  any-compile_sorted-targets [] = refl
  any-compile_sorted-targets (p ∷ ps) =
      any-append _ (map (compile_rule p) p.rules) (compile_sorted ps)
      ∙ cc (any-compile_rule-targets p p.rules, any-compile_sorted-targets ps)

compiled_admits-admits :
    (ps : List NetworkPolicy) (f t : String)
    → compiled_admits (compile ps) f t ≡ admits (sorted_by_name ps) f t
unfolding compile
compiled_admits-admits ps f t =
    let sorted = sorted_by_name ps in
    cc (
      any-compile_sorted-matches is_deny f t sorted,
      any-compile_sorted-targets is_allow f t sorted,
      any-compile_sorted-matches is_allow f t sorted,
    )

-- The verdict read off the compiled rules, with no policy object at hand, is that of `Evaluate` on
-- the policies that they were compiled from: for all policies and services.
pub compile-evaluate :
    (ps : List NetworkPolicy) (f t : String)
    → compiled_admits (compile ps) f t ≡ (evaluate ps f t).allowed
compile-evaluate ps f t =
    compiled_admits-admits ps f t ∙ admits-sorted f t ps ∙ sym (evaluate-allowed ps f t)
