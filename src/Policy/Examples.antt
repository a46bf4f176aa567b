-- ===== src/Policy/Examples.antt =====
-- Concrete policies, and the policy theorems at them.
use k_lite.Common.{List, String, [], false, insert_by, refl, sort_by, ◌∷◌, ◌≡◌}
use k_lite.Object.Types.{Meta, NetworkPolicy, allow, deny, empty_meta}
use k_lite.Policy.{
  compile, denied_by, evaluate, not_admitted, rule_from_matches, rule_matches, rule_targets,
  sorted_by_name,
}
use k_lite.Policy.Verdict.{evaluate-allowed, evaluate-perm}
use k_lite.Policy.Compiled.{compile-evaluate, compiled_admits}
use k_lite.Policy.Reasons.{Explains, evaluate-Explains}
use mathlib.Core.List.Perm

abbrev named : String → Meta
named n = record empty_meta { name = n }

abbrev deny_a_to_c : NetworkPolicy
deny_a_to_c = record {
  meta = named "deny-a-to-c";
  action = deny;
  rules = record { from = "a"; to = "c"; except = [] } ∷ [];
}

abbrev allow_all_but_b : NetworkPolicy
allow_all_but_b = record {
  meta = named "allow";
  action = allow;
  rules = record { from = "a"; to = "*"; except = "b" ∷ [] } ∷ [];
}

abbrev demo : List NetworkPolicy
demo = deny_a_to_c ∷ allow_all_but_b ∷ []

evaluate_denied :
    evaluate demo "a" "c"
    ≡ record { allowed = false; matched_policy = "deny-a-to-c"; reason = denied_by "deny-a-to-c" 1 }
unfolding evaluate sorted_by_name sort_by insert_by rule_matches rule_targets rule_from_matches
evaluate_denied = refl

evaluate_allowlist :
    evaluate demo "b" "d"
    ≡ record { allowed = false; matched_policy = ""; reason = not_admitted "d" "b" }
unfolding evaluate sorted_by_name sort_by insert_by rule_matches rule_targets rule_from_matches
evaluate_allowlist = refl

evaluate-allowed_example : (evaluate demo "a" "c").allowed ≡ false
unfolding rule_matches rule_from_matches rule_targets
evaluate-allowed_example = evaluate-allowed demo "a" "c"

evaluate-perm_example :
    (evaluate demo "a" "c").allowed
    ≡ (evaluate (allow_all_but_b ∷ deny_a_to_c ∷ []) "a" "c").allowed
evaluate-perm_example =
    evaluate-perm demo (allow_all_but_b ∷ deny_a_to_c ∷ []) "a" "c"
      (Perm.swap allow_all_but_b deny_a_to_c [])

compile-evaluate_example : compiled_admits (compile demo) "a" "c" ≡ (evaluate demo "a" "c").allowed
compile-evaluate_example = compile-evaluate demo "a" "c"

evaluate-Explains_example : Explains demo "a" "c" (evaluate demo "a" "c")
evaluate-Explains_example = evaluate-Explains demo "a" "c"
