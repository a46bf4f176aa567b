-- ===== src/Policy.antt =====
-- internal/policy/policy.go: the verdict on a connection between two services, and the flat rules
-- that the network layer consumes. The text of a reason is its constructor and arguments.
pub mod Verdict
pub mod Compiled
pub mod Reasons
mod Examples
use k_lite.Common.{
  Bool, List, Option, String, [], contains, false, if◌then◌else◌, map, none, not, some, sort_by,
  suc, true, ℕ, ◌&&◌, ◌++◌, ◌==◌, ◌||◌, ◌∷◌,
}
use k_lite.Object.Types.{NetworkPolicy, PolicyAction, PolicyRule, allow, deny}

pub data Reason : Type 0 where
  denied_by : String → ℕ → Reason
  allowed_by : String → ℕ → Reason
  default_allow : String → Reason
  not_admitted : String → String → Reason

pub record Decision : Type 0 where
  pub allowed : Bool
  pub matched_policy : String
  pub reason : Reason

pub record CompiledPolicy : Type 0 where
  pub action : PolicyAction
  pub from : String
  pub to : String
  pub except : List String
  pub policy_name : String

unfoldable pub rule_from_matches : PolicyRule → String → Bool
rule_from_matches r f = r.from == "*" || r.from == f

-- The except list counts on the wildcard only.
unfoldable pub rule_targets : PolicyRule → String → Bool
rule_targets r t = if r.to == t then true else r.to == "*" && not (contains r.except t)

unfoldable pub rule_matches : PolicyRule → String → String → Bool
rule_matches r f t = rule_from_matches r f && rule_targets r t

pub sorted_by_name : List NetworkPolicy → List NetworkPolicy
sorted_by_name = sort_by (λ p. p.meta.name)

-- The deny loop over the rules of one policy, from rule number `i`.
pub deny_rules : ℕ → String → List PolicyRule → String → String → Option Decision
deny_rules i name [] f t = none
deny_rules i name (r ∷ rs) f t =
    if rule_matches r f t
    then some (record { allowed = false; matched_policy = name; reason = denied_by name i })
    else deny_rules (suc i) name rs f t

pub deny_policies : List NetworkPolicy → String → String → Option Decision
unfolding deny_rules
deny_policies [] f t = none
deny_policies (p ∷ ps) f t =
    let rest = deny_policies ps f t in
    elim p.action [
      | deny ↦ elim (deny_rules 1 p.meta.name p.rules f t) [ some d ↦ some d | none ↦ rest ]
      | _ ↦ rest
    ]

-- What the allow loop has found: a decision, or whether an ALLOW rule targets the service so far.
pub data Scan : Type 0 where
  decided : Decision → Scan
  scanned : Bool → Scan

pub allow_rules : ℕ → String → List PolicyRule → String → String → Bool → Scan
allow_rules i name [] f t allowlisted = scanned allowlisted
allow_rules i name (r ∷ rs) f t allowlisted =
    let skipped = allow_rules (suc i) name rs f t allowlisted in
    let targeted = allow_rules (suc i) name rs f t true in
    if not (rule_targets r t)
    then skipped
    else if rule_from_matches r f
    then decided (record { allowed = true; matched_policy = name; reason = allowed_by name i })
    else targeted

pub allow_policies : List NetworkPolicy → String → String → Bool → Scan
unfolding allow_rules
allow_policies [] f t allowlisted = scanned allowlisted
allow_policies (p ∷ ps) f t allowlisted = elim p.action [
  | allow ↦ elim (allow_rules 1 p.meta.name p.rules f t allowlisted) [
    | decided d ↦ decided d
    | scanned b ↦ allow_policies ps f t b
  ]
  | _ ↦ allow_policies ps f t allowlisted
]

-- The answer once both loops have ended without a decision.
fall_back : Scan → String → String → Decision
fall_back (decided d) f t = d
fall_back (scanned false) f t = record {
  allowed = true;
  matched_policy = "";
  reason = default_allow t;
}
fall_back (scanned true) f t = record {
  allowed = false;
  matched_policy = "";
  reason = not_admitted t f;
}

unfoldable pub evaluate : List NetworkPolicy → String → String → Decision
unfolding deny_policies allow_policies fall_back
evaluate policies f t =
    let sorted = sorted_by_name policies in
    elim (deny_policies sorted f t) [
      | some d ↦ d
      | none ↦ fall_back (allow_policies sorted f t false) f t
    ]

compile_rule : NetworkPolicy → PolicyRule → CompiledPolicy
compile_rule p r = record {
  action = p.action;
  from = r.from;
  to = r.to;
  except = r.except;
  policy_name = p.meta.name;
}

compile_sorted : List NetworkPolicy → List CompiledPolicy
unfolding compile_rule
compile_sorted [] = []
compile_sorted (p ∷ ps) = map (compile_rule p) p.rules ++ compile_sorted ps

unfoldable pub compile : List NetworkPolicy → List CompiledPolicy
unfolding compile_sorted
compile policies = compile_sorted (sorted_by_name policies)
