-- ===== src/Xds/Rbac.antt =====
-- The RBAC filters of internal/xds/builder.go enforce the verdict of internal/policy.
use k_lite.Common.{
  Bool, List, Map, Option, Option-cases, String, [], any, any-append, any-sort_by, ap, arith,
  concat, eq_iff, false, inl, inr, lookup, lookup-has_key, none, not, refl, some, sort_by, suc,
  true, unique_keys, ℕ, ◌&&◌, ◌++◌, ◌==◌, ◌||◌, ◌∙◌, ◌∷◌, ◌≡◌,
}
use k_lite.Xds.{
  Filter, Principal, RbacPolicy, Tables, add_policy, addresses_of, any_principal, build_listener,
  filters_of, host_principals, policy_targets, principals_for, rbac_allow, rbac_deny, rbac_filters,
  rbac_step, rbac_tables, remote_ip, tcp_proxy,
}
use k_lite.Policy.{CompiledPolicy, compile, evaluate}
use k_lite.Policy.Verdict.{is_allow, is_deny}
use k_lite.Policy.Compiled.{
  compile-evaluate, compiled_admits, compiled_from_matches, compiled_matches, compiled_targets,
}
use k_lite.Net.{NetDesired, ServiceVip}
use k_lite.Object.Types.{NetworkPolicy}

-- Envoy's network filters, by their documentation: which source addresses a filter chain lets
-- through to its proxy. A DENY filter closes a connection that one of its policies matches, an
-- ALLOW filter closes one that none matches, a policy matches by any of its principals, and a host
-- prefix matches its own address. Addresses are compared as their canonical texts.
pub record Envoy (parse_addr : String → Option ℕ) : Type 0 where
  pub principal_matches : Principal → String → Bool
  pub admits_source : List Filter → String → Bool
  pub any_matches : (ip : String) → principal_matches any_principal ip ≡ true
  pub host_matches :
      (a ip : String) (bits : ℕ)
      → parse_addr a ≡ some bits
      → principal_matches (remote_ip a bits) ip ≡ (a == ip)
  pub deny_filter :
      (name : String) (ps : List RbacPolicy) (fs : List Filter) (ip : String)
      → admits_source (rbac_deny name ps ∷ fs) ip ≡ (
          not (any (λ p. any (λ q. principal_matches q ip) p.principals) ps) && admits_source fs ip)
  pub allow_filter :
      (name : String) (ps : List RbacPolicy) (fs : List Filter) (ip : String)
      → admits_source (rbac_allow name ps ∷ fs) ip
        ≡ (any (λ p. any (λ q. principal_matches q ip) p.principals) ps && admits_source fs ip)
  pub proxy_filter :
      (cluster : String) (fs : List Filter) (ip : String)
      → admits_source (tcp_proxy cluster ∷ fs) ip ≡ true

-- In a map, the entries of a service contain the address exactly when the address maps to it.
any-addresses_of :
    (ip from : String) (m : Map String)
    → unique_keys m ≡ true
    → any (λ a. a == ip) (addresses_of from m)
      ≡ elim (lookup ip m) [ none ↦ false | some svc ↦ svc == from ]
unfolding addresses_of lookup
any-addresses_of ip from [] u = refl
any-addresses_of ip from ((k, svc) ∷ m) u =
    ground (arith, eq_iff k ip, any-addresses_of ip from m, lookup-has_key ip m)

module _ (parse_addr : String → Option ℕ) (envoy : Envoy parse_addr) (ip : String) where
  open envoy use {principal_matches, admits_source}

  abbrev matched : List RbacPolicy → Bool
  matched ps = any (λ p. any (λ q. principal_matches q ip) p.principals) ps

  any-host_principals :
      (bits : ℕ) (ips : List String)
      → parse_addr ip ≡ some bits
      → any (λ q. principal_matches q ip) (host_principals parse_addr ips) ≡ any (λ a. a == ip) ips
  unfolding host_principals
  any-host_principals bits [] h = refl
  any-host_principals bits (a ∷ ips) h = elim (Option-cases (parse_addr a)) [
    | inl e ↦ ground (arith, eq_iff a ip, any-host_principals bits ips h)
    | inr (n, e) ↦ ground (arith, envoy.host_matches a ip n e, any-host_principals bits ips h)
  ]

  principals_for-matches :
      (bits : ℕ) (from f : String) (m : Map String)
      → parse_addr ip ≡ some bits
      → unique_keys m ≡ true
      → lookup ip m ≡ some f
      → any (λ q. principal_matches q ip) (principals_for parse_addr from m)
        ≡ (from == "*" || from == f)
  unfolding principals_for
  principals_for-matches bits from f m h u l = ground (
    arith,
    envoy.any_matches ip,
    any-host_principals bits (sort_by (λ a. a) (addresses_of from m)) h,
    any-sort_by (λ a. a) (λ a. a == ip) (addresses_of from m),
    any-addresses_of ip from m u,
    eq_iff f from,
    eq_iff from f,
  )

  matched-add_policy :
      (bits : ℕ) (f : String) (m : Map String) (ps : List RbacPolicy) (i : ℕ) (pol : CompiledPolicy)
      → parse_addr ip ≡ some bits
      → unique_keys m ≡ true
      → lookup ip m ≡ some f
      → matched (add_policy parse_addr ps i pol m) ≡ (matched ps || compiled_from_matches pol f)
  unfolding add_policy
  matched-add_policy bits f m ps i pol h u l =
      added (principals_for parse_addr pol.from m) (principals_for-matches bits pol.from f m h u l)
    where
      added :
          (qs : List Principal)
          → any (λ q. principal_matches q ip) qs ≡ compiled_from_matches pol f
          → matched (elim qs [
            | [] ↦ ps
            | p ∷ rest ↦
                ps
                ++ record { index = i; policy_name = pol.policy_name; principals = p ∷ rest } ∷ []
          ])
            ≡ (matched ps || compiled_from_matches pol f)
      added [] e = ground arith
      added (q ∷ qs) e = any-append _ ps _ ∙ ground arith

  filters_of-admits :
      (service : String) (ds as' : List RbacPolicy) (listed : Bool)
      → let t : Tables = record { deny_table = ds; allow_table = as'; allowlist = listed } in
        admits_source (filters_of parse_addr service t ++ tcp_proxy service ∷ []) ip
        ≡ (not (matched ds) && (not listed || matched as'))
  unfolding filters_of
  filters_of-admits service [] as' false = envoy.proxy_filter service [] ip
  filters_of-admits service [] as' true = ground (
    arith,
    envoy.allow_filter (concat service "_allow") as' (tcp_proxy service ∷ []) ip,
    envoy.proxy_filter service [] ip,
  )
  filters_of-admits service (d ∷ ds) as' false = ground (
    arith,
    envoy.deny_filter (concat service "_deny") (d ∷ ds) (tcp_proxy service ∷ []) ip,
    envoy.proxy_filter service [] ip,
  )
  filters_of-admits service (d ∷ ds) as' true = ground (
    arith,
    envoy.deny_filter (concat service "_deny") (d ∷ ds)
        (rbac_allow (concat service "_allow") as' ∷ tcp_proxy service ∷ []) ip,
    envoy.allow_filter (concat service "_allow") as' (tcp_proxy service ∷ []) ip,
    envoy.proxy_filter service [] ip,
  )

  -- What the loop's tables hold after some policies, from what they held before.
  record Holds (service f : String) (pols : List CompiledPolicy) (t t' : Tables) : Type 0 where
    denies :
        matched t'.deny_table
        ≡ (matched t.deny_table || any (λ c. is_deny c.action && compiled_matches c f service) pols)
    allows : matched t'.allow_table ≡ (
        matched t.allow_table || any (λ c. is_allow c.action && compiled_matches c f service) pols)
    flips :
        t'.allowlist
        ≡ (t.allowlist || any (λ c. is_allow c.action && compiled_targets c service) pols)

  module _ (service f : String) (m : Map String) (bits : ℕ) (parses : parse_addr ip ≡ some bits)
      (unique : unique_keys m ≡ true) (source : lookup ip m ≡ some f) where
    rbac_step-Holds :
        (i : ℕ) (pol : CompiledPolicy) (t : Tables)
        → Holds service f (pol ∷ []) t (rbac_step parse_addr service m i pol t)
    unfolding rbac_step policy_targets
    rbac_step-Holds i pol t = record {
      denies = ground (arith, matched-add_policy bits f m t.deny_table i pol parses unique source);
      allows = ground (arith, matched-add_policy bits f m t.allow_table i pol parses unique source);
      flips = ground arith;
    }

    rbac_tables-Holds :
        (i : ℕ) (pols : List CompiledPolicy) (t : Tables)
        → Holds service f pols t (rbac_tables parse_addr service m i pols t)
    unfolding rbac_tables
    rbac_tables-Holds i [] t = record {
      denies = ground arith;
      allows = ground arith;
      flips = ground arith;
    }
    rbac_tables-Holds i (pol ∷ pols) t =
        let t' = rbac_step parse_addr service m i pol t in
        let a = rbac_step-Holds i pol t in
        let b = rbac_tables-Holds (suc i) pols t' in
        record {
          denies = ground (arith, a.denies, b.denies);
          allows = ground (arith, a.allows, b.allows);
          flips = ground (arith, a.flips, b.flips);
        }

-- Envoy, given the listener that the builder makes for a service out of the compiled policies,
-- lets a connection from an address through exactly when `Evaluate` admits the connection from the
-- service that the address belongs to: for all policies, services and identities, if Envoy behaves
-- as its documentation says, the address is a literal one, and the identity map has it once.
pub build_listener-evaluate :
    (parse_addr : String → Option ℕ) (envoy : Envoy parse_addr) (ps : List NetworkPolicy)
    (svc : ServiceVip) (net : NetDesired) (ip f : String) (bits : ℕ)
    → net.policies ≡ compile ps
    → parse_addr ip ≡ some bits
    → unique_keys net.ip_identity ≡ true
    → lookup ip net.ip_identity ≡ some f
    → envoy.admits_source (build_listener parse_addr svc net).filters ip
      ≡ (evaluate ps f svc.service).allowed
unfolding build_listener rbac_filters
build_listener-evaluate parse_addr envoy ps svc net ip f bits compiled parses unique source =
    let start : Tables = record { deny_table = []; allow_table = []; allowlist = false } in
    let t = rbac_tables parse_addr svc.service net.ip_identity 0 net.policies start in
    let h =
      rbac_tables-Holds parse_addr envoy ip svc.service f net.ip_identity bits parses unique source
        0 net.policies start in
    filters_of-admits parse_addr envoy ip svc.service t.deny_table t.allow_table t.allowlist
    ∙ cc (
      h.denies,
      h.allows,
      h.flips,
      ap (λ cs. compiled_admits cs f svc.service) compiled,
      compile-evaluate ps f svc.service,
    )
