-- ===== src/Controller/Endpoints/Identity.antt =====
-- The identity map of the engine (buildIPIdentity of internal/controller/endpoints.go), and the proxies
-- that are built from a node's snapshot: a connection between two services is judged as the policies
-- judge it.
use k_lite.Common.{
  Among, Bool, Bool-cases, List, Map, Option, Option-cases, String, [], any, arith, eq_refl, false,
  if◌then◌else◌, inl, inr, insert, lookup, lookup-insert, none, not, refl, some, subst, sym, true,
  unique_keys, unique_keys-insert, ℕ, ◌&&◌, ◌==◌, ◌||◌, ◌∙◌, ◌∷◌, ◌≡◌,
}
use k_lite.Object.Types.{Instance, Service, instance_status}
use k_lite.Controller.Endpoints.{Inputs, build_ip_identity, build_node, first_selecting}
use k_lite.Xds.Rbac.{Envoy, build_listener-evaluate}
use k_lite.Policy.{evaluate}
use k_lite.Net.{ServiceVip}
use k_lite.Xds.{build_listener}

abbrev pub ip_of : Instance → String
ip_of i = (instance_status i).instance_ip

abbrev pub has_ip : String → List Instance → Bool
has_ip ip is = any (λ i. ip_of i == ip) is

-- No two instances have the same address.
abbrev pub addresses_once : List Instance → Bool
addresses_once [] = true
addresses_once (i ∷ is) = (ip_of i == "" || not (has_ip (ip_of i) is)) && addresses_once is

-- What one instance adds to the map.
abbrev added : List Service → Instance → Map String → Map String
added services i m =
    if ip_of i == ""
    then m
    else elim (first_selecting services i) [ none ↦ m | some s ↦ insert (ip_of i) s.meta.name m ]

added-unique_keys :
    (services : List Service) (i : Instance) (m : Map String)
    → unique_keys m ≡ true
    → unique_keys (added services i m) ≡ true
added-unique_keys services i m h = elim (Bool-cases (ip_of i == "")) [
  | inl e ↦ rw e h
  | inr e ↦ elim (Option-cases (first_selecting services i)) [
    | inl q ↦ rw (e, q) h
    | inr (s, q) ↦ rw (e, q) (unique_keys-insert (ip_of i) s.meta.name m h)
  ]
]

pub build_ip_identity-unique_keys :
    (services : List Service) (is : List Instance) (m : Map String)
    → unique_keys m ≡ true
    → unique_keys (build_ip_identity services is m) ≡ true
unfolding build_ip_identity
build_ip_identity-unique_keys services [] m h = h
build_ip_identity-unique_keys services (i ∷ is) m h =
    build_ip_identity-unique_keys services is (added services i m)
      (added-unique_keys services i m h)

-- An instance adds nothing under another address.
added-other :
    (services : List Service) (i : Instance) (m : Map String) (ip : String)
    → (ip_of i == ip) ≡ false
    → lookup ip (added services i m) ≡ lookup ip m
added-other services i m ip h = elim (Bool-cases (ip_of i == "")) [
  | inl e ↦ rw e refl
  | inr e ↦ elim (Option-cases (first_selecting services i)) [
    | inl q ↦ rw (e, q) refl
    | inr (s, q) ↦ rw (e, q) (ground (arith, lookup-insert (ip_of i) ip s.meta.name m))
  ]
]

identity-rest :
    (services : List Service) (is : List Instance) (m : Map String) (ip : String)
    → has_ip ip is ≡ false
    → lookup ip (build_ip_identity services is m) ≡ lookup ip m
unfolding build_ip_identity
identity-rest services [] m ip h = refl
identity-rest services (i ∷ is) m ip h =
    identity-rest services is (added services i m) ip (ground arith)
    ∙ added-other services i m ip (ground arith)

identity-here :
    (services : List Service) (is : List Instance) (m : Map String) (i : Instance) (s : Service)
    → addresses_once (i ∷ is) ≡ true
    → (ip_of i == "") ≡ false
    → first_selecting services i ≡ some s
    → lookup (ip_of i) (build_ip_identity services is (added services i m)) ≡ some s.meta.name
identity-here services is m i s once ip q =
    identity-rest services is (added services i m) (ip_of i) (ground arith)
    ∙ rw (ip, q)
        (ground (arith, lookup-insert (ip_of i) (ip_of i) s.meta.name m, eq_refl (ip_of i)))

-- An addressed instance is known as the first service that selects it.
pub identity-first_selecting :
    (services : List Service) (is : List Instance) (m : Map String) (i : Instance) (s : Service)
    → Among i is
    → addresses_once is ≡ true
    → (ip_of i == "") ≡ false
    → first_selecting services i ≡ some s
    → lookup (ip_of i) (build_ip_identity services is m) ≡ some s.meta.name
unfolding build_ip_identity
identity-first_selecting services [] m i s h once ip q = elim h [ ]
identity-first_selecting services (j ∷ is) m i s (inr later) once ip q =
    identity-first_selecting services is (added services j m) i s later (ground arith) ip q
identity-first_selecting services (j ∷ is) m i s (inl e) once ip q =
    subst
      (λ (x : Instance).
        addresses_once (x ∷ is) ≡ true
        → lookup (ip_of i) (build_ip_identity services is (added services x m)) ≡ some s.meta.name)
      (sym e) (λ o. identity-here services is m i s o ip q) once

-- What the proxy of a node decides is what the policies say of the two services: for the listener of
-- every service that has an address on the node, and every connection from an addressed instance, the
-- connection is let through exactly when `Evaluate` admits it from the first service that selects the
-- instance. It relies on Envoy behaving as documented, on no two instances sharing an address, and on
-- the address being a literal one.
pub build_node-evaluate :
    (parse_addr : String → Option ℕ) (envoy : Envoy parse_addr) (inputs : Inputs) (node : String)
    (svc : ServiceVip) (i : Instance) (s : Service) (bits : ℕ)
    → Among i inputs.instances
    → addresses_once inputs.instances ≡ true
    → (ip_of i == "") ≡ false
    → first_selecting inputs.services i ≡ some s
    → parse_addr (ip_of i) ≡ some bits
    → envoy.admits_source
        (build_listener parse_addr svc (build_node inputs node).net).filters
        (ip_of i)
      ≡ (evaluate inputs.policies s.meta.name svc.service).allowed
unfolding build_node
build_node-evaluate parse_addr envoy inputs node svc i s bits member once ip q literal =
    build_listener-evaluate parse_addr envoy inputs.policies svc (build_node inputs node).net
      (ip_of i) s.meta.name bits refl literal
      (build_ip_identity-unique_keys inputs.services inputs.instances [] refl)
      (identity-first_selecting inputs.services inputs.instances [] i s member once ip q)
