-- ===== src/Xds/Examples.antt =====
-- A node's network state with two services, and the xDS theorems at it.
use k_lite.Common.{
  Bool, List, Option, String, [], any, lookup, not, refl, some, true, ℕ, ◌&&◌, ◌==◌, ◌∷◌, ◌≡◌,
}
use k_lite.Common.Int.{pos}
use k_lite.Object.Types.{NetworkPolicy, deny, empty_meta}
use k_lite.Policy.{compile, evaluate}
use k_lite.Net.{NetDesired, ServiceVip, empty_net}
use k_lite.Xds.{
  Filter, Principal, any_principal, build_listener, rbac_allow, rbac_deny, remote_ip, tcp_proxy,
}
use k_lite.Xds.Rbac.{Envoy, build_listener-evaluate}

abbrev pub every_literal : String → Option ℕ
every_literal s = some 32

abbrev pub matches_source : Principal → String → Bool
matches_source any_principal ip = true
matches_source (remote_ip a bits) ip = a == ip

abbrev pub admits_by_docs : List Filter → String → Bool
admits_by_docs [] ip = true
admits_by_docs (rbac_deny name ps ∷ fs) ip =
    not (any (λ p. any (λ q. matches_source q ip) p.principals) ps) && admits_by_docs fs ip
admits_by_docs (rbac_allow name ps ∷ fs) ip =
    any (λ p. any (λ q. matches_source q ip) p.principals) ps && admits_by_docs fs ip
admits_by_docs (tcp_proxy cluster ∷ fs) ip = true

abbrev pub documented : Envoy every_literal
documented = record {
  principal_matches = matches_source;
  admits_source = admits_by_docs;
  any_matches = λ ip. refl;
  host_matches = λ a ip bits h. refl;
  deny_filter = λ name ps fs ip. refl;
  allow_filter = λ name ps fs ip. refl;
  proxy_filter = λ cluster fs ip. refl;
}

abbrev policies : List NetworkPolicy
policies =
    record {
      meta = record empty_meta { name = "deny-a-to-c" };
      action = deny;
      rules = record { from = "a"; to = "c"; except = [] } ∷ [];
    }
    ∷ []

abbrev service_c : ServiceVip
service_c = record { service = "c"; vip = "10.44.64.1"; port = pos 80; target_port = pos 8080 }

abbrev net : NetDesired
net = record empty_net {
  services = service_c ∷ [];
  policies = compile policies;
  ip_identity = ("10.44.128.2", "a") ∷ ("10.44.128.3", "b") ∷ [];
}

build_listener-evaluate_example :
    documented.admits_source (build_listener every_literal service_c net).filters "10.44.128.2"
    ≡ (evaluate policies "a" "c").allowed
unfolding lookup
build_listener-evaluate_example =
    build_listener-evaluate every_literal documented policies service_c net "10.44.128.2" "a" 32
      refl refl refl refl
