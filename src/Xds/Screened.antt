-- ===== src/Xds/Screened.antt =====
-- What the screening of a node's state guarantees about its resources (validateNet and buildEndpoints of
-- internal/xds/builder.go).
use k_lite.Common.{
  Bool, Bool-cases, List, Option, String, [], any, any-append, arith, contains, eq_iff, eq_refl,
  false, inl, inr, map, none, not, refl, some, subst, sym, true, ℕ, ◌&&◌, ◌++◌, ◌==◌, ◌||◌, ◌∙◌,
  ◌∷◌, ◌≡◌,
}
use k_lite.Net.{EndpointGroup, NetDesired, ServiceVip}
use k_lite.Xds.{LoadAssignment}
use k_lite.Xds.Resources.{
  NetFault, build_endpoints, build_load_assignment, empty_assignments, fault_if, group_twice,
  validate_endpoint_groups, validate_group, validate_identity, validate_ingress_listeners,
  validate_net, validate_services, ◌else_check◌,
}

abbrev pub assignment_for : String → List LoadAssignment → Bool
assignment_for name as' = any (λ a. a.cluster_name == name) as'

-- No two assignments for one cluster.
abbrev pub unique_assignments : List LoadAssignment → Bool
unique_assignments [] = true
unique_assignments (a ∷ as') = not (assignment_for a.cluster_name as') && unique_assignments as'

moved :
    (seen : List String) (a b : String) → contains seen a ≡ true → a ≡ b → contains seen b ≡ true
moved seen a b h e = subst (λ (x : String). contains seen x ≡ true) e h

empty_assignments-covers :
    (ss : List ServiceVip) (seen : List String) (name : String)
    → any (λ s. s.service == name) ss ≡ true
    → (contains seen name || assignment_for name (empty_assignments ss seen)) ≡ true
unfolding empty_assignments
empty_assignments-covers [] seen name h = cc
empty_assignments-covers (s ∷ ss) seen name h = elim (Bool-cases (contains seen s.service)) [
  | inl e ↦ rw e (
      ground (
        arith,
        eq_iff s.service name,
        empty_assignments-covers ss seen name,
        moved seen s.service name,
      ))
  | inr e ↦ rw e (ground (arith, empty_assignments-covers ss (s.service ∷ seen) name))
]

empty_assignments-skips :
    (ss : List ServiceVip) (seen : List String) (name : String)
    → contains seen name ≡ true
    → assignment_for name (empty_assignments ss seen) ≡ false
unfolding empty_assignments
empty_assignments-skips [] seen name h = refl
empty_assignments-skips (s ∷ ss) seen name h = elim (Bool-cases (contains seen s.service)) [
  | inl e ↦ rw e (empty_assignments-skips ss seen name h)
  | inr e ↦ rw e (
      ground (
        arith,
        eq_iff s.service name,
        moved seen s.service name,
        empty_assignments-skips ss (s.service ∷ seen) name,
      ))
]

empty_assignments_unique :
    (ss : List ServiceVip) (seen : List String)
    → unique_assignments (empty_assignments ss seen) ≡ true
unfolding empty_assignments
empty_assignments_unique [] seen = refl
empty_assignments_unique (s ∷ ss) seen = elim (Bool-cases (contains seen s.service)) [
  | inl e ↦ rw e (empty_assignments_unique ss seen)
  | inr e ↦ rw e (
      ground (
        arith,
        eq_refl s.service,
        empty_assignments_unique ss (s.service ∷ seen),
        empty_assignments-skips ss (s.service ∷ seen) s.service,
      ))
]

abbrev group_names : List EndpointGroup → List String
group_names gs = map (λ g. g.service) gs

assignment_for-groups :
    (node name : String) (gs : List EndpointGroup)
    → assignment_for name (map (build_load_assignment node) gs) ≡ contains (group_names gs) name
unfolding build_load_assignment
assignment_for-groups node name [] = refl
assignment_for-groups node name (g ∷ gs) = ground (arith, assignment_for-groups node name gs)

else_check-none : (a b : Option NetFault) → (a else_check b) ≡ none → (a ≡ none) × (b ≡ none)
else_check-none none b h = (refl, h)
else_check-none (some e) b h = cc

groups_unique :
    (parse_addr : String → Option ℕ) (node : String) (gs : List EndpointGroup) (seen : List String)
    → validate_endpoint_groups parse_addr gs seen ≡ none
    → (unique_assignments (map (build_load_assignment node) gs) ≡ true)
      × ((name : String) → contains seen name ≡ true → contains (group_names gs) name ≡ false)
unfolding validate_endpoint_groups build_load_assignment
groups_unique parse_addr node [] seen h = (refl, λ name k. refl)
groups_unique parse_addr node (g ∷ gs) seen h =
    let a = fault_if (contains seen g.service) (group_twice g.service) in
    let b = validate_group parse_addr g.service g.endpoints in
    let c = validate_endpoint_groups parse_addr gs (g.service ∷ seen) in
    let (first, rest) = else_check-none a (b else_check c) h in
    let (mid, last) = else_check-none b c rest in
    let (u, fresh) = groups_unique parse_addr node gs (g.service ∷ seen) last in
    (
      ground
          (arith, u, assignment_for-groups node g.service gs, fresh g.service, eq_refl g.service),
      λ name k. ground (arith, fresh name, moved seen g.service name, eq_iff g.service name),
    )

unique-append :
    (xs ys : List LoadAssignment)
    → unique_assignments xs ≡ true
    → unique_assignments ys ≡ true
    → ((name : String) → assignment_for name xs ≡ true → assignment_for name ys ≡ false)
    → unique_assignments (xs ++ ys) ≡ true
unique-append [] ys h k d = k
unique-append (x ∷ xs) ys h k d = ground (
  arith,
  unique-append xs ys (ground arith) k (λ name m. d name (ground arith)),
  any-append (λ (a : LoadAssignment). a.cluster_name == x.cluster_name) xs ys,
  d x.cluster_name,
  eq_refl x.cluster_name,
)

-- Screened input makes a snapshot whose cross references hold: every service, and so every cluster that
-- asks for endpoints, has a load assignment of its name, and no two assignments share a name.
pub build_endpoints-consistent :
    (parse_addr : String → Option ℕ) (node : String) (net : NetDesired)
    → validate_net parse_addr net ≡ none
    → (unique_assignments (build_endpoints node net) ≡ true)
      × ((name : String)
          → any (λ s. s.service == name) net.services ≡ true
          → assignment_for name (build_endpoints node net) ≡ true)
unfolding validate_net build_endpoints
build_endpoints-consistent parse_addr node net h =
    let a = validate_services parse_addr net.services [] in
    let b = validate_endpoint_groups parse_addr net.endpoints [] in
    let c =
      validate_ingress_listeners parse_addr net.ingress_listeners []
      else_check validate_identity parse_addr net.ip_identity in
    let (first, rest) = else_check-none a (b else_check c) h in
    let (mid, last) = else_check-none b c rest in
    let (u, fresh) = groups_unique parse_addr node net.endpoints [] mid in
    let names = group_names net.endpoints in
    let groups = map (build_load_assignment node) net.endpoints in
    let empties = empty_assignments net.services names in
    (
      unique-append groups empties u (empty_assignments_unique net.services names) (λ name m.
          empty_assignments-skips net.services names name
            (sym (assignment_for-groups node name net.endpoints) ∙ m)),
      λ name m.
          any-append (λ (x : LoadAssignment). x.cluster_name == name) groups empties
          ∙ ground (
            arith,
            assignment_for-groups node name net.endpoints,
            empty_assignments-covers net.services names name m,
          ),
    )
