-- ===== src/Netd/Resolve.antt =====
-- What a node's DNS answers for the services that it was pushed (internal/netd/config.go, dns.go).
use text.Mathlib.TextPositions.{len-append}
use Prim.Native.String.{len}
use k_lite.Common.{
  Among, Bool, Bool-cases, List, Map, Option, Option-cases, String, [], ap, arith, concat, eq_iff,
  eq_refl, false, inl, inr, insert, is_some, lookup, lookup-insert, refl, some, subst, sym, true, ℕ,
  ◌==◌, ◌∙◌, ◌∷◌, ◌≡◌, ◌⊎◌,
}
use k_lite.Netd.Zone.{
  ConfigFault, NetConfig, Parsed, address, answer_service, fault, has_dot, is_service_label,
  parse_config, parse_services, parsed, serve_zone, type_a, vip_of, zone, zone_lookup,
}
use k_lite.Net.{NetDesired, ServiceVip}
use k_lite.Object.Validate.{is_alnum, is_dns_label, label_rest}
use k_lite.Controller.Vip.{in_pool}

Parsed-cases :
    {A : Type 0} (p : Parsed A) → ((f : ConfigFault) × (p ≡ fault f)) ⊎ ((a : A) × (p ≡ parsed a))
Parsed-cases (parsed a) = inr (a, refl)
Parsed-cases (fault f) = inl (f, refl)

label_rest-has_dot : (b : Bool) (s : String) → label_rest b s ≡ true → has_dot s ≡ false
unfolding label_rest is_alnum has_dot
label_rest-has_dot b String.[] h = refl
label_rest-has_dot b (String.◌∷◌ c s) h =
    ground (arith, label_rest-has_dot true s, label_rest-has_dot false s)

is_service_label_plain : (s : String) → is_service_label s ≡ true → has_dot s ≡ false
unfolding is_service_label is_dns_label is_alnum has_dot
is_service_label_plain String.[] h = refl
is_service_label_plain (String.◌∷◌ c s) h = ground (arith, label_rest-has_dot true s)

is_service_label_filled : (s : String) → is_service_label s ≡ true → (s == "") ≡ false
unfolding is_service_label is_dns_label
is_service_label_filled s h = elim (Bool-cases (s == "")) [
  | inr e ↦ e
  | inl e ↦
      let n : is_service_label "" ≡ true =
        subst (λ (y : String). is_service_label y ≡ true) ((eq_iff s "").0 e) h in
      absurd (cc n)
]

-- A name below the zone is longer than the zone.
below_zone : (l : String) → (concat l ".svc.klite." == zone) ≡ false
below_zone l = elim (Bool-cases (concat l ".svc.klite." == zone)) [
  | inr e ↦ e
  | inl e ↦
      let same_len = sym (len-append l ".svc.klite.") ∙ ap len ((eq_iff _ _).0 e) in
      absurd (omega (arith, same_len))
]

vips_of : {a b : NetConfig} → parsed a ≡ parsed b → a.vips ≡ b.vips
vips_of {a} {b} h = let e : a ≡ b = cc h in ap (λ (c : NetConfig). c.vips) e

module _ (to_lower : String → String) (parse_ip : String → Option (Option ℕ)) where
  parse_step :
      (s : ServiceVip) (ss : List ServiceVip) (vips out : Map ℕ)
      → parse_services to_lower parse_ip (s ∷ ss) vips ≡ parsed out
      → (w : ℕ) × (vip_of to_lower parse_ip s ≡ parsed w)
        × (is_some (lookup (to_lower s.service) vips) ≡ false)
        × (parse_services to_lower parse_ip ss (insert (to_lower s.service) w vips) ≡ parsed out)
        × (is_service_label (to_lower s.service) ≡ true)
  unfolding parse_services
  parse_step s ss vips out h = elim (Bool-cases (s.service == "")) [
    | inl a ↦ absurd (cc (rw a at h))
    | inr a ↦ elim (Bool-cases (is_service_label (to_lower s.service))) [
      | inr b ↦ absurd (cc (rw (a, b) at h))
      | inl b ↦ elim (Bool-cases (is_some (lookup (to_lower s.service) vips))) [
        | inl c ↦ absurd (cc (rw (a, b, c) at h))
        | inr c ↦ elim (Parsed-cases (vip_of to_lower parse_ip s)) [
          | inl (f, d) ↦ absurd (cc (rw (a, b, c, d, parse_services) at h))
          | inr (w, d) ↦ (w, d, c, rw (a, b, c, d, parse_services) at h, b)
        ]
      ]
    ]
  ]

  -- The loop over the services keeps what it has collected.
  parse_services-keeps :
      (ss : List ServiceVip) (vips out : Map ℕ) (key : String) (v : ℕ)
      → parse_services to_lower parse_ip ss vips ≡ parsed out
      → lookup key vips ≡ some v
      → lookup key out ≡ some v
  unfolding parse_services
  parse_services-keeps [] vips out key v h k = cc
  parse_services-keeps (s ∷ ss) vips out key v h k =
      let name = to_lower s.service in
      let (w, got, fresh, next_map, label) = parse_step s ss vips out h in
      parse_services-keeps ss (insert name w vips) out key v next_map
        (ground (arith, lookup-insert name key w vips, fresh, eq_iff name key))

  found_label :
      (s : ServiceVip) (ss : List ServiceVip) (vips out : Map ℕ)
      → parse_services to_lower parse_ip ss vips ≡ parsed out
      → Among s ss
      → is_service_label (to_lower s.service) ≡ true
  found_label s [] vips out h m = elim m [ ]
  found_label s (x ∷ ss) vips out h (inl e) =
      let (w, got, fresh, next_map, label) = parse_step x ss vips out h in
      subst (λ (y : ServiceVip). is_service_label (to_lower y.service) ≡ true) e label
  found_label s (x ∷ ss) vips out h (inr m) =
      let (w, got, fresh, next_map, label) = parse_step x ss vips out h in
      found_label s ss (insert (to_lower x.service) w vips) out next_map m

  parse_services-finds :
      (ss : List ServiceVip) (vips out : Map ℕ) (s : ServiceVip)
      → parse_services to_lower parse_ip ss vips ≡ parsed out
      → Among s ss
      → (v : ℕ) × (vip_of to_lower parse_ip s ≡ parsed v)
        × (lookup (to_lower s.service) out ≡ some v)
  parse_services-finds [] vips out s h m = elim m [ ]
  parse_services-finds (x ∷ ss) vips out s h (inr m) =
      let (w, got, fresh, next_map, label) = parse_step x ss vips out h in
      parse_services-finds ss (insert (to_lower x.service) w vips) out s next_map m
  parse_services-finds (x ∷ ss) vips out s h (inl e) =
      let (w, got, fresh, next_map, label) = parse_step x ss vips out h in
      let name = to_lower x.service in
      let here : lookup name (insert name w vips) ≡ some w =
        ground (arith, lookup-insert name name w vips, eq_refl name) in
      let found = parse_services-keeps ss (insert name w vips) out name w next_map here in
      subst
        (λ (y : ServiceVip).
          (v : ℕ) × (vip_of to_lower parse_ip y ≡ parsed v)
          × (lookup (to_lower y.service) out ≡ some v))
        e (w, got, found)

  config_vips :
      (net : NetDesired) (serial : ℕ) (cfg : NetConfig)
      → parse_config to_lower parse_ip net serial ≡ parsed cfg
      → parse_services to_lower parse_ip net.services [] ≡ parsed cfg.vips
  unfolding parse_config
  config_vips net serial cfg h =
      elim (Parsed-cases (parse_services to_lower parse_ip net.services [])) [
        | inl (f, e) ↦ absurd (cc (rw (e, parse_config) at h))
        | inr (vips, e) ↦ e ∙ ap (λ (y : Map ℕ). parsed y) (vips_of (rw (e, parse_config) at h))
      ]

  vip_parsed :
      (s : ServiceVip) (v : ℕ)
      → vip_of to_lower parse_ip s ≡ parsed v
      → (parse_ip s.vip ≡ some (some v)) × (in_pool v ≡ true)
  unfolding vip_of
  vip_parsed s v h = elim (Option-cases (parse_ip s.vip)) [
    | inl e ↦ absurd (cc (rw (e, vip_of) at h))
    | inr (o, e) ↦ elim (Option-cases o) [
      | inl f ↦ absurd (cc (rw (e, f, vip_of) at h))
      | inr (w, f) ↦ elim (Bool-cases (in_pool w)) [
        | inr g ↦ absurd (cc (rw (e, f, g, vip_of) at h))
        | inl g ↦
            let same_vip : w ≡ v = cc (rw (e, f, g, vip_of) at h) in
            (
              e ∙ ap (λ (y : Option ℕ). some y) (f ∙ ap (λ (y : ℕ). some y) same_vip),
              ap in_pool (sym same_vip) ∙ g,
            )
      ]
    ]
  ]

  -- Every service of a configuration that was accepted resolves: an A query for its name in the zone,
  -- in lower case, is answered with the address that the configuration gives it, which lies in the
  -- pool, and the service is what is logged. For all configurations, if cutting the zone off a name
  -- that ends in it leaves the label.
  pub serve_zone-service :
      (cut_suffix : String → String → Option String) (net : NetDesired) (serial : ℕ)
      (cfg : NetConfig) (s : ServiceVip)
      → ((l : String) → cut_suffix (concat l ".svc.klite.") ".svc.klite." ≡ some l)
      → parse_config to_lower parse_ip net serial ≡ parsed cfg
      → Among s net.services
      → (v : ℕ) × (parse_ip s.vip ≡ some (some v))
        × (in_pool v ≡ true)
        × (serve_zone cut_suffix cfg (record {
          question_name = concat (to_lower s.service) ".svc.klite.";
          question_type = type_a;
          is_internet = true;
        })
            ≡ (address v, some (to_lower s.service)))
  unfolding serve_zone zone_lookup answer_service
  serve_zone-service cut_suffix net serial cfg s cut h m =
      let vips = config_vips net serial cfg h in
      let (v, got, found) = parse_services-finds net.services [] cfg.vips s vips m in
      let label = found_label s net.services [] cfg.vips vips m in
      let (literal, pool) = vip_parsed s v got in
      (
        v,
        literal,
        pool,
        rw
            (
              below_zone (to_lower s.service),
              cut (to_lower s.service),
              is_service_label_filled (to_lower s.service) label,
              is_service_label_plain (to_lower s.service) label,
              found,
              zone_lookup,
            )
            refl,
      )
