-- ===== src/Netd/Zone.antt =====
-- internal/netd/config.go and dns.go: the configuration that a node is pushed, and the answers of the
-- svc.klite zone. Parsing an address is a parameter: `none` is no address, `some none` an IPv6 one.
-- Forwarding and the encoding of messages are left out.
use Prim.Native.Char.{code}
use Prim.Native.String.{len}
use k_lite.Common.{
  Bool, List, Map, Option, String, [], concat, eqb, false, if◌then◌else◌, insert, is_some, leb,
  lookup, map, none, not, some, true, ℕ, ◌&&◌, ◌==◌, ◌||◌, ◌∷◌,
}
use k_lite.Controller.Pools.{is_used}
use k_lite.Common.Int.{ℤ}
use k_lite.Netd.{QueryLog, record_query}
use k_lite.Net.{NetDesired, ProbeTarget, ServiceVip}
use k_lite.Object.Validate.{is_dns_label, ◌then◌}
use k_lite.Controller.Vip.{in_pool}

pub record ProbeAddress : Type 0 where
  pub probed_instance : String
  pub probed_ip : String
  pub probed_port : ℤ

pub record NetConfig : Type 0 where
  pub serial : ℕ
  pub vips : Map ℕ
  pub vip_list : List ℕ
  pub targets : List ProbeAddress

-- emptyConfig
abbrev pub empty_config : NetConfig
empty_config = record { serial = 0; vips = []; vip_list = []; targets = [] }

pub data ConfigFault : Type 0 where
  empty_name : ConfigFault
  not_a_service_label listed_again unparsed_vip outside_pool : String → ConfigFault

pub data Parsed {ℓ} (A : Type ℓ) : Type ℓ where
  parsed : A → Parsed A
  fault : ConfigFault → Parsed A

-- serviceLabel
unfoldable pub is_service_label : String → Bool
is_service_label s = is_dns_label s && leb (len s) 63

-- The loop that collects each address once.
unfoldable pub distinct_vips : Map ℕ → List ℕ → List ℕ
distinct_vips [] seen = []
distinct_vips ((name, v) ∷ vips) seen =
    let skip = distinct_vips vips seen in
    let take_it = v ∷ distinct_vips vips (v ∷ seen) in if is_used seen v then skip else take_it

module _ (to_lower : String → String) (parse_ip : String → Option (Option ℕ)) where
  -- The address of a service, or why it has none.
  unfoldable pub vip_of : ServiceVip → Parsed ℕ
  vip_of s = elim (parse_ip s.vip) [
    | none ↦ fault (unparsed_vip s.service)
    | some ip ↦ elim ip [
      | none ↦ fault (outside_pool s.service)
      | some v ↦ if in_pool v then parsed v else fault (outside_pool s.service)
    ]
  ]

  unfoldable pub parse_services : List ServiceVip → Map ℕ → Parsed (Map ℕ)
  unfolding vip_of is_service_label
  parse_services [] vips = parsed vips
  parse_services (s ∷ ss) vips =
      let name = to_lower s.service in
      let rest : Parsed (Map ℕ) = elim (vip_of s) [
        | fault f ↦ fault f
        | parsed v ↦ parse_services ss (insert name v vips)
      ] in
      if s.service == ""
      then fault empty_name
      else if not (is_service_label name)
      then fault (not_a_service_label s.service)
      else if is_some (lookup name vips)
      then fault (listed_again name)
      else rest

  unfoldable pub parse_config : NetDesired → ℕ → Parsed NetConfig
  unfolding parse_services distinct_vips
  parse_config net serial = elim (parse_services net.services []) [
    | fault f ↦ fault f
    | parsed vips ↦ parsed (record {
      serial = serial;
      vips = vips;
      vip_list = distinct_vips vips [];
      targets =
          map
            (λ (t : ProbeTarget). record {
              probed_instance = t.instance_name;
              probed_ip = t.ip;
              probed_port = t.port;
            })
            net.probe_targets;
    })
  ]

abbrev pub zone : String
zone = "svc.klite."

pub data QueryType : Type 0 where
  type_a type_aaaa type_soa type_transfer type_other : QueryType

pub record Question : Type 0 where
  -- the name in its canonical form
  pub question_name : String
  pub question_type : QueryType
  pub is_internet : Bool

pub data Answer : Type 0 where
  refused : Answer
  soa no_data no_name : ℕ → Answer
  address : ℕ → Answer

-- strings.Contains(s, ".")
unfoldable pub has_dot : String → Bool
has_dot String.[] = false
has_dot (String.◌∷◌ c s) = eqb (code c) 46 || has_dot s

abbrev is_transfer : QueryType → Bool
is_transfer type_transfer = true
is_transfer _ = false

-- The switch of serveService: the answer, and the service to log
unfoldable pub answer_service : NetConfig → QueryType → Option (String × ℕ) → Answer × Option String
answer_service cfg t none = (no_name cfg.serial, none)
answer_service cfg type_a (some (label, v)) = (address v, some label)
answer_service cfg t (some (label, v)) = (no_data cfg.serial, none)

module _ (cut_suffix : String → String → Option String) where
  -- lookup: the label and the address of a name
  unfoldable pub zone_lookup : NetConfig → String → Option (String × ℕ)
  zone_lookup cfg name = elim (cut_suffix name (concat "." zone)) [
    | none ↦ none
    | some label ↦
        if label == "" || has_dot label
        then none
        else elim (lookup label cfg.vips) [ none ↦ none | some v ↦ some (label, v) ]
  ]

  -- serveZone
  unfoldable pub serve_zone : NetConfig → Question → Answer × Option String
  unfolding zone_lookup answer_service
  serve_zone cfg q =
      let at_zone : Answer × Option String = elim q.question_type [
        | type_soa ↦ (soa cfg.serial, none)
        | type_a ↦ (no_data cfg.serial, none)
        | type_aaaa ↦ (no_data cfg.serial, none)
        | type_transfer ↦ (no_data cfg.serial, none)
        | type_other ↦ (no_data cfg.serial, none)
      ] in
      let served = answer_service cfg q.question_type (zone_lookup cfg q.question_name) in
      if not q.is_internet || is_transfer q.question_type
      then (refused, none)
      else if q.question_name == zone
      then at_zone
      else served

  -- The log after an answer to a client; a client without an address is not recorded.
  unfoldable pub serve_logged : ℕ → String → NetConfig → Question → QueryLog → Answer × QueryLog
  unfolding serve_zone
  serve_logged now src cfg q log =
      let (a, label) = serve_zone cfg q in
      (
        a,
        elim label [
          | none ↦ log
          | some l ↦
              if src == ""
              then log
              else record_query (record { source_ip = src; service = l; unix_ms = now }) log
        ],
      )
