-- ===== src/Netd/Examples.antt =====
-- A short history of answers.
use text.Mathlib.TextPositions.{len-append, slice-append_left}
use Prim.Native.String.{len, slice}
use k_lite.Common.{
  Option, String, [], ap, arith, concat, inl, insert, keep, leb, lookup, max, min, refl, some, true,
  ℕ, ◌+◌, ◌-◌, ◌∙◌, ◌∷◌, ◌≡◌,
}
use k_lite.Netd.{QueryEntry, entries_from, query_capacity, query_retention_ms, record_query, since}
use k_lite.Netd.Window.{log_after, since-window, window}
use k_lite.Netd.Zone.{
  NetConfig, address, distinct_vips, is_service_label, parse_config, parse_services, serve_zone,
  type_a, vip_of,
}
use k_lite.Net.{NetDesired, ServiceVip, empty_net}
use k_lite.Controller.Vip.{in_pool, pool_start}
use k_lite.Common.Int.{pos}
use k_lite.Object.Validate.{is_alnum, is_dns_label, label_rest}
use k_lite.Netd.Resolve.{serve_zone-service}

abbrev answers : ℕ → QueryEntry
answers n = record { source_ip = "10.44.128.2"; service = "c"; unix_ms = 40000 + n }

since-window_example :
    since 41000 40001 (log_after answers 3)
    ≡ keep
        (λ e. leb (max 40001 (41000 - query_retention_ms)) e.unix_ms)
        (window answers (min 3 query_capacity) (3 - min 3 query_capacity))
since-window_example = since-window answers 3 41000 40001

since_run : since 41000 40001 (log_after answers 3) ≡ answers 1 ∷ answers 2 ∷ []
unfolding since entries_from record_query
since_run = refl

-- A configuration with one service.
abbrev one_service_vip : ServiceVip
one_service_vip = record {
  service = "web";
  vip = "10.44.64.1";
  port = pos 80;
  target_port = pos 80;
}

abbrev one_service_net : NetDesired
one_service_net = record empty_net { services = one_service_vip ∷ [] }

abbrev pool_ip : String → Option (Option ℕ)
pool_ip s = some (some pool_start)

abbrev same_case : String → String
same_case s = s

abbrev one_service_config : NetConfig
one_service_config = record {
  serial = 1;
  vips = insert "web" pool_start [];
  vip_list = pool_start ∷ [];
  targets = [];
}

-- Cuts as many characters off as the suffix has.
abbrev cut_length : String → String → Option String
cut_length s suffix = some (slice s 0 (len s - len suffix))

cut_length_law : (l : String) → cut_length (concat l ".svc.klite.") ".svc.klite." ≡ some l
cut_length_law l =
    let shorter : len (concat l ".svc.klite.") - len ".svc.klite." ≡ len l =
      omega (arith, len-append l ".svc.klite.") in
    ap (λ (n : ℕ). some (slice (concat l ".svc.klite.") 0 n)) shorter
    ∙ ap (λ (t : String). some t) (slice-append_left l ".svc.klite.")

serve_zone-service_example :
    (v : ℕ) × (some (some pool_start) ≡ some (some v))
    × (in_pool v ≡ true)
    × (serve_zone cut_length one_service_config (record {
      question_name = concat "web" ".svc.klite.";
      question_type = type_a;
      is_internet = true;
    })
        ≡ (address v, some "web"))
unfolding parse_config parse_services vip_of is_service_label is_dns_label label_rest is_alnum
    lookup insert distinct_vips
serve_zone-service_example =
    serve_zone-service same_case pool_ip cut_length one_service_net 1 one_service_config
      one_service_vip cut_length_law refl (inl refl)
