-- ===== src/Object/Validate.antt =====
-- internal/object/validate.go: what the store must never hold. An error is a constructor, without the
-- text of its message. Lengths are those of the UTF-8.
pub mod Labels
use Prim.Native.Char.{Char, code}
use Prim.Native.String.{len}
use k_lite.Common.{
  Bool, List, Map, Option, String, [], eqb, false, if◌then◌else◌, leb, length, ltb, none, not, some,
  sort_by, true, ℕ, ◌&&◌, ◌==◌, ◌||◌, ◌∷◌,
}
use k_lite.Common.Int.{ltb_ℤ, pos, ℤ}
use k_lite.Object.Types.{
  Container, EnvVar, NetworkPolicy, Node, Object, PolicyRule, Service, Workload, action_unspecified,
  allow, deny, node_object, policy_object, service_object, workload_object,
}
use k_lite.Object.Registry.{kind_of, meta_of}

pub data Invalid : Type 0 where
  empty_envelope name_required name_too_long not_a_label empty_key long_key long_value : Invalid
  bad_port bad_replicas bad_containers no_image unnamed_env bad_max_instances bad_action : Invalid
  no_from no_to stray_except : Invalid

abbrev pub max_name_len : ℕ
max_name_len = 63

abbrev pub max_label_len : ℕ
max_label_len = 63

abbrev pub max_port : ℕ
max_port = 65535

abbrev pub max_replicas : ℕ
max_replicas = 1000

-- The first error of two checks in a row.
infixr 40 ◌then◌
abbrev pub ◌then◌ : Option Invalid → Option Invalid → Option Invalid
none then b = b
some e then b = some e

abbrev pub reject_if : Bool → Invalid → Option Invalid
reject_if b e = if b then some e else none

-- [a-z0-9]
unfoldable pub is_alnum : Char → Bool
is_alnum c = leb 97 (code c) && leb (code c) 122 || leb 48 (code c) && leb (code c) 57

-- The rest of a label, after a character that may end it or not.
unfoldable pub label_rest : Bool → String → Bool
unfolding is_alnum
label_rest may_end String.[] = may_end
label_rest may_end (String.◌∷◌ c s) =
    let after_alnum = label_rest true s in
    let after_dash = label_rest false s in
    is_alnum c && after_alnum || eqb (code c) 45 && after_dash

-- dnsLabel
unfoldable pub is_dns_label : String → Bool
unfolding label_rest
is_dns_label String.[] = false
is_dns_label (String.◌∷◌ c s) = is_alnum c && label_rest true s

-- validateName
unfoldable pub validate_name : String → Option Invalid
unfolding is_dns_label
validate_name name =
    reject_if (name == "") name_required
    then reject_if (ltb max_name_len (len name)) name_too_long
    then reject_if (not (is_dns_label name)) not_a_label

-- validateLabels, over the sorted labels
validate_sorted_labels : Map String → Option Invalid
validate_sorted_labels [] = none
validate_sorted_labels ((k, v) ∷ labels) =
    reject_if (k == "") empty_key
    then reject_if (ltb max_label_len (len k)) long_key
    then reject_if (ltb max_label_len (len v)) long_value
    then validate_sorted_labels labels

unfoldable pub validate_labels : Map String → Option Invalid
unfolding validate_sorted_labels
validate_labels labels = validate_sorted_labels (sort_by (λ l. l.0) labels)

-- validatePort
unfoldable pub validate_port : ℤ → Option Invalid
validate_port p = reject_if (ltb_ℤ p (pos 1) || ltb_ℤ (pos max_port) p) bad_port

validate_env : List EnvVar → Option Invalid
validate_env [] = none
validate_env (e ∷ es) = reject_if (e.env_name == "") unnamed_env then validate_env es

validate_ports : List ℤ → Option Invalid
unfolding validate_port
validate_ports [] = none
validate_ports (p ∷ ps) = validate_port p then validate_ports ps

-- validateContainer
unfoldable pub validate_container : Container → Option Invalid
unfolding validate_env validate_ports validate_port
validate_container c =
    reject_if (c.image == "") no_image
    then validate_env c.env
    then validate_ports c.ports
    then elim c.readiness_probe [ none ↦ none | some p ↦ validate_port p ]

-- The check of the template's containers.
unfoldable pub validate_containers : List Container → Option Invalid
unfolding validate_container
validate_containers [] = some bad_containers
validate_containers (c ∷ []) = validate_container c
validate_containers (c ∷ d ∷ ds) = some bad_containers

-- validateWorkload
unfoldable pub validate_workload : Workload → Option Invalid
unfolding validate_name validate_labels validate_containers
validate_workload w =
    let r = w.spec.replicas in
    reject_if (ltb_ℤ r (pos 0) || ltb_ℤ (pos max_replicas) r) bad_replicas
    then (if w.spec.node_name == "" then none else validate_name w.spec.node_name)
    then validate_labels w.spec.template.template_labels
    then validate_containers w.spec.template.containers

-- validateService
unfoldable pub validate_service : Service → Option Invalid
unfolding validate_labels validate_port
validate_service s =
    validate_labels s.spec.selector
    then validate_port s.spec.port
    then validate_port s.spec.target_port

-- validateNode
unfoldable pub validate_node : Node → Option Invalid
validate_node n = reject_if (ltb_ℤ n.max_instances (pos 0)) bad_max_instances

unfoldable pub validate_rules : List PolicyRule → Option Invalid
validate_rules [] = none
validate_rules (r ∷ rs) =
    reject_if (r.from == "") no_from
    then reject_if (r.to == "") no_to
    then reject_if (ltb 0 (length r.except) && not (r.to == "*")) stray_except
    then validate_rules rs

-- validatePolicy
unfoldable pub validate_policy : NetworkPolicy → Option Invalid
unfolding validate_rules
validate_policy p =
    elim p.action [ action_unspecified ↦ some bad_action | allow ↦ none | deny ↦ none ]
    then validate_rules p.rules

-- The switch of Validate.
unfoldable pub validate_spec : Object → Option Invalid
unfolding validate_workload validate_service validate_node validate_policy
validate_spec (workload_object w) = validate_workload w
validate_spec (service_object s) = validate_service s
validate_spec (node_object n) = validate_node n
validate_spec (policy_object p) = validate_policy p
validate_spec o = none

-- Validate
unfoldable pub validate : Object → Option Invalid
unfolding validate_name validate_labels validate_spec
validate o = elim (kind_of o) [
  | none ↦ some empty_envelope
  | some k ↦
      validate_name (meta_of o).name then validate_labels (meta_of o).labels then validate_spec o
]
