-- ===== src/Object/Examples.antt =====
-- The default values of a service and a node.
use k_lite.Common.{String, [], refl, ◌≡◌}
use k_lite.Common.Int.{pos}
use k_lite.Object.Types.{Object, empty_meta, service_object}
use k_lite.Object.Validate.{validate_name}
use k_lite.Object.Validate.Labels.{allocation_name-injective}
use k_lite.Object.Defaults.{default_object, default_object_idem}

abbrev plain_service : Object
plain_service = service_object (record {
  meta = record empty_meta { name = "c" };
  spec = record { selector = []; port = pos 80; target_port = pos 0 };
})

default_object_idem_example :
    default_object (default_object plain_service) ≡ default_object plain_service
default_object_idem_example = default_object_idem plain_service

abbrev port_80 : Object
port_80 = service_object (record {
  meta = record empty_meta { name = "c" };
  spec = record { selector = []; port = pos 80; target_port = pos 80 };
})

target_port_filled : default_object plain_service ≡ port_80
unfolding default_object
target_port_filled = refl

abbrev web_name : String
web_name = "web"

abbrev node_name_1 : String
node_name_1 = "n1"

allocation_name-injective_example : (web_name ≡ web_name) × (node_name_1 ≡ node_name_1)
unfolding validate_name
allocation_name-injective_example =
    allocation_name-injective web_name web_name node_name_1 node_name_1 refl refl refl
