-- ===== src/Repository/Source.antt =====
-- internal/infrastructure/persistence/nodecr_source_k8s.go: the node config in a Kubernetes object. The
-- API is a parameter.
use multi_network_interface.Prelude.{Option, none, some, List, [], ◌∷◌, ◌++◌, if◌then◌else◌}
use multi_network_interface.Prelude.Int.{ℤ, pos}
use multi_network_interface.Prelude.Text.{Text, text, is_empty}
use multi_network_interface.Errors.{wrapped, Result, ok, err}
use multi_network_interface.Repository.{NodeInterface, NodeConfig}
use multi_network_interface.Controller.Objects.{
  Value, int_value, int64_value, Dict, find, get_string, Cr,
}

-- `m[key]` as an int64 or an int, with zero for every other type, float64 included.
int_field : Option Value → ℤ
int_field (some (int_value n)) = n
int_field (some (int64_value n)) = n
int_field _ = pos 0

-- An element of the list of interfaces.
unfoldable pub node_interface : Dict Value → NodeInterface
unfolding int_field
node_interface m = record {
  id = int_field (find (text "id") m);
  port_id = get_string m (text "portId");
  name = get_string m (text "name");
  mac_address = get_string m (text "macAddress");
  address = get_string m (text "address");
  cidr = get_string m (text "cidr");
  mtu = int_field (find (text "mtu") m);
}

-- An element that is not a map is skipped.
node_interfaces : List (Option (Dict Value)) → List NodeInterface
unfolding node_interface
node_interfaces [] = []
node_interfaces (none ∷ rest) = node_interfaces rest
node_interfaces (some m ∷ rest) = node_interface m ∷ node_interfaces rest

-- `unstructuredToNodeConfig`.
unfoldable pub unstructured_to_node_config : Cr → NodeConfig
unfolding node_interfaces
unstructured_to_node_config u = record {
  node_name = if is_empty u.node_name then u.name else u.node_name;
  interfaces = elim u.interfaces [ none ↦ [] | some elements ↦ node_interfaces elements ];
}

-- `GetNodeConfig`.
unfoldable pub get_node_config :
    (Text → Text → Result Cr) → Text → Text → Result (Option NodeConfig)
get_node_config get namespace node = elim (get namespace node) [
  | err e ↦
      err
        (wrapped (text "failed to get MultiNicNodeConfig " ++ (namespace ++ (text "/" ++ node))) e)
  | ok u ↦ ok (some (unstructured_to_node_config u))
]
