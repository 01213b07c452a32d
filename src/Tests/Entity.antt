-- ===== src/Tests/Entity.antt =====
-- Entities, names and a node config, over IPv4.
use multi_network_interface.Prelude.{
  ◌≤◌, ◌≡◌, refl, true, false, Option, some, List, [], ◌∷◌, length, all,
}
use multi_network_interface.Prelude.Int.{pos}
use multi_network_interface.Prelude.Text.{
  Text, text, split_on, atoi_digits, eqb, digits_value, strip_prefix, itoa, itoa_ℤ,
}
use multi_network_interface.Prelude.Text.Words.{atoi, cut_at}
use multi_network_interface.Errors.{Result, ok}
use multi_network_interface.Entities.{
  to_interface_name, new_interface_index, new_mac_address, new_ip_address, new_cidr, new_mtu,
  cidr_contains,
}
use multi_network_interface.Entities.NodeName.{node_name_matches, new_node_name}
use multi_network_interface.Entities.NodeName.Pattern.{is_label, node_name_matches-labels}
use multi_network_interface.Entities.InterfaceName.{new_interface_name}
use multi_network_interface.Entities.Interface.{
  within_cidr, NetworkInterface, new_network_interface,
}
use multi_network_interface.Entities.Laws.{Built, new_network_interface-Built}
use multi_network_interface.Repository.{
  NodeInterface, NodeConfig, load_all, load_from, load_entry, entry_id,
}
use multi_network_interface.Repository.Laws.{load_all-bare}
use multi_network_interface.Tests.{ipv4, card, iface}

node_name_matches-labels_example :
    node_name_matches (text "node-1.local") ≡ all is_label (split_on b'.' (text "node-1.local"))
node_name_matches-labels_example = node_name_matches-labels (text "node-1.local")

parsed : new_interface_name (text "multinic3") ≡ ok (record { value = text "multinic3"; index = 3 })
unfolding new_interface_name strip_prefix atoi_digits
parsed = refl

made :
    new_network_interface ipv4
      (pos 0)
      card
      (text "node-1")
      (text "10.0.0.5")
      (text "10.0.0.0/24")
      (pos 1450)
    ≡ ok iface
unfolding new_network_interface new_interface_name ipv4 new_interface_index new_mac_address
    new_node_name node_name_matches new_ip_address new_cidr new_mtu to_interface_name itoa_ℤ itoa
    within_cidr cidr_contains strip_prefix atoi_digits atoi split_on cut_at eqb digits_value
made = refl

new_network_interface-Built_example :
    Built ipv4
      (pos 0)
      (to_interface_name (record { value = pos 0 }))
      card
      (text "node-1")
      (text "10.0.0.5")
      (text "10.0.0.0/24")
      (pos 1450)
      false
      iface
new_network_interface-Built_example =
    new_network_interface-Built ipv4 (pos 0) card (text "node-1") (text "10.0.0.5")
      (text "10.0.0.0/24") (pos 1450) iface made

abbrev named : NetworkInterface
named = record iface { explicit_name = true }

abbrev bare : NodeInterface
bare = record {
  id = pos 0;
  port_id = [];
  name = [];
  mac_address = card;
  address = text "10.0.0.5";
  cidr = text "10.0.0.0/24";
  mtu = pos 1450;
}

abbrev config : NodeConfig
config = record { node_name = text "node-1"; interfaces = bare ∷ [] }

abbrev source : Text → Result (Option NodeConfig)
source node = ok (some config)

-- The entry at position 0 gets the id 1.
abbrev loaded_ones : List NetworkInterface
loaded_ones =
    (record iface {
      id = record { value = pos 1 };
      interface_name = record { value = text "multinic1"; index = 1 };
    })
    ∷ []

loads : load_all ipv4 source (text "node-1") ≡ ok loaded_ones
unfolding load_all load_from load_entry entry_id new_network_interface new_interface_name ipv4
    new_interface_index new_mac_address new_node_name node_name_matches new_ip_address new_cidr
    new_mtu to_interface_name itoa_ℤ itoa within_cidr cidr_contains strip_prefix atoi_digits atoi
    split_on cut_at eqb digits_value
loads = refl

load_all-bare_example : length loaded_ones ≤ 9
load_all-bare_example =
    load_all-bare ipv4 source (text "node-1") config refl loaded_ones ((refl, refl), tt) loads
