-- ===== src/Tests/Files.antt =====
-- A netplan file and an ifcfg file of the interface, on a node where its card is down or up.
use multi_network_interface.Prelude.{◌≡◌, refl, true, false, [], ◌∷◌}
use multi_network_interface.Prelude.Int.{pos}
use multi_network_interface.Prelude.Text.{
  Text, text, is_empty, trim_space, to_lower, eqb, contains, has_prefix, digits_value,
}
use multi_network_interface.Prelude.Text.Words.{base_name, has_suffix, trim_suffix}
use multi_network_interface.Errors.{Result, ok}
use multi_network_interface.Host.{Host}
use multi_network_interface.Host.Queries.{find_interface_name_by_mac, is_interface_up}
use multi_network_interface.Drift.{
  NetplanYaml, extract_netplan_config, extract_interface_name_from_path, is_netplan_drift,
  check_config_drift,
}
use multi_network_interface.Drift.Laws.{IsSame, IsIdle, is_netplan_drift-IsSame}
use multi_network_interface.Tests.{ipv4, card, iface, node_with}

abbrev pub yaml : NetplanYaml
yaml = record {
  ethernets =
      (
        text "multinic0",
        record {
          dhcp4 = false;
          mtu = pos 1450;
          addresses = text "10.0.0.5/24" ∷ [];
          match_mac = card;
          set_name = text "multinic0";
        },
      )
      ∷ [];
  version = pos 2;
}

abbrev pub decode : Text → Result NetplanYaml
decode content = ok yaml

abbrev pub path : Text
path = text "/etc/netplan/90-multinic0.yaml"

abbrev pub down_node : Host
unfolding node_with
down_node = node_with (text "state DOWN") []

abbrev pub up_node : Host
unfolding node_with
up_node = node_with (text "state UP") []

no_drift : is_netplan_drift down_node ipv4 decode iface path ≡ false
unfolding is_netplan_drift extract_netplan_config check_config_drift down_node node_with ipv4 eqb
    extract_interface_name_from_path has_suffix has_prefix base_name contains trim_suffix
    find_interface_name_by_mac to_lower trim_space is_interface_up digits_value
no_drift = refl

is_netplan_drift-IsSame_example :
    (content : Text) × (file : NetplanYaml) × (down_node.exists path ≡ true)
    × (down_node.read_file path ≡ ok content)
    × (decode content ≡ ok file)
    × IsSame iface (extract_netplan_config ipv4 file)
    × (is_empty (extract_interface_name_from_path path) ≡ false → IsIdle down_node iface)
is_netplan_drift-IsSame_example = is_netplan_drift-IsSame down_node ipv4 decode iface path no_drift
