-- ===== src/Tests/Netplan.antt =====
-- An Ubuntu node on which every command succeeds; its state is the paths of the files that it has, and
-- each of them has the same content.
use multi_network_interface.Prelude.{
  ◌≡◌, refl, Bool, true, false, ◌&&◌, not, Option, none, some, [], ◌∷◌, ◌++◌, arith,
}
use multi_network_interface.Prelude.Text.{
  Text, text, eqb, eqb_iff, is_empty, split_on, to_lower, trim_space, contains, itoa, digits_value,
}
use multi_network_interface.Prelude.Text.Words.{join_with}
use multi_network_interface.Errors.{nil, Result, ok}
use multi_network_interface.Controller.Objects.{Dict, find}
use multi_network_interface.Drift.{
  NetplanYaml, is_netplan_drift, extract_interface_name_from_path, check_system_interface_drift,
}
use multi_network_interface.Rhel.Steps.{System, ◌>>>◌}
use multi_network_interface.Rhel.Files.{default_options, two_parts}
use multi_network_interface.Rhel.Configure
use multi_network_interface.Netplan.{
  config_path, NetplanConfig, generate_netplan_config, find_interface_by_mac, scan_lines,
  apply_policy_routing, apply_sysctls, apply_runtime, persist, configure,
}
use multi_network_interface.Netplan.Laws.{Reads, yaml_of, configure-is_netplan_drift}
use multi_network_interface.Tests.{no_such, iface, ipv4, card}

abbrev is_some : Option Text → Bool
is_some none = false
is_some (some _) = true

abbrev or_none : Option Text → Result Text
or_none none = no_such
or_none (some t) = ok t

node : System (Dict Text)
node = record {
  view = λ w. record {
    exists = λ path. is_some (find path w);
    read_file = λ path. or_none (find path w);
    list_files = λ path. no_such;
    run = λ words. ok (text "2: ens3: <UP> link/ether " ++ card);
  };
  exec = λ words w. (nil, w);
  mkdir_all = λ path w. (nil, w);
  write_file = λ path content w. (nil, (path, content) ∷ w);
  remove = λ path w. (nil, []);
}

node-Reads : Reads node
unfolding node find
node-Reads = record {
  there = λ path content w h. ground (arith, (eqb_iff path path).1 refl);
  content = λ path content w h. ground (arith, (eqb_iff path path).1 refl);
}

abbrev encode : NetplanConfig → Result Text
encode c = ok (text "yaml")

abbrev target : Text
target = text "multinic0"

decode : Text → Result NetplanYaml
decode t = ok (yaml_of (generate_netplan_config default_options iface target))

configured : (configure node default_options encode iface target []).0 ≡ nil
unfolding node configure find_interface_by_mac scan_lines split_on contains to_lower trim_space
    ◌>>>◌ apply_runtime eqb two_parts default_options apply_policy_routing apply_sysctls
    Configure.apply_policy_routing Configure.apply_sysctls persist
configured = refl

configure-is_netplan_drift_example :
    let host = node.view (configure node default_options encode iface target []).1 in
    is_netplan_drift host ipv4 decode iface (config_path target) ≡ (
      not (is_empty (extract_interface_name_from_path (config_path target)))
      && check_system_interface_drift host iface)
unfolding ipv4 split_on decode itoa join_with digits_value
configure-is_netplan_drift_example =
    configure-is_netplan_drift node node-Reads default_options encode ipv4 decode iface target
      (text "10.0.0.0") (text "24") (10 ∷ 0 ∷ 0 ∷ 5 ∷ [])
      (record { ip = 10 ∷ 0 ∷ 0 ∷ 0 ∷ []; mask = 255 ∷ 255 ∷ 255 ∷ 0 ∷ [] }) [] configured
      (λ t e. refl) refl refl refl refl refl refl
