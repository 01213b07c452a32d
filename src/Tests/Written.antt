-- ===== src/Tests/Written.antt =====
-- A RHEL node on which every command succeeds; its state is the paths of the files that it has.
use multi_network_interface.Prelude.{
  ◌≡◌, refl, ◌↔◌, Bool, true, false, ◌||◌, List, [], ◌∷◌, ◌++◌, arith,
}
use multi_network_interface.Prelude.Text.{
  Text, text, eqb, eqb_iff, split_on, to_lower, trim_space, trim_left, contains, has_prefix,
  strip_prefix,
}
use multi_network_interface.Prelude.Text.Words.{fields, join_path}
use multi_network_interface.Errors.{nil, ok}
use multi_network_interface.Host.Queries.{newline}
use multi_network_interface.Tests.{no_such, iface}
use multi_network_interface.Rhel.{
  exec_command, is_device_line, next_device, has_mac, scan_devices, find_device_by_mac,
}
use multi_network_interface.Rhel.Files.{default_options, two_parts, nm_dir, nm_path, link_path}
use multi_network_interface.Rhel.Steps.{System, ◌>>>◌}
use multi_network_interface.Rhel.Configure.{
  Adapter, apply_policy_routing, apply_sysctls, persist, restore_selinux_context, configure,
  validate,
}
use multi_network_interface.Rhel.Configure.Laws.{Keeps, configure-validate}
use multi_network_interface.Configure.{Services, rhel}
use multi_network_interface.Prelude.Int.{pos}

has : Text → List Text → Bool
has p [] = false
has p (q ∷ qs) = eqb p q || has p qs

abbrev shown : Text
shown = text "2: ens3: <UP>" ++ newline ∷ text "  link/ether fa:16:3e:00:00:01 brd ff:ff"

node : System (List Text)
node = record {
  view = λ w. record {
    exists = λ path. has path w;
    read_file = λ path. no_such;
    list_files = λ path. no_such;
    run = λ words. ok shown;
  };
  exec = λ words w. (nil, w);
  mkdir_all = λ path w. (nil, w);
  write_file = λ path content w. (nil, path ∷ w);
  remove = λ path w. (nil, []);
}

node-Keeps : Keeps node
unfolding node has
node-Keeps = record {
  written = λ path content w h. ground (arith, (eqb_iff path path).1 refl);
  write_keeps = λ kept path content w h. ground arith;
  label_keeps = λ kept dir is_container w h. h;
}

adapter : Adapter
unfolding default_options
adapter = record { is_container = true; enable_selinux_restore = true; opts = default_options }

configured : (configure node adapter iface (text "multinic0") []).0 ≡ nil
unfolding configure find_device_by_mac scan_devices next_device has_mac is_device_line exec_command
    fields split_on to_lower trim_space trim_left contains has_prefix strip_prefix eqb node adapter
    ◌>>>◌ two_parts apply_policy_routing apply_sysctls persist restore_selinux_context has nm_path
    join_path link_path
configured = refl

configure-validate_example :
    (validate node adapter (text "multinic0") (configure node adapter iface (text "multinic0") []).1
      ≡ nil)
    ↔ ((output : Text) × ((node.view (configure node adapter iface (text "multinic0") []).1).run
            (exec_command true (text "ip" ∷ text "link" ∷ text "show" ∷ text "multinic0" ∷ []))
          ≡ ok output))
unfolding adapter
configure-validate_example =
    configure-validate node adapter node-Keeps iface (text "multinic0") [] configured

-- The use case on this node.
abbrev use_case : Services (List Text)
use_case = record {
  host = node.view;
  getenv = λ key. [];
  detect_os = ok rhel;
  all_node_interfaces = λ name. ok (iface ∷ []);
  update_status = λ id status w. (nil, w);
  configure = λ i name w. configure node adapter i name.value w;
  config_dir = nm_dir;
  rollback = λ name w. (nil, w);
  parse_yaml = λ content. ok (record { ethernets = []; version = pos 2 });
}
