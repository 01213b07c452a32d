-- ===== src/Tests/Removal.antt =====
-- A node with one netplan file of an interface that it no longer has, and without ifcfg files.
use multi_network_interface.Prelude.{ℕ, suc, false, [], ◌∷◌, if◌then◌else◌}
use multi_network_interface.Prelude.Text.{Text, text, eqb}
use multi_network_interface.Prelude.Text.Words.{join_with}
use multi_network_interface.Errors.{GoError, nil, plain, wrapped, ok, err}
use multi_network_interface.Host.{Host}
use multi_network_interface.Configure.{ubuntu}
use multi_network_interface.Delete.{Deleted, Parts}
use multi_network_interface.Tests.{iface, no_such}

unfoldable pub office : Host
office = record {
  exists = λ path. false;
  read_file = λ path. ok [];
  list_files = λ dir.
      if eqb dir (text "/etc/netplan")
      then ok (text "93-multinic3.yaml" ∷ [])
      else err (plain (text "open: no such file or directory"));
  run = λ words.
      if eqb (join_with (text " ") words) (text "hostname")
      then ok (text "node-1.novalocal")
      else no_such;
}

unfoldable parts : Parts ℕ
unfolding office
parts = record {
  host = λ w. office;
  getenv = λ key. [];
  detect_os = ok ubuntu;
  all_node_interfaces = λ node. ok (iface ∷ []);
  rollback = λ name w. (nil, suc w);
  rename = λ old new w. (nil, suc w);
  parse_macs = λ content. ok (text "FA:16:3E:00:00:03" ∷ []);
}

abbrev removed : Deleted
removed = record { deleted_interfaces = text "multinic3" ∷ []; total_deleted = 1; errors = [] }

abbrev absence : GoError
absence =
    wrapped (text "failed to list files in directory /etc/sysconfig/network-scripts")
      (plain (text "open: no such file or directory"))
