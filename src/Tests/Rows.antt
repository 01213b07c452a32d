-- ===== src/Tests/Rows.antt =====
-- A database with one interface, which is configured once.
use multi_network_interface.Prelude.{◌≡◌, refl, some, [], ◌∷◌}
use multi_network_interface.Prelude.Int.{pos}
use multi_network_interface.Prelude.Text.{
  text, eqb, split_on, atoi_digits, digits_value, strip_prefix, itoa, itoa_ℤ,
}
use multi_network_interface.Errors.{nil, ok, not_found, domain_type}
use multi_network_interface.Entities.Interface.{configured, new_network_interface, within_cidr}
use multi_network_interface.Repository.Mysql.{
  Row, Database, affected, is_changed, success_of, has_success, select, scan, get_interface_by_id,
  update_interface_status, update_row, entity_of, mark_by_success,
}
use multi_network_interface.Repository.Mysql.Laws.{update-get}
use multi_network_interface.Entities.{
  to_interface_name, new_interface_index, new_mac_address, new_ip_address, new_cidr, new_mtu,
  cidr_contains,
}
use multi_network_interface.Entities.NodeName.{node_name_matches, new_node_name}
use multi_network_interface.Entities.InterfaceName.{new_interface_name}
use multi_network_interface.Prelude.Text.Words.{atoi, cut_at}
use multi_network_interface.Tests.{ipv4, card, iface}

abbrev row : Row
row = record {
  id = pos 0;
  macaddress = some card;
  attached_node_name = some (text "node-1");
  netplan_success = some (pos 0);
  subnet_id = some (text "s");
  address = some (text "10.0.0.5");
  mtu = some (pos 1450);
  modified_at = pos 7;
}

abbrev db : Database
db = record {
  interfaces = row ∷ [];
  subnets = (record { subnet_id = text "s"; cidr = some (text "10.0.0.0/24") }) ∷ [];
  now = pos 9;
  failure = nil;
  rows_failure = nil;
  affected_failure = nil;
  scan_error = nil;
}

abbrev after : Database
after = record db {
  interfaces = (record row { netplan_success = some (pos 1); modified_at = pos 9 }) ∷ [];
}

updates : update_interface_status (pos 0) configured db ≡ (nil, after)
unfolding update_interface_status affected update_row is_changed success_of has_success
updates = refl

reads : get_interface_by_id ipv4 eqb db (pos 0) ≡ ok iface
unfolding get_interface_by_id select scan entity_of eqb mark_by_success new_network_interface ipv4
    new_interface_index new_mac_address new_node_name node_name_matches new_ip_address new_cidr
    new_mtu to_interface_name itoa_ℤ itoa within_cidr cidr_contains strip_prefix atoi_digits atoi
    split_on cut_at digits_value new_interface_name
reads = refl

update-get_example :
    (get_interface_by_id ipv4 eqb after (pos 0) ≡ ok (record iface { status = configured }))
    × (domain_type (update_interface_status (pos 0) configured after).0 ≡ some not_found)
update-get_example = update-get ipv4 eqb db (pos 0) configured iface after reads updates
