-- ===== src/Tests/Devices.antt =====
-- The output of `ip link show` on a node with a loopback device and a card.
use multi_network_interface.Prelude.{◌≡◌, refl, true, false, [], ◌∷◌, ◌++◌}
use multi_network_interface.Prelude.Text.{
  Text, text, eqb, split_on, to_lower, trim_space, trim_left, contains, has_prefix, strip_prefix,
}
use multi_network_interface.Prelude.Text.Words.{fields}
use multi_network_interface.Errors.{ok}
use multi_network_interface.Host.{Host}
use multi_network_interface.Host.Queries.{newline}
use multi_network_interface.Tests.{no_such}
use multi_network_interface.Rhel.{
  exec_command, is_device_line, next_device, has_mac, scan_devices, find_device_by_mac,
}
use multi_network_interface.Rhel.Laws.{Owns, find_device_by_mac-Owns}

abbrev shown : Text
shown =
    text "1: lo: <UP>"
    ++ newline ∷ text "  link/loopback 00:00"
    ++ newline ∷ text "2: ens3: <UP>"
    ++ newline ∷ text "  link/ether fa:16 brd ff:ff"

abbrev showing : Host
showing = record {
  exists = λ path. false;
  read_file = λ path. no_such;
  list_files = λ path. no_such;
  run = λ words. ok shown;
}

find_device_by_mac_ens3 : find_device_by_mac showing true (text "FA:16") ≡ ok (text "ens3")
unfolding find_device_by_mac scan_devices next_device has_mac is_device_line exec_command fields
    split_on to_lower trim_space trim_left contains has_prefix strip_prefix eqb
find_device_by_mac_ens3 = refl

find_device_by_mac-Owns_example :
    (output : Text) × (showing.run (exec_command true (text "ip" ∷ text "link" ∷ text "show" ∷ []))
      ≡ ok output)
    × Owns (to_lower (text "FA:16")) (text "ens3") (split_on newline output)
find_device_by_mac-Owns_example =
    find_device_by_mac-Owns showing true (text "FA:16") (text "ens3") find_device_by_mac_ens3
