-- ===== src/Tests/Names.antt =====
-- Reservations on a node where the only device is multinic0, and no command works.
use multi_network_interface.Prelude.{◌≡◌, refl, true, false, none, some, [], ◌∷◌, All}
use multi_network_interface.Prelude.Text.{
  Text, text, to_lower, eqb, itoa, strip_prefix, atoi_digits,
}
use multi_network_interface.Errors.{GoError, plain, ok, err}
use multi_network_interface.Entities.InterfaceName.{InterfaceName, new_interface_name}
use multi_network_interface.Entities.Interface.{NetworkInterface}
use multi_network_interface.Host.{interface_exists, mac_for_interface}
use multi_network_interface.Host.Laws.{ShowFailsWithoutDevice}
use multi_network_interface.Naming.{
  Naming, new_naming, name_of_mac, lookup, assign, is_name_taken, member, first_such,
  generate_for_mac,
}
use multi_network_interface.Naming.Reserve.{macs, reserve_names}
use multi_network_interface.Naming.Laws.Keeps.{generate_for_mac_stable}
use multi_network_interface.Naming.Laws.Passes.{Extends}
use multi_network_interface.Naming.Laws.Unique.{HasName, reserve_names-HasName}
use multi_network_interface.Naming.Laws.Clash.{reserve_names-clash}
use multi_network_interface.Tests.{quiet, card, iface}

quiet_fails : ShowFailsWithoutDevice quiet
unfolding quiet
quiet_fails name absent = (plain (text "no such file or device"), refl)

abbrev one_name : InterfaceName
one_name = record { value = text "multinic1"; index = 1 }

abbrev after_one : Naming
after_one = record {
  reserved_by_mac = (card, text "multinic1") ∷ [];
  reserved_names = text "multinic1" ∷ [];
}

-- multinic0 is a device, so that the next name is multinic1.
generated : generate_for_mac quiet new_naming card ≡ (ok one_name, after_one)
unfolding generate_for_mac quiet lookup first_such is_name_taken interface_exists itoa
    mac_for_interface member new_interface_name strip_prefix atoi_digits assign to_lower
generated = refl

generate_for_mac_stable_example :
    (name_of_mac after_one (to_lower card) ≡ some (text "multinic1"))
    × (generate_for_mac quiet after_one card ≡ (ok one_name, after_one))
    × ((j k : Text) → name_of_mac new_naming j ≡ some k → name_of_mac after_one j ≡ some k)
generate_for_mac_stable_example =
    generate_for_mac_stable quiet new_naming card one_name after_one generated

abbrev full : Naming
full = record {
  reserved_by_mac = [];
  reserved_names =
      text "multinic1"
      ∷ text "multinic2"
      ∷ text "multinic3"
      ∷ text "multinic4"
      ∷ text "multinic5"
      ∷ text "multinic6"
      ∷ text "multinic7"
      ∷ text "multinic8"
      ∷ text "multinic9"
      ∷ [];
}

abbrev none_left : GoError
none_left = plain (text "사용 가능한 인터페이스 이름이 없습니다 (multinic0-9 모두 사용 중)")

refused : generate_for_mac quiet full card ≡ (err none_left, full)
unfolding generate_for_mac quiet lookup first_such is_name_taken interface_exists itoa
    mac_for_interface member new_interface_name strip_prefix atoi_digits assign to_lower
refused = refl

unknown : name_of_mac full (to_lower card) ≡ none
unfolding lookup
unknown = refl

reserve_names-HasName_example :
    ((reserve_names quiet new_naming (iface ∷ [])).1 ≡ none
      → All
          (λ i. HasName (reserve_names quiet new_naming (iface ∷ [])).0.naming (macs i))
          (iface ∷ []))
    × Extends new_naming (reserve_names quiet new_naming (iface ∷ [])).0.naming
reserve_names-HasName_example = reserve_names-HasName quiet new_naming (iface ∷ [])

abbrev wants : Text → NetworkInterface
wants mac = record iface {
  mac_address = record { value = mac; mac = [] };
  interface_name = one_name;
  explicit_name = true;
}

no_device : interface_exists quiet (text "multinic1") ≡ false
unfolding interface_exists quiet eqb
no_device = refl

other_mac : eqb (macs (wants card)) (macs (wants (text "fa:16:3e:00:00:02"))) ≡ false
unfolding eqb to_lower
other_mac = refl

valid : new_interface_name (text "multinic1") ≡ ok one_name
unfolding new_interface_name strip_prefix atoi_digits
valid = refl

reserve_names-clash_example :
    (name_of_mac
        (reserve_names quiet new_naming
          (wants card ∷ wants (text "fa:16:3e:00:00:02") ∷ [])).0.naming
        (macs (wants card))
      ≡ some (text "multinic1"))
    × (name_of_mac
          (reserve_names quiet new_naming
            (wants card ∷ wants (text "fa:16:3e:00:00:02") ∷ [])).0.naming
          (macs (wants (text "fa:16:3e:00:00:02")))
        ≡ some (text "multinic1"))
reserve_names-clash_example =
    reserve_names-clash quiet (wants card) (wants (text "fa:16:3e:00:00:02")) one_name quiet_fails
      no_device (refl, refl) refl other_mac valid
