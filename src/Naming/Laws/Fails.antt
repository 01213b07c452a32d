-- ===== src/Naming/Laws/Fails.antt =====
-- internal/domain/services/interface_naming.go: a call that fails returns an error that is not nil.
use multi_network_interface.Prelude.{◌≡◌, false, Option, none, some, arith}
use multi_network_interface.Prelude.Text.{Text, to_lower}
use multi_network_interface.Errors.{GoError, is_nil, Result, ok, err}
use multi_network_interface.Entities.InterfaceName.{InterfaceName, new_interface_name-is_nil}
use multi_network_interface.Host.{Host, slots}
use multi_network_interface.Naming.{
  Naming, name_of_mac, first_such, is_own, is_free, named, all_in_use, reserved_as,
  generate_next_internal, generate_unreserved, generate_by, generate_for_mac,
}

module _ (host : Host) (st : Naming) (mac : Text) (x : GoError) where
  named-is_nil : (o : Option Text) → named host o ≡ err x → is_nil x ≡ false
  unfolding named all_in_use
  named-is_nil none h = ground arith
  named-is_nil (some n) h = new_interface_name-is_nil n x h

  reserved_as-is_nil :
      (m : Text) (r : Result InterfaceName) → (reserved_as host st m r).0 ≡ err x → r ≡ err x
  reserved_as-is_nil m (err e) h = h
  reserved_as-is_nil m (ok n) h = absurd (cc)

  generate_unreserved-is_nil :
      (o : Option Text) → (generate_unreserved host st mac o).0 ≡ err x → is_nil x ≡ false
  unfolding generate_unreserved generate_next_internal
  generate_unreserved-is_nil none h =
      named-is_nil (first_such (is_free host st) slots) (reserved_as-is_nil (to_lower mac) _ h)
  generate_unreserved-is_nil (some n) h = new_interface_name-is_nil n x h

  generate_by-is_nil : (o : Option Text) → (generate_by host st mac o).0 ≡ err x → is_nil x ≡ false
  unfolding generate_by
  generate_by-is_nil none h = generate_unreserved-is_nil (first_such (is_own host st mac) slots) h
  generate_by-is_nil (some n) h = new_interface_name-is_nil n x h

  pub generate_for_mac-is_nil : (generate_for_mac host st mac).0 ≡ err x → is_nil x ≡ false
  unfolding generate_for_mac
  generate_for_mac-is_nil h = generate_by-is_nil (name_of_mac st (to_lower mac)) h
