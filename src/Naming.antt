-- ===== src/Naming.antt =====
-- internal/domain/services/interface_naming.go: `InterfaceNamingService`. The two maps are the state,
-- which the mutex of the service guards: each operation is one step on it.
pub mod Reserve
pub mod Reservations
pub mod Laws
use multi_network_interface.Prelude.{
  ℕ, Bool, true, false, ◌&&◌, ◌||◌, Option, none, some, List, [], ◌∷◌, ◌++◌, if◌then◌else◌,
}
use multi_network_interface.Prelude.Text.{Text, text, eqb, to_lower, equal_fold}
use multi_network_interface.Errors.{GoError, plain, Result, ok, err}
use multi_network_interface.Entities.InterfaceName.{InterfaceName, new_interface_name}
use multi_network_interface.Host.{Host, multinic, slots, interface_exists, mac_for_interface}

-- `reservedByMac[mac]`, the newest entry first.
unfoldable pub lookup : Text → List (Text × Text) → Option Text
lookup m [] = none
lookup m ((k, v) ∷ rest) = if eqb k m then some v else lookup m rest

-- `reservedNames[name]`; an entry is never set to false.
unfoldable pub member : Text → List Text → Bool
member n [] = false
member n (k ∷ rest) = eqb k n || member n rest

pub record Naming : Type 0 where
  pub reserved_by_mac : List (Text × Text)
  pub reserved_names : List Text

-- `NewInterfaceNamingService`.
abbrev pub new_naming : Naming
new_naming = record { reserved_by_mac = []; reserved_names = [] }

abbrev pub name_of_mac : Naming → Text → Option Text
name_of_mac st m = lookup m st.reserved_by_mac

abbrev pub is_reserved : Naming → Text → Bool
is_reserved st n = member n st.reserved_names

-- The two assignments that reserve a name for a MAC address in lower case.
unfoldable pub assign : Naming → Text → Text → Naming
assign st m n = record {
  reserved_by_mac = (m, n) ∷ st.reserved_by_mac;
  reserved_names = n ∷ st.reserved_names;
}

-- The first name `multinic%d` of the loop that passes a test.
unfoldable pub first_such : (Text → Bool) → List ℕ → Option Text
first_such p [] = none
first_such p (i ∷ is) = if p (multinic i) then some (multinic i) else first_such p is

-- Whether a query for a MAC address returned the given one, in any case of letters.
abbrev pub is_same_mac : Text → Result Text → Bool
is_same_mac mac (err e) = false
is_same_mac mac (ok existing) = equal_fold existing mac

all_in_use : GoError
all_in_use = plain (text "사용 가능한 인터페이스 이름이 없습니다 (multinic0-9 모두 사용 중)")

module _ (host : Host) where
  unfoldable pub is_name_taken : Naming → Text → Bool
  is_name_taken st name = interface_exists host name || is_reserved st name

  abbrev pub is_free : Naming → Text → Bool
  is_free st name = if is_name_taken st name then false else true

  named : Option Text → Result InterfaceName
  unfolding all_in_use
  named none = err all_in_use
  named (some name) = new_interface_name name

  -- `GenerateNextName`: reserved names do not count.
  unfoldable pub generate_next_name : Result InterfaceName
  unfolding named first_such
  generate_next_name =
      named (first_such (λ name. if interface_exists host name then false else true) slots)

  unfoldable pub generate_next_internal : Naming → Result InterfaceName
  unfolding named
  generate_next_internal st = named (first_such (is_free st) slots)

  -- A name that the system has already given to the MAC address.
  abbrev pub is_own : Naming → Text → Text → Bool
  is_own st mac name = is_name_taken st name && is_same_mac mac (mac_for_interface host name)

  abbrev pub reserved_as : Naming → Text → Result InterfaceName → Result InterfaceName × Naming
  reserved_as st m (err e) = (err e, st)
  reserved_as st m (ok n) = (ok n, assign st m n.value)

  generate_unreserved : Naming → Text → Option Text → Result InterfaceName × Naming
  unfolding generate_next_internal
  generate_unreserved st mac (some name) = (new_interface_name name, assign st (to_lower mac) name)
  generate_unreserved st mac none = reserved_as st (to_lower mac) (generate_next_internal st)

  generate_by : Naming → Text → Option Text → Result InterfaceName × Naming
  unfolding generate_unreserved
  generate_by st mac (some name) = (new_interface_name name, st)
  generate_by st mac none = generate_unreserved st mac (first_such (is_own st mac) slots)

  -- `GenerateNextNameForMAC`.
  unfoldable pub generate_for_mac : Naming → Text → Result InterfaceName × Naming
  unfolding generate_by
  generate_for_mac st mac = generate_by st mac (name_of_mac st (to_lower mac))

  -- `GetCurrentMultinicInterfaces`: the names in use.
  current_from : List ℕ → List InterfaceName
  current_from [] = []
  current_from (i ∷ is) =
      let rest = current_from is in
      if interface_exists host (multinic i)
      then elim (new_interface_name (multinic i)) [ ok n ↦ n ∷ rest | err _ ↦ rest ]
      else rest

  unfoldable pub current_multinic_interfaces : List InterfaceName
  unfolding current_from
  current_multinic_interfaces = current_from slots
