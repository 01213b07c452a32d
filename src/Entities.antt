-- ===== src/Entities.antt =====
-- internal/domain/entities/value_objects.go: the value objects, with their validation. Package
-- `net` is a parameter.
pub mod NodeName
pub mod InterfaceName
pub mod Interface
pub mod Laws
use multi_network_interface.Prelude.{
  ℕ, Bool, not, ◌&&◌, Option, none, some, List, ◌++◌, ltb, ◌==◌, if◌then◌else◌,
}
use multi_network_interface.Prelude.Int.{ℤ, pos, negsuc, ltb_ℤ, leb_ℤ}
use multi_network_interface.Prelude.Text.{Text, text, is_empty, eqb, equal_fold, itoa_ℤ}
use multi_network_interface.Errors.{GoError, nil, Result, ok, err, new_validation_error_with_code}

-- The bytes of a `net.IP` and of a `net.HardwareAddr`.
abbrev pub Bytes : Type 0
Bytes = List ℕ

-- `net.IPNet`.
pub record Subnet : Type 0 where
  pub ip : Bytes
  pub mask : Bytes

-- What the program calls of package `net`.
pub record Net : Type 0 where
  pub parse_ip : Text → Option Bytes
  pub ip_text : Bytes → Text
  pub ip_equal : Bytes → Bytes → Bool
  pub to4 : Bytes → Option Bytes
  pub to16 : Bytes → Option Bytes
  pub parse_mac : Text → Result Bytes
  pub mac_text : Bytes → Text
  -- The address, with the subnet that it lies in.
  pub parse_cidr : Text → Result (Bytes × Subnet)
  pub subnet_text : Subnet → Text
  pub subnet_contains : Subnet → Bytes → Bool

abbrev pub max_interfaces : ℤ
max_interfaces = pos 10

abbrev pub interface_prefix : Text
interface_prefix = text "multinic"

-- A validation error with its code and no cause.
abbrev pub invalid {ℓ} : {A : Type ℓ} → Text → Text → Result A
invalid code message = err (new_validation_error_with_code code message nil)

pub record IpAddress : Type 0 where
  pub value : Text
  pub ip : Bytes

pub record MacAddress : Type 0 where
  pub value : Text
  pub mac : Bytes

pub record Cidr : Type 0 where
  pub value : Text
  pub network : Subnet

pub record Mtu : Type 0 where
  pub value : ℤ

pub record InterfaceIndex : Type 0 where
  pub value : ℤ

module _ (net : Net) where
  unfoldable pub new_ip_address : Text → Result IpAddress
  new_ip_address value =
      if is_empty value
      then invalid (text "VAL002") (text "IP address cannot be empty")
      else elim (net.parse_ip value) [
        | none ↦ invalid (text "VAL003") (text "invalid IP address format: " ++ value)
        | some ip ↦ ok (record { value = value; ip = ip })
      ]

  unfoldable pub is_ipv4 : IpAddress → Bool
  is_ipv4 a = elim (net.to4 a.ip) [ none ↦ Bool.false | some _ ↦ Bool.true ]

  unfoldable pub is_ipv6 : IpAddress → Bool
  unfolding is_ipv4
  is_ipv6 a = not (is_ipv4 a) && elim (net.to16 a.ip) [ none ↦ Bool.false | some _ ↦ Bool.true ]

  -- A nil pointer equals no address.
  unfoldable pub ip_equals : IpAddress → Option IpAddress → Bool
  ip_equals a none = Bool.false
  ip_equals a (some b) = net.ip_equal a.ip b.ip

  unfoldable pub new_mac_address : Text → Result MacAddress
  new_mac_address value =
      if is_empty value
      then invalid (text "VAL004") (text "MAC address cannot be empty")
      else elim (net.parse_mac value) [
        | err cause ↦ err (
            new_validation_error_with_code (text "VAL005")
              (text "invalid MAC address format: " ++ value) cause)
        | ok mac ↦ ok (record { value = value; mac = mac })
      ]

  unfoldable pub canonical : MacAddress → Text
  canonical a = net.mac_text a.mac

  unfoldable pub mac_equals : MacAddress → Option MacAddress → Bool
  mac_equals a none = Bool.false
  mac_equals a (some b) = equal_fold (net.mac_text a.mac) (net.mac_text b.mac)

  unfoldable pub new_cidr : Text → Result Cidr
  new_cidr value =
      if is_empty value
      then invalid (text "VAL006") (text "CIDR cannot be empty")
      else elim (net.parse_cidr value) [
        | err cause ↦ err (
            new_validation_error_with_code (text "VAL007") (text "invalid CIDR format: " ++ value)
              cause)
        | ok parsed ↦ ok (record { value = value; network = parsed.1 })
      ]

  unfoldable pub cidr_contains : Cidr → Option IpAddress → Bool
  cidr_contains c none = Bool.false
  cidr_contains c (some a) = net.subnet_contains c.network a.ip

  -- `NetworkAddress` drops the error and returns a nil pointer with it.
  unfoldable pub network_address : Cidr → Option IpAddress
  unfolding new_ip_address
  network_address c = elim (new_ip_address (net.ip_text c.network.ip)) [
    | ok a ↦ some a
    | err _ ↦ none
  ]

unfoldable pub new_mtu : ℤ → Result Mtu
new_mtu value =
    if ltb_ℤ value (pos 68)
    then invalid (text "VAL008") (text "MTU too small: " ++ (itoa_ℤ value ++ text " (minimum: 68)"))
    else if ltb_ℤ (pos 65536) value
    then invalid (text "VAL009")
        (text "MTU too large: " ++ (itoa_ℤ value ++ text " (maximum: 65536)"))
    else ok (record { value = value })

unfoldable pub is_jumbo_frame : Mtu → Bool
is_jumbo_frame m = ltb_ℤ (pos 1500) m.value

unfoldable pub mtu_text : Mtu → Text
mtu_text m = itoa_ℤ m.value

unfoldable pub new_interface_index : ℤ → Result InterfaceIndex
new_interface_index value =
    if ltb_ℤ value (pos 0)
    then invalid (text "VAL010") (text "interface index cannot be negative: " ++ itoa_ℤ value)
    else if leb_ℤ max_interfaces value
    then invalid (text "VAL011")
        (text "interface index too large: " ++ (itoa_ℤ value ++ text " (maximum: 9)"))
    else ok (record { value = value })

unfoldable pub index_text : InterfaceIndex → Text
index_text i = itoa_ℤ i.value

-- `ToInterfaceName`.
unfoldable pub to_interface_name : InterfaceIndex → Text
to_interface_name i = interface_prefix ++ itoa_ℤ i.value
