-- ===== src/Entities/Interface.antt =====
-- internal/domain/entities/network_interface.go: the entity and its constructors.
use multi_network_interface.Prelude.{
  ℕ, zero, suc, Bool, true, false, ◌&&◌, ◌||◌, none, some, [], ◌∷◌, ◌++◌, leb, ◌==◌, if◌then◌else◌,
}
use multi_network_interface.Prelude.Int.{ℤ}
use multi_network_interface.Prelude.Text.{Text, text, is_empty, is_digit, strip_prefix}
use multi_network_interface.Errors.{GoError, nil, plain, Result, ok, err, ◌>>=◌}
use multi_network_interface.Entities.{
  Net, IpAddress, MacAddress, Cidr, Mtu, InterfaceIndex, invalid, new_interface_index,
  new_mac_address, new_ip_address, new_cidr, new_mtu, cidr_contains, to_interface_name,
}
use multi_network_interface.Entities.NodeName.{NodeName, new_node_name, node_equals}
use multi_network_interface.Entities.InterfaceName.{InterfaceName, new_interface_name}

-- `InterfaceStatus`.
pub data InterfaceStatus : Type 0 where
  pending configured failed : InterfaceStatus

pub record NetworkInterface : Type 0 where
  pub id : InterfaceIndex
  pub mac_address : MacAddress
  pub node_name : NodeName
  pub status : InterfaceStatus
  pub ip_address : IpAddress
  pub cidr : Cidr
  pub mtu : Mtu
  pub interface_name : InterfaceName
  pub explicit_name : Bool

-- The getters that other components call.
abbrev pub id_of : NetworkInterface → ℤ
id_of i = i.id.value

abbrev pub mac_of : NetworkInterface → Text
mac_of i = i.mac_address.value

abbrev pub attached_node_name : NetworkInterface → Text
attached_node_name i = i.node_name.value

abbrev pub address_of : NetworkInterface → Text
address_of i = i.ip_address.value

abbrev pub cidr_of : NetworkInterface → Text
cidr_of i = i.cidr.value

abbrev pub mtu_of : NetworkInterface → ℤ
mtu_of i = i.mtu.value

abbrev pub name_of : NetworkInterface → Text
name_of i = i.interface_name.value

-- The business rule and the literal at the end of both constructors.
unfoldable pub within_cidr : Net → NetworkInterface → Result NetworkInterface
within_cidr net i =
    if cidr_contains net i.cidr (some i.ip_address)
    then ok i
    else invalid (text "VAL015")
        (text "IP address " ++ (address_of i ++ (text " is not within CIDR " ++ cidr_of i)))

module _ (net : Net) where
  unfoldable pub new_network_interface : ℤ → Text → Text → Text → Text → ℤ → Result NetworkInterface
  unfolding within_cidr
  new_network_interface id mac node ip cidr mtu = do
    index ← new_interface_index id
    mac_address ← new_mac_address net mac
    node_name ← new_node_name node
    ip_address ← new_ip_address net ip
    subnet ← new_cidr net cidr
    size ← new_mtu mtu
    name ← new_interface_name (to_interface_name index)
    within_cidr net (record {
      id = index;
      mac_address = mac_address;
      node_name = node_name;
      status = pending;
      ip_address = ip_address;
      cidr = subnet;
      mtu = size;
      interface_name = name;
      explicit_name = false;
    })

  unfoldable pub new_network_interface_with_name :
      ℤ → Text → Text → Text → Text → Text → ℤ → Result NetworkInterface
  unfolding within_cidr
  new_network_interface_with_name id given mac node ip cidr mtu = do
    index ← new_interface_index id
    mac_address ← new_mac_address net mac
    node_name ← new_node_name node
    ip_address ← new_ip_address net ip
    subnet ← new_cidr net cidr
    size ← new_mtu mtu
    name ← new_interface_name given
    within_cidr net (record {
      id = index;
      mac_address = mac_address;
      node_name = node_name;
      status = pending;
      ip_address = ip_address;
      cidr = subnet;
      mtu = size;
      interface_name = name;
      explicit_name = true;
    })

unfoldable pub mark_as_configured : NetworkInterface → NetworkInterface
mark_as_configured i = record i { status = configured }

unfoldable pub mark_as_failed : NetworkInterface → NetworkInterface
mark_as_failed i = record i { status = failed }

abbrev pub is_pending_status : InterfaceStatus → Bool
is_pending_status pending = true
is_pending_status _ = false

abbrev pub is_configured_status : InterfaceStatus → Bool
is_configured_status configured = true
is_configured_status _ = false

abbrev pub is_failed_status : InterfaceStatus → Bool
is_failed_status failed = true
is_failed_status _ = false

-- `IsConfigured`, `IsFailed` and `IsPending`.
unfoldable pub is_configured : NetworkInterface → Bool
is_configured i = is_configured_status i.status

unfoldable pub is_failed : NetworkInterface → Bool
is_failed i = is_failed_status i.status

unfoldable pub is_pending : NetworkInterface → Bool
is_pending i = is_pending_status i.status

-- `CanApplyTo`: an invalid node name applies to no interface.
unfoldable pub can_apply_to : NetworkInterface → Text → Bool
can_apply_to i target = elim (new_node_name target) [
  | err _ ↦ false
  | ok n ↦ node_equals i.node_name (some n)
]

-- `UpdateMTU`: the interface and the error.
unfoldable pub update_mtu : NetworkInterface → ℤ → NetworkInterface × GoError
update_mtu i value = elim (new_mtu value) [ err e ↦ (i, e) | ok m ↦ (record i { mtu = m }, nil) ]

abbrev is_hex : ℕ → Bool
is_hex c = is_digit c || ((leb b'A' c && leb c b'F') || (leb b'a' c && leb c b'f'))

-- `^([0-9A-Fa-f]{2}[:-]){n}([0-9A-Fa-f]{2})$`
hex_groups : ℕ → Text → Bool
hex_groups zero (a ∷ b ∷ []) = is_hex a && is_hex b
hex_groups (suc n) (a ∷ b ∷ c ∷ s) =
    is_hex a && (is_hex b && ((c == b':' || c == b'-') && hex_groups n s))
hex_groups _ _ = false

unfoldable pub is_valid_mac_address : Text → Bool
unfolding hex_groups
is_valid_mac_address mac = hex_groups 5 mac

abbrev one_digit : Text → Bool
one_digit (c ∷ []) = is_digit c
one_digit _ = false

-- `^multinic[0-9]$`
unfoldable pub is_valid_interface_name : Text → Bool
is_valid_interface_name name = elim (strip_prefix (text "multinic") name) [
  | none ↦ false
  | some rest ↦ one_digit rest
]

unfoldable pub validate : NetworkInterface → GoError
validate i =
    if is_valid_mac_address (mac_of i)
    then if is_empty (attached_node_name i) then plain (text "invalid node name") else nil
    else plain (text "invalid MAC address format")
