-- ===== src/Drift/Laws.antt =====
-- internal/domain/services/drift_detector.go: what it means that no drift is found.
use multi_network_interface.Prelude.{◌≡◌, sym, true, false, ◌&&◌, not, inl, inr, arith}
use multi_network_interface.Prelude.Int.{==ℤ_iff}
use multi_network_interface.Prelude.Text.{Text, eqb_iff, is_empty, trim_space}
use multi_network_interface.Errors.{Result, ok, Result-cases}
use multi_network_interface.Entities.{Net}
use multi_network_interface.Entities.Interface.{
  NetworkInterface, mac_of, address_of, cidr_of, mtu_of,
}
use multi_network_interface.Host.{Host}
use multi_network_interface.Host.Queries.{find_interface_name_by_mac}
use multi_network_interface.Drift.{
  NetplanYaml, NetplanFileConfig, extract_netplan_config, check_config_drift,
  extract_interface_name_from_path, seen_up, check_system_interface_drift, system_drift,
  netplan_drift, parsed_drift, read_drift, is_netplan_drift,
}

-- A device has the MAC address of the interface and is not up.
abbrev pub IsIdle : Host → NetworkInterface → Type 0
IsIdle host i =
    (name : Text) × (find_interface_name_by_mac host (mac_of i) ≡ ok name)
    × (is_empty (trim_space name) ≡ false)
    × (seen_up host name ≡ false)

pub check_system_interface_drift-IsIdle :
    (host : Host) (i : NetworkInterface)
    → check_system_interface_drift host i ≡ false
    → IsIdle host i
unfolding check_system_interface_drift
check_system_interface_drift-IsIdle host i h =
    elim (Result-cases (find_interface_name_by_mac host (mac_of i))) [
      | inl (name, e) ↦ (name, e, ground arith, ground arith)
      | inr (x, e) ↦ absurd (ground arith)
    ]

-- The values of the netplan file are those of the interface.
abbrev pub IsSame : NetworkInterface → NetplanFileConfig → Type 0
IsSame i file =
    (file.mac_address ≡ mac_of i)
    × (file.address ≡ address_of i)
    × (file.cidr ≡ cidr_of i)
    × (file.mtu ≡ mtu_of i)

module _ (host : Host) (net : Net) (parse_yaml : Text → Result NetplanYaml) (i : NetworkInterface)
    (path : Text) where
  netplan_drift-IsSame :
      (file : NetplanFileConfig)
      → netplan_drift host net parse_yaml i path file ≡ false
      → IsSame i file × (is_empty (extract_interface_name_from_path path) ≡ false → IsIdle host i)
  unfolding netplan_drift check_config_drift system_drift
  netplan_drift-IsSame file h = (
    (
      (eqb_iff file.mac_address (mac_of i)).0 (ground arith),
      sym ((eqb_iff (address_of i) file.address).0 (ground arith)),
      sym ((eqb_iff (cidr_of i) file.cidr).0 (ground arith)),
      sym ((==ℤ_iff (mtu_of i) file.mtu).0 (ground arith)),
    ),
    λ named. check_system_interface_drift-IsIdle host i (ground arith),
  )

  -- If no drift of a netplan file is found, the file exists and can be read and decoded, its first
  -- entry has the MAC address, the IP address, the CIDR and the MTU of the interface, and, if the
  -- path names an interface, a device has the MAC address and is not up.
  pub is_netplan_drift-IsSame :
      is_netplan_drift host net parse_yaml i path ≡ false
      → (content : Text) × (yaml : NetplanYaml) × (host.exists path ≡ true)
        × (host.read_file path ≡ ok content)
        × (parse_yaml content ≡ ok yaml)
        × IsSame i (extract_netplan_config net yaml)
        × (is_empty (extract_interface_name_from_path path) ≡ false → IsIdle host i)
  unfolding is_netplan_drift read_drift parsed_drift
  is_netplan_drift-IsSame h = elim (Result-cases (host.read_file path)) [
    | inr (x, e) ↦ absurd (ground arith)
    | inl (content, e) ↦ elim (Result-cases (parse_yaml content)) [
      | inr (x, d) ↦ absurd (ground arith)
      | inl (yaml, d) ↦
          let (same, idle) =
            netplan_drift-IsSame (extract_netplan_config net yaml) (ground arith) in
          (content, yaml, ground arith, e, d, same, idle)
    ]
  ]

  -- A file that says what the interface says: only the system decides.
  pub is_netplan_drift-system :
      (content : Text) (yaml : NetplanYaml)
      → host.exists path ≡ true
      → host.read_file path ≡ ok content
      → parse_yaml content ≡ ok yaml
      → (extract_netplan_config net yaml).mac_address ≡ mac_of i
      → check_config_drift i (extract_netplan_config net yaml) ≡ false
      → is_netplan_drift host net parse_yaml i path ≡ (
          not (is_empty (extract_interface_name_from_path path))
          && check_system_interface_drift host i)
  unfolding is_netplan_drift read_drift parsed_drift netplan_drift system_drift
  is_netplan_drift-system content yaml there readable decoded mac same =
      ground (arith, (eqb_iff (extract_netplan_config net yaml).mac_address (mac_of i)).1 mac)
