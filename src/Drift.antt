-- ===== src/Drift.antt =====
-- internal/domain/services/drift_detector.go: whether the file of an interface still says what the
-- custom resource says. The YAML decoder is a parameter; the entries of the map are in the order in
-- which a `range` loop meets them. The lines of an ifcfg file are shorter than the scanner's buffer.
pub mod Laws
use multi_network_interface.Prelude.{
  ℕ, Bool, true, false, ◌&&◌, ◌||◌, not, Option, none, some, List, [], ◌∷◌, ◌++◌, length, leb,
  if◌then◌else◌,
}
use multi_network_interface.Prelude.Int.{ℤ, pos, ◌==ℤ◌}
use multi_network_interface.Prelude.Text.{
  Text, text, eqb, is_empty, trim_space, to_lower, split_on, has_prefix, contains,
}
use multi_network_interface.Prelude.Text.Words.{
  has_suffix, trim_prefix, trim_suffix, cut_at, last_of, base_name, join_path, atoi,
}
use multi_network_interface.Errors.{Result, ok, err}
use multi_network_interface.Entities.{Net}
use multi_network_interface.Entities.Interface.{
  NetworkInterface, mac_of, address_of, cidr_of, mtu_of,
}
use multi_network_interface.Host.{Host}
use multi_network_interface.Host.Queries.{newline, find_interface_name_by_mac, is_interface_up}

-- One entry of `Ethernets`.
pub record Ethernet : Type 0 where
  pub dhcp4 : Bool
  pub mtu : ℤ
  pub addresses : List Text
  pub match_mac : Text
  pub set_name : Text

-- `NetplanYAML`.
pub record NetplanYaml : Type 0 where
  pub ethernets : List (Text × Ethernet)
  pub version : ℤ

pub record NetplanFileConfig : Type 0 where
  pub mac_address : Text
  pub address : Text
  pub cidr : Text
  pub mtu : ℤ
  pub has_addresses : Bool

pub record IfcfgFileConfig : Type 0 where
  pub mac_address : Text
  pub ip_address : Text
  pub prefix : Text
  pub mtu : ℤ

first_address : Net → List Text → Text × Text
first_address net [] = ([], [])
first_address net (a ∷ rest) = elim (net.parse_cidr a) [
  | ok (ip, subnet) ↦ (net.ip_text ip, net.subnet_text subnet)
  | err _ ↦ (a, [])
]

-- `extractNetplanConfig`: of the first entry, or the zero value.
unfoldable pub extract_netplan_config : Net → NetplanYaml → NetplanFileConfig
unfolding first_address
extract_netplan_config net yaml = elim yaml.ethernets [
  | [] ↦ record { mac_address = []; address = []; cidr = []; mtu = pos 0; has_addresses = false }
  | (_, eth) ∷ _ ↦ record {
    mac_address = eth.match_mac;
    address = (first_address net eth.addresses).0;
    cidr = (first_address net eth.addresses).1;
    mtu = eth.mtu;
    has_addresses = leb 1 (length eth.addresses);
  }
]

-- `checkConfigDrift`.
unfoldable pub check_config_drift : NetworkInterface → NetplanFileConfig → Bool
check_config_drift i file =
    (not file.has_addresses && not (is_empty (address_of i)))
    || (not (eqb (address_of i) file.address)
        || (not (eqb (cidr_of i) file.cidr) || not (mtu_of i ==ℤ file.mtu)))

-- `extractInterfaceNameFromPath`.
unfoldable pub extract_interface_name_from_path : Text → Text
extract_interface_name_from_path path =
    if has_suffix (base_name path) (text ".yaml") && contains (base_name path) (text "-")
    then last_of [] (split_on b'-' (trim_suffix (base_name path) (text ".yaml")))
    else if has_prefix (base_name path) (text "ifcfg-")
    then trim_prefix (base_name path) (text "ifcfg-")
    else []

-- The `switch` of `parseIfcfgFile`.
set_key : IfcfgFileConfig → Text → Text → IfcfgFileConfig
set_key c key value =
    if eqb key (text "HWADDR")
    then record c { mac_address = to_lower value }
    else if eqb key (text "IPADDR")
    then record c { ip_address = value }
    else if eqb key (text "PREFIX")
    then record c { prefix = value }
    else if eqb key (text "MTU")
    then elim (atoi value) [ none ↦ c | some n ↦ record c { mtu = n } ]
    else c

read_line : IfcfgFileConfig → Text → IfcfgFileConfig
unfolding set_key
read_line c line =
    if is_empty line || has_prefix line (text "#") then c else elim (cut_at b'=' line).1 [
      | none ↦ c
      | some value ↦ set_key c (trim_space (cut_at b'=' line).0) (trim_space value)
    ]

read_lines : IfcfgFileConfig → List Text → IfcfgFileConfig
unfolding read_line
read_lines c [] = c
read_lines c (line ∷ lines) = read_lines (read_line c (trim_space line)) lines

-- `parseIfcfgFile`.
unfoldable pub parse_ifcfg_file : Text → IfcfgFileConfig
unfolding read_lines
parse_ifcfg_file content =
    read_lines (record { mac_address = []; ip_address = []; prefix = []; mtu = pos 0 })
      (split_on newline content)

-- The part behind the slash, if there is one slash.
prefix_of : List Text → Text
prefix_of (a ∷ b ∷ []) = b
prefix_of _ = []

-- `checkIfcfgDrift`.
unfoldable pub check_ifcfg_drift : NetworkInterface → IfcfgFileConfig → Bool
unfolding prefix_of
check_ifcfg_drift i file =
    not (eqb (address_of i) file.ip_address)
    || ((not (is_empty (prefix_of (split_on b'/' (cidr_of i))))
          && (not (is_empty file.prefix)
              && not (eqb (prefix_of (split_on b'/' (cidr_of i))) file.prefix)))
        || not (mtu_of i ==ℤ file.mtu))

module _ (host : Host) where
  -- `isInterfaceUp`: an error of the query counts as down.
  unfoldable pub seen_up : Text → Bool
  seen_up name = elim (is_interface_up host name) [ err _ ↦ false | ok up ↦ up ]

  -- `checkSystemInterfaceDrift`.
  unfoldable pub check_system_interface_drift : NetworkInterface → Bool
  unfolding seen_up
  check_system_interface_drift i = elim (find_interface_name_by_mac host (mac_of i)) [
    | err _ ↦ true
    | ok name ↦ if is_empty (trim_space name) then true else seen_up name
  ]

  system_drift : NetworkInterface → Text → Bool
  unfolding check_system_interface_drift
  system_drift i path =
      not (is_empty (extract_interface_name_from_path path)) && check_system_interface_drift i

  ifcfg_drift : NetworkInterface → Text → IfcfgFileConfig → Bool
  unfolding system_drift
  ifcfg_drift i path file =
      if not (eqb file.mac_address (to_lower (mac_of i)))
      then true
      else system_drift i path || check_ifcfg_drift i file

  -- `IsIfcfgDrift`.
  unfoldable pub is_ifcfg_drift : NetworkInterface → Text → Bool
  unfolding ifcfg_drift
  is_ifcfg_drift i path = elim (host.read_file path) [
    | err _ ↦ true
    | ok content ↦ ifcfg_drift i path (parse_ifcfg_file content)
  ]

  -- `FindIfcfgFile`.
  unfoldable pub find_ifcfg_file : Text → Text → Text
  find_ifcfg_file dir name =
      if host.exists (join_path dir (text "ifcfg-" ++ name))
      then join_path dir (text "ifcfg-" ++ name)
      else []

  first_file : Text → Text → List Text → Text
  first_file dir name [] = []
  first_file dir name (file ∷ files) =
      let rest = first_file dir name files in
      if contains file name && has_suffix file (text ".yaml") then join_path dir file else rest

  -- `FindNetplanFileForInterface`.
  unfoldable pub find_netplan_file : Text → Text → Text
  unfolding first_file
  find_netplan_file dir name = elim (host.list_files dir) [
    | err _ ↦ []
    | ok files ↦ first_file dir name files
  ]

  module _ (net : Net) (parse_yaml : Text → Result NetplanYaml) where
    netplan_drift : NetworkInterface → Text → NetplanFileConfig → Bool
    unfolding system_drift
    netplan_drift i path file =
        if not (eqb file.mac_address (mac_of i))
        then true
        else system_drift i path || check_config_drift i file

    parsed_drift : NetworkInterface → Text → Result NetplanYaml → Bool
    unfolding netplan_drift
    parsed_drift i path (err _) = true
    parsed_drift i path (ok yaml) = netplan_drift i path (extract_netplan_config net yaml)

    read_drift : NetworkInterface → Text → Result Text → Bool
    unfolding parsed_drift
    read_drift i path (err _) = true
    read_drift i path (ok content) = parsed_drift i path (parse_yaml content)

    -- `IsNetplanDrift`.
    unfoldable pub is_netplan_drift : NetworkInterface → Text → Bool
    unfolding read_drift
    is_netplan_drift i path =
        if not (host.exists path) then true else read_drift i path (host.read_file path)
