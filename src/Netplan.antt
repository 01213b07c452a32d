-- ===== src/Netplan.antt =====
-- internal/infrastructure/network/netplan_adapter.go: the adapter of Ubuntu. It runs its commands
-- directly, and its policy routing and sysctls are the calls of the RHEL adapter outside of a container.
-- The YAML encoder is a parameter.
pub mod Laws
use multi_network_interface.Prelude.{
  ℕ, Bool, true, false, ◌&&◌, ◌||◌, not, Option, none, some, List, [], ◌∷◌, ◌++◌, if◌then◌else◌,
}
use multi_network_interface.Prelude.Int.{ℤ, pos, ltb_ℤ}
use multi_network_interface.Prelude.Text.{
  Text, text, eqb, is_empty, contains, trim_space, to_lower, split_on, itoa_ℤ,
}
use multi_network_interface.Prelude.Text.Words.{join_path}
use multi_network_interface.Errors.{
  GoError, nil, is_nil, plain, Result, ok, err, new_network_error, new_system_error,
  new_validation_error,
}
use multi_network_interface.Entities.Interface.{
  NetworkInterface, mac_of, address_of, cidr_of, mtu_of,
}
use multi_network_interface.Host.{Host}
use multi_network_interface.Host.Queries.{newline}
use multi_network_interface.Rhel.Steps.{Step, System, ◌>>>◌, done, ignored, or_fail, when}
use multi_network_interface.Rhel.Files.{
  Options, normalize, extract_index, routing_table, route_metric, two_parts,
}
use multi_network_interface.Rhel.Configure
use multi_network_interface.Rhel.Configure.{Adapter}

abbrev pub netplan_dir : Text
netplan_dir = text "/etc/netplan"

-- The file of a name.
unfoldable pub config_path : Text → Text
config_path name =
    join_path netplan_dir
      (text "9" ++ (itoa_ℤ (extract_index name) ++ (text "-" ++ (name ++ text ".yaml"))))

pub record Route : Type 0 where
  pub to : Text
  pub table : ℤ
  pub metric : ℤ

pub record RoutingRule : Type 0 where
  pub from : Text
  pub table : ℤ

-- The keys of a static address; `none` and `[]` are keys that are not there.
pub record StaticConfig : Type 0 where
  pub dhcp4 : Bool
  pub addresses : List Text
  pub mtu : Option ℤ
  pub routes : List Route
  pub routing_policy : List RoutingRule

-- The map that `generateNetplanConfig` makes.
pub record NetplanConfig : Type 0 where
  pub version : ℤ
  pub ethernet : Text
  pub macaddress : Text
  pub set_name : Text
  pub static : Option StaticConfig

static_config : Options → NetworkInterface → Text → Text → StaticConfig
static_config o i name bits = record {
  dhcp4 = false;
  addresses = (address_of i ++ (text "/" ++ bits)) ∷ [];
  mtu = if ltb_ℤ (pos 0) (mtu_of i) then some (mtu_of i) else none;
  routes =
      if o.enable_policy_routing
      then record { to = cidr_of i; table = routing_table o name; metric = route_metric o name }
        ∷ []
      else [];
  routing_policy =
      if o.enable_policy_routing
      then record { from = address_of i ++ (text "/" ++ bits); table = routing_table o name } ∷ []
      else [];
}

static_of : Options → NetworkInterface → Text → Option Text → Option StaticConfig
unfolding static_config
static_of o i name none = none
static_of o i name (some bits) = some (static_config o i name bits)

-- `generateNetplanConfig`.
unfoldable pub generate_netplan_config : Options → NetworkInterface → Text → NetplanConfig
unfolding static_of
generate_netplan_config o i name = record {
  version = pos 2;
  ethernet = name;
  macaddress = mac_of i;
  set_name = name;
  static =
      if not (is_empty (address_of i)) && not (is_empty (cidr_of i))
      then static_of o i name (two_parts (split_on b'/' (cidr_of i)))
      else none;
}

-- A device that was found, and whether it was up.
pub record Device : Type 0 where
  pub name : Text
  pub was_up : Bool

looks_up : Text → Bool
looks_up line =
    contains line (text "state UP")
    || (contains line (text ",UP,") && contains line (text "LOWER_UP"))

device_of : Text → List Text → Option Device
unfolding looks_up
device_of line (_ ∷ b ∷ _) = some (record { name = trim_space b; was_up = looks_up line })
device_of line _ = none

abbrev or_next : Option Device → Option Device → Option Device
or_next (some d) _ = some d
or_next none rest = rest

-- The loop of `findInterfaceByMAC`.
unfoldable pub scan_lines : Text → List Text → Option Device
unfolding device_of
scan_lines mac [] = none
scan_lines mac (line ∷ lines) =
    or_next (if contains (to_lower line) mac then device_of line (split_on b':' line) else none)
      (scan_lines mac lines)

-- `findInterfaceByMAC`.
unfoldable pub find_interface_by_mac : Host → Text → Option Device
find_interface_by_mac host mac =
    elim (host.run (text "ip" ∷ text "-o" ∷ text "link" ∷ text "show" ∷ [])) [
      | err _ ↦ none
      | ok output ↦ scan_lines (to_lower (trim_space mac)) (split_on newline output)
    ]

-- What the adapter of RHEL is with these options and outside of a container.
abbrev direct : Options → Adapter
direct o = record { is_container = false; enable_selinux_restore = false; opts = o }

-- `NewNetplanAdapterWithOptions`: its options.
unfoldable pub netplan_options : Options → Options
netplan_options o = normalize o

module _ {W : Type 0} (os : System W) (o : Options) where
  ip : List Text → Step W
  ip words = os.exec (text "ip" ∷ words)

  rename_down : Device → Text → Step W
  unfolding ip
  rename_down device target =
      ignored (ip (text "link" ∷ text "set" ∷ device.name ∷ text "down" ∷ []))
      >>> or_fail (new_network_error (text "failed to rename interface"))
          (ip (text "link" ∷ text "set" ∷ device.name ∷ text "name" ∷ target ∷ []))
      >>> when device.was_up (ignored (ip (text "link" ∷ text "set" ∷ target ∷ text "up" ∷ [])))

  rename_device : Device → Text → Step W
  unfolding ip rename_down
  rename_device device target w =
      let r = ip (text "link" ∷ text "set" ∷ device.name ∷ text "name" ∷ target ∷ []) w in
      let s = rename_down device target r.1 in
      if eqb device.name target then (nil, w) else if is_nil r.0 then (nil, r.1) else s

  set_mtu : NetworkInterface → Text → Step W
  unfolding ip
  set_mtu i target = when (ltb_ℤ (pos 0) (mtu_of i)) (
      or_fail (new_network_error (text "failed to set MTU"))
        (ip (text "link" ∷ text "set" ∷ target ∷ text "mtu" ∷ itoa_ℤ (mtu_of i) ∷ [])))

  replace_address : Text → Text → Option Text → Step W
  unfolding ip
  replace_address address target none = done
  replace_address address target (some bits) =
      or_fail (new_network_error (text "failed to set IPv4 address")) (
        ip (
          text "addr"
          ∷ text "replace"
          ∷ (address ++ (text "/" ++ bits))
          ∷ text "dev"
          ∷ target
          ∷ (if o.use_noprefixroute then text "noprefixroute" ∷ [] else [])))

  set_ip : NetworkInterface → Text → Step W
  unfolding replace_address
  set_ip i target =
      when (not (is_empty (trim_space (address_of i))) && not (is_empty (trim_space (cidr_of i))))
        (replace_address (trim_space (address_of i)) target (two_parts (split_on b'/' (cidr_of i))))

  set_up : Text → Step W
  unfolding ip
  set_up target =
      or_fail (new_network_error (text "failed to set link up"))
        (ip (text "link" ∷ text "set" ∷ target ∷ text "up" ∷ []))

  -- `applyPolicyRouting`, `applySysctls` and `cleanupRouting`.
  unfoldable pub apply_policy_routing : NetworkInterface → Text → Step W
  apply_policy_routing = Configure.apply_policy_routing os (direct o)

  unfoldable pub apply_sysctls : Text → Step W
  apply_sysctls = Configure.apply_sysctls os (direct o)

  unfoldable pub cleanup_routing : Text → Step W
  cleanup_routing = Configure.cleanup_routing os (direct o)

  -- What `Configure` changes on the running system.
  unfoldable pub apply_runtime : NetworkInterface → Text → Device → Step W
  unfolding rename_device set_mtu set_ip set_up
  apply_runtime i target device =
      rename_device device target
      >>> set_mtu i target
      >>> set_ip i target
      >>> set_up target
      >>> when o.enable_policy_routing (apply_policy_routing i target)
      >>> apply_sysctls target

  module _ (marshal : NetplanConfig → Result Text) where
    save : Text → Result Text → Step W
    save target (err e) w = (new_system_error (text "failed to marshal Netplan configuration") e, w)
    save target (ok content) w =
        or_fail (new_system_error (text "failed to save Netplan configuration file"))
          (os.write_file (config_path target) content) w

    -- The file of `Configure`.
    unfoldable pub persist : NetworkInterface → Text → Step W
    unfolding save
    persist i target = save target (marshal (generate_netplan_config o i target))

    with_device : NetworkInterface → Text → Option Device → Step W
    with_device i target none w = (
      new_network_error (text "MAC not found on system for runtime apply")
          (plain (text "mac=" ++ mac_of i)),
      w,
    )
    with_device i target (some device) w =
        if is_empty (trim_space device.name)
        then (
          new_network_error (text "MAC not found on system for runtime apply")
              (plain (text "mac=" ++ mac_of i)),
          w,
        )
        else (apply_runtime i target device >>> persist i target) w

    -- `Configure`.
    unfoldable pub configure : NetworkInterface → Text → Step W
    unfolding with_device
    configure i target w = with_device i target (find_interface_by_mac (os.view w) (mac_of i)) w

  -- `Validate`, which changes nothing.
  unfoldable pub validate : Text → W → GoError
  validate name w =
      if not ((os.view w).exists (text "/sys/class/net/" ++ name))
      then new_validation_error (text "network interface does not exist") nil
      else elim ((os.view w).run (text "ip" ∷ text "link" ∷ text "show" ∷ name ∷ text "up" ∷ [])) [
        | err e ↦ new_validation_error (text "network interface is not UP") e
        | ok _ ↦ nil
      ]

  remove_config : Text → Step W
  remove_config name w =
      let r =
        or_fail (new_system_error (text "failed to remove configuration file"))
          (os.remove (config_path name)) w in
      if (os.view w).exists (config_path name) then r else (nil, w)

  -- `Rollback`.
  unfoldable pub rollback : Text → Step W
  unfolding remove_config
  rollback name = remove_config name >>> cleanup_routing name
