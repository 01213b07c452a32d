-- ===== src/Configure.antt =====
-- internal/application/usecases/configure_network.go, with system_checks.go and error_helpers.go:
-- the parts that the use case works with, the retry policy, and the check before anything is
-- applied. A world is all that the configurer, the rollbacker and the repository change; the file
-- system and the commands show it as a `Host`. Go's float64 is a parameter.
pub mod Process
pub mod Execute
pub mod Laws
use multi_network_interface.Prelude.{
  ℕ, zero, suc, Bool, true, false, ◌&&◌, ◌||◌, not, Option, none, some, List, [], ◌∷◌, ◌++◌, leb,
  ltb, length, if◌then◌else◌,
}
use multi_network_interface.Prelude.Int.{ℤ, pos, negsuc}
use multi_network_interface.Prelude.Text.{
  Text, text, eqb, is_empty, trim_space, to_lower, split_on, has_prefix, equal_fold,
}
use multi_network_interface.Prelude.Text.Words.{fields, join_with}
use multi_network_interface.Errors.{
  GoError, nil, plain, ErrorType, timeout, network, system, resource, Result, ok, err, domain_type,
  new_validation_error, is_validation_error, is_network_error, is_timeout_error, is_system_error,
}
use multi_network_interface.Entities.{Net}
use multi_network_interface.Entities.InterfaceName.{InterfaceName}
use multi_network_interface.Entities.Interface.{InterfaceStatus, NetworkInterface, mac_of}
use multi_network_interface.Host.{Host}
use multi_network_interface.Host.Queries.{
  newline, find_interface_name_by_mac, is_interface_up, ipv4_with_prefix,
}
use multi_network_interface.Drift.{NetplanYaml}
use multi_network_interface.Pool.{RetryPolicy}

-- `OSType`.
pub data OsType : Type 0 where
  ubuntu rhel : OsType

-- The interfaces that the use case is given. A method that may change the system takes a world and
-- returns the one it leaves behind; the error of a success is nil.
pub record Services (W : Type 0) : Type 0 where
  pub host : W → Host
  pub getenv : Text → Text
  pub detect_os : Result OsType
  pub all_node_interfaces : Text → Result (List NetworkInterface)
  pub update_status : ℤ → InterfaceStatus → W → GoError × W
  pub configure : NetworkInterface → InterfaceName → W → GoError × W
  pub config_dir : Text
  pub rollback : Text → W → GoError × W
  pub parse_yaml : Text → Result NetplanYaml

-- What the policy does with float64.
pub record Float (F : Type 0) : Type 0 where
  pub one : F
  pub two : F
  pub is_positive : F → Bool
  pub times : F → F → F
  pub of_duration : ℕ → F
  pub to_duration : F → ℤ

-- `pow`.
unfoldable pub pow : {F : Type 0} → Float F → F → ℕ → F
pow float a zero = float.one
pow float a (suc n) = float.times (pow float a n) a

-- The types that are worth another try.
abbrev pub is_retryable : Option ErrorType → Bool
is_retryable (some ErrorType.timeout) = true
is_retryable (some ErrorType.network) = true
is_retryable (some ErrorType.system) = true
is_retryable (some ErrorType.resource) = true
is_retryable _ = false

-- `DefaultMaxRetries`, where the setting is not positive.
unfoldable pub max_retries : ℤ → ℕ
max_retries (pos zero) = 3
max_retries (pos (suc n)) = suc n
max_retries (negsuc n) = 3

-- `retryPolicy`; the base of the backoff is 100 ms. Only the error itself is looked at.
unfoldable pub retry_policy : {F : Type 0} → Float F → ℤ → F → RetryPolicy NetworkInterface ℤ
unfolding max_retries pow
retry_policy float retries multiplier job e attempt =
    if leb (max_retries retries) attempt
    then (false, pos 0)
    else if is_retryable (domain_type e)
    then (
      true,
      float.to_duration (
          float.times (float.of_duration 100_000_000)
            (pow float (if float.is_positive multiplier then multiplier else float.two) attempt)),
    )
    else (false, pos 0)

-- `getErrorType`.
unfoldable pub get_error_type : GoError → Text
get_error_type e =
    if is_validation_error e
    then text "validation"
    else if is_network_error e
    then text "network"
    else if is_timeout_error e
    then text "timeout"
    else if is_system_error e
    then text "system"
    else text "unknown"

-- The loop over the lines of /proc/net/route, behind the first.
route_lines : Text → List Text → Bool × Bool
route_lines name [] = (false, false)
route_lines name (line ∷ lines) =
    let rest = route_lines name lines in
    if is_empty (trim_space line) || ltb (length (fields line)) 11
    then rest
    else elim (fields line) [
      | [] ↦ rest
      | _ ∷ [] ↦ rest
      | iface ∷ dest ∷ _ ↦
          if eqb iface name then (true, equal_fold dest (text "00000000") || rest.1) else rest
    ]

without_first : List Text → List Text
without_first [] = []
without_first (_ ∷ lines) = lines

module _ {W : Type 0} (services : Services W) (w : W) where
  -- `envBool`.
  unfoldable pub env_bool : Text → Bool
  env_bool key =
      let v = to_lower (trim_space (services.getenv key)) in
      eqb v (text "1") || (eqb v (text "true") || (eqb v (text "yes") || eqb v (text "on")))

  -- `isInterfaceUp` of system_checks.go: an error of the query counts as down.
  unfoldable pub is_link_up : Text → Bool
  is_link_up name = elim (is_interface_up (services.host w) name) [ err _ ↦ false | ok up ↦ up ]

  -- `checkSystemInterfaceDrift` of system_checks.go.
  unfoldable pub system_state_drift : NetworkInterface → Bool
  unfolding is_link_up
  system_state_drift i = elim (find_interface_name_by_mac (services.host w) (mac_of i)) [
    | err _ ↦ true
    | ok name ↦ if is_empty (trim_space name) then true else is_link_up name
  ]

  unfoldable pub has_global_ipv4 : Text → Bool
  has_global_ipv4 name = elim (ipv4_with_prefix (services.host w) name) [
    | err _ ↦ false
    | ok address ↦ not (is_empty (trim_space address))
  ]

  unfoldable pub is_enslaved : Text → Bool
  is_enslaved name = (services.host w).exists (text "/sys/class/net/" ++ (name ++ text "/master"))

  -- `hasRoutesForIface`: any route, and a default route.
  unfoldable pub has_routes_for_iface : Text → Bool × Bool
  unfolding route_lines without_first
  has_routes_for_iface name = elim ((services.host w).read_file (text "/proc/net/route")) [
    | err _ ↦ (false, false)
    | ok content ↦ route_lines name (without_first (split_on newline content))
  ]

  abbrev reason_if : Bool → Text → List Text
  reason_if true reason = reason ∷ []
  reason_if false reason = []

  in_use : Text → GoError
  unfolding has_global_ipv4 is_enslaved has_routes_for_iface
  in_use name =
      new_validation_error
        (text "preflight: target interface in use ("
          ++ (join_with (text ",") (
                reason_if (has_global_ipv4 name) (text "has_ipv4")
                ++ (reason_if (is_enslaved name) (text "enslaved")
                    ++ (reason_if (has_routes_for_iface name).0 (text "has_routes")
                        ++ reason_if (has_routes_for_iface name).1 (text "default_route"))))
              ++ text ")"))
        (plain (text "interface " ++ (name ++ text " considered in-use")))

  -- The checks of a device that was found.
  preflight_device : Text → GoError
  unfolding env_bool is_link_up has_global_ipv4 is_enslaved has_routes_for_iface in_use
  preflight_device name =
      if has_prefix name (text "multinic")
      then nil
      else if not (is_link_up name)
      then nil
      else if env_bool (text "PREFLIGHT_ALLOW_UP")
      then nil
      else if has_global_ipv4 name
          || (is_enslaved name || ((has_routes_for_iface name).0 || (has_routes_for_iface name).1))
      then in_use name
      else nil

  -- `preflightCheck`.
  unfoldable pub preflight_check : NetworkInterface → GoError
  unfolding preflight_device
  preflight_check i = elim (find_interface_name_by_mac (services.host w) (mac_of i)) [
    | err e ↦ new_validation_error (text "preflight: MAC not present on system") e
    | ok name ↦
        if is_empty (trim_space name)
        then new_validation_error (text "preflight: MAC not present on system") nil
        else preflight_device name
  ]
