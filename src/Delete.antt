-- ===== src/Delete.antt =====
-- internal/application/usecases/delete_network.go: the removal of the files of interfaces that the
-- node no longer has, or of all of them. A world is what the rollbacker and `ip link set` change.
-- The decoder of netplan files is a parameter: the MAC addresses of the entries, in the order of
-- the loop. An OS type other than the two is not modelled.
pub mod Orphans
pub mod Laws
use multi_network_interface.Prelude.{
  ℕ, suc, Bool, true, false, ◌&&◌, ◌||◌, not, Option, none, some, List, [], ◌∷◌, ◌++◌, ◌==◌,
  if◌then◌else◌,
}
use multi_network_interface.Prelude.Text.{
  Text, text, eqb, is_empty, trim_space, to_lower, split_on, has_prefix, contains,
}
use multi_network_interface.Prelude.Text.Words.{has_suffix, trim_prefix, trim_suffix}
use multi_network_interface.Errors.{
  GoError, plain, wrapped, is_nil, Result, ok, err, ◌>>=◌, error_text,
}
use multi_network_interface.Entities.Interface.{NetworkInterface}
use multi_network_interface.Host.{Host, multinic, slots, interface_exists}
use multi_network_interface.Host.Queries.{alt_names, is_interface_up, list_netplan_files}
use multi_network_interface.Configure.{OsType, ubuntu, rhel}

-- `DeleteNetworkInput`.
pub record Input : Type 0 where
  pub node_name : Text
  pub full_cleanup : Bool

-- `DeleteNetworkOutput`.
pub record Deleted : Type 0 where
  pub deleted_interfaces : List Text
  pub total_deleted : ℕ
  pub errors : List GoError

abbrev pub nothing_deleted : Deleted
nothing_deleted = record { deleted_interfaces = []; total_deleted = 0; errors = [] }

-- The interfaces that the use case is given.
pub record Parts (W : Type 0) : Type 0 where
  pub host : W → Host
  pub getenv : Text → Text
  pub detect_os : Result OsType
  pub all_node_interfaces : Text → Result (List NetworkInterface)
  pub rollback : Text → W → GoError × W
  pub rename : Text → Text → W → GoError × W
  pub parse_macs : Text → Result (List Text)

abbrev pub netplan_dir : Text
netplan_dir = text "/etc/netplan"

abbrev pub ifcfg_dir : Text
ifcfg_dir = text "/etc/sysconfig/network-scripts"

-- `isMultinicNetplanFile`.
unfoldable pub is_multinic_netplan_file : Text → Bool
is_multinic_netplan_file file =
    contains file (text "multinic")
    && (has_suffix file (text ".yaml") && (has_prefix file (text "9") && contains file (text "-")))

-- `isMultinicIfcfgFile`.
unfoldable pub is_multinic_ifcfg_file : Text → Bool
is_multinic_ifcfg_file file = has_prefix file (text "ifcfg-multinic")

first_multinic : List Text → Option Text
first_multinic [] = none
first_multinic (part ∷ parts) =
    let rest = first_multinic parts in if has_prefix part (text "multinic") then some part else rest

-- `extractInterfaceNameFromFile`.
unfoldable pub interface_name_from_file : Text → Text
unfolding first_multinic
interface_name_from_file file =
    if not (contains file (text "multinic"))
    then []
    else elim (first_multinic (split_on b'-' (trim_suffix file (text ".yaml")))) [
      | some part ↦ part
      | none ↦
          if has_prefix (trim_suffix file (text ".yaml")) (text "multinic")
          then trim_suffix file (text ".yaml")
          else []
    ]

-- `extractInterfaceNameFromIfcfgFile`.
unfoldable pub interface_name_from_ifcfg_file : Text → Text
interface_name_from_ifcfg_file file =
    if has_prefix file (text "ifcfg-") then trim_prefix file (text "ifcfg-") else []

-- The files that pass a test, in their order.
unfoldable pub only : (Text → Bool) → List Text → List Text
only test [] = []
only test (file ∷ files) = let rest = only test files in if test file then file ∷ rest else rest

module _ {W : Type 0} (parts : Parts W) where
  -- One round of a loop over files, behind the rollback.
  counted : Text → GoError → Deleted × W → GoError × W → Deleted × W
  counted name failure (out, _) (e, w) =
      if is_nil e
      then (
        record out {
          deleted_interfaces = out.deleted_interfaces ++ name ∷ [];
          total_deleted = suc out.total_deleted;
        },
        w,
      )
      else (record out { errors = out.errors ++ failure ∷ [] }, w)

  -- `deleteNetplanFile` and what its caller makes of an error.
  abbrev netplan_failure : Text → GoError → GoError
  netplan_failure file e =
      wrapped (text "failed to delete netplan file " ++ file)
        (wrapped (text "failed to rollback netplan file") e)

  -- The loop over netplan files.
  unfoldable pub delete_netplan_files : List Text → Deleted × W → Deleted × W
  unfolding counted
  delete_netplan_files [] r = r
  delete_netplan_files (file ∷ files) r =
      let (e, w) = parts.rollback (interface_name_from_file file) r.1 in
      delete_netplan_files files
        (counted (interface_name_from_file file) (netplan_failure file e) r (e, w))

  deleted_ifcfg : Text → Text → Deleted × W → Deleted × W
  unfolding counted
  deleted_ifcfg file name r =
      let (e, w) = parts.rollback name r.1 in
      if is_empty name
      then r
      else counted name (wrapped (text "failed to delete ifcfg file " ++ file) e) r (e, w)

  -- The loop over ifcfg files; a file without a name is skipped.
  unfoldable pub delete_ifcfg_files : List Text → Deleted × W → Deleted × W
  unfolding deleted_ifcfg
  delete_ifcfg_files [] r = r
  delete_ifcfg_files (file ∷ files) r =
      delete_ifcfg_files files (deleted_ifcfg file (interface_name_from_ifcfg_file file) r)

  -- `RenameInterface` to the first alternative name that no device has.
  renamed : Text → List Text → W → W
  renamed name [] w = w
  renamed name (alt ∷ alts) w =
      let rest = renamed name alts w in
      if interface_exists (parts.host w) alt then rest else (parts.rename name alt w).1

  renamed_to_alt : Text → Result (List Text) → W → W
  unfolding renamed
  renamed_to_alt name (err e) w = w
  renamed_to_alt name (ok alts) w = renamed name alts w

  if_down : Text → Result Bool → W → W
  unfolding renamed_to_alt
  if_down name (err e) w = w
  if_down name (ok true) w = w
  if_down name (ok false) w = renamed_to_alt name (alt_names (parts.host w) name) w

  -- One round of `cleanupMultinicInterfaceNames`.
  cleanup_slot : ℕ → W → W
  unfolding if_down
  cleanup_slot i w =
      if interface_exists (parts.host w) (multinic i)
      then if_down (multinic i) (is_interface_up (parts.host w) (multinic i)) w
      else w

  cleanup_slots : List ℕ → W → W
  unfolding cleanup_slot
  cleanup_slots [] w = w
  cleanup_slots (i ∷ is) w = cleanup_slots is (cleanup_slot i w)

  -- `cleanupMultinicInterfaceNames`.
  unfoldable pub cleanup_interface_names : W → W
  unfolding cleanup_slots
  cleanup_interface_names w = cleanup_slots slots w
