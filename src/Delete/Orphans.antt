-- ===== src/Delete/Orphans.antt =====
-- internal/application/usecases/delete_network.go: the search for orphaned files, and `Execute`.
use mathlib.Core.List.{reverse}
use multi_network_interface.Prelude.{
  ℕ, Bool, true, false, ◌&&◌, ◌||◌, not, List, [], ◌∷◌, ◌++◌, ◌==◌, if◌then◌else◌,
}
use multi_network_interface.Prelude.Text.{
  Text, text, eqb, is_empty, trim_space, to_lower, split_on, has_prefix, contains,
}
use multi_network_interface.Prelude.Text.Words.{trim_prefix}
use multi_network_interface.Errors.{plain, wrapped, Result, ok, err, ◌>>=◌, error_text}
use multi_network_interface.Entities.Interface.{NetworkInterface, mac_of}
use multi_network_interface.Host.Queries.{newline, list_netplan_files, get_hostname}
use multi_network_interface.Configure.{OsType, ubuntu, rhel}
use multi_network_interface.Delete.{
  Input, Deleted, nothing_deleted, Parts, netplan_dir, ifcfg_dir, is_multinic_netplan_file,
  is_multinic_ifcfg_file, only, delete_netplan_files, delete_ifcfg_files, cleanup_interface_names,
}

wrap {ℓ} : {A : Type ℓ} → Text → Result A → Result A
wrap message (ok a) = ok a
wrap message (err e) = err (wrapped message e)

first_nonempty : List Text → Result Text
first_nonempty [] = err (plain (text "MAC address not found"))
first_nonempty (mac ∷ macs) =
    let rest = first_nonempty macs in if is_empty mac then rest else ok mac

abbrev is_quote : ℕ → Bool
is_quote c = c == b'"' || c == 39

-- `strings.Trim(s, "\"'")`.
trim_quotes_left : Text → Text
trim_quotes_left [] = []
trim_quotes_left (c ∷ s) = if is_quote c then trim_quotes_left s else c ∷ s

trim_quotes : Text → Text
unfolding trim_quotes_left
trim_quotes s = reverse (trim_quotes_left (reverse (trim_quotes_left s)))

hwaddr_in : List Text → Result Text
unfolding trim_quotes
hwaddr_in [] = err (plain (text "HWADDR not found in ifcfg file"))
hwaddr_in (line ∷ lines) =
    let rest = hwaddr_in lines in
    if has_prefix (trim_space line) (text "HWADDR=")
    then ok (trim_quotes (trim_prefix (trim_space line) (text "HWADDR=")))
    else rest

-- The keys of `activeMACAddresses`.
abbrev pub is_active : List NetworkInterface → Text → Bool
is_active [] mac = false
is_active (i ∷ is) mac = eqb (to_lower (mac_of i)) (to_lower mac) || is_active is mac

module _ {W : Type 0} (parts : Parts W) where
  -- `getMACAddressFromNetplanFile` and `getMACAddressFromIfcfgFile`.
  unfoldable pub mac_from_netplan_file : Text → W → Result Text
  unfolding wrap first_nonempty
  mac_from_netplan_file path w = do
    content ← wrap (text "failed to read file") ((parts.host w).read_file path)
    macs ← wrap (text "failed to parse YAML") (parts.parse_macs content)
    first_nonempty macs

  unfoldable pub mac_from_ifcfg_file : Text → W → Result Text
  unfolding wrap hwaddr_in
  mac_from_ifcfg_file path w = do
    content ← wrap (text "failed to read file") ((parts.host w).read_file path)
    hwaddr_in (split_on newline content)

  -- `getHostname` and `GetAllNodeInterfaces`.
  unfoldable pub active_interfaces : W → Result (List NetworkInterface)
  unfolding wrap
  active_interfaces w = do
    hostname ← wrap (text "failed to get hostname") (get_hostname (parts.host w))
    wrap (text "failed to get active interfaces") (parts.all_node_interfaces hostname)

  -- A file whose MAC address can be read and belongs to no interface.
  abbrev pub is_orphan : List NetworkInterface → Result Text → Bool
  is_orphan active (err e) = false
  is_orphan active (ok mac) = not (is_active active mac)

  unfoldable pub is_orphaned_netplan : List NetworkInterface → W → Text → Bool
  is_orphaned_netplan active w file =
      is_multinic_netplan_file file
      && is_orphan active (mac_from_netplan_file (netplan_dir ++ (text "/" ++ file)) w)

  unfoldable pub is_orphaned_ifcfg : List NetworkInterface → W → Text → Bool
  is_orphaned_ifcfg active w file =
      is_multinic_ifcfg_file file
      && is_orphan active (mac_from_ifcfg_file (ifcfg_dir ++ (text "/" ++ file)) w)

  -- `findOrphanedNetplanFiles`.
  unfoldable pub find_orphaned_netplan_files : W → Result (List Text)
  unfolding wrap active_interfaces
  find_orphaned_netplan_files w = do
    files ←
        wrap (text "failed to scan netplan directory")
          (list_netplan_files (parts.host w) netplan_dir)
    active ← active_interfaces w
    ok (only (is_orphaned_netplan active w) files)

  -- `findOrphanedIfcfgFiles`.
  unfoldable pub find_orphaned_ifcfg_files : List Text → W → Result (List Text)
  unfolding active_interfaces
  find_orphaned_ifcfg_files files w = do
    active ← active_interfaces w
    ok (only (is_orphaned_ifcfg active w) files)

  abbrev finished : Deleted × W → Result Deleted × W
  finished (out, w) = (ok out, w)

  deleted_from :
      Text → (List Text → Deleted × W → Deleted × W) → W → Result (List Text) → Result Deleted × W
  deleted_from message loop w (err e) = (err (wrapped message e), w)
  deleted_from message loop w (ok files) = finished (loop files (nothing_deleted, w))

  -- `executeNetplanCleanup`.
  unfoldable pub execute_netplan_cleanup : W → Result Deleted × W
  unfolding deleted_from
  execute_netplan_cleanup w =
      deleted_from (text "failed to find orphaned netplan files") (delete_netplan_files parts) w
        (find_orphaned_netplan_files w)

  -- A missing directory only leads to the cleanup of names.
  ifcfg_cleanup : W → Result (List Text) → Result Deleted × W
  unfolding deleted_from
  ifcfg_cleanup w (ok files) =
      deleted_from (text "failed to find orphaned ifcfg files") (delete_ifcfg_files parts) w
        (find_orphaned_ifcfg_files files w)
  ifcfg_cleanup w (err e) =
      if contains (error_text e) (text "no such file or directory")
      then (ok nothing_deleted, cleanup_interface_names parts w)
      else (err (wrapped (text "failed to list ifcfg files") e), w)

  -- `executeIfcfgCleanup`.
  unfoldable pub execute_ifcfg_cleanup : W → Result Deleted × W
  unfolding ifcfg_cleanup
  execute_ifcfg_cleanup w = ifcfg_cleanup w (list_netplan_files (parts.host w) ifcfg_dir)

  unfoldable pub all_deleted :
      (List Text → Deleted × W → Deleted × W) → W → List Text → Result Deleted × W
  all_deleted loop w [] = (ok nothing_deleted, cleanup_interface_names parts w)
  all_deleted loop w (file ∷ files) = finished (loop (file ∷ files) (nothing_deleted, w))

  unfoldable pub full_cleanup_of :
      Text
      → (Text → Bool)
      → (List Text → Deleted × W → Deleted × W)
      → W
      → Result (List Text)
      → Result Deleted × W
  unfolding all_deleted
  full_cleanup_of message test loop w (err e) = (err (wrapped message e), w)
  full_cleanup_of message test loop w (ok files) = all_deleted loop w (only test files)

  -- `executeFullNetplanCleanup` and `executeFullIfcfgCleanup`.
  unfoldable pub execute_full_netplan_cleanup : W → Result Deleted × W
  unfolding full_cleanup_of
  execute_full_netplan_cleanup w =
      full_cleanup_of (text "failed to scan netplan directory") is_multinic_netplan_file
        (delete_netplan_files parts) w (list_netplan_files (parts.host w) netplan_dir)

  unfoldable pub execute_full_ifcfg_cleanup : W → Result Deleted × W
  unfolding full_cleanup_of
  execute_full_ifcfg_cleanup w =
      full_cleanup_of (text "failed to list ifcfg files") is_multinic_ifcfg_file
        (delete_ifcfg_files parts) w (list_netplan_files (parts.host w) ifcfg_dir)

  unfoldable pub delete_by : OsType → Bool → W → Result Deleted × W
  delete_by ubuntu true w = execute_full_netplan_cleanup w
  delete_by rhel true w = execute_full_ifcfg_cleanup w
  delete_by ubuntu false w = execute_netplan_cleanup w
  delete_by rhel false w = execute_ifcfg_cleanup w

  unfoldable pub delete_on : Input → W → Result OsType → Result Deleted × W
  unfolding delete_by
  delete_on input w (err e) = (err (wrapped (text "failed to detect OS") e), w)
  delete_on input w (ok os) =
      delete_by os (input.full_cleanup || eqb (parts.getenv (text "AGENT_ACTION")) (text "cleanup"))
        w

  -- `Execute`.
  unfoldable pub execute_delete : Input → W → Result Deleted × W
  unfolding delete_on
  execute_delete input w = delete_on input w parts.detect_os
