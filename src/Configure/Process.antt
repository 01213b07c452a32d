-- ===== src/Configure/Process.antt =====
-- internal/application/usecases: the steps for one interface, of configure_network.go,
-- orchestrator.go and processing_decision.go.
pub mod Laws
use multi_network_interface.Prelude.{
  ℕ, Bool, true, false, ◌||◌, not, List, [], ◌∷◌, ◌++◌, if◌then◌else◌,
}
use multi_network_interface.Prelude.Int.{ℤ}
use multi_network_interface.Prelude.Text.{Text, text, is_empty, trim_space, itoa}
use multi_network_interface.Prelude.Text.Words.{join_path}
use multi_network_interface.Errors.{
  GoError, nil, is_nil, plain, wrapped, domain, Result, ok, err, error_text, new_network_error,
  new_validation_error,
}
use multi_network_interface.Entities.{Net}
use multi_network_interface.Entities.InterfaceName.{InterfaceName}
use multi_network_interface.Entities.Interface.{
  InterfaceStatus, is_pending_status, pending, configured, failed, NetworkInterface, id_of, mac_of,
  validate,
}
use multi_network_interface.Host.{Host}
use multi_network_interface.Host.Queries.{find_interface_name_by_mac}
use multi_network_interface.Drift.{
  find_ifcfg_file, is_ifcfg_drift, find_netplan_file, is_netplan_drift,
}
use multi_network_interface.Configure.{OsType, ubuntu, rhel, Services, is_link_up}

-- A stage that runs if the one before it returned nil.
infixl 5 ◌>=>◌
abbrev pub ◌>=>◌ : {W : Type 0} → GoError × W → (W → GoError × W) → GoError × W
(e, w) >=> f = if is_nil e then f w else (e, w)

module _ {W : Type 0} (services : Services W) where
  -- What the caller makes of a failure and of the rollback that follows it.
  abbrev after_rollback : Text → Text → GoError → GoError × W → GoError × W
  after_rollback message both_failed cause (e, w) =
      (new_network_error (if is_nil e then message else both_failed ++ error_text e) cause, w)

  applied : InterfaceName → GoError × W → GoError × W
  applied name (e, w) =
      if is_nil e
      then (nil, w)
      else after_rollback (text "Failed to apply network configuration")
          (text "Failed to apply configuration and rollback also failed: ") e
          (services.rollback name.value w)

  -- `applyConfiguration`, with `performRollback`.
  unfoldable pub apply_configuration : NetworkInterface → InterfaceName → W → GoError × W
  unfolding applied
  apply_configuration i name w = applied name (services.configure i name w)

  absent : InterfaceName → GoError → W → GoError × W
  absent name cause w =
      after_rollback (text "System MAC presence check failed")
        (text "System MAC presence check failed and rollback also failed: ") cause
        (services.rollback name.value w)

  -- The rollback's error is not part of this message.
  not_up : InterfaceName → Text → GoError × W → GoError × W
  not_up name found (e, w) = (
    new_network_error
        (if is_nil e
          then text "Interface is not UP after apply"
          else text "Interface not UP and rollback also failed")
        (plain (text "interface " ++ (found ++ text " not UP"))),
    w,
  )

  -- `validateConfiguration`.
  unfoldable pub validate_configuration : NetworkInterface → InterfaceName → W → GoError × W
  unfolding absent not_up
  validate_configuration i name w = elim (find_interface_name_by_mac (services.host w) (mac_of i)) [
    | err e ↦ absent name e w
    | ok found ↦
        if is_empty (trim_space found)
        then absent name nil w
        else if not (is_link_up services w found)
        then not_up name found (services.rollback name.value w)
        else (nil, w)
  ]

  -- `ProcessingUseCase.Process`.
  unfoldable pub process : NetworkInterface → InterfaceName → W → GoError × W
  unfolding apply_configuration validate_configuration
  process i name w =
      apply_configuration i name w
      >=> validate_configuration i name
      >=> services.update_status (id_of i) configured

  -- `processInterface`, the variant that validates the entity first.
  unfoldable pub process_interface : NetworkInterface → InterfaceName → W → GoError × W
  unfolding process
  process_interface i name w =
      if is_nil (validate i)
      then process i name w
      else (new_validation_error (text "Interface validation failed") (validate i), w)

  -- `handleProcessingError`: the result of the update is only logged.
  unfoldable pub handle_processing_error : NetworkInterface → W → W
  handle_processing_error i w = (services.update_status (id_of i) failed w).1

  -- `checkRHELNeedProcessing`.
  unfoldable pub check_rhel_need_processing : NetworkInterface → InterfaceName → W → Bool × Text
  check_rhel_need_processing i name w =
      let path = find_ifcfg_file (services.host w) services.config_dir name.value in
      (
        is_empty path
            || ((if is_empty path then false else is_ifcfg_drift (services.host w) i path)
                || is_pending_status i.status),
        path,
      )

  abbrev netplan_path : InterfaceName → Text → Text
  netplan_path name found =
      if is_empty found
      then join_path services.config_dir
          (text "9" ++ (itoa name.index ++ (text "-" ++ (name.value ++ text ".yaml"))))
      else found

  -- `checkNetplanNeedProcessing`.
  unfoldable pub check_netplan_need_processing :
      Net → NetworkInterface → InterfaceName → W → Bool × Text
  check_netplan_need_processing net i name w =
      let path =
        netplan_path name (find_netplan_file (services.host w) services.config_dir name.value) in
      let exists = (services.host w).exists path in
      (
        not exists
            || ((if exists
                  then is_netplan_drift (services.host w) net services.parse_yaml i path
                  else false)
                || is_pending_status i.status),
        path,
      )

  -- `checkNeedProcessing`.
  unfoldable pub check_need_processing :
      Net → NetworkInterface → InterfaceName → OsType → W → Bool × Text
  unfolding check_rhel_need_processing check_netplan_need_processing
  check_need_processing net i name rhel w = check_rhel_need_processing i name w
  check_need_processing net i name ubuntu w = check_netplan_need_processing net i name w
