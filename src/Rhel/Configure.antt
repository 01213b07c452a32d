-- ===== src/Rhel/Configure.antt =====
-- internal/infrastructure/network/rhel_adapter.go: Configure, Validate and Rollback of the adapter.
-- A step takes the state of the node and returns an error with the state that it leaves; what a read
-- or a printing command returns in a state is a Host.
pub mod Laws
pub mod Again
use multi_network_interface.Prelude.{
  ℕ, Bool, true, false, ◌&&◌, ◌||◌, not, Option, none, some, List, [], ◌∷◌, ◌++◌, if◌then◌else◌,
}
use multi_network_interface.Prelude.Int.{ℤ, pos, ltb_ℤ}
use multi_network_interface.Prelude.Text.{
  Text, text, eqb, is_empty, contains, trim_space, split_on, itoa_ℤ,
}
use multi_network_interface.Prelude.Text.Words.{join_with}
use multi_network_interface.Errors.{
  GoError, nil, is_nil, Result, ok, err, error_text, new_network_error, new_system_error,
}
use multi_network_interface.Entities.Interface.{
  NetworkInterface, mac_of, address_of, cidr_of, mtu_of,
}
use multi_network_interface.Host.{Host}
use multi_network_interface.Rhel.{exec_command, find_device_by_mac}
use multi_network_interface.Rhel.Steps.{Step, System, failing, ◌>>>◌, done, ignored, or_fail, when}
use multi_network_interface.Rhel.Files.{
  normalize, Options, routing_table, route_metric, link_path, nm_path, link_content, nm_dir,
  systemd_dir, two_parts, generate_nm_connection,
}

-- The fields of `RHELAdapter` that decide.
pub record Adapter : Type 0 where
  pub is_container : Bool
  pub enable_selinux_restore : Bool
  pub opts : Options

-- `NewRHELAdapterWithSELinux`: in a container if `/host` is there.
unfoldable pub new_adapter : Host → Bool → Options → Adapter
new_adapter host selinux options = record {
  is_container = elim (host.run (text "test" ∷ text "-d" ∷ text "/host" ∷ [])) [
    | ok _ ↦ true
    | err _ ↦ false
  ];
  enable_selinux_restore = selinux;
  opts = normalize options;
}

rule : Text → Text → Text → List Text
rule verb address table =
    text "rule" ∷ verb ∷ text "from" ∷ (address ++ text "/32") ∷ text "table" ∷ table ∷ []

-- An error that says that the rule exists is none.
rule_error : GoError → GoError
rule_error e =
    if contains (error_text e) (text "File exists")
    then nil
    else new_network_error (text "failed to install policy rule") e

-- The words that restore the labels of a directory.
unfoldable pub restorecon : Bool → Text → List Text
restorecon is_container dir =
    text "sh"
    ∷ text "-c"
    ∷ join_with (text " ") (exec_command is_container (text "restorecon" ∷ text "-Rv" ∷ dir ∷ []))
    ∷ []

module _ {W : Type 0} (os : System W) (a : Adapter) where
  run : List Text → Step W
  run words = os.exec (exec_command a.is_container words)

  ip : List Text → Step W
  unfolding run
  ip words = run (text "ip" ∷ words)

  rename : Text → Text → Step W
  unfolding ip
  rename from to = ip (text "link" ∷ text "set" ∷ from ∷ text "name" ∷ to ∷ [])

  -- The second attempt of renaming, with the device down.
  rename_down : Text → Text → Step W
  unfolding rename ip
  rename_down from to =
      ignored (ip (text "link" ∷ text "set" ∷ from ∷ text "down" ∷ []))
      >>> or_fail
          (new_network_error (text "Failed to rename interface " ++ (from ++ (text " to " ++ to))))
          (rename from to)
      >>> ignored (ip (text "link" ∷ text "set" ∷ to ∷ text "up" ∷ []))

  rename_device : Text → Text → Step W
  unfolding rename rename_down
  rename_device from to w =
      let r = rename from to w in
      let s = rename_down from to r.1 in
      if eqb from to then (nil, w) else if is_nil r.0 then r else s

  set_mtu : NetworkInterface → Text → Step W
  unfolding ip
  set_mtu i name = when (ltb_ℤ (pos 0) (mtu_of i)) (
      or_fail (new_network_error (text "Failed to set MTU"))
        (ip (text "link" ∷ text "set" ∷ name ∷ text "mtu" ∷ itoa_ℤ (mtu_of i) ∷ [])))

  replace_address : Text → Text → Option Text → Step W
  unfolding ip
  replace_address address name none = done
  replace_address address name (some bits) =
      or_fail (new_network_error (text "Failed to set IPv4")) (
        ip (
          text "addr"
          ∷ text "replace"
          ∷ (address ++ (text "/" ++ bits))
          ∷ text "dev"
          ∷ name
          ∷ (if a.opts.use_noprefixroute then text "noprefixroute" ∷ [] else [])))

  set_ip : NetworkInterface → Text → Step W
  unfolding replace_address
  set_ip i name =
      when (not (is_empty (trim_space (address_of i))) && not (is_empty (trim_space (cidr_of i))))
        (replace_address (trim_space (address_of i)) name (two_parts (split_on b'/' (cidr_of i))))

  set_up : Text → Step W
  unfolding ip
  set_up name =
      or_fail (new_network_error (text "Failed to set link up"))
        (ip (text "link" ∷ text "set" ∷ name ∷ text "up" ∷ []))

  policy : Text → Text → Text → Step W
  unfolding ip rule rule_error
  policy address cidr name =
      when a.opts.use_noprefixroute
        (ignored (ip (text "route" ∷ text "del" ∷ cidr ∷ text "dev" ∷ name ∷ [])))
      >>> ignored (ip (rule (text "del") address (itoa_ℤ (routing_table a.opts name))))
      >>> or_fail rule_error (ip (rule (text "add") address (itoa_ℤ (routing_table a.opts name))))
      >>> or_fail (new_network_error (text "failed to install policy route")) (
          ip (
            text "route"
            ∷ text "replace"
            ∷ cidr
            ∷ text "dev"
            ∷ name
            ∷ text "table"
            ∷ itoa_ℤ (routing_table a.opts name)
            ∷ text "metric"
            ∷ itoa_ℤ (route_metric a.opts name)
            ∷ text "src"
            ∷ address
            ∷ []))

  -- `applyPolicyRouting`.
  unfoldable pub apply_policy_routing : NetworkInterface → Text → Step W
  unfolding policy
  apply_policy_routing i name =
      when (not (is_empty (trim_space (address_of i))) && not (is_empty (trim_space (cidr_of i))))
        (policy (trim_space (address_of i)) (trim_space (cidr_of i)) name)

  -- `setSysctl`.
  set_sysctl : Text → Text → Text → Step W
  unfolding run
  set_sysctl name key value = ignored (
      run (
        text "sysctl"
        ∷ text "-w"
        ∷ (text "net.ipv4.conf." ++ (name ++ (text "." ++ (key ++ (text "=" ++ value)))))
        ∷ []))

  -- `applySysctls`.
  unfoldable pub apply_sysctls : Text → Step W
  unfolding set_sysctl
  apply_sysctls name =
      when a.opts.set_loose_rp_filter (set_sysctl name (text "rp_filter") (text "2"))
      >>> when a.opts.set_arp_sysctls (set_sysctl name (text "arp_ignore") (text "1"))
      >>> when a.opts.set_arp_sysctls (set_sysctl name (text "arp_announce") (text "2"))

  restore : Text → Step W
  restore dir w =
      let r = os.exec (restorecon a.is_container dir) w in
      if (os.view w).exists dir then (nil, r.1) else (nil, w)

  -- `restoreSELinuxContext`.
  unfoldable pub restore_selinux_context : Step W
  unfolding restore
  restore_selinux_context = when a.enable_selinux_restore (restore nm_dir >>> restore systemd_dir)

  -- The two writes of `Configure`, and what follows.
  unfoldable pub persist : NetworkInterface → Text → Step W
  persist i name =
      or_fail (new_system_error (text "failed to write .link"))
        (os.write_file (link_path name) (link_content (mac_of i) name))
      >>> or_fail (new_system_error (text "failed to write .nmconnection"))
          (os.write_file (nm_path name) (generate_nm_connection a.opts i name))
      >>> restore_selinux_context

  prepare : NetworkInterface → Text → Text → Step W
  unfolding rename_device set_mtu set_ip set_up
  prepare i name device =
      rename_device device name
      >>> set_mtu i name
      >>> set_ip i name
      >>> set_up name
      >>> when a.opts.enable_policy_routing (apply_policy_routing i name)
      >>> apply_sysctls name
      >>> ignored (os.mkdir_all systemd_dir)
      >>> ignored (os.mkdir_all nm_dir)

  with_device : NetworkInterface → Text → Result Text → Step W
  unfolding prepare
  with_device i name (err e) w =
      (new_network_error (text "Failed to find device with MAC " ++ mac_of i) e, w)
  with_device i name (ok device) w = (prepare i name device >>> persist i name) w

  -- `Configure`.
  unfoldable pub configure : NetworkInterface → Text → Step W
  unfolding with_device
  configure i name w =
      with_device i name (find_device_by_mac (os.view w) a.is_container (mac_of i)) w

  -- `Validate`, which changes nothing.
  unfoldable pub validate : Text → W → GoError
  validate name w =
      elim ((os.view w).run
        (exec_command a.is_container (text "ip" ∷ text "link" ∷ text "show" ∷ name ∷ []))) [
          | err e ↦ new_network_error (text "Interface " ++ (name ++ text " not found")) e
          | ok output ↦
              if (os.view w).exists (link_path name) && (os.view w).exists (nm_path name)
              then nil
              else new_network_error (text "persist files not found") nil
        ]

  -- `cleanupRouting`.
  unfoldable pub cleanup_routing : Text → Step W
  unfolding ip
  cleanup_routing name =
      let table = itoa_ℤ (routing_table a.opts name) in
      when a.opts.enable_policy_routing (
        ignored (ip (text "rule" ∷ text "delete" ∷ text "table" ∷ table ∷ []))
        >>> ignored (ip (text "route" ∷ text "flush" ∷ text "table" ∷ table ∷ [])))

  -- `Rollback`.
  unfoldable pub rollback : Text → Step W
  rollback name =
      ignored (os.remove (link_path name))
      >>> ignored (os.remove (nm_path name))
      >>> cleanup_routing name
