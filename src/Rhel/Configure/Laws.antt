-- ===== src/Rhel/Configure/Laws.antt =====
-- internal/infrastructure/network/rhel_adapter.go: what Validate finds after Configure.
use multi_network_interface.Prelude.{
  ◌≡◌, sym, ap, ◌∙◌, ◌↔◌, inl, inr, Bool, true, [], ◌∷◌, ◌++◌, Bool-cases, arith,
}
use multi_network_interface.Prelude.Text.{Text, text}
use multi_network_interface.Errors.{nil, is_nil, Result, ok, err, Result-cases}
use multi_network_interface.Entities.Interface.{NetworkInterface, mac_of}
use multi_network_interface.Rhel.{exec_command}
use multi_network_interface.Rhel.Files.{link_path, nm_path, nm_dir, systemd_dir}
use multi_network_interface.Rhel.Steps.{System, ◌>>>◌}
use multi_network_interface.Rhel.Steps.Laws.{
  >>>-Preserves, when-Preserves, >>>-nil, failing-nil, system-proper, network-proper,
}
use multi_network_interface.Rhel.Configure.{
  Adapter, restorecon, restore, restore_selinux_context, persist, prepare, with_device, configure,
  validate,
}

-- What the file system and `restorecon` promise: a file that was written is there, and files that are
-- there stay when another one is written or a directory is labelled.
pub record Keeps {W : Type 0} (os : System W) : Type 0 where
  pub written :
      (path content : Text) (w : W)
      → (os.write_file path content w).0 ≡ nil
      → (os.view (os.write_file path content w).1).exists path ≡ true
  pub write_keeps :
      (kept path content : Text) (w : W)
      → (os.view w).exists kept ≡ true
      → (os.view (os.write_file path content w).1).exists kept ≡ true
  pub label_keeps :
      (kept dir : Text) (is_container : Bool) (w : W)
      → (os.view w).exists kept ≡ true
      → (os.view (os.exec (restorecon is_container dir) w).1).exists kept ≡ true

module _ {W : Type 0} (os : System W) (a : Adapter) (keeps : Keeps os) where
  restore-keeps :
      (kept dir : Text) (w : W)
      → (os.view w).exists kept ≡ true
      → (os.view (restore os a dir w).1).exists kept ≡ true
  unfolding restore
  restore-keeps kept dir w h = elim (Bool-cases ((os.view w).exists dir)) [
    | inl there ↦ rw there (keeps.label_keeps kept dir a.is_container w h)
    | inr missing ↦ rw missing h
  ]

  restore_selinux_context-keeps :
      (kept : Text) (w : W)
      → (os.view w).exists kept ≡ true
      → (os.view (restore_selinux_context os a w).1).exists kept ≡ true
  unfolding restore_selinux_context
  restore_selinux_context-keeps kept =
      let P = λ (w : W). (os.view w).exists kept ≡ true in
      when-Preserves P a.enable_selinux_restore (restore os a nm_dir >>> restore os a systemd_dir) (
        >>>-Preserves P (restore os a nm_dir) (restore os a systemd_dir) (restore-keeps kept nm_dir)
          (restore-keeps kept systemd_dir))

  -- Both files are there at the end.
  persist-exists :
      (i : NetworkInterface) (name : Text) (w : W)
      → (persist os a i name w).0 ≡ nil
      → ((os.view (persist os a i name w).1).exists (link_path name) ≡ true)
        × ((os.view (persist os a i name w).1).exists (nm_path name) ≡ true)
  unfolding persist
  persist-exists i name w h =
      let (link, e) = >>>-nil _ _ w h in
      let (nm, d) = >>>-nil _ _ _ (ap (λ r. r.0) (sym e) ∙ h) in
      let linked = keeps.written _ _ w (failing-nil _ _ (system-proper _) link) in
      let written = keeps.written _ _ _ (failing-nil _ _ (system-proper _) nm) in
      let end = ap (λ r. r.1) (e ∙ d) in
      (
        rw end (restore_selinux_context-keeps _ _ (keeps.write_keeps _ _ _ _ linked)),
        rw end (restore_selinux_context-keeps _ _ written),
      )

  with_device-persist :
      (i : NetworkInterface) (name : Text) (r : Result Text) (w : W)
      → (with_device os a i name r w).0 ≡ nil
      → (v : W) × (with_device os a i name r w ≡ persist os a i name v)
  unfolding with_device
  with_device-persist i name (err e) w h = absurd (
      ground
        (arith, network-proper (text "Failed to find device with MAC " ++ mac_of i) e, ap is_nil h))
  with_device-persist i name (ok device) w h =
      let (fine, e) = >>>-nil (prepare os a i name device) (persist os a i name) w h in (_, e)

  validate_iff :
      (name : Text) (u : W)
      → (os.view u).exists (link_path name) ≡ true
      → (os.view u).exists (nm_path name) ≡ true
      → (validate os a name u ≡ nil) ↔ (
          (output : Text) × ((os.view u).run
              (exec_command a.is_container (text "ip" ∷ text "link" ∷ text "show" ∷ name ∷ []))
            ≡ ok output))
  unfolding validate
  validate_iff name u link nm =
      elim (Result-cases (
        (os.view u).run
          (exec_command a.is_container (text "ip" ∷ text "link" ∷ text "show" ∷ name ∷ [])))) [
            | inl (output, e) ↦ (λ _. (output, e), λ _. ground arith)
            | inr (x, e) ↦ (
              λ h. absurd (
                  ground (
                    arith,
                    network-proper (text "Interface " ++ (name ++ text " not found")) x,
                    ap is_nil h,
                  )),
              λ (output, d). absurd (ground arith),
            )
          ]

  -- After Configure succeeds, Validate succeeds in the state that it
  -- leaves exactly if `ip link show` knows the name.
  pub configure-validate :
      (i : NetworkInterface) (name : Text) (w : W)
      → (configure os a i name w).0 ≡ nil
      → (validate os a name (configure os a i name w).1 ≡ nil) ↔ (
          (output : Text) × ((os.view (configure os a i name w).1).run
              (exec_command a.is_container (text "ip" ∷ text "link" ∷ text "show" ∷ name ∷ []))
            ≡ ok output))
  unfolding configure
  configure-validate i name w h =
      let (v, e) = with_device-persist i name _ w h in
      let (link, nm) = persist-exists i name v (ap (λ r. r.0) (sym e) ∙ h) in
      validate_iff name (configure os a i name w).1
        (ap (λ r. (os.view r.1).exists (link_path name)) e ∙ link)
        (ap (λ r. (os.view r.1).exists (nm_path name)) e ∙ nm)
