-- ===== src/Rhel/Configure/Again.antt =====
-- internal/infrastructure/network/rhel_adapter.go, with internal/application/usecases/processing_decision.go:
-- what the decision makes of the files that Configure has written.
use multi_network_interface.Prelude.{◌≡◌, ◌≢◌, false, List, ◌++◌}
use multi_network_interface.Prelude.Text.{Text, text}
use multi_network_interface.Prelude.Text.Words.{join_path}
use multi_network_interface.Rhel.Files.{nm_dir}
use multi_network_interface.Rhel.Steps.{System}
use multi_network_interface.Rhel.Configure.{Adapter}

-- The file that the decision looks for.
abbrev pub ifcfg_path : Text → Text
ifcfg_path name = join_path nm_dir (text "ifcfg-" ++ name)

-- What the file system and the commands promise: a file that is not there comes into being only when
-- it is itself written.
pub record OnlyWrites {W : Type 0} (os : System W) : Type 0 where
  pub exec_none :
      (path : Text) (words : List Text) (w : W)
      → (os.view w).exists path ≡ false
      → (os.view (os.exec words w).1).exists path ≡ false
  pub mkdir_none :
      (path dir : Text) (w : W)
      → path ≢ dir
      → (os.view w).exists path ≡ false
      → (os.view (os.mkdir_all dir w).1).exists path ≡ false
  pub write_none :
      (path other content : Text) (w : W)
      → path ≢ other
      → (os.view w).exists path ≡ false
      → (os.view (os.write_file other content w).1).exists path ≡ false

-- Where the path of the ifcfg file differs from the others.
abbrev mark : Text
mark = text "/etc/NetworkManager/system-connections/i"

module _ {W : Type 0} (os : System W) (a : Adapter) (only : OnlyWrites os) (name : Text) where
  -- The file is not there.
  abbrev Absent : W → Type 0
  Absent w = (os.view w).exists (ifcfg_path name) ≡ false
