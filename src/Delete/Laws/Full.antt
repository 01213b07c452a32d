-- ===== src/Delete/Laws/Full.antt =====
-- internal/application/usecases/delete_network.go: the cleanup of all files on Ubuntu.
use mathlib.Core.Path.{subst}
use multi_network_interface.Prelude.{
  ◌+◌, ◌≡◌, refl, sym, ap, Bool, true, false, ◌||◌, List, [], ◌∷◌, length, All, arith,
}
use multi_network_interface.Prelude.Text.{Text, text, eqb}
use multi_network_interface.Errors.{Result, ok}
use multi_network_interface.Host.Queries.{list_netplan_files}
use multi_network_interface.Configure.{ubuntu}
use multi_network_interface.Delete.{
  Deleted, Input, nothing_deleted, Parts, netplan_dir, is_multinic_netplan_file,
  delete_netplan_files, only,
}
use multi_network_interface.Delete.Orphans.{
  all_deleted, full_cleanup_of, execute_full_netplan_cleanup, delete_by, delete_on, execute_delete,
}
use multi_network_interface.Delete.Laws.{delete_netplan_files-Accounts}

All-units : (files : List Text) → All {0, 0} (λ file. Unit) files
All-units [] = tt
All-units (file ∷ files) = (tt, All-units files)

or_true : (b : Bool) → (b || true) ≡ true
or_true true = refl
or_true false = refl

module _ {W : Type 0} (parts : Parts W) (w : W) where
  -- The deletion returns an output, in which each file is counted as deleted or has an error.
  abbrev pub AccountsFor : List Text → Result Deleted × W → Type 0
  AccountsFor files r =
      (out : Deleted) × (r.0 ≡ ok out) × (out.total_deleted + length out.errors ≡ length files)

  all_deleted-AccountsFor :
      (files : List Text)
      → AccountsFor files (all_deleted parts (delete_netplan_files parts) w files)
  unfolding all_deleted
  all_deleted-AccountsFor [] = (nothing_deleted, refl, refl)
  all_deleted-AccountsFor (file ∷ files) =
      let (_, _, sum) =
        delete_netplan_files-Accounts parts (λ name. Unit) (file ∷ files) 0 (nothing_deleted, w)
          (All-units (file ∷ files)) (tt, refl, refl) in
      (_, refl, omega (arith, sum))

  pub execute_delete-AccountsFor :
      (input : Input) (files : List Text)
      → parts.detect_os ≡ ok ubuntu
      → eqb (parts.getenv (text "AGENT_ACTION")) (text "cleanup") ≡ true
      → list_netplan_files (parts.host w) netplan_dir ≡ ok files
      → AccountsFor (only is_multinic_netplan_file files) (execute_delete parts input w)
  unfolding execute_delete delete_on delete_by execute_full_netplan_cleanup full_cleanup_of
  execute_delete-AccountsFor input files detected action listed =
      subst (AccountsFor (only is_multinic_netplan_file files))
        (sym (ap (λ os. delete_on parts input w os) detected))
        (rw (action, or_true input.full_cleanup, listed)
          (all_deleted-AccountsFor (only is_multinic_netplan_file files)))
