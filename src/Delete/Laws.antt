-- ===== src/Delete/Laws.antt =====
-- internal/application/usecases/delete_network.go: what is removed, and what is left alone.
pub mod Full
use multi_network_interface.Prelude.{
  ℕ, suc, ◌+◌, ◌≡◌, ◌≢◌, true, ◌&&◌, not, List, [], ◌∷◌, ◌++◌, length, length-snoc, All, All-append,
  Bool-cases, inl, inr, arith,
}
use multi_network_interface.Prelude.Text.{Text, text, eqb, to_lower}
use multi_network_interface.Errors.{GoError, is_nil, Result, ok}
use multi_network_interface.Entities.Interface.{NetworkInterface, mac_of}
use multi_network_interface.Delete.{
  Deleted, Parts, netplan_dir, is_multinic_netplan_file, interface_name_from_file, counted,
  delete_netplan_files,
}
use multi_network_interface.Delete.Orphans.{is_orphan, mac_from_netplan_file}

add_zero : (n : ℕ) → n + 0 ≡ n
add_zero n = omega arith

add_suc : (n m : ℕ) → n + suc m ≡ suc n + m
add_suc n m = omega arith

-- No interface of the list has the MAC address, in any case of letters.
abbrev pub NoneHas : List NetworkInterface → Text → Type 0
NoneHas active mac = All (λ i. to_lower (mac_of i) ≢ to_lower mac) active

module _ {W : Type 0} (parts : Parts W) (w : W) where
  -- A netplan file of a multinic interface whose MAC address is none of the given interfaces'.
  abbrev pub IsStray : List NetworkInterface → Text → Type 0
  IsStray active file =
      (is_multinic_netplan_file file ≡ true)
      × (mac : Text) × (mac_from_netplan_file parts (netplan_dir ++ (text "/" ++ file)) w ≡ ok mac)
      × NoneHas active mac

module _ {W : Type 0} (parts : Parts W) (P : Text → Type 0) where
  -- The names of the files that pass are all that is removed, and every file is accounted for.
  abbrev pub Accounts : ℕ → Deleted → Type 0
  Accounts n out =
      All P out.deleted_interfaces
      × (out.total_deleted ≡ length out.deleted_interfaces)
      × (out.total_deleted + length out.errors ≡ n)

  counted-Accounts :
      (n : ℕ) (name : Text) (failure : GoError) (r : Deleted × W) (e : GoError × W)
      → P name
      → Accounts n r.0
      → Accounts (suc n) (counted parts name failure r e).0
  unfolding counted
  counted-Accounts n name failure (out, v) (e, w) p (all, total, sums) =
      elim (Bool-cases (is_nil e)) [
        | inl good ↦
            let added = length-snoc out.deleted_interfaces name in
            rw good (
              All-append P out.deleted_interfaces (name ∷ []) all (p, tt),
              omega arith,
              omega arith,
            )
        | inr bad ↦ let added = length-snoc out.errors failure in rw bad (all, total, omega arith)
      ]

  pub delete_netplan_files-Accounts :
      (files : List Text) (n : ℕ) (r : Deleted × W)
      → All (λ file. P (interface_name_from_file file)) files
      → Accounts n r.0
      → Accounts (n + length files) (delete_netplan_files parts files r).0
  unfolding delete_netplan_files
  delete_netplan_files-Accounts [] n r h a = rw (add_zero n) a
  delete_netplan_files-Accounts (file ∷ files) n r (p, h) a =
      let next =
        delete_netplan_files-Accounts files (suc n) _ h
          (counted-Accounts n (interface_name_from_file file) _ r _ p a) in
      rw (add_suc n (length files)) next

module _ {W : Type 0} (parts : Parts W) (w : W) where
  -- The name is that of an orphaned file.
  abbrev pub IsOfOrphan : List NetworkInterface → Text → Type 0
  IsOfOrphan active name =
      (file : Text) × IsStray parts w active file × (name ≡ interface_name_from_file file)
