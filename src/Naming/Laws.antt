-- ===== src/Naming/Laws.antt =====
-- `GenerateNextNameForMAC`: where its name comes from, and what that keeps.
pub mod Keeps
pub mod Passes
pub mod Reserved
pub mod Unique
pub mod Clash
pub mod Fails
use mathlib.Core.Path.{subst}
use multi_network_interface.Prelude.{
  ℕ, ◌≡◌, refl, sym, ap, ◌∙◌, Bool, true, false, ◌&&◌, Option, none, some, List, [], ◌∷◌, All,
  All-map, arith, inl, inr, Bool-cases, Option-cases, if◌then◌else◌,
}
use multi_network_interface.Prelude.Text.{Text, eqb, eqb_iff, to_lower, equal_fold}
use multi_network_interface.Errors.{Result-cases, GoError, Result, ok, err}
use multi_network_interface.Entities.InterfaceName.{InterfaceName, new_interface_name}
use multi_network_interface.Entities.InterfaceName.Laws.{new_interface_name_sound}
use multi_network_interface.Host.{Host, multinic, slots, mac_for_interface}
use multi_network_interface.Host.Laws.{ShowFailsWithoutDevice}
use multi_network_interface.Naming.{
  Naming, name_of_mac, assign, first_such, is_free, is_name_taken, is_own, is_same_mac,
  generate_next_internal, generate_unreserved, generate_by, generate_for_mac,
}
use multi_network_interface.Naming.Reservations.{
  Inv, Inv-assign_free, Inv-assign_own, name_of_mac-assign, first_such-name, first_such-none,
}

-- Where the name of a MAC address comes from, with the state that is left.
pub data Origin (host : Host) (st : Naming) (mac : Text) (n : InterfaceName) (st' : Naming)
    : Type 0 where
  kept : name_of_mac st (to_lower mac) ≡ some n.value → st' ≡ st → Origin host st mac n st'
  own :
      (x : Text)
      → name_of_mac st (to_lower mac) ≡ none
      → mac_for_interface host n.value ≡ ok x
      → to_lower x ≡ to_lower mac
      → st' ≡ assign st (to_lower mac) n.value
      → Origin host st mac n st'
  fresh :
      name_of_mac st (to_lower mac) ≡ none
      → is_free host st n.value ≡ true
      → st' ≡ assign st (to_lower mac) n.value
      → Origin host st mac n st'

is_same_mac-shown :
    (mac : Text) (r : Result Text)
    → is_same_mac mac r ≡ true
    → (x : Text) × (r ≡ ok x) × (to_lower x ≡ to_lower mac)
unfolding equal_fold
is_same_mac-shown mac (ok x) h = (x, refl, (eqb_iff _ _).0 h)
is_same_mac-shown mac (err e) h = absurd (cc)

is_own-shown :
    (host : Host) (st : Naming) (mac name : Text)
    → is_own host st mac name ≡ true
    → (x : Text) × (mac_for_interface host name ≡ ok x) × (to_lower x ≡ to_lower mac)
is_own-shown host st mac name h = is_same_mac-shown mac (mac_for_interface host name) (ground arith)

parsed_value : (name : Text) (n : InterfaceName) → new_interface_name name ≡ ok n → n.value ≡ name
parsed_value name n h = (new_interface_name_sound name n h).0

parsed_self :
    (name : Text) (n : InterfaceName)
    → new_interface_name name ≡ ok n
    → new_interface_name n.value ≡ ok n
parsed_self name n h = subst (λ t. new_interface_name t ≡ ok n) (sym (parsed_value name n h)) h

-- What is not free is taken.
taken_of_busy :
    (host : Host) (st : Naming) (n : Text)
    → is_free host st n ≡ false
    → is_name_taken host st n ≡ true
taken_of_busy host st n h = ground arith

module _ (host : Host) (st : Naming) (mac : Text) where
  -- What is known of the name that a call returns.
  Found : InterfaceName → Naming → Type 0
  Found n st' = Origin host st mac n st' × (new_interface_name n.value ≡ ok n)

  generate_next_internal-fresh :
      (n : InterfaceName)
      → generate_next_internal host st ≡ ok n
      → (is_free host st n.value ≡ true) × (new_interface_name n.value ≡ ok n)
  unfolding generate_next_internal
  generate_next_internal-fresh n h = elim (Option-cases (first_such (is_free host st) slots)) [
    | inl none_free ↦ absurd (ground arith)
    | inr (name, found) ↦
        let (i, valid, free) = first_such-name (is_free host st) name found in
        let parsed : new_interface_name name ≡ ok n = ground arith in
        (rw (parsed_value name n parsed) free, parsed_self name n parsed)
  ]

  generate_by-Found :
      (o : Option Text) (n : InterfaceName) (st' : Naming)
      → name_of_mac st (to_lower mac) ≡ o
      → generate_by host st mac o ≡ (ok n, st')
      → Found n st'
  unfolding generate_by Found
  generate_by-Found (some name) n st' e h =
      let parsed : new_interface_name name ≡ ok n = ground arith in
      (
        kept (e ∙ ap some (sym (parsed_value name n parsed))) (ground arith),
        parsed_self name n parsed,
      )
  generate_by-Found none n st' e h = elim (Option-cases (first_such (is_own host st mac) slots)) [
    | inl no_own ↦ elim (Result-cases (generate_next_internal host st)) [
      | inl (m, found) ↦
          let same : m ≡ n = ground arith in
          let (free, valid) = generate_next_internal-fresh n (found ∙ ap ok same) in
          (fresh e free (ground arith), valid)
      | inr (x, failed) ↦ absurd (ground arith)
    ]
    | inr (name, found) ↦
        let (i, valid, good) = first_such-name (is_own host st mac) name found in
        let (x, shown, same) = is_own-shown host st mac name good in
        let parsed : new_interface_name name ≡ ok n = ground arith in
        let value : n.value ≡ name = parsed_value name n parsed in
        (own x e (rw value shown) same (ground arith), parsed_self name n parsed)
  ]

  generate_for_mac-Found :
      (n : InterfaceName) (st' : Naming) → generate_for_mac host st mac ≡ (ok n, st') → Found n st'
  unfolding generate_for_mac
  generate_for_mac-Found n st' h = generate_by-Found (name_of_mac st (to_lower mac)) n st' refl h

  pub generate_for_mac-Origin :
      (n : InterfaceName) (st' : Naming)
      → generate_for_mac host st mac ≡ (ok n, st')
      → Origin host st mac n st'
  unfolding Found
  generate_for_mac-Origin n st' h = (generate_for_mac-Found n st' h).0

  pub generate_for_mac-valid :
      (n : InterfaceName) (st' : Naming)
      → generate_for_mac host st mac ≡ (ok n, st')
      → new_interface_name n.value ≡ ok n
  unfolding Found
  generate_for_mac-valid n st' h = (generate_for_mac-Found n st' h).1

  generate_unreserved-err :
      (x : GoError) (st' : Naming)
      → generate_unreserved host st mac (first_such (is_own host st mac) slots) ≡ (err x, st')
      → (st' ≡ st) × (first_such (is_free host st) slots ≡ none)
  unfolding generate_unreserved
  generate_unreserved-err x st' h = elim (Option-cases (first_such (is_own host st mac) slots)) [
    | inl no_own ↦ elim (Option-cases (first_such (is_free host st) slots)) [
      | inl none_free ↦ (ground arith, none_free)
      | inr (name, found) ↦
          let (i, valid, free) = first_such-name (is_free host st) name found in
          absurd (ground arith)
    ]
    | inr (name, found) ↦
        let (i, valid, good) = first_such-name (is_own host st mac) name found in
        absurd (ground arith)
  ]

  -- A MAC address for which no name is reserved is refused a name only when every one of the ten
  -- names is in use or reserved; nothing is reserved then.
  pub generate_for_mac-err :
      (x : GoError) (st' : Naming)
      → name_of_mac st (to_lower mac) ≡ none
      → generate_for_mac host st mac ≡ (err x, st')
      → (st' ≡ st) × All (λ i. is_name_taken host st (multinic i) ≡ true) slots
  unfolding generate_for_mac generate_by
  generate_for_mac-err x st' unknown h =
      let (same, none_free) = generate_unreserved-err x st' (ground arith) in
      (
        same,
        All-map _ _ (λ i. taken_of_busy host st (multinic i)) slots
            (first_such-none (is_free host st) slots none_free),
      )

  -- A call that fails changes nothing.
  pub generate_for_mac-err_unchanged :
      (x : GoError) (st' : Naming) → generate_for_mac host st mac ≡ (err x, st') → st' ≡ st
  unfolding generate_for_mac generate_by
  generate_for_mac-err_unchanged x st' h = elim (Option-cases (name_of_mac st (to_lower mac))) [
    | inl unknown ↦ (generate_for_mac-err x st' unknown h).0
    | inr (name, e) ↦ ground arith
  ]

  -- A name that is reserved for the MAC address is returned, and nothing changes.
  pub generate_for_mac-reserved :
      (name : Text)
      → name_of_mac st (to_lower mac) ≡ some name
      → generate_for_mac host st mac ≡ (new_interface_name name, st)
  unfolding generate_for_mac generate_by
  generate_for_mac-reserved name e = rw e
