-- ===== src/Naming/Laws/Passes.antt =====
-- The single rounds of the three passes of `ReserveNamesForInterfaces`.
use multi_network_interface.Prelude.{◌≡◌, true, none, some, arith, inl, inr, ◌⊎◌, Option-cases}
use multi_network_interface.Prelude.Text.{Text, eqb_iff, to_lower}
use multi_network_interface.Entities.Interface.{NetworkInterface, name_of}
use multi_network_interface.Host.{Host, slots}
use multi_network_interface.Naming.{Naming, name_of_mac, assign, first_such, is_free}
use multi_network_interface.Naming.Reservations.{name_of_mac-assign}
use multi_network_interface.Naming.Reserve.{
  Plan, macs, plan_name, explicit_step, reuse_step, free_step,
}

-- Every reservation of `st` is one of `st'`.
abbrev pub Extends : Naming → Naming → Type 0
Extends st st' = (j k : Text) → name_of_mac st j ≡ some k → name_of_mac st' j ≡ some k

-- A round leaves the reservations, or reserves one name for an address that had none.
pub data Change (st st' : Naming) : Type 0 where
  stay : st' ≡ st → Change st st'
  reserve : (m n : Text) → name_of_mac st m ≡ none → st' ≡ assign st m n → Change st st'

pub reuse_step-change :
    (p : Plan) (name mac : Text) (iface : NetworkInterface)
    → ((reuse_step name mac p iface).naming ≡ p.naming)
      ⊎ ((name_of_mac p.naming (to_lower mac) ≡ none)
          × ((reuse_step name mac p iface).naming ≡ assign p.naming (to_lower mac) name))
unfolding reuse_step plan_name
reuse_step-change p name mac iface = ground arith

module _ (host : Host) (p : Plan) where
  -- The name that a round of the first pass reserves is the explicit one.
  pub explicit_step-change :
      (iface : NetworkInterface)
      → ((explicit_step host p iface).0.naming ≡ p.naming)
        ⊎ ((iface.explicit_name ≡ true)
            × (name_of_mac p.naming (macs iface) ≡ none)
            × ((explicit_step host p iface).0.naming
                ≡ assign p.naming (macs iface) (name_of iface)))
  unfolding explicit_step plan_name
  explicit_step-change iface = ground arith

  pub free_step-change :
      (iface : NetworkInterface)
      → ((free_step host p iface).0.naming ≡ p.naming)
        ⊎ ((n : Text) × (name_of_mac p.naming (macs iface) ≡ none)
            × (first_such (is_free host p.naming) slots ≡ some n)
            × ((free_step host p iface).0.naming ≡ assign p.naming (macs iface) n))
  unfolding free_step plan_name
  free_step-change iface = elim (Option-cases (name_of_mac p.naming (macs iface))) [
    | inl unknown ↦ elim (Option-cases (first_such (is_free host p.naming) slots)) [
      | inl none_free ↦ inl (ground arith)
      | inr (n, found) ↦ inr (n, unknown, found, ground arith)
    ]
    | inr (n, known) ↦ inl (ground arith)
  ]

  -- A round of the third pass that does not stop leaves the interface with a name.
  pub free_step-covers :
      (iface : NetworkInterface)
      → (free_step host p iface).1 ≡ none
      → (n : Text) × (name_of_mac (free_step host p iface).0.naming (macs iface) ≡ some n)
  unfolding free_step plan_name
  free_step-covers iface h = elim (Option-cases (name_of_mac p.naming (macs iface))) [
    | inl unknown ↦ elim (Option-cases (first_such (is_free host p.naming) slots)) [
      | inl none_free ↦ absurd (ground arith)
      | inr (n, found) ↦ (
        n,
        ground (
          arith,
          name_of_mac-assign p.naming (macs iface) n (macs iface),
          eqb_iff (macs iface) (macs iface),
        ),
      )
    ]
    | inr (n, known) ↦ (n, ground arith)
  ]
