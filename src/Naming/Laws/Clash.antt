-- ===== src/Naming/Laws/Clash.antt =====
-- Two interfaces that ask for one name: what `ReserveNamesForInterfaces` does not check.
use multi_network_interface.Prelude.{◌≡◌, refl, true, false, none, some, [], ◌∷◌, arith}
use multi_network_interface.Prelude.Text.{eqb, eqb_iff}
use multi_network_interface.Errors.{GoError, ok, err}
use multi_network_interface.Entities.InterfaceName.{InterfaceName, new_interface_name}
use multi_network_interface.Entities.Interface.{NetworkInterface, name_of}
use multi_network_interface.Host.{Host, interface_exists, mac_for_interface}
use multi_network_interface.Host.Laws.{ShowFailsWithoutDevice, mac_for_interface-fails}
use multi_network_interface.Naming.{new_naming, name_of_mac, lookup}
use multi_network_interface.Naming.Reservations.{name_of_mac-assign}
use multi_network_interface.Naming.Reserve.{
  Plan, for_each, macs, plan_name, explicit_step, explicit_pass, reserve_names,
}
use multi_network_interface.Naming.Laws.Unique.{explicit_pass-reserve_names}

-- A round that reserves the explicit name: the address has no name, and no query shows an owner.
explicit_step-reserves :
    (host : Host) (p : Plan) (i : NetworkInterface) (n : InterfaceName) (e : GoError)
    → i.explicit_name ≡ true
    → name_of_mac p.naming (macs i) ≡ none
    → mac_for_interface host (name_of i) ≡ err e
    → new_interface_name (name_of i) ≡ ok n
    → explicit_step host p i ≡ (plan_name p (macs i) (name_of i) n, none)
unfolding explicit_step
explicit_step-reserves host p i n e given unknown failed valid = ground arith

module _ (host : Host) (a b : NetworkInterface) (n : InterfaceName)
    (fails : ShowFailsWithoutDevice host) (absent : interface_exists host (name_of a) ≡ false)
    (given : (a.explicit_name ≡ true) × (b.explicit_name ≡ true))
    (same_name : name_of b ≡ name_of a) (other_mac : eqb (macs a) (macs b) ≡ false)
    (valid : new_interface_name (name_of a) ≡ ok n) where
  abbrev start : Plan
  start = record { naming = new_naming; result = [] }

  abbrev one : Plan
  unfolding plan_name
  one = plan_name start (macs a) (name_of a) n

  abbrev both : Plan
  unfolding plan_name
  both = plan_name one (macs b) (name_of b) n

  step-a : explicit_step host start a ≡ (one, none)
  unfolding lookup plan_name
  step-a =
      let (e, failed) = mac_for_interface-fails host (name_of a) fails absent in
      explicit_step-reserves host start a n e given.0 refl failed valid

  one-b : name_of_mac one.naming (macs b) ≡ none
  unfolding plan_name lookup
  one-b = rw (name_of_mac-assign new_naming (macs a) (name_of a) (macs b), other_mac) refl

  step-b : explicit_step host one b ≡ (both, none)
  unfolding both plan_name
  step-b =
      let (e, failed) = mac_for_interface-fails host (name_of a) fails absent in
      explicit_step-reserves host one b n e given.1 one-b (rw same_name failed) (rw same_name valid)

  explicit_pass-both : explicit_pass host (a ∷ b ∷ []) start ≡ (both, none)
  unfolding explicit_pass for_each
  explicit_pass-both = rw (step-a, step-b) refl

  both-a : name_of_mac both.naming (macs a) ≡ some (name_of a)
  unfolding plan_name
  both-a = ground (
    arith,
    name_of_mac-assign start.naming (macs a) (name_of a) (macs a),
    name_of_mac-assign one.naming (macs b) (name_of b) (macs a),
    eqb_iff (macs a) (macs a),
    eqb_iff (macs b) (macs a),
    eqb_iff (macs a) (macs b),
  )

  both-b : name_of_mac both.naming (macs b) ≡ some (name_of a)
  unfolding plan_name
  both-b = ground (
    arith,
    name_of_mac-assign one.naming (macs b) (name_of b) (macs b),
    eqb_iff (macs b) (macs b),
  )

  -- A new service reserves one name for two interfaces that ask for it explicitly, under different
  -- MAC addresses, if the name is valid, no device has it, and `ip addr show` fails for a device
  -- that does not exist.
  pub reserve_names-clash :
      (name_of_mac (reserve_names host new_naming (a ∷ b ∷ [])).0.naming (macs a)
        ≡ some (name_of a))
      × (name_of_mac (reserve_names host new_naming (a ∷ b ∷ [])).0.naming (macs b)
          ≡ some (name_of a))
  reserve_names-clash =
      let kept = explicit_pass-reserve_names host new_naming (a ∷ b ∷ []) in
      (
        kept (macs a) (name_of a) (rw explicit_pass-both both-a),
        kept (macs b) (name_of a) (rw explicit_pass-both both-b),
      )
