-- ===== src/Naming/Laws/Keeps.antt =====
-- What `GenerateNextNameForMAC` keeps of the reservations.
use multi_network_interface.Prelude.{◌≡◌, ap, ◌∙◌, some, arith}
use multi_network_interface.Prelude.Text.{Text, eqb_iff, to_lower}
use multi_network_interface.Errors.{ok}
use multi_network_interface.Entities.InterfaceName.{InterfaceName}
use multi_network_interface.Host.{Host}
use multi_network_interface.Naming.{Naming, name_of_mac, generate_for_mac}
use multi_network_interface.Naming.Reservations.{name_of_mac-assign}
use multi_network_interface.Naming.Laws.{
  Origin, kept, own, fresh, generate_for_mac-Origin, generate_for_mac-valid,
  generate_for_mac-reserved,
}

module _ {host : Host} {st : Naming} {mac : Text} {n : InterfaceName} {st' : Naming} where
  Origin-reserved : Origin host st mac n st' → name_of_mac st' (to_lower mac) ≡ some n.value
  Origin-reserved (kept found same) = rw same found
  Origin-reserved (own x unknown shown mine same) = rw same (
      ground (
        arith,
        name_of_mac-assign st (to_lower mac) n.value (to_lower mac),
        eqb_iff (to_lower mac) (to_lower mac),
      ))
  Origin-reserved (fresh unknown free same) = rw same (
      ground (
        arith,
        name_of_mac-assign st (to_lower mac) n.value (to_lower mac),
        eqb_iff (to_lower mac) (to_lower mac),
      ))

  Origin-keeps :
      (j k : Text)
      → Origin host st mac n st'
      → name_of_mac st j ≡ some k
      → name_of_mac st' j ≡ some k
  Origin-keeps j k (kept found same) h = rw same h
  Origin-keeps j k (own x unknown shown mine same) h =
      rw same
        (ground (arith, name_of_mac-assign st (to_lower mac) n.value j, eqb_iff (to_lower mac) j))
  Origin-keeps j k (fresh unknown free same) h =
      rw same
        (ground (arith, name_of_mac-assign st (to_lower mac) n.value j, eqb_iff (to_lower mac) j))

module _ (host : Host) (st : Naming) (mac : Text) where
  -- Once a call has returned a name for a MAC address, the name is reserved for it, a further call
  -- returns it again and changes nothing, and every name reserved before is still reserved.
  pub generate_for_mac_stable :
      (n : InterfaceName) (st' : Naming)
      → generate_for_mac host st mac ≡ (ok n, st')
      → (name_of_mac st' (to_lower mac) ≡ some n.value)
        × (generate_for_mac host st' mac ≡ (ok n, st'))
        × ((j k : Text) → name_of_mac st j ≡ some k → name_of_mac st' j ≡ some k)
  generate_for_mac_stable n st' h =
      let origin = generate_for_mac-Origin host st mac n st' h in
      let reserved = Origin-reserved origin in
      (
        reserved,
        generate_for_mac-reserved host st' mac n.value reserved
            ∙ ap (λ r. (r, st')) (generate_for_mac-valid host st mac n st' h),
        λ j k. Origin-keeps j k origin,
      )
