-- ===== src/Host/Laws.antt =====
-- Facts about the queries, and what they rely on of the commands of the node.
use multi_network_interface.Prelude.{ℕ, ◌<◌, ◌≡◌, ◌++◌, false, [], ◌∷◌, arith}
use multi_network_interface.Prelude.Text.{Text, text, itoa-digit}
use multi_network_interface.Errors.{GoError, wrapped, ok, err}
use multi_network_interface.Entities.InterfaceName.{new_interface_name}
use multi_network_interface.Entities.InterfaceName.Laws.{new_interface_name-digit}
use multi_network_interface.Host.{Host, multinic, interface_exists, mac_for_interface}

-- `ip addr show NAME` fails where the device does not exist.
abbrev pub ShowFailsWithoutDevice : Host → Type 0
ShowFailsWithoutDevice host =
    (name : Text)
    → interface_exists host name ≡ false
    → (e : GoError) × (host.run (text "ip" ∷ text "addr" ∷ text "show" ∷ name ∷ []) ≡ err e)

-- A MAC address is found only on a device that exists.
pub mac_for_interface-absent :
    (host : Host) (name x : Text)
    → ShowFailsWithoutDevice host
    → interface_exists host name ≡ false
    → mac_for_interface host name ≡ ok x
    → ⊥
unfolding mac_for_interface
mac_for_interface-absent host name x fails absent h =
    let (e, failed) = fails name absent in ground arith

pub mac_for_interface-fails :
    (host : Host) (name : Text)
    → ShowFailsWithoutDevice host
    → interface_exists host name ≡ false
    → (e : GoError) × (mac_for_interface host name ≡ err e)
unfolding mac_for_interface
mac_for_interface-fails host name fails absent =
    let (e, failed) = fails name absent in
    (wrapped (text "failed to query interface " ++ name) e, ground arith)

-- The name of a slot is valid.
pub new_interface_name-multinic :
    (i : ℕ)
    → i < 10
    → new_interface_name (multinic i) ≡ ok (record { value = multinic i; index = i })
new_interface_name-multinic i h = rw (itoa-digit i h) (new_interface_name-digit i h)
