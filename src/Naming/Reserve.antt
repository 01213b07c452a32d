-- ===== src/Naming/Reserve.antt =====
-- internal/domain/services/interface_naming.go: `ReserveNamesForInterfaces`, the three passes over
-- the interfaces of a node.
use multi_network_interface.Prelude.{
  ℕ, Bool, true, false, not, ◌&&◌, ◌||◌, Option, none, some, List, [], ◌∷◌, ◌++◌, if◌then◌else◌,
}
use multi_network_interface.Prelude.Text.{Text, text, to_lower, equal_fold, is_empty}
use multi_network_interface.Errors.{GoError, plain, Result, ok, err}
use multi_network_interface.Entities.InterfaceName.{InterfaceName, new_interface_name}
use multi_network_interface.Entities.Interface.{NetworkInterface, mac_of, name_of}
use multi_network_interface.Host.{Host, multinic, slots, interface_exists, mac_for_interface}
use multi_network_interface.Naming.{Naming, name_of_mac, assign, first_such, is_free, is_name_taken}

-- The state of the service and the map that the call returns.
pub record Plan : Type 0 where
  pub naming : Naming
  pub result : List (Text × InterfaceName)

-- The plan that a pass leaves, with the error at which it stopped.
abbrev pub Pass : Type 0
Pass = Plan × Option GoError

-- The rest of a pass, unless it has stopped.
infixl 5 ◌>>=◌
abbrev pub ◌>>=◌ : Pass → (Plan → Pass) → Pass
(p, none) >>= f = f p
(p, some e) >>= f = (p, some e)

-- A loop over the interfaces that an error stops.
unfoldable pub for_each : (Plan → NetworkInterface → Pass) → List NetworkInterface → Plan → Pass
for_each step [] p = (p, none)
for_each step (iface ∷ rest) p = step p iface >>= for_each step rest

abbrev pub macs : NetworkInterface → Text
macs iface = to_lower (mac_of iface)

unfoldable pub plan_name : Plan → Text → Text → InterfaceName → Plan
plan_name p m name n = record { naming = assign p.naming m name; result = (m, n) ∷ p.result }

abbrev pub is_some {ℓ} : {A : Type ℓ} → Option A → Bool
is_some none = false
is_some (some a) = true

plan_parsed : Plan → Text → Text → Result InterfaceName → Plan
plan_parsed p m name (err e) = p
plan_parsed p m name (ok n) = plan_name p m name n

-- The inner loop of the second pass: `mac` is the address of the existing interface `name`.
unfoldable pub reuse_step : Text → Text → Plan → NetworkInterface → Plan
unfolding plan_parsed
reuse_step name mac p iface =
    if is_some (name_of_mac p.naming (to_lower mac))
    then p
    else if equal_fold (mac_of iface) (to_lower mac)
        || equal_fold (to_lower (mac_of iface)) (to_lower mac)
    then plan_parsed p (to_lower mac) name (new_interface_name name)
    else p

unfoldable pub reuse_all : Text → Text → List NetworkInterface → Plan → Plan
reuse_all name mac [] p = p
reuse_all name mac (iface ∷ rest) p = reuse_all name mac rest (reuse_step name mac p iface)

module _ (host : Host) where
  -- The MAC address of another interface that has the name.
  other_owner : Text → Result Text → Option Text
  other_owner mac (err e) = none
  other_owner mac (ok existing) =
      if not (is_empty existing) && not (equal_fold existing mac) then some existing else none

  conflict : Naming → NetworkInterface → Option Text
  unfolding other_owner
  conflict st iface =
      if is_name_taken host st (name_of iface)
      then other_owner (mac_of iface) (mac_for_interface host (name_of iface))
      else none

  take_explicit : Plan → NetworkInterface → Option Text → Result InterfaceName → Pass
  take_explicit p iface (some existing) parsed = (
    p,
    some (
        plain
          (text "interface name " ++ (name_of iface ++ (text " is already used by " ++ existing)))),
  )
  take_explicit p iface none (err e) = (p, some e)
  take_explicit p iface none (ok n) = (plan_name p (macs iface) (name_of iface) n, none)

  -- One round of the pass over explicit names.
  unfoldable pub explicit_step : Plan → NetworkInterface → Pass
  unfolding take_explicit conflict
  explicit_step p iface =
      if not iface.explicit_name || is_some (name_of_mac p.naming (macs iface))
      then (p, none)
      else take_explicit p iface (conflict p.naming iface) (new_interface_name (name_of iface))

  unfoldable pub explicit_pass : List NetworkInterface → Plan → Pass
  explicit_pass ifaces p = for_each explicit_step ifaces p

  reuse_found : Text → Result Text → List NetworkInterface → Plan → Plan
  reuse_found name (err e) ifaces p = p
  reuse_found name (ok mac) ifaces p = if is_empty mac then p else reuse_all name mac ifaces p

  unfoldable pub reuse_slot : ℕ → List NetworkInterface → Plan → Plan
  unfolding reuse_found
  reuse_slot i ifaces p =
      if interface_exists host (multinic i)
      then reuse_found (multinic i) (mac_for_interface host (multinic i)) ifaces p
      else p

  unfoldable pub reuse_pass : List ℕ → List NetworkInterface → Plan → Plan
  reuse_pass [] ifaces p = p
  reuse_pass (i ∷ is) ifaces p = reuse_pass is ifaces (reuse_slot i ifaces p)

  -- The name is reserved first, and enters the result if it is valid.
  fresh_name : Plan → Text → Text → Result InterfaceName → Plan
  fresh_name p m name (err e) = record p { naming = assign p.naming m name }
  fresh_name p m name (ok n) = plan_name p m name n

  take_free : Plan → Text → Option Text → Pass
  unfolding fresh_name
  take_free p m none = (p, some (plain (text "사용 가능한 인터페이스 이름이 없습니다 (multinic0-9 모두 사용/예약됨)")))
  take_free p m (some chosen) = (fresh_name p m chosen (new_interface_name chosen), none)

  -- One round of the pass over the remaining interfaces.
  unfoldable pub free_step : Plan → NetworkInterface → Pass
  unfolding take_free
  free_step p iface =
      if is_some (name_of_mac p.naming (macs iface))
      then (p, none)
      else take_free p (macs iface) (first_such (is_free host p.naming) slots)

  unfoldable pub free_pass : List NetworkInterface → Plan → Pass
  free_pass ifaces p = for_each free_step ifaces p

  -- `ReserveNamesForInterfaces`; the maps of the service stay as they are when a pass stops.
  unfoldable pub reserve_names : Naming → List NetworkInterface → Pass
  reserve_names st ifaces = do
    explicit ← explicit_pass ifaces (record { naming = st; result = [] })
    free_pass ifaces (reuse_pass slots ifaces explicit)
