-- ===== src/Naming/Laws/Reserved.antt =====
-- `ReserveNamesForInterfaces`: the passes put together.
use multi_network_interface.Prelude.{
  ℕ, ◌≡◌, refl, none, some, List, [], ◌∷◌, arith, inl, inr, ◌⊎◌, Bool-cases,
}
use multi_network_interface.Prelude.Text.{Text, eqb_iff, is_empty, to_lower}
use multi_network_interface.Errors.{GoError, Result-cases, ok}
use multi_network_interface.Entities.Interface.{NetworkInterface, name_of}
use multi_network_interface.Host.{Host, multinic, interface_exists, mac_for_interface}
use multi_network_interface.Naming.{Naming, name_of_mac, assign}
use multi_network_interface.Naming.Reservations.{name_of_mac-assign}
use multi_network_interface.Naming.Reserve.{
  Plan, Pass, ◌>>=◌, for_each, macs, explicit_step, explicit_pass, reuse_step, reuse_all,
  reuse_slot, reuse_pass, free_step, free_pass,
}
use multi_network_interface.Naming.Laws.Passes.{
  Extends, explicit_step-change, reuse_step-change, free_step-change,
}

pub >>=-lem :
    (x : Pass) (f : Plan → Pass)
    → ((x.1 ≡ none) × ((x >>= f) ≡ f x.0)) ⊎ ((e : GoError) × (x.1 ≡ some e) × ((x >>= f) ≡ x))
>>=-lem (p, none) f = inl (refl, refl)
>>=-lem (p, some e) f = inr (e, refl, refl)

-- A property of the reservations that every round keeps is kept by the loop.
pub for_each_inv :
    (P : Naming → Type 0) (step : Plan → NetworkInterface → Pass)
    → ((p : Plan) (iface : NetworkInterface) → P p.naming → P (step p iface).0.naming)
    → (ifaces : List NetworkInterface) (p : Plan) → P p.naming
    → P (for_each step ifaces p).0.naming
unfolding for_each
for_each_inv P step keep [] p h = h
for_each_inv P step keep (iface ∷ rest) p h = elim (>>=-lem (step p iface) (for_each step rest)) [
  | inl (passed, e) ↦ rw e (for_each_inv P step keep rest (step p iface).0 (keep p iface h))
  | inr (x, stopped, e) ↦ rw e (keep p iface h)
]

pub Extends-assign :
    (st : Naming) (m n : Text) → name_of_mac st m ≡ none → Extends st (assign st m n)
Extends-assign st m n unknown j k h = ground (arith, name_of_mac-assign st m n j, eqb_iff m j)

Extends-change :
    (st a b : Naming) (m n : Text)
    → Extends st a
    → (b ≡ a) ⊎ ((name_of_mac a m ≡ none) × (b ≡ assign a m n))
    → Extends st b
Extends-change st a b m n h (inl same) = rw same h
Extends-change st a b m n h (inr (unknown, e)) =
    rw e (λ j k r. Extends-assign a m n unknown j k (h j k r))

module _ (host : Host) (st : Naming) where
  pub explicit_pass-Extends :
      (ifaces : List NetworkInterface) (p : Plan)
      → Extends st p.naming
      → Extends st (explicit_pass host ifaces p).0.naming
  unfolding explicit_pass
  explicit_pass-Extends = for_each_inv (Extends st) (explicit_step host) (λ p iface h.
      Extends-change st p.naming _ (macs iface) (name_of iface) h
        (elim (explicit_step-change host p iface) [ inl e ↦ inl e | inr (x, u, e) ↦ inr (u, e) ]))

  pub free_pass-Extends :
      (ifaces : List NetworkInterface) (p : Plan)
      → Extends st p.naming
      → Extends st (free_pass host ifaces p).0.naming
  unfolding free_pass
  free_pass-Extends = for_each_inv (Extends st) (free_step host) λ p iface h.
      elim (free_step-change host p iface) [
        | inl e ↦ rw e h
        | inr (n, unknown, found, e) ↦
            Extends-change st p.naming _ (macs iface) n h (inr (unknown, e))
      ]

-- The second pass, for a property that each of its assignments keeps.
-- A property of the reservations that the assignments of the second pass keep.
abbrev KeepsOwn : Host → (Naming → Type 0) → Type 0
KeepsOwn host P =
    (a : Naming) (name mac : Text)
    → mac_for_interface host name ≡ ok mac
    → name_of_mac a (to_lower mac) ≡ none
    → P a
    → P (assign a (to_lower mac) name)

module _ (host : Host) (P : Naming → Type 0) (keep : KeepsOwn host P) where
  reuse_all_inv :
      (name mac : Text) (ifaces : List NetworkInterface) (p : Plan)
      → mac_for_interface host name ≡ ok mac
      → P p.naming
      → P (reuse_all name mac ifaces p).naming
  unfolding reuse_all
  reuse_all_inv name mac [] p shown h = h
  reuse_all_inv name mac (iface ∷ rest) p shown h =
      reuse_all_inv name mac rest (reuse_step name mac p iface) shown
        (elim (reuse_step-change p name mac iface) [
          | inl e ↦ rw e h
          | inr (unknown, e) ↦ rw e (keep p.naming name mac shown unknown h)
        ])

  reuse_slot_inv :
      (i : ℕ) (ifaces : List NetworkInterface) (p : Plan)
      → P p.naming
      → P (reuse_slot host i ifaces p).naming
  unfolding reuse_slot
  reuse_slot_inv i ifaces p h = elim (Bool-cases (interface_exists host (multinic i))) [
    | inl there ↦ elim (Result-cases (mac_for_interface host (multinic i))) [
      | inl (mac, shown) ↦ elim (Bool-cases (is_empty mac)) [
        | inl blank ↦ rw (there, shown, blank) h
        | inr full ↦ rw (there, shown, full) (reuse_all_inv (multinic i) mac ifaces p shown h)
      ]
      | inr (e, failed) ↦ rw (there, failed) h
    ]
    | inr absent ↦ rw absent h
  ]

  pub reuse_pass_inv :
      (is : List ℕ) (ifaces : List NetworkInterface) (p : Plan)
      → P p.naming
      → P (reuse_pass host is ifaces p).naming
  unfolding reuse_pass
  reuse_pass_inv [] ifaces p h = h
  reuse_pass_inv (i ∷ is) ifaces p h =
      reuse_pass_inv is ifaces (reuse_slot host i ifaces p) (reuse_slot_inv i ifaces p h)
