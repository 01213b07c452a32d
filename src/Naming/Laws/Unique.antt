-- ===== src/Naming/Laws/Unique.antt =====
-- `ReserveNamesForInterfaces` gives every interface a name, and different names to different
-- interfaces.
use mathlib.Core.Path.{subst}
use multi_network_interface.Prelude.{
  ◌≡◌, sym, true, false, none, some, List, [], ◌∷◌, All, inl, inr, ◌⊎◌,
}
use multi_network_interface.Prelude.Text.{Text, eqb, to_lower}
use multi_network_interface.Errors.{GoError, ok}
use multi_network_interface.Entities.Interface.{NetworkInterface, name_of}
use multi_network_interface.Host.{Host, slots, mac_for_interface}
use multi_network_interface.Naming.{Naming, name_of_mac, assign, is_free}
use multi_network_interface.Naming.Reserve.{
  Plan, Pass, for_each, macs, explicit_pass, reuse_pass, free_step, free_pass, reserve_names,
}
use multi_network_interface.Naming.Laws.Passes.{Extends, free_step-covers}
use multi_network_interface.Naming.Laws.Reserved.{
  >>=-lem, Extends-assign, explicit_pass-Extends, free_pass-Extends, reuse_pass_inv,
}

-- A name is reserved for the MAC address.
abbrev pub HasName : Naming → Text → Type 0
HasName st m = (n : Text) × (name_of_mac st m ≡ some n)

module _ (host : Host) where
  free_pass-HasName :
      (ifaces : List NetworkInterface) (p : Plan)
      → (for_each (free_step host) ifaces p).1 ≡ none
      → All (λ i. HasName (for_each (free_step host) ifaces p).0.naming (macs i)) ifaces
  unfolding for_each free_pass
  free_pass-HasName [] p h = tt
  free_pass-HasName (iface ∷ rest) p h =
      elim (>>=-lem (free_step host p iface) (for_each (free_step host) rest)) [
        | inl (passed, e) ↦
            let (n, named) = free_step-covers host p iface passed in
            let q = (free_step host p iface).0 in
            let kept = free_pass-Extends host q.naming rest q (λ j k r. r) in
            subst (λ (r : Pass). All (λ i. HasName r.0.naming (macs i)) (iface ∷ rest)) (sym e)
              ((n, kept (macs iface) n named), free_pass-HasName rest q (rw e at h))
        | inr (x, stopped, e) ↦ absurd (cc)
      ]

-- The explicit name of an interface is free, or is on the device that has its MAC address.
abbrev pub Admissible : Host → Naming → NetworkInterface → Type 0
Admissible host st i =
    i.explicit_name ≡ true
    → (is_free host st (name_of i) ≡ true)
      ⊎ ((x : Text) × (mac_for_interface host (name_of i) ≡ ok x) × (to_lower x ≡ macs i))

abbrev pub Apart : NetworkInterface → NetworkInterface → Type 0
Apart i j = i.explicit_name ≡ true → j.explicit_name ≡ true → eqb (name_of i) (name_of j) ≡ false

-- No two of the explicit names are the same.
abbrev pub AllApart : List NetworkInterface → Type 0
AllApart [] = Unit
AllApart (i ∷ rest) = All (Apart i) rest × AllApart rest

Extends-own :
    (host : Host) (st a : Naming) (name mac : Text)
    → mac_for_interface host name ≡ ok mac
    → name_of_mac a (to_lower mac) ≡ none
    → Extends st a
    → Extends st (assign a (to_lower mac) name)
Extends-own host st a name mac shown unknown h j k r =
    Extends-assign a (to_lower mac) name unknown j k (h j k r)

module _ (host : Host) (st : Naming) (ifaces : List NetworkInterface) where
  abbrev first : Plan
  first = record { naming = st; result = [] }

  -- The call is the first pass, and if that does not stop, the other two.
  reserve_names-split :
      ((x : GoError) × ((explicit_pass host ifaces first).1 ≡ some x)
        × (reserve_names host st ifaces ≡ explicit_pass host ifaces first))
      ⊎ (reserve_names host st ifaces
          ≡ free_pass host ifaces
              (reuse_pass host slots ifaces (explicit_pass host ifaces first).0))
  unfolding reserve_names
  reserve_names-split =
      elim (>>=-lem (explicit_pass host ifaces first)
        (λ p. free_pass host ifaces (reuse_pass host slots ifaces p))) [
          | inl (passed, e) ↦ inr e
          | inr (x, stopped, e) ↦ inl (x, stopped, e)
        ]

  -- The later passes keep what the first has reserved.
  pub explicit_pass-reserve_names :
      Extends (explicit_pass host ifaces first).0.naming (reserve_names host st ifaces).0.naming
  explicit_pass-reserve_names = elim reserve_names-split [
    | inl (x, stopped, e) ↦ rw e (λ j k h. h)
    | inr e ↦
        let q = (explicit_pass host ifaces first).0 in
        rw e (
          free_pass-Extends host q.naming ifaces _ (
            reuse_pass_inv host (Extends q.naming) (Extends-own host q.naming) slots ifaces q
              (λ j k h. h)))
  ]

  -- A successful call leaves every interface with a reserved name. Successful or not, a call keeps
  -- every reservation that was made before.
  pub reserve_names-HasName :
      ((reserve_names host st ifaces).1 ≡ none
        → All (λ i. HasName (reserve_names host st ifaces).0.naming (macs i)) ifaces)
      × Extends st (reserve_names host st ifaces).0.naming
  unfolding free_pass
  reserve_names-HasName =
      let start = explicit_pass-Extends host st ifaces first (λ j k h. h) in
      elim reserve_names-split [
        | inl (x, stopped, e) ↦ (λ done. absurd (cc), rw e start)
        | inr e ↦
            let p = reuse_pass host slots ifaces (explicit_pass host ifaces first).0 in
            let middle : Extends st p.naming =
              reuse_pass_inv host (Extends st) (Extends-own host st) slots ifaces _ start in
            (
              λ done.
                  subst (λ (r : Pass). All (λ i. HasName r.0.naming (macs i)) ifaces) (sym e)
                    (free_pass-HasName host ifaces p (rw e at done)),
              rw e (free_pass-Extends host st ifaces p middle),
            )
      ]
