-- ===== src/Naming/Reservations.antt =====
-- The invariant of the reservations, and how one assignment keeps it.
use mathlib.Core.List.{Memᴰ}
use mathlib.Core.Path.{subst}
use multi_network_interface.Entities.InterfaceName.{new_interface_name}
use multi_network_interface.Prelude.{
  ℕ, ◌<◌, ◌≡◌, refl, sym, Bool, true, false, ◌||◌, none, some, List, [], ◌∷◌, All, All-Memᴰ, arith,
  if◌then◌else◌, inl, inr, Bool-cases,
}
use multi_network_interface.Prelude.Text.{Text, eqb, eqb_iff, to_lower}
use multi_network_interface.Errors.{ok}
use multi_network_interface.Host.{Host, multinic, slots, mac_for_interface}
use multi_network_interface.Host.Laws.{
  ShowFailsWithoutDevice, mac_for_interface-absent, new_interface_name-multinic,
}
use multi_network_interface.Naming.{
  Naming, lookup, member, name_of_mac, is_reserved, assign, first_such, is_free, is_name_taken,
}

pub name_of_mac-assign :
    (st : Naming) (m n j : Text)
    → name_of_mac (assign st m n) j ≡ (if eqb m j then some n else name_of_mac st j)
unfolding assign lookup
name_of_mac-assign st m n j = refl

pub is_reserved-assign :
    (st : Naming) (m n k : Text) → is_reserved (assign st m n) k ≡ (eqb n k || is_reserved st k)
unfolding assign member
is_reserved-assign st m n k = refl

-- No name is reserved for two MAC addresses; each name that is reserved for one is marked as taken;
-- and where the device of such a name exists, the system shows the same MAC address on it.
pub record Inv (host : Host) (st : Naming) : Type 0 where
  pub unique : (m m' n : Text) → name_of_mac st m ≡ some n → name_of_mac st m' ≡ some n → m ≡ m'
  pub recorded : (m n : Text) → name_of_mac st m ≡ some n → is_reserved st n ≡ true
  pub owned :
      (m n x : Text) → name_of_mac st m ≡ some n → mac_for_interface host n ≡ ok x → to_lower x ≡ m

module _ (host : Host) (st : Naming) (inv : Inv host st) (m n : Text) where
  recorded-assign :
      (j k : Text) → name_of_mac (assign st m n) j ≡ some k → is_reserved (assign st m n) k ≡ true
  recorded-assign j k h = ground (
    arith,
    name_of_mac-assign st m n j,
    is_reserved-assign st m n k,
    eqb_iff n k,
    inv.recorded j k,
  )

  -- A name that is neither a device nor reserved.
  pub Inv-assign_free :
      ShowFailsWithoutDevice host → is_free host st n ≡ true → Inv host (assign st m n)
  unfolding is_name_taken
  Inv-assign_free fails free = record {
    unique = λ j j' k h h'. ground (
      arith,
      name_of_mac-assign st m n j,
      name_of_mac-assign st m n j',
      eqb_iff m j,
      eqb_iff m j',
      inv.unique j j' k,
      inv.recorded j n,
      inv.recorded j' n,
    );
    recorded = recorded-assign;
    owned = λ j k x h shown. ground (
      arith,
      name_of_mac-assign st m n j,
      eqb_iff m j,
      inv.owned j k x,
      mac_for_interface-absent host n x fails,
    );
  }

  -- The name of a device that has the MAC address.
  pub Inv-assign_own :
      (x : Text) → mac_for_interface host n ≡ ok x → to_lower x ≡ m → Inv host (assign st m n)
  Inv-assign_own x shown same = record {
    unique = λ j j' k h h'. ground (
      arith,
      name_of_mac-assign st m n j,
      name_of_mac-assign st m n j',
      eqb_iff m j,
      eqb_iff m j',
      inv.unique j j' k,
      inv.owned j n x,
      inv.owned j' n x,
    );
    recorded = recorded-assign;
    owned =
        λ j k y h shown'. ground (arith, name_of_mac-assign st m n j, eqb_iff m j, inv.owned j k y);
  }

-- Searching the slots.
pub first_such-some :
    (p : Text → Bool) (is : List ℕ) (n : Text)
    → first_such p is ≡ some n
    → (i : ℕ) × Memᴰ i is × (n ≡ multinic i) × (p n ≡ true)
unfolding first_such
first_such-some p [] n h = absurd (cc)
first_such-some p (i ∷ is) n h = elim (Bool-cases (p (multinic i))) [
  | inl good ↦ let e : n ≡ multinic i = ground arith in (i, Memᴰ.head refl, e, rw e good)
  | inr bad ↦
      let (k, m, e, good) = first_such-some p is n (ground arith) in (k, Memᴰ.tail m, e, good)
]

pub first_such-none :
    (p : Text → Bool) (is : List ℕ) → first_such p is ≡ none → All (λ i. p (multinic i) ≡ false) is
unfolding first_such
first_such-none p [] h = tt
first_such-none p (i ∷ is) h = elim (Bool-cases (p (multinic i))) [
  | inl good ↦ absurd (ground arith)
  | inr bad ↦ (bad, first_such-none p is (ground arith))
]

-- A slot is a number below ten, so that its name is valid.
pub slots-lt : (i : ℕ) → Memᴰ i slots → i < 10
slots-lt i m = All-Memᴰ (λ j. j < 10) m (omega arith)

pub first_such-name :
    (p : Text → Bool) (n : Text)
    → first_such p slots ≡ some n
    → (i : ℕ) × (new_interface_name n ≡ ok (record { value = n; index = i })) × (p n ≡ true)
first_such-name p n h =
    let (i, m, e, good) = first_such-some p slots n h in
    (
      i,
      subst (λ t. new_interface_name t ≡ ok (record { value = t; index = i })) (sym e)
          (new_interface_name-multinic i (slots-lt i m)),
      good,
    )
