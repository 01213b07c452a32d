-- ===== src/Entities/InterfaceName/Laws.antt =====
-- Printing and parsing interface names.
use multi_network_interface.Prelude.{
  ℕ, ◌<◌, ◌≡◌, ◌++◌, arith, ◌+◌, all, [], ◌∷◌, Option, none, some, true, Option-cases, inl, inr, ap,
  ◌∙◌,
}
use multi_network_interface.Prelude.Text.{
  Text, is_digit, atoi_digits, strip_prefix, strip_prefix-some,
}
use multi_network_interface.Errors.{ok}
use multi_network_interface.Entities.{interface_prefix}
use multi_network_interface.Entities.InterfaceName.{
  InterfaceName, name_digits, checked_index, new_interface_name,
}

-- The digits behind the prefix are read back.
pub name_digits-append :
    (c : ℕ) (s : Text)
    → all is_digit (c ∷ s) ≡ true
    → name_digits (interface_prefix ++ c ∷ s) ≡ some (c ∷ s)
unfolding name_digits strip_prefix
name_digits-append c s h = rw h

is_digit-digit : (n : ℕ) → n < 10 → all is_digit ((b'0' + n) ∷ []) ≡ true
is_digit-digit n h = ground arith

atoi_digits-digit : (n : ℕ) → n < 10 → atoi_digits ((b'0' + n) ∷ []) ≡ some n
unfolding atoi_digits
atoi_digits-digit n h = ground arith

checked_index-lt :
    (name : Text) (n : ℕ)
    → n < 10
    → checked_index name (some n) ≡ ok (record { value = name; index = n })
unfolding checked_index
checked_index-lt name n h = ground arith

pub new_interface_name-digit :
    (n : ℕ)
    → n < 10
    → new_interface_name (interface_prefix ++ (b'0' + n) ∷ [])
      ≡ ok (record { value = interface_prefix ++ (b'0' + n) ∷ []; index = n })
unfolding new_interface_name
new_interface_name-digit n h =
    rw (name_digits-append (b'0' + n) [] (is_digit-digit n h))
      (rw (atoi_digits-digit n h) (checked_index-lt _ n h))

name_digits-some :
    (name digits : Text) → name_digits name ≡ some digits → name ≡ interface_prefix ++ digits
unfolding name_digits
name_digits-some name digits h = elim (Option-cases (strip_prefix interface_prefix name)) [
  | inl e ↦ absurd (ground arith)
  | inr (rest, e) ↦
      let same : rest ≡ digits = ground arith in
      strip_prefix-some interface_prefix name digits (e ∙ ap some same)
]

checked_index-ok :
    (name : Text) (o : Option ℕ) (n : InterfaceName)
    → checked_index name o ≡ ok n
    → (n.value ≡ name) × (o ≡ some n.index) × (n.index < 10)
unfolding checked_index
checked_index-ok name none n h = cc
checked_index-ok name (some i) n h = ground arith

-- An accepted name is kept as it is, and its index is the value of its digits, below ten.
pub new_interface_name_sound :
    (name : Text) (n : InterfaceName)
    → new_interface_name name ≡ ok n
    → (n.value ≡ name)
      × (digits : Text) × (name ≡ interface_prefix ++ digits)
      × (atoi_digits digits ≡ some n.index)
      × (n.index < 10)
unfolding new_interface_name
new_interface_name_sound name n h = elim (Option-cases (name_digits name)) [
  | inl e ↦ absurd (ground arith)
  | inr (digits, e) ↦
      let (kept, value, small) = checked_index-ok name (atoi_digits digits) n (ground arith) in
      (kept, digits, name_digits-some name digits e, value, small)
]
