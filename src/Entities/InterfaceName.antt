-- ===== src/Entities/InterfaceName.antt =====
-- internal/domain/entities/network_interface.go: `InterfaceName`, and its pattern
-- `^multinic([0-9]+)$`.
pub mod Laws
use multi_network_interface.Prelude.{
  ℕ, ◌≡◌, inl, inr, Option-cases, arith, Bool, true, false, not, ◌&&◌, Option, none, some, [], ◌∷◌,
  ◌++◌, leb, ltb, ◌==◌, all, if◌then◌else◌,
}
use multi_network_interface.Prelude.Text.{
  Text, text, is_empty, eqb, is_digit, strip_prefix, atoi_digits, itoa,
}
use multi_network_interface.Errors.{
  GoError, is_nil, new_error, Result, ok, err, plain, new_validation_error_with_code,
}
use multi_network_interface.Entities.{invalid, interface_prefix}

pub record InterfaceName : Type 0 where
  pub value : Text
  pub index : ℕ

-- `FindStringSubmatch` of the pattern: the group of digits.
unfoldable pub name_digits : Text → Option Text
name_digits name = elim (strip_prefix interface_prefix name) [
  | none ↦ none
  | some rest ↦ if not (is_empty rest) && all is_digit rest then some rest else none
]

-- The part behind the match; `strconv.Atoi` fails on digits only by leaving int64.
checked_index : Text → Option ℕ → Result InterfaceName
checked_index name none = err (
    new_validation_error_with_code (text "VAL018")
      (text "invalid interface index in name: " ++ name) (plain (text "value out of range")))
checked_index name (some index) =
    if leb 10 index
    then invalid (text "VAL019")
        (text "interface index out of range: " ++ (itoa index ++ text " (0-9)"))
    else ok (record { value = name; index = index })

unfoldable pub new_interface_name : Text → Result InterfaceName
unfolding name_digits checked_index
new_interface_name name =
    if is_empty name
    then invalid (text "VAL016") (text "interface name cannot be empty")
    else elim (name_digits name) [
      | none ↦
          invalid (text "VAL017") (
            text "invalid interface name format: "
            ++ (name ++ text " (expected: multinic<number>)"))
      | some digits ↦ checked_index name (atoi_digits digits)
    ]

checked_index-is_nil :
    (name : Text) (o : Option ℕ) (x : GoError) → checked_index name o ≡ err x → is_nil x ≡ false
unfolding checked_index new_validation_error_with_code new_error
checked_index-is_nil name none x h = ground arith
checked_index-is_nil name (some index) x h = ground arith

-- An error of `NewInterfaceName` is not nil.
pub new_interface_name-is_nil :
    (name : Text) (x : GoError) → new_interface_name name ≡ err x → is_nil x ≡ false
unfolding new_interface_name new_validation_error_with_code new_error
new_interface_name-is_nil name x h = elim (Option-cases (name_digits name)) [
  | inl bad ↦ ground arith
  | inr (d, good) ↦ ground (arith, checked_index-is_nil name (atoi_digits d) x)
]

-- A nil pointer equals no name.
unfoldable pub name_equals : InterfaceName → Option InterfaceName → Bool
name_equals n none = false
name_equals n (some m) = eqb n.value m.value
