-- ===== src/Entities/NodeName.antt =====
-- internal/domain/entities/value_objects.go: `NodeName` and its pattern
-- `^[a-z0-9]([-a-z0-9]*[a-z0-9])?(\.[a-z0-9]([-a-z0-9]*[a-z0-9])?)*$`.
pub mod Pattern
use multi_network_interface.Prelude.{
  ℕ, Bool, true, false, ◌||◌, ◌&&◌, Option, none, some, [], ◌∷◌, ◌++◌, leb, ltb, ◌==◌, length,
  if◌then◌else◌,
}
use multi_network_interface.Prelude.Int.{pos}
use multi_network_interface.Prelude.Text.{Text, text, is_empty, is_digit, eqb, itoa_ℤ}
use multi_network_interface.Errors.{Result, ok}
use multi_network_interface.Entities.{invalid}

pub record NodeName : Type 0 where
  pub value : Text

-- `[a-z0-9]`
abbrev pub is_alnum : ℕ → Bool
is_alnum c = (leb b'a' c && leb c b'z') || is_digit c

-- Where the automaton of the pattern stands: at the start of a label, behind a letter or digit of
-- it, or behind a hyphen of it.
pub data Place : Type 0 where
  start inner hyphen : Place

abbrev pub advance : Place → ℕ → Option Place
advance start c = if is_alnum c then some inner else none
advance inner c =
    if is_alnum c
    then some inner
    else if c == b'-'
    then some hyphen
    else if c == b'.'
    then some start
    else none
advance hyphen c = if is_alnum c then some inner else if c == b'-' then some hyphen else none

abbrev pub accepts : Place → Bool
accepts inner = true
accepts _ = false

-- No transition rejects.
abbrev pub after : Option Place → (Place → Bool) → Bool
after none f = false
after (some q) f = f q

pub matches_from : Place → Text → Bool
matches_from p [] = accepts p
matches_from p (c ∷ s) = after (advance p c) (λ q. matches_from q s)

-- `nodeNamePattern.MatchString`.
unfoldable pub node_name_matches : Text → Bool
unfolding matches_from
node_name_matches s = matches_from start s

unfoldable pub new_node_name : Text → Result NodeName
new_node_name value =
    if is_empty value
    then invalid (text "VAL012") (text "node name cannot be empty")
    else if ltb 253 (length value)
    then invalid (text "VAL013") (
        text "node name too long: "
        ++ (itoa_ℤ (pos (length value)) ++ text " characters (maximum: 253)"))
    else if node_name_matches value
    then ok (record { value = value })
    else invalid (text "VAL014") (text "invalid node name format: " ++ value)

-- A nil pointer equals no name.
unfoldable pub node_equals : NodeName → Option NodeName → Bool
node_equals n none = false
node_equals n (some m) = eqb n.value m.value
