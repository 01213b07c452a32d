-- ===== src/Host.antt =====
-- internal/domain/interfaces/os.go: the file system and the command executor of a node, as what a
-- read or a printing command returns at one moment; and the queries of
-- internal/domain/services/interface_naming.go that parse such an output.
pub mod Laws
pub mod Queries
use multi_network_interface.Prelude.{
  ℕ, zero, suc, Bool, true, false, ◌&&◌, ◌||◌, not, Option, none, some, List, [], ◌∷◌, ◌++◌, leb,
  ◌==◌, if◌then◌else◌,
}
use multi_network_interface.Prelude.Text.{
  Text, text, is_digit, strip_prefix, contains, itoa, eqb, is_empty, trim_space, to_lower, split_on,
  has_prefix,
}
use multi_network_interface.Errors.{GoError, plain, wrapped, Result, ok, err, ◌>>=◌}

-- `FileSystem` and `CommandExecutor`; a command is its words.
pub record Host : Type 0 where
  pub exists : Text → Bool
  pub read_file : Text → Result Text
  pub list_files : Text → Result (List Text)
  pub run : List Text → Result Text

-- `multinic%d`
abbrev pub multinic : ℕ → Text
multinic i = text "multinic" ++ itoa i

-- The values of the loops `for i := 0; i < 10; i++`.
abbrev pub slots : List ℕ
slots = 0 ∷ 1 ∷ 2 ∷ 3 ∷ 4 ∷ 5 ∷ 6 ∷ 7 ∷ 8 ∷ 9 ∷ []

-- `\s` of a regular expression: no vertical tab.
abbrev re_space : ℕ → Bool
re_space c = c == 32 || (leb 9 c && (leb c 13 && not (c == 11)))

-- `[a-fA-F0-9:]`
abbrev mac_char : ℕ → Bool
mac_char c = is_digit c || ((leb b'a' c && leb c b'f') || ((leb b'A' c && leb c b'F') || c == b':'))

-- Exactly `n` characters of the class.
pub take_mac : ℕ → Text → Option Text
take_mac zero s = some []
take_mac (suc n) [] = none
take_mac (suc n) (c ∷ s) =
    if mac_char c then elim (take_mac n s) [ none ↦ none | some r ↦ some (c ∷ r) ] else none

-- `\s*([a-fA-F0-9:]{17})`; no character is in both classes, so that the blanks can be skipped.
spaces_then_mac : Text → Option Text
unfolding take_mac
spaces_then_mac [] = none
spaces_then_mac (c ∷ s) = if re_space c then spaces_then_mac s else take_mac 17 (c ∷ s)

-- `\s+([a-fA-F0-9:]{17})`
blank_then_mac : Text → Option Text
unfolding spaces_then_mac
blank_then_mac [] = none
blank_then_mac (c ∷ s) = if re_space c then spaces_then_mac s else none

ether_here : Text → Option Text
unfolding blank_then_mac
ether_here s = elim (strip_prefix (text "link/ether") s) [ none ↦ none | some r ↦ blank_then_mac r ]

abbrev pub or_else {ℓ} : {A : Type ℓ} → Option A → Option A → Option A
or_else none o = o
or_else (some a) o = some a

-- The leftmost match of `link/ether\s+([a-fA-F0-9:]{17})`.
pub find_ether : Text → Option Text
unfolding ether_here
find_ether [] = none
find_ether (c ∷ s) = or_else (ether_here (c ∷ s)) (find_ether s)

module _ (host : Host) where
  -- `isInterfaceInUse`, which is `InterfaceExists`.
  unfoldable pub interface_exists : Text → Bool
  interface_exists name = host.exists (text "/sys/class/net/" ++ name)

  parsed_mac : Text → Result Text → Result Text
  unfolding find_ether
  parsed_mac name (err e) = err (wrapped (text "failed to query interface " ++ name) e)
  parsed_mac name (ok output) = elim (find_ether output) [
    | none ↦ err (plain (text "could not find MAC address on interface " ++ name))
    | some mac ↦ ok mac
  ]

  -- `GetMacAddressForInterface`.
  unfoldable pub mac_for_interface : Text → Result Text
  unfolding parsed_mac
  mac_for_interface name =
      parsed_mac name (host.run (text "ip" ∷ text "addr" ∷ text "show" ∷ name ∷ []))
