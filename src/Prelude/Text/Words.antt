-- ===== src/Prelude/Text/Words.antt =====
-- The functions of `strings` and `path/filepath` that take a string apart or put one together.
use Prim.Native.Nat.{ℕ, zero, suc}
use mathlib.Core.Bool.{Bool, ◌&&◌, not}
use mathlib.Core.Option.{Option, none, some}
use mathlib.Core.List.{List, [], ◌∷◌, ◌++◌, reverse}
use multi_network_interface.Prelude.Int.{ℤ, pos, negsuc}
use multi_network_interface.Prelude.Lists.{all}
use multi_network_interface.Prelude.Tests.{ltb, ◌==◌, if◌then◌else◌}
use multi_network_interface.Prelude.Text.{
  Text, text, digits_value, is_digit, is_empty, is_space, strip_prefix, has_prefix, split_on,
}

-- The word in progress, and the words behind it.
fields_from : Text → Text × List Text
fields_from [] = ([], [])
fields_from (c ∷ s) =
    let rest = fields_from s in
    if is_space c
    then ([], if is_empty rest.0 then rest.1 else rest.0 ∷ rest.1)
    else (c ∷ rest.0, rest.1)

-- `strings.Fields`.
unfoldable pub fields : Text → List Text
unfolding fields_from
fields s = let r = fields_from s in if is_empty r.0 then r.1 else r.0 ∷ r.1

-- `strings.HasSuffix`.
unfoldable pub has_suffix : Text → Text → Bool
has_suffix s p = has_prefix (reverse s) (reverse p)

-- `strings.TrimPrefix` and `strings.TrimSuffix`.
unfoldable pub trim_prefix : Text → Text → Text
trim_prefix s p = elim (strip_prefix p s) [ none ↦ s | some r ↦ r ]

unfoldable pub trim_suffix : Text → Text → Text
trim_suffix s p = elim (strip_prefix (reverse p) (reverse s)) [ none ↦ s | some r ↦ reverse r ]

-- `strings.SplitN` at a character, in two parts if the character is there.
unfoldable pub cut_at : ℕ → Text → Text × Option Text
cut_at d [] = ([], none)
cut_at d (c ∷ s) = let rest = cut_at d s in if c == d then ([], some s) else (c ∷ rest.0, rest.1)

-- `strings.Join`.
unfoldable pub join_with : Text → List Text → Text
join_with d [] = []
join_with d (w ∷ []) = w
join_with d (w ∷ ws) = w ++ (d ++ join_with d ws)

abbrev pub last_of : Text → List Text → Text
last_of w [] = w
last_of w (v ∷ vs) = last_of v vs

-- `filepath.Base`, of a path that does not end in a slash.
unfoldable pub base_name : Text → Text
base_name s = if is_empty s then text "." else last_of [] (split_on b'/' s)

-- `filepath.Join` of a clean directory and a name with no slash, neither of them empty.
unfoldable pub join_path : Text → Text → Text
join_path dir name = dir ++ (text "/" ++ name)

signed : (ℕ → ℤ) → ℕ → Text → Option ℤ
signed sign bound s =
    if not (is_empty s) && all is_digit s && ltb (digits_value 0 s) bound
    then some (sign (digits_value 0 s))
    else none

minus : ℕ → ℤ
minus zero = pos zero
minus (suc n) = negsuc n

-- `strconv.Atoi`: a sign, digits, and an error outside of int64.
unfoldable pub atoi : Text → Option ℤ
unfolding signed minus
atoi [] = none
atoi (c ∷ s) =
    if c == b'-'
    then signed minus 9_223_372_036_854_775_809 s
    else if c == b'+'
    then signed pos 9_223_372_036_854_775_808 s
    else signed pos 9_223_372_036_854_775_808 (c ∷ s)
