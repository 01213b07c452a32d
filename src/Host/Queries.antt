-- ===== src/Host/Queries.antt =====
-- internal/domain/services/interface_naming.go: what the service reads from `ip` and `hostname`.
-- Each regular expression is a function that finds the match that Go's `regexp` prefers.
use multi_network_interface.Prelude.{
  ℕ, Bool, false, ◌&&◌, ◌||◌, not, Option, none, some, List, [], ◌∷◌, ◌++◌, leb, ◌==◌,
  if◌then◌else◌,
}
use multi_network_interface.Prelude.Int.{ℤ, pos}
use multi_network_interface.Prelude.Text.{
  Text, text, is_digit, strip_prefix, contains, eqb, is_empty, trim_space, to_lower, split_on,
  has_prefix, atoi_digits,
}
use multi_network_interface.Prelude.Text.Words.{fields, cut_at}
use multi_network_interface.Errors.{plain, wrapped, Result, ok, err, ◌>>=◌}
use multi_network_interface.Host.{Host, ether_here, or_else, re_space}

abbrev pub newline : ℕ
newline = 10

skip_spaces : Text → Text
skip_spaces [] = []
skip_spaces (c ∷ s) = if re_space c then skip_spaces s else c ∷ s

-- `\s+`, as many blanks as there are.
blanks : Text → Option Text
unfolding skip_spaces
blanks [] = none
blanks (c ∷ s) = if re_space c then some (skip_spaces s) else none

-- The longest run of digits, and the rest.
digit_run : Text → Text × Text
digit_run [] = ([], [])
digit_run (c ∷ s) =
    let rest = digit_run s in if is_digit c then (c ∷ rest.0, rest.1) else ([], c ∷ s)

-- `\d+`
digits : Text → Option (Text × Text)
unfolding digit_run
digits s = let r = digit_run s in if is_empty r.0 then none else some r

-- `[0-9A-Za-z_]`, which `\b` looks at.
abbrev is_word : ℕ → Bool
is_word c = is_digit c || ((leb b'A' c && leb c b'Z') || ((leb b'a' c && leb c b'z') || c == b'_'))

starts_word : Text → Bool
starts_word [] = false
starts_word (c ∷ s) = is_word c

-- The leftmost match of a pattern that starts with `\b` and a letter; the flag tells whether the
-- character before is of a word.
at_word {ℓ} : {A : Type ℓ} → (Text → Option A) → Bool → Text → Option A
at_word match before [] = none
at_word match before (c ∷ s) =
    or_else (if before then none else match (c ∷ s)) (at_word match (is_word c) s)

infixl 5 ◌>>?◌
abbrev ◌>>?◌ {ℓ κ} : {A : Type ℓ} {B : Type κ} → Option A → (A → Option B) → Option B
none >>? f = none
some a >>? f = f a

-- `mtu\s+(\d+)\b`
mtu_here : Text → Option Text
unfolding blanks digits starts_word
mtu_here s =
    strip_prefix (text "mtu") s
    >>? blanks
    >>? digits
    >>? (λ r. if starts_word r.1 then none else some r.0)

-- `\d+` and a separator.
part : ℕ → Text → Option (Text × Text)
unfolding digits
part d s = digits s >>? (λ r. elim r.1 [
  | [] ↦ none
  | c ∷ rest ↦ if c == d then some (r.0 ++ d ∷ [], rest) else none
])

-- `inet\s+(\d+\.\d+\.\d+\.\d+/\d+)`
inet_here : Text → Option Text
unfolding blanks digits part
inet_here s = strip_prefix (text "inet") s >>? blanks >>? λ t. part b'.' t >>? λ a.
    part b'.' a.1 >>? λ b. part b'.' b.1 >>? λ c.
    part b'/' c.1 >>? λ d. digits d.1 >>? λ e. some (a.0 ++ (b.0 ++ (c.0 ++ (d.0 ++ e.0))))

-- The last match of `link/ether\s+([0-9A-Fa-f:]{17})`, since `.*` before it takes all it can.
last_ether : Text → Option Text
unfolding ether_here
last_ether [] = none
last_ether (c ∷ s) = or_else (last_ether s) (ether_here (c ∷ s))

-- `\s+([^:]+)`: if only blanks are left before the colon, the name is the last of them.
name_in : Text → Option Text
name_in [] = none
name_in (c ∷ []) = none
name_in (c ∷ d ∷ s) =
    let rest = name_in (d ∷ s) in
    if re_space c
    then if re_space d then elim s [ [] ↦ some (d ∷ []) | _ ∷ _ ↦ rest ] else some (d ∷ s)
    else none

-- `^\s*\d+:\s+([^:]+):.*link/ether\s+([0-9A-Fa-f:]{17})`
unfoldable pub link_line : Text → Option (Text × Text)
unfolding part skip_spaces name_in last_ether
link_line line = part b':' (skip_spaces line) >>? λ index.
    (let (before, after) = cut_at b':' index.1 in
      after >>? λ tail. name_in before >>? λ name. last_ether tail >>? λ mac. some (name, mac))

-- The loop over the lines.
unfoldable pub find_line : Text → List Text → Option Text
unfolding link_line
find_line mac [] = none
find_line mac (line ∷ lines) =
    let rest = find_line mac lines in
    elim (link_line line) [
      | none ↦ rest
      | some (name, found) ↦ if eqb (to_lower found) mac then some name else rest
    ]

-- The second word of the lines that start with `altname `.
alt_names_of : List Text → List Text
alt_names_of [] = []
alt_names_of (line ∷ lines) =
    let rest = alt_names_of lines in
    if has_prefix (trim_space line) (text "altname ")
    then elim (fields (trim_space line)) [ [] ↦ rest | _ ∷ [] ↦ rest | _ ∷ alt ∷ _ ↦ alt ∷ rest ]
    else rest

parsed {ℓ} : {A : Type ℓ} → Text → Option A → Result A
parsed failure none = err (plain failure)
parsed failure (some a) = ok a

module _ (host : Host) where
  show_link : Text → Result Text
  show_link name = host.run (text "ip" ∷ text "link" ∷ text "show" ∷ name ∷ [])

  wrapping {ℓ} : {A : Type ℓ} → Text → Result A → Result A
  wrapping message (ok a) = ok a
  wrapping message (err e) = err (wrapped message e)

  -- `GetAltNames`.
  unfoldable pub alt_names : Text → Result (List Text)
  unfolding show_link alt_names_of wrapping
  alt_names name = do
    output ← wrapping (text "failed to read interface " ++ name) (show_link name)
    ok (alt_names_of (split_on newline output))

  -- `FindInterfaceNameByMAC`.
  unfoldable pub find_interface_name_by_mac : Text → Result Text
  unfolding find_line wrapping parsed
  find_interface_name_by_mac mac = do
    output ←
        wrapping (text "failed to list system interfaces")
          (host.run (text "ip" ∷ text "-o" ∷ text "link" ∷ text "show" ∷ []))
    parsed (text "interface with MAC " ++ (mac ++ text " not found"))
        (find_line (to_lower (trim_space mac)) (split_on newline output))

  -- `IsMacPresent`.
  unfoldable pub is_mac_present : Text → Bool
  unfolding find_interface_name_by_mac
  is_mac_present mac = elim (find_interface_name_by_mac mac) [
    | err _ ↦ false
    | ok name ↦ not (is_empty name)
  ]

  -- `IsInterfaceUp`.
  unfoldable pub is_interface_up : Text → Result Bool
  unfolding show_link wrapping
  is_interface_up name = do
    output ← wrapping (text "인터페이스 " ++ (name ++ text " 상태 조회 실패")) (show_link name)
    ok (
        contains output (text "state UP")
        || (contains output (text ",UP,") && contains output (text "LOWER_UP")))

  -- `GetInterfaceMTU`; the digits that do not fit an int are an error of `Sscanf`.
  unfoldable pub interface_mtu : Text → Result ℤ
  unfolding show_link mtu_here at_word parsed
  interface_mtu name = do
    output ← show_link name
    found ← parsed (text "failed to parse MTU for " ++ name) (at_word mtu_here false output)
    n ← parsed (text "integer overflow on token " ++ found) (atoi_digits found)
    ok (pos n)

  -- `GetIPv4WithPrefix`.
  unfoldable pub ipv4_with_prefix : Text → Result Text
  unfolding inet_here at_word parsed
  ipv4_with_prefix name = do
    output ←
        host.run
          (text "ip" ∷ text "-o" ∷ text "-4" ∷ text "addr" ∷ text "show" ∷ text "dev" ∷ name ∷ [])
    parsed (text "failed to parse IPv4 for " ++ name) (at_word inet_here false output)

  -- `ListNetplanFiles`.
  unfoldable pub list_netplan_files : Text → Result (List Text)
  unfolding wrapping
  list_netplan_files dir =
      wrapping (text "failed to list files in directory " ++ dir) (host.list_files dir)

  -- `GetHostname`: the name before the first dot.
  unfoldable pub get_hostname : Result Text
  unfolding wrapping parsed
  get_hostname = do
    output ← wrapping (text "failed to get hostname") (host.run (text "hostname" ∷ []))
    parsed (text "hostname is empty")
        (if is_empty (trim_space output) then none else some (cut_at b'.' (trim_space output)).0)
