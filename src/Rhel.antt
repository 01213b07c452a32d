-- ===== src/Rhel.antt =====
-- internal/infrastructure/network/rhel_adapter.go: how the adapter runs a command, and how it finds
-- a device by its MAC address. A command is its words; the timeout of 30 seconds is an error of it.
pub mod Files
pub mod Steps
pub mod Configure
pub mod Laws
use multi_network_interface.Prelude.{
  Bool, true, false, ◌&&◌, not, Option, none, some, List, [], ◌∷◌, ◌++◌, if◌then◌else◌,
}
use multi_network_interface.Prelude.Text.{
  Text, text, eqb, is_digit, is_empty, contains, trim_space, to_lower, split_on,
}
use multi_network_interface.Prelude.Text.Words.{fields}
use multi_network_interface.Errors.{GoError, plain, wrapped, Result, ok, err}
use multi_network_interface.Host.{Host}
use multi_network_interface.Host.Queries.{newline}

-- The words that `execCommand` runs.
unfoldable pub exec_command : Bool → List Text → List Text
exec_command is_container words =
    if is_container
    then text "nsenter"
      ∷ text "--target"
      ∷ text "1"
      ∷ text "--mount"
      ∷ text "--uts"
      ∷ text "--ipc"
      ∷ text "--net"
      ∷ text "--pid"
      ∷ words
    else words

-- The address behind the first `link/ether` that a word follows, in lower case.
ether_of : List Text → Option Text
ether_of [] = none
ether_of (f ∷ []) = none
ether_of (f ∷ g ∷ rest) =
    let later = ether_of (g ∷ rest) in
    if eqb f (text "link/ether") then some (to_lower g) else later

starts_with_digit : Text → Bool
starts_with_digit [] = false
starts_with_digit (c ∷ _) = is_digit c

-- A trimmed line that starts with a number and has a colon.
unfoldable pub is_device_line : Text → Bool
unfolding starts_with_digit
is_device_line line = contains line (text ":") && starts_with_digit line

-- `currentDevice` after a device line.
second_part : Text → List Text → Text
second_part current (_ ∷ b ∷ _) = trim_space b
second_part current _ = current

unfoldable pub next_device : Text → Text → Text
unfolding second_part
next_device current line =
    if is_device_line line then second_part current (split_on b':' line) else current

unfoldable pub has_mac : Text → Text → Bool
unfolding ether_of
has_mac target line = elim (ether_of (fields line)) [ none ↦ false | some mac ↦ eqb mac target ]

-- A line of the current device with the address.
is_hit : Text → Text → Text → Bool
is_hit target current line =
    not (is_device_line line)
    && ((contains line (text "link/ether") && not (is_empty current)) && has_mac target line)

-- The loop of `findDeviceByMAC`; an empty line is no device line and no hit.
unfoldable pub scan_devices : Text → Text → List Text → Option Text
unfolding is_hit
scan_devices target current [] = none
scan_devices target current (line ∷ lines) =
    let rest = scan_devices target (next_device current (trim_space line)) lines in
    if is_hit target current (trim_space line) then some current else rest

found : Text → Option Text → Result Text
found mac none = err (plain (text "no device found with MAC address " ++ mac))
found mac (some name) = ok name

-- `findDeviceByMAC`.
unfoldable pub find_device_by_mac : Host → Bool → Text → Result Text
unfolding found
find_device_by_mac host is_container mac =
    elim (host.run (exec_command is_container (text "ip" ∷ text "link" ∷ text "show" ∷ []))) [
      | err e ↦ err (wrapped (text "failed to list devices: ") e)
      | ok output ↦ found mac (scan_devices (to_lower mac) [] (split_on newline output))
    ]
