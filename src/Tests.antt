-- ===== src/Tests.antt =====
-- Inputs for the witnesses: IPv4 as package `net`, nodes with a few devices, and one interface.
pub mod PoolRuns
pub mod Entity
pub mod Names
pub mod Files
pub mod Use
pub mod Removal
pub mod Status
pub mod Devices
pub mod Written
pub mod Cluster
pub mod Command
pub mod Netplan
pub mod Service
pub mod Rows
pub mod Routes
use multi_network_interface.Prelude.{
  ℕ, zero, suc, ◌+◌, ◌*◌, ◌-◌, Bool, true, false, ◌&&◌, ◌||◌, Option, none, some, List, [], ◌∷◌,
  ◌++◌, length, map, leb, ltb, ◌==◌, if◌then◌else◌,
}
use multi_network_interface.Prelude.Int.{ℤ, pos, negsuc}
use multi_network_interface.Prelude.Text.{Text, text, eqb, split_on, lower, itoa}
use multi_network_interface.Prelude.Text.Words.{atoi, cut_at, join_with}
use multi_network_interface.Errors.{GoError, plain, Result, ok, err}
use multi_network_interface.Entities.{Bytes, Net, Subnet}
use multi_network_interface.Entities.Interface.{NetworkInterface, pending}
use multi_network_interface.Host.{Host}

abbrev octet : Option ℤ → Option Bytes → Option Bytes
octet (some (pos n)) (some rest) = if ltb n 256 then some (n ∷ rest) else none
octet _ _ = none

octets : List Text → Option Bytes
unfolding atoi
octets [] = some []
octets (w ∷ ws) = octet (atoi w) (octets ws)

abbrev four : Option Bytes → Option Bytes
four (some b) = if length b == 4 then some b else none
four none = none

quad : Text → Option Bytes
unfolding octets split_on
quad t = four (octets (split_on b'.' t))

abbrev hex : ℕ → ℕ
hex c = if leb c b'9' then c - b'0' else lower c - b'a' + 10

hex_pairs : Text → Bytes
hex_pairs (a ∷ b ∷ _ ∷ s) = (hex a * 16 + hex b) ∷ hex_pairs s
hex_pairs (a ∷ b ∷ []) = (hex a * 16 + hex b) ∷ []
hex_pairs _ = []

-- Masks whose bytes are 0 or 255.
masked : Bytes → Bytes → Bytes
masked (m ∷ ms) (b ∷ bs) = (if m == 255 then b else 0) ∷ masked ms bs
masked _ _ = []

abbrev mask_of : Option ℤ → Bytes
mask_of (some (pos n)) =
    if n == 8
    then 255 ∷ 0 ∷ 0 ∷ 0 ∷ []
    else if n == 16
    then 255 ∷ 255 ∷ 0 ∷ 0 ∷ []
    else 255 ∷ 255 ∷ 255 ∷ 0 ∷ []
mask_of _ = []

abbrev ones : Bytes → ℕ
ones [] = 0
ones (b ∷ bs) = (if b == 255 then 1 else 0) + ones bs

abbrev with_subnet : Bytes → Option Bytes → Result (Bytes × Subnet)
with_subnet mask none = err (plain (text "invalid CIDR address"))
with_subnet mask (some ip) = ok (ip, record { ip = masked mask ip; mask = mask })

unfoldable pub ipv4 : Net
unfolding quad hex_pairs masked atoi cut_at eqb join_with itoa
ipv4 = record {
  parse_ip = quad;
  ip_text = λ b. join_with (text ".") (map itoa b);
  ip_equal = eqb;
  to4 = λ b. four (some b);
  to16 = λ b. some (0 ∷ 0 ∷ 0 ∷ 0 ∷ 0 ∷ 0 ∷ 0 ∷ 0 ∷ 0 ∷ 0 ∷ 255 ∷ 255 ∷ b);
  parse_mac =
      λ t. if length t == 17 then ok (hex_pairs t) else err (plain (text "invalid MAC address"));
  mac_text = λ b. b;
  parse_cidr = λ t.
      with_subnet (elim (cut_at b'/' t).1 [ none ↦ [] | some p ↦ mask_of (atoi p) ])
        (quad (cut_at b'/' t).0);
  subnet_text = λ s. join_with (text ".") (map itoa s.ip) ++ (text "/" ++ itoa (ones s.mask * 8));
  subnet_contains = λ s ip. eqb (masked s.mask ip) s.ip;
}

abbrev pub card : Text
card = text "fa:16:3e:00:00:01"

abbrev pub iface : NetworkInterface
iface = record {
  id = record { value = pos 0 };
  mac_address = record { value = card; mac = 250 ∷ 22 ∷ 62 ∷ 0 ∷ 0 ∷ 1 ∷ [] };
  node_name = record { value = text "node-1" };
  status = pending;
  ip_address = record { value = text "10.0.0.5"; ip = 10 ∷ 0 ∷ 0 ∷ 5 ∷ [] };
  cidr = record {
    value = text "10.0.0.0/24";
    network = record { ip = 10 ∷ 0 ∷ 0 ∷ 0 ∷ []; mask = 255 ∷ 255 ∷ 255 ∷ 0 ∷ [] };
  };
  mtu = record { value = pos 1450 };
  interface_name = record { value = text "multinic0"; index = 0 };
  explicit_name = false;
}

abbrev pub no_such : {A : Type 0} → Result A
no_such = err (plain (text "no such file or device"))

-- A node on which only the device multinic0 is there, and no command works.
unfoldable pub quiet : Host
unfolding eqb
quiet = record {
  exists = λ path. eqb path (text "/sys/class/net/multinic0");
  read_file = λ path. no_such;
  list_files = λ path. ok [];
  run = λ words. no_such;
}

abbrev links : Text
links =
    text "2: ens3: <BROADCAST,MULTICAST,UP,LOWER_UP> mtu 1450 link/ether fa:16:3e:00:00:01 brd ff"

-- A node with the card as the device ens3, in the given state.
unfoldable pub node_with : Text → Text → Host
unfolding eqb join_with
node_with state file = record {
  exists = λ path. eqb path (text "/etc/netplan/90-multinic0.yaml");
  read_file = λ path. if eqb path (text "/proc/net/route") then no_such else ok file;
  list_files = λ path. ok (text "90-multinic0.yaml" ∷ []);
  run = λ words.
      if eqb (join_with (text " ") words) (text "ip -o link show")
      then ok links
      else if eqb (join_with (text " ") words) (text "ip link show ens3")
      then ok state
      else no_such;
}
