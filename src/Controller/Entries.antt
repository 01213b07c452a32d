-- ===== src/Controller/Entries.antt =====
-- internal/controller/reconciler.go: the entries of `interfaceStatuses`.
use multi_network_interface.Prelude.{
  ℕ, suc, Bool, true, false, ◌&&◌, ◌||◌, not, Option, none, some, List, [], ◌∷◌, if◌then◌else◌,
}
use multi_network_interface.Prelude.Int.{ℤ, pos, ◌==ℤ◌}
use multi_network_interface.Prelude.Text.{Text, text, eqb, is_empty, to_lower, trim_space}
use multi_network_interface.Host.{multinic}
use multi_network_interface.Controller.Objects.{
  Value, Dict, get_string, get_int, StatusEntry, Cr, Node, NodeCondition,
}

-- An entry of `failures` in the message of an agent that ended, and one of `results`.
pub record Failure : Type 0 where
  pub id : ℤ
  pub mac : Text
  pub name : Text
  pub error_type : Text
  pub reason : Text

pub record Outcome : Type 0 where
  pub id : ℤ
  pub mac : Text
  pub name : Text
  pub status : Text

-- An element of `spec.interfaces` that is not a map reads as an empty map.
abbrev pub or_empty : Option (Dict Value) → Dict Value
or_empty none = []
or_empty (some m) = m

abbrev pub spec_of : Option (List (Option (Dict Value))) → List (Option (Dict Value))
spec_of none = []
spec_of (some l) = l

-- What `buildInterfaceStatuses` writes for the map at position `i`.
built : Text → Text → ℕ → Dict Value → StatusEntry
built status reason i m = record {
  name = multinic i;
  interface_index = some i;
  id = get_int m (text "id");
  mac_address = get_string m (text "macAddress");
  address = some (get_string m (text "address"));
  cidr = some (get_string m (text "cidr"));
  mtu = some (get_int m (text "mtu"));
  status = some status;
  reason = some reason;
  message = none;
  actual_state = none;
}

-- The loop over the elements that are maps, from position `i` on.
unfoldable pub each_map :
    (ℕ → Dict Value → StatusEntry) → ℕ → List (Option (Dict Value)) → List StatusEntry
each_map f i [] = []
each_map f i (none ∷ rest) = each_map f (suc i) rest
each_map f i (some m ∷ rest) = f i m ∷ each_map f (suc i) rest

-- `buildInterfaceStatuses`.
unfoldable pub build_interface_statuses : Cr → Text → Text → List StatusEntry
unfolding built
build_interface_statuses u status reason = each_map (built status reason) 0 (spec_of u.interfaces)

-- `isNodeReady`: by the first condition of the type.
unfoldable pub first_ready : List NodeCondition → Bool
first_ready [] = false
first_ready (c ∷ rest) =
    let later = first_ready rest in
    if eqb c.kind (text "Ready") then eqb c.status (text "True") else later

unfoldable pub is_node_ready : Node → Bool
is_node_ready node = first_ready node.conditions

has_internal_ip : List Text → Bool
has_internal_ip [] = false
has_internal_ip (a ∷ rest) = eqb a (text "InternalIP") || has_internal_ip rest

-- `getActualInterfaceState`.
unfoldable pub get_actual_interface_state : Node → Text
unfolding has_internal_ip
get_actual_interface_state node =
    if not (is_node_ready node)
    then text "NodeNotReady"
    else if has_internal_ip node.addresses
    then text "Configured"
    else text "Unknown"

unfoldable pub checked : Node → ℕ → Dict Value → StatusEntry
checked node i m = record {
  name = multinic i;
  interface_index = some i;
  id = get_int m (text "id");
  mac_address = get_string m (text "macAddress");
  address = some (get_string m (text "address"));
  cidr = some (get_string m (text "cidr"));
  mtu = some (get_int m (text "mtu"));
  status = none;
  reason = none;
  message = none;
  actual_state = some (get_actual_interface_state node);
}

-- `buildEnhancedInterfaceStatuses`.
unfoldable pub build_enhanced_interface_statuses : Cr → Node → List StatusEntry
unfolding checked
build_enhanced_interface_statuses u node = each_map (checked node) 0 (spec_of u.interfaces)

abbrev later_or {ℓ} : {A : Type ℓ} → Option A → Bool → A → Option A
later_or (some a) _ _ = some a
later_or none true a = some a
later_or none false a = none

-- The last element that passes, since a later one overwrites the key in a map.
unfoldable pub find_last {ℓ} : {A : Type ℓ} → (A → Bool) → List A → Option A
find_last test [] = none
find_last test (a ∷ rest) = later_or (find_last test rest) (test a) a

abbrev pub has_id : ℤ → Failure → Bool
has_id id f = f.id ==ℤ id

abbrev pub has_mac_address : Text → Failure → Bool
has_mac_address mac f = not (is_empty (trim_space f.mac)) && eqb (to_lower (trim_space f.mac)) mac

-- `failByID[id]`
unfoldable pub fail_by_id : ℤ → List Failure → Option Failure
fail_by_id id failures = find_last (has_id id) failures

-- `failByMAC[mac]`
unfoldable pub fail_by_mac : Text → List Failure → Option Failure
fail_by_mac mac failures = find_last (has_mac_address mac) failures

-- The failure that is found for an element, by its id unless that is zero, or by its MAC address
-- unless that is empty.
abbrev pub when_found : Bool → Option Failure → Option Failure → Option Failure
when_found true (some f) _ = some f
when_found _ _ other = other

unfoldable pub failure_of : List Failure → ℤ → Text → Option Failure
failure_of failures id mac =
    when_found (not (id ==ℤ pos 0)) (fail_by_id id failures)
      (when_found (not (is_empty mac)) (fail_by_mac mac failures) none)

-- The entry of an element at position `i`, with the reasons for a failure and for none.
unfoldable pub classified : Text → Text → ℕ → ℤ → Text → Option Failure → StatusEntry
classified failed fine i id mac (some f) = record {
  name = multinic i;
  interface_index = some i;
  id = f.id;
  mac_address = mac;
  address = none;
  cidr = none;
  mtu = none;
  status = some (text "Failed");
  reason = some failed;
  message = some f.reason;
  actual_state = none;
}
classified failed fine i id mac none = record {
  name = multinic i;
  interface_index = some i;
  id = id;
  mac_address = mac;
  address = none;
  cidr = none;
  mtu = none;
  status = some (text "Configured");
  reason = some fine;
  message = none;
  actual_state = none;
}

-- The loop that gives every element of the spec its entry, from position `i` on.
unfoldable pub failure_entries :
    Text → Text → List Failure → ℕ → List (Option (Dict Value)) → List StatusEntry
unfolding classified
failure_entries failed fine failures i [] = []
failure_entries failed fine failures i (m ∷ rest) =
    let id = get_int (or_empty m) (text "id") in
    let mac = to_lower (get_string (or_empty m) (text "macAddress")) in
    classified failed fine i id mac (failure_of failures id mac)
    ∷ failure_entries failed fine failures (suc i) rest

-- The first element of the spec with the id or the MAC address of a result, and its position.
unfoldable pub spec_match : Outcome → ℕ → List (Option (Dict Value)) → Option (ℕ × Dict Value)
spec_match r i [] = none
spec_match r i (m ∷ rest) =
    let later = spec_match r (suc i) rest in
    let mac = to_lower (get_string (or_empty m) (text "macAddress")) in
    if get_int (or_empty m) (text "id") ==ℤ r.id
      || (not (is_empty mac) && eqb mac (to_lower (trim_space r.mac)))
    then some (i, or_empty m)
    else later

-- The entry of a result; `n` entries stand before it.
outcome_entry : ℕ → Outcome → Option (ℕ × Dict Value) → StatusEntry
outcome_entry n r none = record {
  name = if is_empty (trim_space r.name) then multinic n else trim_space r.name;
  interface_index = none;
  id = r.id;
  mac_address = to_lower (trim_space r.mac);
  address = none;
  cidr = none;
  mtu = none;
  status = some (text "Configured");
  reason = some (text "JobSucceeded");
  message = none;
  actual_state = none;
}
outcome_entry n r (some (i, m)) = record {
  name = if is_empty (trim_space r.name) then multinic i else trim_space r.name;
  interface_index = some i;
  id = r.id;
  mac_address = to_lower (trim_space r.mac);
  address = some (get_string m (text "address"));
  cidr = some (get_string m (text "cidr"));
  mtu = some (get_int m (text "mtu"));
  status = some (text "Configured");
  reason = some (text "JobSucceeded");
  message = none;
  actual_state = none;
}

unfoldable pub outcome_entries : List (Option (Dict Value)) → ℕ → List Outcome → List StatusEntry
unfolding outcome_entry
outcome_entries spec n [] = []
outcome_entries spec n (r ∷ rest) =
    outcome_entry n r (spec_match r 0 spec) ∷ outcome_entries spec (suc n) rest
