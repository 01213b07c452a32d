-- ===== src/Controller/Objects.antt =====
-- internal/controller/reconciler.go: the Kubernetes objects that the controller reads and writes, with
-- the fields that it reads and writes. Time stamps, which no decision reads, are left out.
use multi_network_interface.Prelude.{ℕ, Bool, Option, none, some, List, [], ◌∷◌, if◌then◌else◌}
use multi_network_interface.Prelude.Int.{ℤ, pos}
use multi_network_interface.Prelude.Text.{Text, eqb}

-- A value of a decoded map, by its Go type; a float64 is what `int` makes of it.
pub data Value : Type 0 where
  int_value : ℤ → Value
  int64_value : ℤ → Value
  float_value : ℤ → Value
  text_value : Text → Value
  other_value : Value

-- A map with keys of type string.
abbrev pub Dict : Type 0 → Type 0
Dict A = List (Text × A)

module _ {A : Type 0} where
  -- `m[key]`, if the key is there.
  unfoldable pub find : Text → Dict A → Option A
  find key [] = none
  find key ((k, v) ∷ m) = let rest = find key m in if eqb k key then some v else rest

-- `m[key]` of a map of strings.
abbrev text_or_empty : Option Text → Text
text_or_empty none = []
text_or_empty (some t) = t

unfoldable pub label : Text → Dict Text → Text
label key labels = text_or_empty (find key labels)

string_of : Option Value → Text
string_of (some (text_value t)) = t
string_of _ = []

int_of : Option Value → ℤ
int_of (some (int_value n)) = n
int_of (some (int64_value n)) = n
int_of (some (float_value n)) = n
int_of _ = pos 0

-- `getStringFromMap`.
unfoldable pub get_string : Dict Value → Text → Text
unfolding string_of
get_string m key = string_of (find key m)

-- `getIntFromMap`.
unfoldable pub get_int : Dict Value → Text → ℤ
unfolding int_of
get_int m key = int_of (find key m)

-- An entry of `interfaceStatuses`; `none` is a key that is not there.
pub record StatusEntry : Type 0 where
  pub name : Text
  pub interface_index : Option ℕ
  pub id : ℤ
  pub mac_address : Text
  pub address : Option Text
  pub cidr : Option Text
  pub mtu : Option ℤ
  pub status : Option Text
  pub reason : Option Text
  pub message : Option Text
  pub actual_state : Option Text

pub record Condition : Type 0 where
  pub kind : Text
  pub status : Text
  pub reason : Text

-- `status` of the resource; a missing key is what `NestedString` or `NestedInt64` returns for it.
pub record CrStatus : Type 0 where
  pub state : Text
  pub observed_generation : ℤ
  pub observed_spec_hash : Text
  pub last_job_name : Text
  pub conditions : List Condition
  pub interface_statuses : List StatusEntry
  pub node_ready : Bool

-- A MultiNicNodeConfig. `interfaces` is what `NestedSlice` finds, with `none` for an element that is
-- not a map; `spec_json` is what `json.Marshal` makes of the spec, if there is one.
pub record Cr : Type 0 where
  pub namespace : Text
  pub name : Text
  pub labels : Dict Text
  pub generation : ℤ
  pub node_name : Text
  pub instance_id : Text
  pub interfaces : Option (List (Option (Dict Value)))
  pub spec_json : Option Text
  pub status : CrStatus

pub record NodeCondition : Type 0 where
  pub kind : Text
  pub status : Text

pub record Node : Type 0 where
  pub system_uuid : Text
  pub os_image : Text
  pub conditions : List NodeCondition
  pub addresses : List Text

-- `Terminated` of a container: the time at which it finished, its message and its exit code.
pub record Terminated : Type 0 where
  pub finished_at : ℤ
  pub message : Text
  pub exit_code : ℤ

pub record Pod : Type 0 where
  pub labels : Dict Text
  pub containers : List (Option Terminated)
