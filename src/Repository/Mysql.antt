-- ===== src/Repository/Mysql.antt =====
-- internal/infrastructure/persistence/mysql_repository.go: the interfaces in a database. The two
-- tables are lists of rows, and each statement is the function that it states; without an order, rows
-- come in the order of the table. The comparison of texts (a collation) is a parameter. As the driver
-- does by default, an update reports the rows that it changed. Metrics and logs are left out.
pub mod Laws
use multi_network_interface.Prelude.{
  ℕ, zero, suc, Bool, true, false, ◌&&◌, ◌||◌, not, Option, none, some, List, [], ◌∷◌, ◌++◌, map,
  ◌==◌, if◌then◌else◌,
}
use multi_network_interface.Prelude.Int.{ℤ, pos, ◌==ℤ◌}
use multi_network_interface.Prelude.Text.{Text, text, itoa_ℤ}
use multi_network_interface.Errors.{
  GoError, nil, is_nil, Result, ok, err, new_system_error, new_not_found_error,
}
use multi_network_interface.Entities.{Net}
use multi_network_interface.Entities.Interface.{
  InterfaceStatus, NetworkInterface, new_network_interface, mark_as_configured,
  is_configured_status,
}

-- A row of `multi_interface`; `none` is NULL.
pub record Row : Type 0 where
  pub id : ℤ
  pub macaddress : Option Text
  pub attached_node_name : Option Text
  pub netplan_success : Option ℤ
  pub subnet_id : Option Text
  pub address : Option Text
  pub mtu : Option ℤ
  pub modified_at : ℤ

-- A row of `multi_subnet`.
pub record Subnet : Type 0 where
  pub subnet_id : Text
  pub cidr : Option Text

-- The tables, the clock in seconds (`NOW()`), and the errors that the calls meet, nil if there is
-- none: of a statement, of `rows.Err`, of `RowsAffected`, and of `Scan` on a NULL.
pub record Database : Type 0 where
  pub interfaces : List Row
  pub subnets : List Subnet
  pub now : ℤ
  pub failure : GoError
  pub rows_failure : GoError
  pub affected_failure : GoError
  pub scan_error : GoError

-- What `Scan` fills in.
pub record Scanned : Type 0 where
  pub id : ℤ
  pub mac : Text
  pub node : Text
  pub netplan_success : ℤ
  pub addr : Option Text
  pub mtu : Option ℤ
  pub cidr : Option Text

scanned : Row → Option Text → Option Text → Option Text → Option ℤ → Option Scanned
scanned r cidr (some mac) (some node) (some success) = some (record {
  id = r.id;
  mac = mac;
  node = node;
  netplan_success = success;
  addr = r.address;
  mtu = r.mtu;
  cidr = cidr;
})
scanned r cidr _ _ _ = none

-- A NULL in a column that is no sql.Null is an error of `Scan`.
unfoldable pub scan : Row × Option Text → Option Scanned
unfolding scanned
scan (r, cidr) = scanned r cidr r.macaddress r.attached_node_name r.netplan_success

text_or_empty : Option Text → Text
text_or_empty none = []
text_or_empty (some t) = t

number_or_zero : Option ℤ → ℤ
number_or_zero none = pos 0
number_or_zero (some n) = n

unfoldable pub entity_of : Net → Scanned → Result NetworkInterface
unfolding text_or_empty number_or_zero
entity_of net s =
    new_network_interface net s.id s.mac s.node (text_or_empty s.addr) (text_or_empty s.cidr)
      (number_or_zero s.mtu)

-- `netplanSuccess == 1`.
unfoldable pub mark_by_success : Scanned → NetworkInterface → NetworkInterface
mark_by_success s i = if s.netplan_success ==ℤ pos 1 then mark_as_configured i else i

-- The condition on `netplan_success`, which does not hold of NULL.
unfoldable pub has_success : ℤ → Row → Bool
has_success value r = elim r.netplan_success [ none ↦ false | some n ↦ n ==ℤ value ]

or_null : List (Option Text) → List (Option Text)
or_null [] = none ∷ []
or_null (c ∷ cs) = c ∷ cs

module _ (same : Text → Text → Bool) where
  -- `LEFT JOIN multi_subnet`: the CIDR of each subnet of the row, or a NULL if there is none.
  matching : Text → List Subnet → List (Option Text)
  matching key [] = []
  matching key (s ∷ subnets) =
      let rest = matching key subnets in if same s.subnet_id key then s.cidr ∷ rest else rest

  cidrs_of : List Subnet → Row → List (Option Text)
  unfolding matching or_null
  cidrs_of subnets r = elim r.subnet_id [
    | none ↦ none ∷ []
    | some key ↦ or_null (matching key subnets)
  ]

  -- `FROM multi_interface LEFT JOIN multi_subnet WHERE` a condition on the interface.
  unfoldable pub select : (Row → Bool) → List Subnet → List Row → List (Row × Option Text)
  unfolding cidrs_of
  select keep subnets [] = []
  select keep subnets (r ∷ rows) =
      let rest = select keep subnets rows in
      if keep r then map (λ c. (r, c)) (cidrs_of subnets r) ++ rest else rest

  unfoldable pub on_node : Text → Row → Bool
  on_node node r = elim r.attached_node_name [ none ↦ false | some n ↦ same n node ]

module _ (net : Net) (mark : Scanned → NetworkInterface → NetworkInterface) where
  append_built : Scanned → Result NetworkInterface → List NetworkInterface → List NetworkInterface
  append_built s (err e) rest = rest
  append_built s (ok i) rest = mark s i ∷ rest

  -- The loop over the rows: one that cannot be scanned or built is logged and skipped.
  unfoldable pub build_rows : List (Row × Option Text) → List NetworkInterface
  unfolding append_built
  build_rows [] = []
  build_rows (row ∷ rows) =
      let rest = build_rows rows in
      elim (scan row) [ none ↦ rest | some s ↦ append_built s (entity_of net s) rest ]

  unfoldable pub results : Database → List (Row × Option Text) → Result (List NetworkInterface)
  results db rows =
      if not (is_nil db.failure)
      then err (new_system_error (text "database query failed") db.failure)
      else if not (is_nil db.rows_failure)
      then err (new_system_error (text "error processing results") db.rows_failure)
      else ok (build_rows rows)

-- `LIMIT`.
take {ℓ} : {A : Type ℓ} → ℕ → List A → List A
take zero xs = []
take (suc n) [] = []
take (suc n) (x ∷ xs) = x ∷ take n xs

module _ (net : Net) (same : Text → Text → Bool) (db : Database) where
  -- `GetPendingInterfaces`.
  unfoldable pub get_pending_interfaces : Text → Result (List NetworkInterface)
  unfolding take
  get_pending_interfaces node =
      results net (λ s i. i) db
        (take 10 (
          select same (λ r. has_success (pos 0) r && on_node same node r) db.subnets db.interfaces))

  -- `GetConfiguredInterfaces`.
  unfoldable pub get_configured_interfaces : Text → Result (List NetworkInterface)
  get_configured_interfaces node =
      results net (λ s i. mark_as_configured i) db
        (select same (λ r. has_success (pos 1) r && on_node same node r) db.subnets db.interfaces)

  -- `GetActiveInterfaces` and `GetAllNodeInterfaces`.
  unfoldable pub get_active_interfaces : Text → Result (List NetworkInterface)
  get_active_interfaces node =
      results net mark_by_success db (select same (on_node same node) db.subnets db.interfaces)

  unfoldable pub get_all_node_interfaces : Text → Result (List NetworkInterface)
  get_all_node_interfaces node =
      results net mark_by_success db (select same (on_node same node) db.subnets db.interfaces)

  marked : Scanned → Result NetworkInterface → Result NetworkInterface
  marked s (err e) = err e
  marked s (ok i) = ok (mark_by_success s i)

  abbrev missing : ℤ → GoError
  missing id = new_not_found_error (text "interface not found: ID=" ++ itoa_ℤ id)

  found_scanned : Option Scanned → Result NetworkInterface
  unfolding marked
  found_scanned none = err (new_system_error (text "database query failed") db.scan_error)
  found_scanned (some s) = marked s (entity_of net s)

  found_by_id : ℤ → List (Row × Option Text) → Result NetworkInterface
  unfolding found_scanned
  found_by_id id [] = err (missing id)
  found_by_id id (row ∷ rows) = found_scanned (scan row)

  -- `GetInterfaceByID`.
  unfoldable pub get_interface_by_id : ℤ → Result NetworkInterface
  unfolding found_by_id
  get_interface_by_id id =
      if not (is_nil db.failure)
      then err (new_system_error (text "database query failed") db.failure)
      else found_by_id id (select same (λ r. r.id ==ℤ id) db.subnets db.interfaces)

-- What a status is in the database.
unfoldable pub success_of : InterfaceStatus → ℤ
success_of status = if is_configured_status status then pos 1 else pos 0

-- `UPDATE multi_interface SET netplan_success = ?, modified_at = NOW() WHERE id = ?`
unfoldable pub update_row : ℤ → ℤ → ℤ → Row → Row
update_row now value id r =
    if r.id ==ℤ id then record r { netplan_success = some value; modified_at = now } else r

unfoldable pub is_changed : ℤ → ℤ → ℤ → Row → Bool
is_changed now value id r =
    r.id ==ℤ id && (not (has_success value r) || not (r.modified_at ==ℤ now))

unfoldable pub affected : ℤ → ℤ → ℤ → List Row → ℕ
affected now value id [] = 0
affected now value id (r ∷ rows) =
    let rest = affected now value id rows in if is_changed now value id r then suc rest else rest

-- `UpdateInterfaceStatus`.
unfoldable pub update_interface_status : ℤ → InterfaceStatus → Database → GoError × Database
update_interface_status id status db =
    if not (is_nil db.failure)
    then (new_system_error (text "failed to update status") db.failure, db)
    else (
      if not (is_nil db.affected_failure)
          then new_system_error (text "failed to check affected rows") db.affected_failure
          else if affected db.now (success_of status) id db.interfaces == 0
          then new_not_found_error (text "interface not found: ID=" ++ itoa_ℤ id)
          else nil,
      record db { interfaces = map (update_row db.now (success_of status) id) db.interfaces },
    )
