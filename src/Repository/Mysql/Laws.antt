-- ===== src/Repository/Mysql/Laws.antt =====
-- internal/infrastructure/persistence/mysql_repository.go: what an update leaves.
use mathlib.Core.Path.{subst}
use multi_network_interface.Prelude.{
  ◌≡◌, ◌≢◌, refl, sym, ap, ◌∙◌, Bool, true, false, Option, none, some, List, [], ◌∷◌, map,
  Bool-cases, Option-cases, inl, inr, if◌then◌else◌,
}
use multi_network_interface.Prelude.Int.{ℤ, pos, ◌==ℤ◌, ==ℤ_iff}
use multi_network_interface.Prelude.Text.{Text, text}
use multi_network_interface.Errors.{
  GoError, nil, is_nil, Result-cases, ok, not_found, domain_type, new_error, new_system_error,
  with_retryable, new_not_found_error,
}
use multi_network_interface.Entities.{Net}
use multi_network_interface.Entities.Interface.{
  InterfaceStatus, pending, configured, NetworkInterface, mark_as_configured, is_configured_status,
}
use multi_network_interface.Entities.Laws.{new_network_interface-Built}
use multi_network_interface.Repository.Mysql.{
  Row, Subnet, Database, Scanned, scanned, scan, entity_of, mark_by_success, has_success, matching,
  or_null, cidrs_of, select, marked, found_scanned, found_by_id, get_interface_by_id, success_of,
  update_row, is_changed, affected, update_interface_status,
}

-- The status that is read where a status was written: a failed interface is pending again.
abbrev pub status_after : InterfaceStatus → InterfaceStatus
status_after status = if is_configured_status status then configured else pending

or_null-cons :
    (cs : List (Option Text))
    → (c : Option Text) × (rest : List (Option Text)) × (or_null cs ≡ c ∷ rest)
unfolding or_null
or_null-cons [] = (none, [], refl)
or_null-cons (c ∷ cs) = (c, cs, refl)

module _ (same : Text → Text → Bool) where
  cidrs_of-cons :
      (subnets : List Subnet) (r : Row)
      → (c : Option Text) × (rest : List (Option Text)) × (cidrs_of same subnets r ≡ c ∷ rest)
  unfolding cidrs_of
  cidrs_of-cons subnets r = elim (Option-cases r.subnet_id) [
    | inl e ↦ rw e (none, [], refl)
    | inr (key, e) ↦ rw e (or_null-cons (matching same key subnets))
  ]

module _ (status : InterfaceStatus) where
  mark_by_success-status :
      (s : Scanned) (e : NetworkInterface)
      → record (mark_by_success s e) { status = status_after status }
        ≡ record e { status = status_after status }
  unfolding mark_by_success mark_as_configured
  mark_by_success-status s e = elim (Bool-cases (s.netplan_success ==ℤ pos 1)) [
    | inl one ↦ rw one refl
    | inr other ↦ rw other refl
  ]

  mark_by_success-update :
      (s : Scanned) (e : NetworkInterface)
      → e.status ≡ pending
      → s.netplan_success ≡ success_of status
      → mark_by_success s e ≡ record e { status = status_after status }
  unfolding mark_by_success mark_as_configured success_of
  mark_by_success-update s e fresh value = elim (Bool-cases (is_configured_status status)) [
    | inl done ↦ rw (value, done) refl
    | inr not_yet ↦ rw (value, not_yet) (ap (λ x. record e { status = x }) fresh)
  ]

domain_not_nil : (message : Text) (cause : GoError) → new_system_error message cause ≢ nil
unfolding new_system_error new_error with_retryable
domain_not_nil message cause h = absurd (cc)

ok_injective : {A : Type 0} {a b : A} → ok a ≡ ok b → a ≡ b
ok_injective h = cc

scan-update :
    (now value : ℤ) (r : Row) (c : Option Text) (s : Scanned)
    → scan (r, c) ≡ some s
    → scan (record r { netplan_success = some value; modified_at = now }, c)
      ≡ some (record s { netplan_success = value })
unfolding scan scanned
scan-update now value r c s h = elim (Option-cases r.macaddress) [
  | inl e ↦ absurd (let none_some = rw e at h in cc)
  | inr (mac, e) ↦ elim (Option-cases r.attached_node_name) [
    | inl f ↦ absurd (let none_some = rw (e, f) at h in cc)
    | inr (node, f) ↦ elim (Option-cases r.netplan_success) [
      | inl g ↦ absurd (let none_some = rw (e, f, g) at h in cc)
      | inr (success, g) ↦
          let path = rw (e, f, g) at h in
          rw (e, f)
            (ap (λ o. elim o [ none ↦ none | some t ↦ some (record t { netplan_success = value }) ])
              path)
    ]
  ]
]

module _ (db : Database) (id : ℤ) (status : InterfaceStatus) where
  abbrev updated_db : Database
  updated_db = record db {
    interfaces = map (update_row db.now (success_of status) id) db.interfaces;
  }

  -- An update that returns nil met no error, and made its change.
  update-nil :
      (after : Database)
      → update_interface_status id status db ≡ (nil, after)
      → (is_nil db.failure ≡ true) × (is_nil db.affected_failure ≡ true) × (updated_db ≡ after)
  unfolding update_interface_status
  update-nil after u = elim (Bool-cases (is_nil db.failure)) [
    | inr bad ↦ absurd (
        let error : new_system_error (text "failed to update status") db.failure ≡ nil =
          ap (λ r. r.0) (rw bad at u) in
        domain_not_nil _ _ error)
    | inl good ↦ elim (Bool-cases (is_nil db.affected_failure)) [
      | inr bad ↦ absurd (
          let error : new_system_error (text "failed to check affected rows") db.affected_failure
              ≡ nil =
            ap (λ r. r.0) (rw (good, bad) at u) in
          domain_not_nil _ _ error)
      | inl fine ↦ (good, fine, ap (λ r. r.1) (rw good at u))
    ]
  ]

module _ (now value id : ℤ) where
  again_unchanged : (r : Row) → is_changed now value id (update_row now value id r) ≡ false
  unfolding is_changed update_row has_success
  again_unchanged r =
      let now_again = (==ℤ_iff now now).1 refl in
      let value_again = (==ℤ_iff value value).1 refl in
      elim (Bool-cases (r.id ==ℤ id)) [
        | inr other ↦ rw (other, other) refl
        | inl hit ↦ rw (hit, hit, value_again, now_again) refl
      ]

  again_unaffected :
      (rows : List Row) → affected now value id (map (update_row now value id) rows) ≡ 0
  unfolding affected
  again_unaffected [] = refl
  again_unaffected (r ∷ rows) = rw (again_unchanged r) (again_unaffected rows)

update-again :
    (id : ℤ) (status : InterfaceStatus) (db after : Database)
    → update_interface_status id status db ≡ (nil, after)
    → domain_type (update_interface_status id status after).0 ≡ some not_found
unfolding update_interface_status new_not_found_error new_error domain_type
update-again id status db after u =
    let (good, fine, path) = update-nil db id status after u in
    subst (λ d. domain_type (update_interface_status id status d).0 ≡ some not_found) path
      (rw (good, fine, again_unaffected db.now (success_of status) id db.interfaces) refl)

module _ (net : Net) (same : Text → Text → Bool) (db : Database) (id : ℤ)
    (status : InterfaceStatus) where
  abbrev updated : Row → Row
  updated r = record r { netplan_success = some (success_of status); modified_at = db.now }

  abbrev read_after : NetworkInterface → NetworkInterface
  read_after i = record i { status = status_after status }

  entity_of-pending :
      (s : Scanned) (e : NetworkInterface) → entity_of net s ≡ ok e → e.status ≡ pending
  unfolding entity_of
  entity_of-pending s e h =
      let built = new_network_interface-Built net _ _ _ _ _ _ e h in built.status_pending

  found_by_id-head :
      (after : Database) (r : Row) (c : Option Text) (xs ys : List (Row × Option Text))
      (i : NetworkInterface)
      → found_by_id net same db id ((r, c) ∷ xs) ≡ ok i
      → found_by_id net same after id ((updated r, c) ∷ ys) ≡ ok (read_after i)
  unfolding found_by_id found_scanned marked entity_of
  found_by_id-head after r c xs ys i h = elim (Option-cases (scan (r, c))) [
    | inl e ↦ absurd (let failed = sym (ap (found_scanned net same db) e) ∙ h in cc)
    | inr (s, e) ↦
        let t : Scanned = record s { netplan_success = success_of status } in
        let path : marked net same db s (entity_of net s) ≡ ok i =
          sym (ap (found_scanned net same db) e) ∙ h in
        let next =
          ap (found_scanned net same after) (scan-update db.now (success_of status) r c s e) in
        elim (Result-cases (entity_of net s)) [
          | inr (x, f) ↦ absurd (let failed = sym (ap (marked net same db s) f) ∙ path in cc)
          | inl (entity, f) ↦
              next
              ∙ (ap (marked net same after t) f
                  ∙ ap ok (
                      mark_by_success-update status t entity (entity_of-pending s entity f) refl
                      ∙ (sym (mark_by_success-status status s entity)
                          ∙ ap read_after
                              (ok_injective (sym (ap (marked net same db s) f) ∙ path)))))
        ]
  ]

  found_by_id-update :
      (after : Database) (rows : List Row) (i : NetworkInterface)
      → found_by_id net same db id (select same (λ r. r.id ==ℤ id) db.subnets rows) ≡ ok i
      → found_by_id net same after id (
          select same
            (λ r. r.id ==ℤ id)
            db.subnets
            (map (update_row db.now (success_of status) id) rows))
        ≡ ok (read_after i)
  unfolding select update_row found_by_id cidrs_of
  found_by_id-update after [] i h = absurd (cc)
  found_by_id-update after (r ∷ rows) i h = elim (Bool-cases (r.id ==ℤ id)) [
    | inr other ↦ rw (other, other) (found_by_id-update after rows i (rw other at h))
    | inl hit ↦
        let (c, rest, e) = cidrs_of-cons same db.subnets r in
        rw (hit, hit, e) (found_by_id-head after r c [] [] i (rw (hit, e) at h))
  ]

  -- If an interface can be read by its id, then after an update of its status that returns nil it
  -- is read again, the same in all but its status: configured if that was written, and pending
  -- otherwise, also where failed was written. The same update again, before the clock has moved
  -- on, reports that the interface is not found.
  pub update-get :
      (i : NetworkInterface) (after : Database)
      → get_interface_by_id net same db id ≡ ok i
      → update_interface_status id status db ≡ (nil, after)
      → (get_interface_by_id net same after id ≡ ok (record i { status = status_after status }))
        × (domain_type (update_interface_status id status after).0 ≡ some not_found)
  unfolding get_interface_by_id
  update-get i after h u =
      let (good, _, path) = update-nil db id status after u in
      (
        subst (λ d. get_interface_by_id net same d id ≡ ok (read_after i)) path
            (rw good (found_by_id-update (updated_db db id status) db.interfaces i (rw good at h))),
        update-again id status db after u,
      )
