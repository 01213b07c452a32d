-- ===== src/Repository/Laws.antt =====
-- What `loadAll` returns.
use mathlib.Core.List.{Memᴰ}
use mathlib.Core.Path.{subst}
use multi_network_interface.Prelude.{
  ℕ, suc, ◌+◌, ◌-◌, ◌<◌, ◌≤◌, ◌≡◌, true, Option, some, List, [], ◌∷◌, length, All, arith, inl, inr,
  Bool-cases, ◌∙◌,
}
use multi_network_interface.Prelude.Int.{pos, ◌≤ℤ◌}
use multi_network_interface.Prelude.Text.{Text, is_empty}
use multi_network_interface.Errors.{Result-cases, Result, ok}
use multi_network_interface.Entities.{Net}
use multi_network_interface.Entities.Interface.{NetworkInterface, pending, id_of, mac_of}
use multi_network_interface.Entities.Laws.{
  IndexOk, new_network_interface-Built, IndexOk, new_network_interface_with_name-Built,
}
use multi_network_interface.Repository.{
  NodeInterface, NodeConfig, entry_id, load_entry, load_from, load_all,
}

-- An entry that names no interface and gives no id.
abbrev pub IsBare : NodeInterface → Type 0
IsBare ni = (is_empty ni.name ≡ true) × (ni.id ≡ pos 0)

entry_id-IsBare : (k : ℕ) (ni : NodeInterface) → IsBare ni → entry_id k ni ≡ pos (k + 1)
unfolding entry_id
entry_id-IsBare k ni (unnamed, no_id) = ground arith

module _ (net : Net) (node : Text) where
  -- What an entity has of the entry `ni` at position `k`.
  abbrev pub Loaded : ℕ → NodeInterface → NetworkInterface → Type 0
  Loaded k ni e =
      (id_of e ≡ entry_id k ni)
      × IndexOk e.id
      × (mac_of e ≡ ni.mac_address)
      × (e.status ≡ pending)
      × (net.subnet_contains e.cidr.network e.ip_address.ip ≡ true)

  load_entry-Loaded :
      (k : ℕ) (ni : NodeInterface) (e : NetworkInterface)
      → load_entry net node k ni ≡ ok e
      → Loaded k ni e
  unfolding load_entry
  load_entry-Loaded k ni e h = elim (Bool-cases (is_empty ni.name)) [
    | inl unnamed ↦
        let b =
          new_network_interface-Built net (entry_id k ni) ni.mac_address node ni.address ni.cidr
            ni.mtu e (rw unnamed at h) in
        (b.kept_numbers.0, b.index, b.kept_texts.1, b.status_pending, b.inside)
    | inr named ↦
        let b =
          new_network_interface_with_name-Built net (entry_id k ni) ni.name ni.mac_address node
            ni.address ni.cidr ni.mtu e (rw named at h) in
        (b.kept_numbers.0, b.index, b.kept_texts.1, b.status_pending, b.inside)
  ]

  -- Behind the ninth position a bare entry is refused: its id would be ten or more.
  load_entry-late :
      (k : ℕ) (ni : NodeInterface)
      → IsBare ni
      → 9 ≤ k
      → (e : NetworkInterface) → load_entry net node k ni ≡ ok e
      → ⊥
  load_entry-late k ni bare late e h =
      let l = load_entry-Loaded k ni e h in
      let id : e.id.value ≡ pos (k + 1) = l.0 ∙ entry_id-IsBare k ni bare in
      let small : pos (k + 1) ≤ℤ pos 9 = subst (λ v. v ≤ℤ pos 9) id l.1.1 in omega arith

  Sourced : List NodeInterface → NetworkInterface → Type 0
  Sourced entries e = (k : ℕ) × (ni : NodeInterface) × Memᴰ ni entries × Loaded k ni e

  load_from-bare :
      (i : ℕ) (entries : List NodeInterface)
      → All IsBare entries
      → length (load_from net node i entries) ≤ 9 - i
  unfolding load_from
  load_from-bare i [] h = omega arith
  load_from-bare i (ni ∷ rest) (bare, h) =
      let later = load_from-bare (suc i) rest h in
      elim (Result-cases (load_entry net node i ni)) [
        | inl (e, found) ↦
            let early : i < 9 =
              omega (arith, λ (late : 9 ≤ i). load_entry-late i ni bare late e found) in
            rw found (omega arith)
        | inr (x, missed) ↦ rw missed (omega arith)
      ]

module _ (net : Net) (source : Text → Result (Option NodeConfig)) (node : Text) (cfg : NodeConfig)
    (found : source node ≡ ok (some cfg)) where
  load_all-found :
      (es : List NetworkInterface)
      → load_all net source node ≡ ok es
      → load_from net cfg.node_name 0 cfg.interfaces ≡ es
  unfolding load_all
  load_all-found es h = ground arith

  -- From a config whose entries give neither a name nor an id, at most nine interfaces are loaded, however
  -- many it has.
  pub load_all-bare :
      (es : List NetworkInterface)
      → All IsBare cfg.interfaces
      → load_all net source node ≡ ok es
      → length es ≤ 9
  load_all-bare es bare h =
      subst (λ l. length l ≤ 9) (load_all-found es h)
        (load_from-bare net cfg.node_name 0 cfg.interfaces bare)
