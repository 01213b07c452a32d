-- ===== src/Repository.antt =====
-- internal/infrastructure/persistence/nodecr_repository.go: the interfaces of a node, read from its
-- MultiNicNodeConfig. The source of the config, the Kubernetes API, is a parameter.
pub mod Laws
pub mod Mysql
pub mod Source
use multi_network_interface.Prelude.{
  ℕ, zero, suc, ◌+◌, ◌&&◌, Option, none, some, List, [], ◌∷◌, ◌++◌, if◌then◌else◌,
}
use multi_network_interface.Prelude.Int.{ℤ, pos, ◌==ℤ◌}
use multi_network_interface.Prelude.Text.{Text, text, is_empty}
use multi_network_interface.Errors.{
  GoError, nil, Result, ok, err, ◌>>=◌, new_system_error, new_not_found_error,
}
use multi_network_interface.Entities.{Net}
use multi_network_interface.Entities.InterfaceName.{new_interface_name}
use multi_network_interface.Entities.Interface.{
  InterfaceStatus, NetworkInterface, new_network_interface, new_network_interface_with_name,
}

pub record NodeInterface : Type 0 where
  pub id : ℤ
  pub port_id : Text
  pub name : Text
  pub mac_address : Text
  pub address : Text
  pub cidr : Text
  pub mtu : ℤ

pub record NodeConfig : Type 0 where
  pub node_name : Text
  pub interfaces : List NodeInterface

-- The index in the name of an entry, where it has one, replaces the id.
named_id : NodeInterface → ℤ
named_id ni =
    if is_empty ni.name
    then ni.id
    else elim (new_interface_name ni.name) [ ok parsed ↦ pos parsed.index | err _ ↦ ni.id ]

-- The id of the entry at position `i`.
unfoldable pub entry_id : ℕ → NodeInterface → ℤ
unfolding named_id
entry_id i ni = let id = named_id ni in if id ==ℤ pos 0 && is_empty ni.name then pos (i + 1) else id

module _ (net : Net) (node_name : Text) where
  unfoldable pub load_entry : ℕ → NodeInterface → Result NetworkInterface
  load_entry i ni =
      let id = entry_id i ni in
      if is_empty ni.name
      then new_network_interface net id ni.mac_address node_name ni.address ni.cidr ni.mtu
      else new_network_interface_with_name net id ni.name ni.mac_address node_name ni.address
          ni.cidr ni.mtu

  abbrev pub append_ok : Result NetworkInterface → List NetworkInterface → List NetworkInterface
  append_ok (ok e) rest = e ∷ rest
  append_ok (err _) rest = rest

  -- The loop of `loadAll` from position `i` on; an invalid entry is logged and skipped.
  unfoldable pub load_from : ℕ → List NodeInterface → List NetworkInterface
  load_from i [] = []
  load_from i (ni ∷ rest) = append_ok (load_entry i ni) (load_from (suc i) rest)

module _ (net : Net) (source : Text → Result (Option NodeConfig)) where
  loaded : Text → Result (Option NodeConfig) → Result (List NetworkInterface)
  loaded node (err e) = err (new_system_error (text "failed to get node config") e)
  loaded node (ok none) = err (new_not_found_error (text "node config not found for node " ++ node))
  loaded node (ok (some cfg)) = ok (load_from net cfg.node_name 0 cfg.interfaces)

  unfoldable pub load_all : Text → Result (List NetworkInterface)
  unfolding loaded
  load_all node = loaded node (source node)

  -- `GetPendingInterfaces`, `GetActiveInterfaces` and `GetAllNodeInterfaces`.
  unfoldable pub get_pending_interfaces : Text → Result (List NetworkInterface)
  get_pending_interfaces node = load_all node

  unfoldable pub get_active_interfaces : Text → Result (List NetworkInterface)
  get_active_interfaces node = load_all node

  unfoldable pub get_all_node_interfaces : Text → Result (List NetworkInterface)
  get_all_node_interfaces node = load_all node

-- The agent keeps no configured state.
unfoldable pub get_configured_interfaces : Text → Result (List NetworkInterface)
get_configured_interfaces node = ok []

-- The controller owns the status, so an update does nothing.
unfoldable pub update_interface_status : ℤ → InterfaceStatus → GoError
update_interface_status id status = nil

unfoldable pub get_interface_by_id : ℤ → Result NetworkInterface
get_interface_by_id id = err (
    new_not_found_error
      (text "GetInterfaceByID not supported without nodeName context in NodeCRRepository"))
