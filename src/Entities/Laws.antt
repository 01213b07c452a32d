-- ===== src/Entities/Laws.antt =====
-- What the constructors of the entity establish, and that its methods keep it.
use mathlib.Core.Path.{subst}
use multi_network_interface.Prelude.{sym, ◌≤◌, ◌≡◌, refl, Bool, true, false, arith, length}
use multi_network_interface.Prelude.Int.{ℤ, pos, ◌≤ℤ◌}
use multi_network_interface.Prelude.Text.{Text}
use multi_network_interface.Errors.{ok, ◌>>=◌, >>=-elim}
use multi_network_interface.Entities.{
  Net, IpAddress, MacAddress, Cidr, Mtu, InterfaceIndex, new_interface_index, new_mac_address,
  new_ip_address, new_cidr, new_mtu, cidr_contains, to_interface_name,
}
use multi_network_interface.Entities.NodeName.{NodeName, node_name_matches, new_node_name}
use multi_network_interface.Entities.InterfaceName.{InterfaceName, new_interface_name}
use multi_network_interface.Entities.InterfaceName.Laws.{new_interface_name_sound}
use multi_network_interface.Entities.Interface.{
  NetworkInterface, pending, within_cidr, mac_of, attached_node_name, address_of, cidr_of, name_of,
  new_network_interface, new_network_interface_with_name, id_of, mtu_of,
}

abbrev pub IndexOk : InterfaceIndex → Type 0
IndexOk i = (pos 0 ≤ℤ i.value) × (i.value ≤ℤ pos 9)

abbrev pub MtuOk : Mtu → Type 0
MtuOk m = (pos 68 ≤ℤ m.value) × (m.value ≤ℤ pos 65536)

abbrev pub NodeOk : NodeName → Type 0
NodeOk n = (length n.value ≤ 253) × (node_name_matches n.value ≡ true)

abbrev pub NameOk : InterfaceName → Type 0
NameOk n = new_interface_name n.value ≡ ok n

new_interface_index-ok :
    (v : ℤ) (i : InterfaceIndex) → new_interface_index v ≡ ok i → IndexOk i × (i.value ≡ v)
unfolding new_interface_index
new_interface_index-ok v i h = ground arith

new_mtu-ok : (v : ℤ) (m : Mtu) → new_mtu v ≡ ok m → MtuOk m × (m.value ≡ v)
unfolding new_mtu
new_mtu-ok v m h = ground arith

new_node_name-ok : (v : Text) (n : NodeName) → new_node_name v ≡ ok n → NodeOk n × (n.value ≡ v)
unfolding new_node_name
new_node_name-ok v n h = ground arith

new_interface_name-ok :
    (v : Text) (n : InterfaceName) → new_interface_name v ≡ ok n → NameOk n × (n.value ≡ v)
new_interface_name-ok v n h =
    let kept = (new_interface_name_sound v n h).0 in
    (subst (λ t. new_interface_name t ≡ ok n) (sym kept) h, kept)

module _ (net : Net) where
  new_mac_address-ok : (v : Text) (m : MacAddress) → new_mac_address net v ≡ ok m → m.value ≡ v
  unfolding new_mac_address
  new_mac_address-ok v m h = ground arith

  new_ip_address-ok : (v : Text) (a : IpAddress) → new_ip_address net v ≡ ok a → a.value ≡ v
  unfolding new_ip_address
  new_ip_address-ok v m h = ground arith

  new_cidr-ok : (v : Text) (c : Cidr) → new_cidr net v ≡ ok c → c.value ≡ v
  unfolding new_cidr
  new_cidr-ok v c h = ground arith

  -- What an entity holds, from the values that it was made of.
  pub record Built (id : ℤ) (name mac node ip cidr : Text) (mtu : ℤ) (explicit : Bool)
      (i : NetworkInterface) : Type 0 where
    pub index : IndexOk i.id
    pub size : MtuOk i.mtu
    pub node_ok : NodeOk i.node_name
    pub name_ok : NameOk i.interface_name
    pub inside : net.subnet_contains i.cidr.network i.ip_address.ip ≡ true
    pub status_pending : i.status ≡ pending
    pub kept_numbers : (id_of i ≡ id) × (mtu_of i ≡ mtu) × (i.explicit_name ≡ explicit)
    pub kept_texts :
        (name_of i ≡ name)
        × (mac_of i ≡ mac)
        × (attached_node_name i ≡ node)
        × (address_of i ≡ ip)
        × (cidr_of i ≡ cidr)

  within_cidr-ok :
      (i j : NetworkInterface)
      → within_cidr net i ≡ ok j
      → (i ≡ j) × (net.subnet_contains i.cidr.network i.ip_address.ip ≡ true)
  unfolding within_cidr cidr_contains
  within_cidr-ok i j h = ground arith

  -- Both constructors, once the index is made; `name` may depend on it.
  assemble :
      (id : ℤ) (index : InterfaceIndex) (name mac node ip cidr : Text) (mtu : ℤ) (explicit : Bool)
      (i : NetworkInterface)
      → new_interface_index id ≡ ok index
      → (do
        mac_address ← new_mac_address net mac
        node_name ← new_node_name node
        ip_address ← new_ip_address net ip
        subnet ← new_cidr net cidr
        size ← new_mtu mtu
        parsed ← new_interface_name name
        within_cidr net (record {
          id = index;
          mac_address = mac_address;
          node_name = node_name;
          status = pending;
          ip_address = ip_address;
          cidr = subnet;
          mtu = size;
          interface_name = parsed;
          explicit_name = explicit;
        }))
        ≡ ok i
      → Built id name mac node ip cidr mtu explicit i
  assemble id index name mac node ip cidr mtu explicit i h0 h =
      >>=-elim (new_mac_address net mac) _ h λ m h1 k1.
        >>=-elim (new_node_name node) _ k1 λ n h2 k2.
          >>=-elim (new_ip_address net ip) _ k2 λ a h3 k3.
            >>=-elim (new_cidr net cidr) _ k3 λ c h4 k4. >>=-elim (new_mtu mtu) _ k4 λ t h5 k5.
              >>=-elim (new_interface_name name) _ k5 λ p h6 k6.
                let (same, inside) = within_cidr-ok _ i k6 in
                subst (Built id name mac node ip cidr mtu explicit) same (record {
                  index = (new_interface_index-ok id index h0).0;
                  size = (new_mtu-ok mtu t h5).0;
                  node_ok = (new_node_name-ok node n h2).0;
                  name_ok = (new_interface_name-ok name p h6).0;
                  inside = inside;
                  status_pending = refl;
                  kept_numbers =
                      ((new_interface_index-ok id index h0).1, (new_mtu-ok mtu t h5).1, refl);
                  kept_texts = (
                    (new_interface_name-ok name p h6).1,
                    new_mac_address-ok mac m h1,
                    (new_node_name-ok node n h2).1,
                    new_ip_address-ok ip a h3,
                    new_cidr-ok cidr c h4,
                  );
                })

  -- An entity that `NewNetworkInterface` returns is valid: its index, MTU, node name and interface
  -- name are in range, its address lies in its subnet, and it is pending. It keeps the texts and
  -- numbers that it was made of, under the name of its index, which is not an explicit one.
  pub new_network_interface-Built :
      (id : ℤ) (mac node ip cidr : Text) (mtu : ℤ) (i : NetworkInterface)
      → new_network_interface net id mac node ip cidr mtu ≡ ok i
      → Built id (to_interface_name (record { value = id })) mac node ip cidr mtu false i
  unfolding new_network_interface
  new_network_interface-Built id mac node ip cidr mtu i h =
      >>=-elim (new_interface_index id) _ h λ index h0 k.
        subst
          (λ (v : ℤ).
            Built id (to_interface_name (record { value = v })) mac node ip cidr mtu false i)
          (new_interface_index-ok id index h0).1
          (assemble id index (to_interface_name index) mac node ip cidr mtu false i h0 k)

  -- An entity that `NewNetworkInterfaceWithName` returns is valid: its index, MTU, node name and
  -- interface name are in range, its address lies in its subnet, and it is pending. It keeps the
  -- texts and numbers that it was made of, and its name is the given one, marked as explicit.
  pub new_network_interface_with_name-Built :
      (id : ℤ) (name mac node ip cidr : Text) (mtu : ℤ) (i : NetworkInterface)
      → new_network_interface_with_name net id name mac node ip cidr mtu ≡ ok i
      → Built id name mac node ip cidr mtu true i
  unfolding new_network_interface_with_name
  new_network_interface_with_name-Built id name mac node ip cidr mtu i h =
      >>=-elim (new_interface_index id) _ h
        λ index h0 k. assemble id index name mac node ip cidr mtu true i h0 k
