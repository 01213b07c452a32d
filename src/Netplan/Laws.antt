-- ===== src/Netplan/Laws.antt =====
-- internal/infrastructure/network/netplan_adapter.go and internal/domain/services/drift_detector.go: what
-- the drift detector finds in the file that Configure has written.
use multi_network_interface.Prelude.{
  ℕ, ◌≡◌, refl, sym, ap, ◌∙◌, inl, inr, true, false, ◌&&◌, not, none, some, Option, List, [], ◌∷◌,
  ◌++◌, arith, Bool-cases,
}
use multi_network_interface.Prelude.Int.{ℤ, pos, ltb_ℤ, ==ℤ_iff}
use multi_network_interface.Prelude.Text.{Text, text, eqb, eqb_iff, is_empty, trim_space, split_on}
use multi_network_interface.Errors.{nil, is_nil, plain, Result, ok, err}
use multi_network_interface.Entities.{Bytes, Net, Subnet}
use multi_network_interface.Entities.Interface.{
  NetworkInterface, mac_of, address_of, cidr_of, mtu_of,
}
use multi_network_interface.Drift.{
  Ethernet, NetplanYaml, extract_netplan_config, check_config_drift,
  extract_interface_name_from_path, check_system_interface_drift, is_netplan_drift,
}
use multi_network_interface.Drift.Laws.{is_netplan_drift-system}
use multi_network_interface.Rhel.Files.{Options, two_parts}
use multi_network_interface.Rhel.Steps.{System}
use multi_network_interface.Rhel.Steps.Laws.{>>>-nil, failing-nil, system-proper, network-proper}
use multi_network_interface.Netplan.{
  config_path, NetplanConfig, StaticConfig, Device, generate_netplan_config, static_config,
  static_of, apply_runtime, save, persist, with_device, configure,
}

-- What the file system promises: a file that was written is there and has the content.
pub record Reads {W : Type 0} (os : System W) : Type 0 where
  pub there :
      (path content : Text) (w : W)
      → (os.write_file path content w).0 ≡ nil
      → (os.view (os.write_file path content w).1).exists path ≡ true
  pub content :
      (path content : Text) (w : W)
      → (os.write_file path content w).0 ≡ nil
      → (os.view (os.write_file path content w).1).read_file path ≡ ok content

abbrev mtu_or_zero : Option ℤ → ℤ
mtu_or_zero none = pos 0
mtu_or_zero (some n) = n

abbrev ethernet_of : NetplanConfig → Option StaticConfig → Ethernet
ethernet_of c none = record {
  dhcp4 = false;
  mtu = pos 0;
  addresses = [];
  match_mac = c.macaddress;
  set_name = c.set_name;
}
ethernet_of c (some s) = record {
  dhcp4 = s.dhcp4;
  mtu = mtu_or_zero s.mtu;
  addresses = s.addresses;
  match_mac = c.macaddress;
  set_name = c.set_name;
}

-- The keys of a config that the drift detector's types have, with the zero value for a missing one.
abbrev pub yaml_of : NetplanConfig → NetplanYaml
yaml_of c = record { ethernets = (c.ethernet, ethernet_of c c.static) ∷ []; version = c.version }

ethernet_of-match_mac :
    (c : NetplanConfig) (s : Option StaticConfig) → (ethernet_of c s).match_mac ≡ c.macaddress
ethernet_of-match_mac c none = refl
ethernet_of-match_mac c (some s) = refl

eqb_refl : (s : Text) → eqb s s ≡ true
eqb_refl s = (eqb_iff s s).1 refl

split_on-nonempty :
    (d : ℕ) (s a b : Text) (l : List Text) → split_on d s ≡ a ∷ b ∷ l → is_empty s ≡ false
unfolding split_on
split_on-nonempty d [] a b l h = absurd (cc)
split_on-nonempty d (c ∷ s) a b l h = refl

module _ (net : Net) (o : Options) (i : NetworkInterface) (target front bits : Text) (ip : Bytes)
    (subnet : Subnet) where
  generated :
      is_empty (address_of i) ≡ false
      → split_on b'/' (cidr_of i) ≡ front ∷ bits ∷ []
      → (generate_netplan_config o i target).static ≡ some (static_config o i target bits)
  unfolding generate_netplan_config static_of two_parts
  generated addressed split =
      rw (addressed, split_on-nonempty b'/' (cidr_of i) front bits [] split, split) refl

  no_config_drift :
      is_empty (address_of i) ≡ false
      → split_on b'/' (cidr_of i) ≡ front ∷ bits ∷ []
      → ltb_ℤ (pos 0) (mtu_of i) ≡ true
      → net.parse_cidr (address_of i ++ (text "/" ++ bits)) ≡ ok (ip, subnet)
      → net.ip_text ip ≡ address_of i
      → net.subnet_text subnet ≡ cidr_of i
      → check_config_drift i
          (extract_netplan_config net (yaml_of (generate_netplan_config o i target)))
        ≡ false
  unfolding check_config_drift extract_netplan_config static_config
  no_config_drift addressed split mtu parsed same_ip same_subnet = ground (
    arith,
    generated addressed split,
    eqb_refl (address_of i),
    eqb_refl (cidr_of i),
    (==ℤ_iff (mtu_of i) (mtu_of i)).1 refl,
  )

module _ {W : Type 0} (os : System W) (reads : Reads os) (o : Options)
    (marshal : NetplanConfig → Result Text) where
  save-reads :
      (target : Text) (r : Result Text) (w : W)
      → (save os o marshal target r w).0 ≡ nil
      → (content : Text) × (r ≡ ok content)
        × ((os.view (save os o marshal target r w).1).exists (config_path target) ≡ true)
        × ((os.view (save os o marshal target r w).1).read_file (config_path target) ≡ ok content)
  unfolding save
  save-reads target (err e) w h = absurd (
      ground (arith, system-proper (text "failed to marshal Netplan configuration") e, ap is_nil h))
  save-reads target (ok content) w h =
      let fine = failing-nil _ _ (system-proper _) h in
      (content, refl, reads.there _ _ w fine, reads.content _ _ w fine)

  with_device-persist :
      (i : NetworkInterface) (target : Text) (d : Option Device) (w : W)
      → (with_device os o marshal i target d w).0 ≡ nil
      → (v : W) × (with_device os o marshal i target d w ≡ persist os o marshal i target v)
  unfolding with_device
  with_device-persist i target none w h = absurd (
      ground (
        arith,
        network-proper (text "MAC not found on system for runtime apply")
            (plain (text "mac=" ++ mac_of i)),
        ap is_nil h,
      ))
  with_device-persist i target (some device) w h =
      elim (Bool-cases (is_empty (trim_space device.name))) [
        | inl blank ↦ absurd (
            ground (
              arith,
              network-proper (text "MAC not found on system for runtime apply")
                  (plain (text "mac=" ++ mac_of i)),
              ap is_nil h,
            ))
        | inr named ↦
            let (fine, e) =
              >>>-nil (apply_runtime os o i target device) (persist os o marshal i target) w
                (rw named at h) in
            ((apply_runtime os o i target device w).1, rw named e)
      ]

  module _ (net : Net) (parse_yaml : Text → Result NetplanYaml) (i : NetworkInterface)
      (target front bits : Text) (ip : Bytes) (subnet : Subnet) (w : W) where
    -- After Configure succeeds, with an encoder and a decoder that agree on the config, an address, a
    -- positive MTU, and a CIDR that is written as its network, the drift detector finds nothing
    -- wrong in the file: it reports drift exactly as far as the path names an interface and the
    -- device is not there, or is up.
    pub configure-is_netplan_drift :
        (configure os o marshal i target w).0 ≡ nil
        → ((t : Text)
            → marshal (generate_netplan_config o i target) ≡ ok t
            → parse_yaml t ≡ ok (yaml_of (generate_netplan_config o i target)))
        → is_empty (address_of i) ≡ false
        → split_on b'/' (cidr_of i) ≡ front ∷ bits ∷ []
        → ltb_ℤ (pos 0) (mtu_of i) ≡ true
        → net.parse_cidr (address_of i ++ (text "/" ++ bits)) ≡ ok (ip, subnet)
        → net.ip_text ip ≡ address_of i
        → net.subnet_text subnet ≡ cidr_of i
        → let host = os.view (configure os o marshal i target w).1 in
          is_netplan_drift host net parse_yaml i (config_path target) ≡ (
            not (is_empty (extract_interface_name_from_path (config_path target)))
            && check_system_interface_drift host i)
    unfolding configure persist extract_netplan_config generate_netplan_config
    configure-is_netplan_drift h decoded addressed split mtu parsed same_ip same_subnet =
        let config = generate_netplan_config o i target in
        let (v, e) = with_device-persist i target _ w h in
        let (t, encoded, there, readable) =
          save-reads target (marshal config) v (ap (λ r. r.0) (sym e) ∙ h) in
        let host = os.view (configure os o marshal i target w).1 in
        is_netplan_drift-system host net parse_yaml i (config_path target) t (yaml_of config)
          (ap (λ r. (os.view r.1).exists (config_path target)) e ∙ there)
          (ap (λ r. (os.view r.1).read_file (config_path target)) e ∙ readable) (decoded t encoded)
          (ethernet_of-match_mac config config.static)
          (no_config_drift net o i target front bits ip subnet addressed split mtu parsed same_ip
            same_subnet)
