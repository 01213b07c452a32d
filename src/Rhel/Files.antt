-- ===== src/Rhel/Files.antt =====
-- internal/infrastructure/network/rhel_adapter.go and options.go: the options, and the files that the
-- adapter writes. The table numbers do not overflow, as the index of a name is below ten.
use multi_network_interface.Prelude.{
  Bool, true, ◌&&◌, not, Option, none, some, List, [], ◌∷◌, ◌++◌, if◌then◌else◌,
}
use multi_network_interface.Prelude.Int.{ℤ, pos, ltb_ℤ, leb_ℤ, ◌+ℤ◌}
use multi_network_interface.Prelude.Text.{
  Text, text, is_empty, to_lower, split_on, itoa_ℤ, has_prefix,
}
use multi_network_interface.Prelude.Text.Words.{trim_prefix, join_path, atoi}
use multi_network_interface.Entities.Interface.{
  NetworkInterface, mac_of, address_of, cidr_of, mtu_of,
}
use multi_network_interface.Host.Queries.{newline}

pub record Options : Type 0 where
  pub enable_policy_routing : Bool
  pub routing_table_base : ℤ
  pub metric_base : ℤ
  pub use_noprefixroute : Bool
  pub set_arp_sysctls : Bool
  pub set_loose_rp_filter : Bool

-- `DefaultOptions`.
unfoldable pub default_options : Options
default_options = record {
  enable_policy_routing = true;
  routing_table_base = pos 100;
  metric_base = pos 100;
  use_noprefixroute = true;
  set_arp_sysctls = true;
  set_loose_rp_filter = true;
}

-- `normalize`.
unfoldable pub normalize : Options → Options
normalize o = record o {
  routing_table_base = if leb_ℤ o.routing_table_base (pos 0) then pos 100 else o.routing_table_base;
  metric_base = if leb_ℤ o.metric_base (pos 0) then pos 100 else o.metric_base;
}

index_or_zero : Option ℤ → ℤ
index_or_zero none = pos 0
index_or_zero (some n) = n

-- `extractIndexRHEL`, and `extractInterfaceIndex` of the options.
unfoldable pub extract_index : Text → ℤ
unfolding index_or_zero
extract_index name =
    if has_prefix name (text "multinic")
    then index_or_zero (atoi (trim_prefix name (text "multinic")))
    else pos 0

unfoldable pub routing_table : Options → Text → ℤ
routing_table o name = o.routing_table_base +ℤ extract_index name

unfoldable pub route_metric : Options → Text → ℤ
route_metric o name = o.metric_base +ℤ extract_index name

abbrev pub nm_dir : Text
nm_dir = text "/etc/NetworkManager/system-connections"

abbrev pub systemd_dir : Text
systemd_dir = text "/etc/systemd/network"

unfoldable pub stem : Text → Text
stem name = text "9" ++ (itoa_ℤ (extract_index name) ++ (text "-" ++ name))

-- The two files that the adapter keeps for a name.
unfoldable pub link_path : Text → Text
unfolding stem
link_path name = join_path systemd_dir (stem name ++ text ".link")

unfoldable pub nm_path : Text → Text
unfolding stem
nm_path name = join_path nm_dir (stem name ++ text ".nmconnection")

abbrev ending : Text → Text
ending line = line ++ newline ∷ []

unfoldable pub link_content : Text → Text → Text
link_content mac name =
    ending (text "[Match]")
    ++ (ending (text "MACAddress=" ++ to_lower mac)
        ++ (ending (text "[Link]") ++ ending (text "Name=" ++ name)))

-- The part behind the slash of a CIDR, if it has one slash.
unfoldable pub two_parts : List Text → Option Text
two_parts (_ ∷ b ∷ []) = some b
two_parts _ = none

address_line : Text → Option Text → Text
address_line address none = []
address_line address (some bits) = ending (text "address1=" ++ (address ++ (text "/" ++ bits)))

has_both : NetworkInterface → Bool
has_both i = not (is_empty (address_of i)) && not (is_empty (cidr_of i))

routing_lines : Options → NetworkInterface → Text → Text
routing_lines o i name =
    let table = routing_table o name in
    ending (text "route-table=" ++ itoa_ℤ table)
    ++ (ending (text "route1=" ++ (cidr_of i ++ (text ",," ++ itoa_ℤ (route_metric o name))))
        ++ ending (
            text "routing-rules=priority "
            ++ (itoa_ℤ (pos 10_000 +ℤ table)
                ++ (text " from " ++ (address_of i ++ (text "/32 table " ++ itoa_ℤ table))))))

-- `generateNMConnection`.
unfoldable pub generate_nm_connection : Options → NetworkInterface → Text → Text
unfolding two_parts address_line has_both routing_lines
generate_nm_connection o i name =
    ending (text "[connection]")
    ++ (ending (text "id=" ++ name)
        ++ (ending (text "type=ethernet")
            ++ (ending (text "interface-name=" ++ name)
                ++ (ending (ending (text "autoconnect=true"))
                    ++ (ending (text "[ethernet]")
                        ++ (ending (text "mac-address=" ++ to_lower (mac_of i))
                            ++ ((if ltb_ℤ (pos 0) (mtu_of i)
                                  then ending (text "mtu=" ++ itoa_ℤ (mtu_of i))
                                  else [])
                                ++ (newline ∷ ending (text "[ipv4]")
                                    ++ (ending (text "method=manual")
                                        ++ ((if has_both i
                                              then address_line (address_of i)
                                                  (two_parts (split_on b'/' (cidr_of i)))
                                              else [])
                                            ++ ((if o.enable_policy_routing && has_both i
                                                  then routing_lines o i name
                                                  else [])
                                                ++ (ending (ending (text "never-default=true"))
                                                    ++ (ending (text "[ipv6]")
                                                        ++ ending
                                                            (text "method=ignore"))))))))))))))
