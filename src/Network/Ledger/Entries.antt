-- ===== src/Network/Ledger/Entries.antt =====
-- hostEntryInNetwork and hostIPSet over the list of all host entries of a document.
use cluster_api_provider_lib.Shared.{
  String, ◌≡◌, refl, sym, ◌∙◌, List, [], ◌∷◌, ◌++◌, Option, none, some, arith,
}
use cluster_api_provider_lib.Network.{NetLib, Network, NetworkIp, NetworkDhcpHost}
use cluster_api_provider_lib.Network.Allocation.{
  IpSet, add_hosts, add_networks, host_ip_set, hosts_of, host_entry, host_entry_in,
  host_entry_in_network,
}
use cluster_api_provider_lib.Network.Ledger.{entries_of, entries}

add_hosts-append :
    (hs ks : List NetworkDhcpHost) (set : IpSet)
    → add_hosts set (hs ++ ks) ≡ add_hosts (add_hosts set hs) ks
unfolding add_hosts
add_hosts-append [] ks set = refl
add_hosts-append (h ∷ hs) ks set = add_hosts-append hs ks _

add_networks-entries :
    (ips : List NetworkIp) (set : IpSet) → add_networks set ips ≡ add_hosts set (entries_of ips)
unfolding add_networks entries_of add_hosts
add_networks-entries [] set = refl
add_networks-entries (ip ∷ ips) set =
    add_networks-entries ips _ ∙ sym (add_hosts-append (hosts_of ip.dhcp) (entries_of ips) set)

pub host_ip_set-entries : (network : Network) → host_ip_set network ≡ add_hosts [] (entries network)
unfolding host_ip_set
host_ip_set-entries network = add_networks-entries network.ips []

module _ (lib : NetLib) (mac : String) where
  abbrev or_else : Option NetworkDhcpHost → Option NetworkDhcpHost → Option NetworkDhcpHost
  or_else none later = later
  or_else (some h) later = some h

  host_entry-append :
      (hs ks : List NetworkDhcpHost)
      → host_entry lib (hs ++ ks) mac ≡ or_else (host_entry lib hs mac) (host_entry lib ks mac)
  unfolding host_entry
  host_entry-append [] ks = refl
  host_entry-append (h ∷ hs) ks = ground (arith, host_entry-append hs ks)

  host_entry_in-entries :
      (ips : List NetworkIp) → host_entry_in lib ips mac ≡ host_entry lib (entries_of ips) mac
  unfolding host_entry_in entries_of host_entry
  host_entry_in-entries [] = refl
  host_entry_in-entries (ip ∷ ips) =
      ground
        (arith, host_entry_in-entries ips, host_entry-append (hosts_of ip.dhcp) (entries_of ips))

  pub host_entry_in_network-entries :
      (network : Network)
      → host_entry_in_network lib network mac ≡ host_entry lib (entries network) mac
  unfolding host_entry_in_network
  host_entry_in_network-entries network = host_entry_in-entries network.ips
