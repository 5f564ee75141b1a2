-- ===== src/Network/Allocation.antt =====
-- The choice of an address for a machine: hostEntryInNetwork, hostIPSet, hashDomainName and
-- allocateMachineIPIn of internal/libvirtclient/machine_network.go.
pub mod Probe
pub mod Choice
pub mod Reference
pub mod Exclusion
use cluster_api_provider_lib.Shared.{
  ℕ, zero, suc, ◌+◌, ◌/◌, ◌%◌, str_eq, String, ◌<>◌, Bool, true, false, Option, none, some, List,
  [], ◌∷◌, if◌then◌else◌, length, get_elem?,
}
use cluster_api_provider_lib.Errors.{message}
use cluster_api_provider_lib.Errors.Exec.{Result, ok, err}
use cluster_api_provider_lib.Network.{NetLib, Network, NetworkIp, NetworkDhcp, NetworkDhcpHost}
use cluster_api_provider_lib.Network.Candidates.{allocation_candidates}

-- A map[string]string as the list of its assignments, newest first.
abbrev pub IpSet : Type 0
IpSet = List (String × String)

unfoldable pub lookup : String → IpSet → Option String
lookup key [] = none
lookup key ((k, v) ∷ m) = if str_eq k key then some v else lookup key m

-- `set[host.IP] = host.MAC` for each host with an address.
unfoldable pub add_hosts : IpSet → List NetworkDhcpHost → IpSet
add_hosts set [] = set
add_hosts set (host ∷ hosts) =
    add_hosts (if str_eq host.ip "" then set else (host.ip, host.mac) ∷ set) hosts

abbrev pub hosts_of : Option NetworkDhcp → List NetworkDhcpHost
hosts_of none = []
hosts_of (some dhcp) = dhcp.hosts

unfoldable pub add_networks : IpSet → List NetworkIp → IpSet
add_networks set [] = set
add_networks set (ip ∷ ips) = add_networks (add_hosts set (hosts_of ip.dhcp)) ips

unfoldable pub host_ip_set : Network → IpSet
unfolding add_networks add_hosts
host_ip_set network = add_networks [] network.ips

module _ (lib : NetLib) where
  open lib use {equal_fold, fnv64a, ipv4_string, mac_string}

  -- The first host entry of the list with the MAC.
  unfoldable pub host_entry : List NetworkDhcpHost → String → Option NetworkDhcpHost
  host_entry [] mac = none
  host_entry (host ∷ hosts) mac =
      if equal_fold host.mac mac then some host else host_entry hosts mac

  unfoldable pub host_entry_in : List NetworkIp → String → Option NetworkDhcpHost
  host_entry_in [] mac = none
  host_entry_in (ip ∷ ips) mac = elim (host_entry (hosts_of ip.dhcp) mac) [
    | none ↦ host_entry_in ips mac
    | some host ↦ some host
  ]

  unfoldable pub host_entry_in_network : Network → String → Option NetworkDhcpHost
  unfolding host_entry_in host_entry
  host_entry_in_network network mac = host_entry_in network.ips mac

  unfoldable pub hash_domain_name : String → ℕ
  hash_domain_name domain_name = fnv64a domain_name

  -- deriveDomainMAC: the vendor prefix and the three low bytes of the hash.
  unfoldable pub derive_domain_mac : String → String
  derive_domain_mac domain_name =
      let sum = fnv64a domain_name in
      mac_string (0x52 ∷ 0x54 ∷ 0 ∷ (sum % 256) ∷ (sum / 256 % 256) ∷ (sum / 65536 % 256) ∷ [])

  -- `!isTaken || strings.EqualFold(owner, mac)`
  unfoldable pub is_free : IpSet → String → String → Bool
  is_free taken mac ip = elim (lookup ip taken) [ none ↦ true | some owner ↦ equal_fold owner mac ]

  -- The loop of allocateMachineIPIn, over the rounds that are left; round `i` tries the candidate at
  -- `(offset + i) % len(candidates)`.
  unfoldable pub probe :
      IpSet → String → String → List ℕ → (offset : ℕ) → (rounds i : ℕ) → Result String
  probe taken domain_name mac candidates offset zero i = err (
      message (
        "no free address in the machine reservation block of the network (name "
        <> (domain_name <> ")")))
  probe taken domain_name mac candidates offset (suc rounds) i =
      elim (get_elem? candidates ((offset + i) % length candidates)) [
        | none ↦ err (message "index out of range")
        | some cand ↦
            if is_free taken mac (ipv4_string cand)
            then ok (ipv4_string cand)
            else probe taken domain_name mac candidates offset rounds (i + 1)
      ]

  unfoldable pub allocate_in : Network → String → String → List ℕ → Result String
  allocate_in network domain_name mac [] =
      err (message "network has no usable addresses for machine reservation")
  allocate_in network domain_name mac (c ∷ cs) =
      probe (host_ip_set network) domain_name mac (c ∷ cs)
        (hash_domain_name domain_name % length (c ∷ cs)) (length (c ∷ cs)) 0

  unfoldable pub allocate_machine_ip_in : Network → String → String → Result String
  unfolding allocate_in
  allocate_machine_ip_in network domain_name mac = elim (allocation_candidates lib network) [
    | err e ↦ err e
    | ok candidates ↦ allocate_in network domain_name mac candidates
  ]
