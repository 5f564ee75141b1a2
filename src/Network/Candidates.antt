-- ===== src/Network/Candidates.antt =====
-- The candidate addresses for machine reservations: rangeCandidates, subnetTailCandidates,
-- firstDHCPRange, parseSubnet and allocationCandidates of internal/libvirtclient/machine_network.go.
-- All arithmetic is on uint32 and wraps round at 2^32.
pub mod Loop
pub mod Tail
pub mod Subnets
use cluster_api_provider_lib.Shared.{
  ℕ, zero, suc, ◌+◌, ◌-◌, ◌%◌, ◌^◌, min, leb, ltb, str_eq, String, ◌<>◌, Option, none, some, List,
  [], ◌∷◌, if◌then◌else◌,
}
use cluster_api_provider_lib.Errors.{Error, message, never_returns}
use cluster_api_provider_lib.Errors.Exec.{Result, ok, err}
use cluster_api_provider_lib.Network.{
  NetLib, IpNet, Network, NetworkIp, NetworkDhcp, NetworkDhcpRange,
}

abbrev pub uint32_mod : ℕ
uint32_mod = 4_294_967_296

abbrev pub machine_reservation_block_size : ℕ
machine_reservation_block_size = 200

abbrev cons_some : ℕ → Option (List ℕ) → Option (List ℕ)
cons_some i none = none
cons_some i (some block) = some (i ∷ block)

-- `for i := first; i <= last; i++ { block = append(block, i) }` on uint32, with fuel; `none` means
-- that the loop has not ended.
unfoldable pub append_range : ℕ → ℕ → ℕ → Option (List ℕ)
append_range zero i last = none
append_range (suc fuel) i last =
    let rest = append_range fuel ((i + 1) % uint32_mod) last in
    if leb i last then cons_some i rest else some []

-- More rounds than there are uint32 values are never needed by a loop that ends.
unfoldable pub loop_fuel : ℕ
loop_fuel = 4_294_967_297

unfoldable pub of_loop : Option (List ℕ) → Result (List ℕ)
of_loop none = err never_returns
of_loop (some block) = ok block

unfoldable pub range_candidates : ℕ → ℕ → Result (List ℕ)
unfolding of_loop
range_candidates start finish =
    if ltb finish start
    then err (message "DHCP range end is below start")
    else of_loop (append_range loop_fuel start finish)

-- `^mask` and `uint64(hostMask + 1)`, whose sum is taken on uint32.
unfoldable pub host_count : ℕ → ℕ
host_count mask = (uint32_mod - 1 - mask + 1) % uint32_mod

-- The last and the first address of the block, from the network number.
unfoldable pub last_host : ℕ → ℕ → ℕ
last_host network usable = (network + usable) % uint32_mod

unfoldable pub first_host : ℕ → ℕ → ℕ
first_host last n = (last + uint32_mod - (n - 1)) % uint32_mod

-- The block of the `size` highest usable addresses of the subnet at `network`, which `shown` names.
unfoldable pub tail_block : String → ℕ → ℕ → ℕ → Result (List ℕ)
unfolding of_loop host_count last_host first_host
tail_block shown network mask size =
    if leb (host_count mask) 2
    then err (message ("subnet " <> (shown <> " has no usable host addresses")))
    else (let usable = host_count mask - 2 in
        let last = last_host network usable in
        of_loop (append_range loop_fuel (first_host last (min size usable)) last))

module _ (lib : NetLib) where
  open lib use {Ip, parse_ip, to4, ip_mask, ip_string, ip_net_string, quote}

  unfoldable pub subnet_tail_candidates : IpNet Ip → ℕ → Result (List ℕ)
  subnet_tail_candidates net size = elim (to4 net.ip) [
    | none ↦ err (message ("network subnet " <> (ip_string net.ip <> " is not IPv4")))
    | some network ↦ tail_block (ip_net_string net.ip net.mask) network net.mask size
  ]

  masked_subnet : String → String → Option ℕ → Option ℕ → Result (IpNet Ip)
  masked_subnet address netmask (some ip4) (some mask4) =
      ok (record { ip = ip_mask ip4 mask4; mask = mask4 })
  masked_subnet address netmask _ _ = err (
      message (
        "network address "
        <> (quote address <> (" or netmask " <> (quote netmask <> " is not IPv4")))))

  unfoldable pub parse_subnet : String → String → Result (IpNet Ip)
  unfolding masked_subnet
  parse_subnet address netmask = elim (parse_ip address) [
    | none ↦ err (message ("parse network address " <> (quote address <> ": invalid IP")))
    | some ip ↦ elim (parse_ip netmask) [
      | none ↦ err (message ("parse netmask " <> (quote netmask <> ": invalid IP")))
      | some mask ↦ masked_subnet address netmask (to4 ip) (to4 mask)
    ]
  ]

  -- net.ParseIP followed by To4, `none` where either gives nil.
  abbrev parse_ipv4 : String → Option ℕ
  parse_ipv4 s = elim (parse_ip s) [ none ↦ none | some ip ↦ to4 ip ]

  abbrev both : Option ℕ → Option ℕ → Option (ℕ × ℕ)
  both (some s) (some e) = some (s, e)
  both _ _ = none

  -- The first range whose two ends are IPv4 addresses.
  unfoldable pub first_dhcp_range : List NetworkDhcpRange → Option (ℕ × ℕ)
  first_dhcp_range [] = none
  first_dhcp_range (rng ∷ ranges) = elim (both (parse_ipv4 rng.start) (parse_ipv4 rng.finish)) [
    | none ↦ first_dhcp_range ranges
    | some pair ↦ some pair
  ]

  -- The first `<ip>` element whose family is "inet".
  unfoldable pub first_inet : List NetworkIp → Option NetworkIp
  first_inet [] = none
  first_inet (ip ∷ ips) = if str_eq ip.family "inet" then some ip else first_inet ips

  abbrev dhcp_range : Option NetworkDhcp → Option (ℕ × ℕ)
  dhcp_range none = none
  dhcp_range (some dhcp) = first_dhcp_range dhcp.ranges

  subnet_candidates : Option NetworkDhcp → IpNet Ip → Result (List ℕ)
  subnet_candidates dhcp net = elim (dhcp_range dhcp) [
    | none ↦ subnet_tail_candidates net machine_reservation_block_size
    | some (start, finish) ↦ range_candidates start finish
  ]

  unfoldable pub allocation_candidates : Network → Result (List ℕ)
  unfolding subnet_candidates
  allocation_candidates network = elim (first_inet network.ips) [
    | none ↦ err (message "network has no IPv4 subnet")
    | some ip ↦ elim (parse_subnet ip.address ip.netmask) [
      | err e ↦ err e
      | ok net ↦ subnet_candidates ip.dhcp net
    ]
  ]
