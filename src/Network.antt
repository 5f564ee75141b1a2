-- ===== src/Network.antt =====
-- The data of internal/libvirtclient/machine_network.go: the parts of the libvirt network document
-- that it reads (libvirtxml.Network), and the functions of Go's standard library that it calls,
-- which are a parameter. An IPv4 address or mask is its big-endian uint32, a number below 2^32.
pub mod Candidates
pub mod Allocation
pub mod Reservation
pub mod Ledger
use cluster_api_provider_lib.Shared.{
  ℕ, ◌+◌, ◌≤◌, ◌<◌, ◌^◌, ◌≡◌, String, Bool, true, Option, some, List, ◌∷◌,
}
use cluster_api_provider_lib.Errors.Exec.{Result}

pub record NetworkDhcpHost : Type 0 where
  pub name : String
  pub mac : String
  pub ip : String

pub record NetworkDhcpRange : Type 0 where
  pub start : String
  pub finish : String

pub record NetworkDhcp : Type 0 where
  pub ranges : List NetworkDhcpRange
  pub hosts : List NetworkDhcpHost

pub record NetworkIp : Type 0 where
  pub family : String
  pub address : String
  pub netmask : String
  pub dhcp : Option NetworkDhcp

pub record Network : Type 0 where
  pub ips : List NetworkIp

pub record NetworkDhcpLease : Type 0 where
  pub mac : String
  pub ip_addr : String

-- net.IPNet, with the mask as a number.
pub record IpNet (Ip : Type 0) : Type 0 where
  pub ip : Ip
  pub mask : ℕ

-- What the code calls of net, strings, hash/fnv, strconv and libvirtxml. `to4` gives the four bytes
-- of an address as a number; `ip_mask` is IP.Mask on four bytes; `ipv4_string` is IP.String on four
-- bytes; `ip_net_string` is IPNet.String; `mac_string` is HardwareAddr.String; `quote` is the `%q` verb.
pub record NetLib : Type 1 where
  pub Ip : Type 0
  pub parse_ip : String → Option Ip
  pub to4 : Ip → Option ℕ
  pub ip_mask : ℕ → ℕ → Ip
  pub ipv4_string : ℕ → String
  pub ip_string : Ip → String
  pub ip_net_string : Ip → ℕ → String
  pub mac_string : List ℕ → String
  pub equal_fold : String → String → Bool
  pub fnv64a : String → ℕ
  pub quote : String → String
  pub marshal_host : NetworkDhcpHost → Result String
  pub unmarshal_network : String → Result Network

-- Documented behaviour of strings.EqualFold, which the laws of the allocation rely on.
pub record EqualFoldLaws (lib : NetLib) : Type 0 where
  pub fold_refl : (s : String) → lib.equal_fold s s ≡ true
