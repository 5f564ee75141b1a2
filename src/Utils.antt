-- ===== src/Utils.antt =====
-- pkg/utils/ip.go: tests on addresses, and the first host of a subnet. The functions of Go's package
-- net are a parameter; addresses and masks are numbers as in Network.
pub mod Laws
use Prim.Native.Char.{code}
use Prim.Native.String.{String}
use cluster_api_provider_lib.Shared.{
  ℕ, ◌+◌, ◌/◌, ◌%◌, ltb, ◌==◌, ◌<>◌, Bool, true, false, not, Option, none, some, is_some,
  if◌then◌else◌,
}
use cluster_api_provider_lib.Errors.{message, wrap}
use cluster_api_provider_lib.Errors.Exec.{Result, ok, err}
use cluster_api_provider_lib.Network.{NetLib, IpNet}
use cluster_api_provider_lib.Network.Candidates.{uint32_mod}

-- What the file calls of net beyond NetLib: ParseCIDR, whose address is nil exactly when it fails;
-- the number of ones that IPMask.Size gives; and net.IPv4 on four bytes.
pub record CidrLib (lib : NetLib) : Type 0 where
  pub parse_cidr : String → Result (lib.Ip × IpNet lib.Ip)
  pub mask_ones : ℕ → ℕ
  pub ipv4 : ℕ → ℕ → ℕ → ℕ → lib.Ip

-- strings.Cut(s, "/"): the text before the separator, if there is one.
unfoldable pub before_slash : String → Option String
before_slash String.[] = none
before_slash (String.◌∷◌ c s) =
    let rest = before_slash s in
    if code c == b'/'
    then some String.[]
    else elim rest [ none ↦ none | some before ↦ some (String.◌∷◌ c before) ]

unfoldable pub strip_cidr : String → String
unfolding before_slash
strip_cidr ip = elim (before_slash ip) [ none ↦ ip | some before ↦ before ]

module _ (lib : NetLib) (cidr_lib : CidrLib lib) where
  open lib use {Ip, parse_ip, to4, ip_string, quote}
  open cidr_lib use {parse_cidr, mask_ones, ipv4}

  unfoldable pub is_ip : String → Bool
  is_ip address = is_some (parse_ip address)

  unfoldable pub is_ipv4 : String → Bool
  is_ipv4 address = elim (parse_ip address) [ none ↦ false | some ip ↦ is_some (to4 ip) ]

  unfoldable pub is_ipv6 : String → Bool
  is_ipv6 address = elim (parse_ip address) [ none ↦ false | some ip ↦ not (is_some (to4 ip)) ]

  unfoldable pub is_ipv4_cidr : String → Bool
  is_ipv4_cidr cidr = elim (parse_cidr cidr) [ err e ↦ false | ok (ip, net) ↦ is_some (to4 ip) ]

  unfoldable pub is_ipv6_cidr : String → Bool
  is_ipv6_cidr cidr = elim (parse_cidr cidr) [
    | err e ↦ false
    | ok (ip, net) ↦ not (is_some (to4 ip))
  ]

  -- FirstHostAndPrefix once the network number is known; the sum is taken on uint32.
  unfoldable pub first_host_of : String → ℕ → ℕ → Result (String × ℕ)
  first_host_of cidr network ones =
      let first = (network + 1) % uint32_mod in
      if ltb 30 ones
      then err (message ("CIDR " <> (quote cidr <> " has no usable host addresses")))
      else if first == 0
      then err (message ("CIDR " <> (quote cidr <> " has no usable host addresses")))
      else ok (
        ip_string (
            ipv4 (first / 16_777_216 % 256) (first / 65_536 % 256) (first / 256 % 256)
              (first % 256)),
        ones,
      )

  unfoldable pub first_host_and_prefix : String → Result (String × ℕ)
  unfolding first_host_of
  first_host_and_prefix cidr = elim (parse_cidr cidr) [
    | err e ↦ err (wrap ("parse CIDR " <> (quote cidr <> ": ")) e)
    | ok (ip, net) ↦ elim (to4 net.ip) [
      | none ↦ err (message ("CIDR " <> (quote cidr <> " is not IPv4")))
      | some network ↦ first_host_of cidr network (mask_ones net.mask)
    ]
  ]
