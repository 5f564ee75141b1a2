-- ===== src/Utils/Laws.antt =====
-- What the tests on addresses and the first host of a subnet promise.
use Prim.Native.Char.{code}
use Prim.Native.String.{String}
use text.Mathlib.TextLemmas.{nil-append, cons-append}
use cluster_api_provider_lib.Shared.{
  ℕ, ◌+◌, ◌*◌, ◌%◌, ◌/◌, ◌≤◌, ◌<◌, ◌==◌, ◌<>◌, ◌≡◌, refl, Bool, true, false, none, some, arith, ap,
  ◌∙◌, if◌then◌else◌,
}
use cluster_api_provider_lib.Errors.Exec.{ok}
use cluster_api_provider_lib.Network.{NetLib, IpNet}
use cluster_api_provider_lib.Network.Candidates.{uint32_mod}
use cluster_api_provider_lib.Utils.{
  CidrLib, before_slash, strip_cidr, first_host_of, first_host_and_prefix,
}

-- The text holds no slash.
unfoldable pub has_no_slash : String → Bool
has_no_slash String.[] = true
has_no_slash (String.◌∷◌ c s) = let rest = has_no_slash s in if code c == b'/' then false else rest

before_slash-none : (s : String) → has_no_slash s ≡ true → before_slash s ≡ none
unfolding before_slash has_no_slash
before_slash-none String.[] h = refl
before_slash-none (String.◌∷◌ c s) h = ground (arith, before_slash-none s)

before_slash-append :
    (s t : String) → has_no_slash s ≡ true → before_slash (s <> ("/" <> t)) ≡ some s
unfolding before_slash has_no_slash
before_slash-append String.[] t h = rw nil-append (rw (cons-append, before_slash) refl)
before_slash-append (String.◌∷◌ c s) t h = rw cons-append (ground (arith, before_slash-append s t))

-- StripCIDR takes the prefix length off an address that has one, and leaves one that has none as it
-- is.
strip_cidr-append :
    (address bits : String)
    → has_no_slash address ≡ true
    → (strip_cidr (address <> ("/" <> bits)) ≡ address) × (strip_cidr address ≡ address)
unfolding strip_cidr
strip_cidr-append address bits h = (
  rw (before_slash-append address bits h, strip_cidr) refl,
  rw (before_slash-none address h, strip_cidr) refl,
)

module _ (lib : NetLib) (cidr_lib : CidrLib lib) where
  -- The four bytes of a number below 2^32 make it up again.
  bytes_number :
      (n : ℕ)
      → n < uint32_mod
      → n / 16_777_216 % 256 * 16_777_216
          + n / 65_536 % 256 * 65_536
          + n / 256 % 256 * 256
          + n % 256
        ≡ n
  bytes_number n h = omega arith

  -- A sum that does not wrap round is the first host.
  first_host_of_lem :
      (cidr : String)
      → (network ones : ℕ) → ones ≤ 30
      → network + 1 < uint32_mod
      → let n = network + 1 in
        first_host_of lib cidr_lib cidr network ones
        ≡ ok (
          lib.ip_string
              (cidr_lib.ipv4 (n / 16_777_216 % 256) (n / 65_536 % 256) (n / 256 % 256) (n % 256)),
          ones,
        )
  unfolding first_host_of
  first_host_of_lem cidr network ones few below =
      let same : (network + 1) % uint32_mod ≡ network + 1 = omega arith in rw same (ground arith)

  -- With net.IPv4 giving the address of its four bytes, and the masked network number of a subnet of
  -- at least four addresses, FirstHostAndPrefix returns the address after the network number, with
  -- the length of the prefix: its test of a wrapped sum never holds.
  first_host_and_prefix_lem :
      (four_bytes : (a b c d : ℕ)
        → a < 256
        → b < 256
        → c < 256
        → d < 256
        → lib.to4 (cidr_lib.ipv4 a b c d) ≡ some (a * 16_777_216 + b * 65_536 + c * 256 + d))
      → (cidr : String) → (ip : lib.Ip) → (net : IpNet lib.Ip) → (network : ℕ)
      → cidr_lib.parse_cidr cidr ≡ ok (ip, net)
      → lib.to4 net.ip ≡ some network
      → cidr_lib.mask_ones net.mask ≤ 30
      → network % 4 ≡ 0
      → network < uint32_mod
      → (first : lib.Ip) × (first_host_and_prefix lib cidr_lib cidr
          ≡ ok (lib.ip_string first, cidr_lib.mask_ones net.mask))
        × (lib.to4 first ≡ some (network + 1))
  unfolding first_host_and_prefix
  first_host_and_prefix_lem four_bytes cidr ip net network parsed number few masked low =
      let n = network + 1 in
      let below : network + 1 < uint32_mod = omega arith in
      (
        cidr_lib.ipv4 (n / 16_777_216 % 256) (n / 65_536 % 256) (n / 256 % 256) (n % 256),
        ground (arith, first_host_of_lem cidr network (cidr_lib.mask_ones net.mask) few below),
        four_bytes (n / 16_777_216 % 256) (n / 65_536 % 256) (n / 256 % 256) (n % 256) (omega arith)
              (omega arith) (omega arith) (omega arith)
            ∙ ap some (bytes_number n below),
      )
