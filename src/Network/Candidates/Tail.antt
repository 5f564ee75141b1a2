-- ===== src/Network/Candidates/Tail.antt =====
-- The tail block of subnetTailCandidates: which addresses of a subnet it holds.
use cluster_api_provider_lib.Shared.{
  ℕ, String, ◌%◌, ◌+◌, ◌-◌, ◌≤◌, ◌<◌, ◌≡◌, some, List, ap, ◌∙◌, arith, length, ◌⊎◌, All, get_elem?,
  min,
}
use cluster_api_provider_lib.Errors.Exec.{ok, IsErr}
use cluster_api_provider_lib.Network.{NetLib, IpNet}
use cluster_api_provider_lib.Network.Candidates.{
  uint32_mod, loop_fuel, tail_block, subnet_tail_candidates, machine_reservation_block_size,
}
use cluster_api_provider_lib.Network.Candidates.Loop.{
  range, append_range-range, length-range, range-within, get_elem?-range,
}

-- A subnet of `hosts` addresses from `network` on, its mask being 2^32 - hosts.
pub record IsSubnet (lib : NetLib) (net : IpNet lib.Ip) (network hosts : ℕ) : Type 0 where
  pub address : lib.to4 net.ip ≡ some network
  pub mask : net.mask + hosts ≡ uint32_mod
  pub fits : network + hosts ≤ uint32_mod

-- The tail block over numbers: from `network` on there are `hosts` addresses.
tail_block-range :
    (shown : String) (network mask hosts size : ℕ)
    → mask + hosts ≡ uint32_mod
    → network + hosts ≤ uint32_mod
    → 2 < hosts
    → hosts < uint32_mod
    → 0 < size
    → tail_block shown network mask size
      ≡ ok (range (network + hosts - 1 - min size (hosts - 2)) (min size (hosts - 2)))
unfolding tail_block loop_fuel
tail_block-range shown network mask hosts size m fits more fewer pos =
    let count : (uint32_mod - 1 - mask + 1) % uint32_mod ≡ hosts = omega arith in
    let last : (network + (hosts - 2)) % uint32_mod ≡ network + hosts - 2 = omega arith in
    let n : ℕ = min size (hosts - 2) in
    let first : (network + hosts - 2 + uint32_mod - (n - 1)) % uint32_mod
        ≡ network + hosts - 1 - n =
      omega arith in
    rw (count, last, first)
      (ground (
        arith,
        append_range-range loop_fuel (network + hosts - 1 - n) n (network + hosts - 2) (omega arith)
            (omega arith) (omega arith),
      ))

tail_block-IsErr :
    (shown : String) (network mask hosts size : ℕ)
    → mask + hosts ≡ uint32_mod
    → (hosts ≤ 2) ⊎ (hosts ≡ uint32_mod)
    → IsErr (tail_block shown network mask size)
unfolding tail_block
tail_block-IsErr shown network mask hosts size m h = ground arith

module _ (lib : NetLib) (net : IpNet lib.Ip) (network hosts : ℕ) where
  -- In a subnet of more than two addresses the block is the highest `size` usable addresses, or all
  -- usable ones where there are fewer.
  pub subnet_tail_candidates-range :
      (size : ℕ)
      → IsSubnet lib net network hosts
      → 2 < hosts
      → hosts < uint32_mod
      → 0 < size
      → subnet_tail_candidates lib net size
        ≡ ok (range (network + hosts - 1 - min size (hosts - 2)) (min size (hosts - 2)))
  unfolding subnet_tail_candidates
  subnet_tail_candidates-range size s more fewer pos =
      rw (s.address, subnet_tail_candidates)
        (tail_block-range _ network net.mask hosts size s.mask s.fits more fewer pos)

  -- A subnet of at most two addresses, and the subnet of all 2^32, have no candidates: the call fails.
  subnet_tail_candidates-IsErr :
      (size : ℕ)
      → IsSubnet lib net network hosts
      → (hosts ≤ 2) ⊎ (hosts ≡ uint32_mod)
      → IsErr (subnet_tail_candidates lib net size)
  unfolding subnet_tail_candidates
  subnet_tail_candidates-IsErr size s h =
      rw (s.address, subnet_tail_candidates)
        (tail_block-IsErr _ network net.mask hosts size s.mask h)

  -- Every address of the block lies strictly between the network and the broadcast address.
  subnet_tail_candidates-usable :
      (size : ℕ)
      → IsSubnet lib net network hosts
      → 2 < hosts
      → hosts < uint32_mod
      → 0 < size
      → (block : List ℕ) × (subnet_tail_candidates lib net size ≡ ok block)
        × (length block ≡ min size (hosts - 2))
        × All (λ a. (network + 1 ≤ a) × (a < network + hosts - 1)) block
  subnet_tail_candidates-usable size s more fewer pos =
      let n : ℕ = min size (hosts - 2) in
      (
        range (network + hosts - 1 - n) n,
        subnet_tail_candidates-range size s more fewer pos,
        length-range (network + hosts - 1 - n) n,
        range-within (network + hosts - 1 - n) n (network + 1) (network + hosts - 1) (omega arith)
            (omega arith),
      )

  -- In a subnet of at most 202 addresses the block holds every address between the network and the
  -- broadcast address, so also the one that the libvirt host itself has on the network.
  pub subnet_tail_candidates-own_address :
      (own : ℕ)
      → IsSubnet lib net network hosts
      → hosts ≤ 202
      → network < own
      → own + 1 < network + hosts
      → (block : List ℕ) × (subnet_tail_candidates lib net machine_reservation_block_size
          ≡ ok block)
        × (get_elem? block (own - network - 1) ≡ some own)
  subnet_tail_candidates-own_address own s small above below =
      let n : ℕ = min machine_reservation_block_size (hosts - 2) in
      (
        range (network + hosts - 1 - n) n,
        subnet_tail_candidates-range machine_reservation_block_size s (omega arith) (omega arith)
            (omega arith),
        get_elem?-range (network + hosts - 1 - n) n (own - network - 1) (omega arith)
            ∙ ap some (omega arith),
      )
