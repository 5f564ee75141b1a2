-- ===== src/Tests/Network.antt =====
-- The theorems on addresses and reservations, on the subnet of eight addresses from 16 on.
use cluster_api_provider_lib.Shared.{
  ℕ, ◌-◌, ◌≡◌, refl, ◌∙◌, String, true, some, none, List, [], ◌∷◌, arith, get_elem?, rotate,
}
use cluster_api_provider_lib.Errors.{never_returns}
use cluster_api_provider_lib.Errors.Exec.{ok, err}
use cluster_api_provider_lib.Network.{NetworkDhcpHost, IpNet}
use cluster_api_provider_lib.Network.Candidates.{
  append_range, range_candidates, subnet_tail_candidates, machine_reservation_block_size,
  allocation_candidates, uint32_mod, parse_subnet, first_inet, first_dhcp_range,
}
use cluster_api_provider_lib.Network.Candidates.Loop.{
  range_candidates-range, range_candidates-never_returns,
}
use cluster_api_provider_lib.Network.Candidates.Tail.{
  IsSubnet, subnet_tail_candidates-range, subnet_tail_candidates-own_address,
}
use cluster_api_provider_lib.Network.Allocation.{
  host_ip_set, is_free, allocate_machine_ip_in, allocate_in, probe, hash_domain_name,
  host_entry_in_network, lookup,
}
use cluster_api_provider_lib.Network.Allocation.Choice.{start_offset}
use cluster_api_provider_lib.Network.Allocation.Reference.{
  first_free, allocate_machine_ip_in_reference,
}
use cluster_api_provider_lib.Network.Reservation.{
  NetworkOperations, HostUpdate, add_last, plan_host_update, reserve_machine_ip, plan_with,
}
use cluster_api_provider_lib.Network.Reservation.Calls.{
  reserve_machine_ip-carry_out, carry_out_update,
}
use cluster_api_provider_lib.Controller.Identity.{size}
use cluster_api_provider_lib.Tests.Host.{net_lib, letters, subnet_of, taken_network}

range_candidates-range_example : range_candidates 100 103 ≡ ok (100 ∷ 101 ∷ 102 ∷ 103 ∷ [])
range_candidates-range_example = range_candidates-range 100 103 (omega arith) (omega arith)

range_candidates-never_returns_example :
    (append_range 9 100 (uint32_mod - 1) ≡ none)
    × (range_candidates 100 (uint32_mod - 1) ≡ err never_returns)
range_candidates-never_returns_example = range_candidates-never_returns 9 100 (omega arith)

abbrev eight : IpNet net_lib.Ip
eight = record { ip = 16; mask = uint32_mod - 8 }

eight-IsSubnet : IsSubnet net_lib eight 16 8
eight-IsSubnet = record { address = refl; mask = refl; fits = omega arith }

subnet_tail_candidates-range_example :
    subnet_tail_candidates net_lib eight 3 ≡ ok (20 ∷ 21 ∷ 22 ∷ [])
subnet_tail_candidates-range_example =
    subnet_tail_candidates-range net_lib eight 16 8 3 eight-IsSubnet (omega arith) (omega arith)
      (omega arith)

-- The host has the address 17.
subnet_tail_candidates-own_address_example :
    (block : List ℕ) × (subnet_tail_candidates net_lib eight machine_reservation_block_size
      ≡ ok block)
    × (get_elem? block 0 ≡ some 17)
subnet_tail_candidates-own_address_example =
    subnet_tail_candidates-own_address net_lib eight 16 8 17 eight-IsSubnet (omega arith)
      (omega arith) (omega arith)

abbrev pub six : List ℕ
six = 17 ∷ 18 ∷ 19 ∷ 20 ∷ 21 ∷ 22 ∷ []

pub candidates_of :
    (hosts : List NetworkDhcpHost)
    → allocation_candidates net_lib (record { ips = subnet_of (some hosts) ∷ [] }) ≡ ok six
unfolding allocation_candidates first_inet parse_subnet first_dhcp_range letters size
candidates_of hosts =
    subnet_tail_candidates-range net_lib eight 16 8 200 eight-IsSubnet (omega arith) (omega arith)
      (omega arith)

taken_candidates : allocation_candidates net_lib taken_network ≡ ok six
taken_candidates = candidates_of (record { name = "m0"; mac = "ii"; ip = letters 19 } ∷ [])

-- The name's hash points at 19, which is taken, so that the next one is chosen.
allocated : allocate_machine_ip_in net_lib taken_network "m1" "iii" ≡ ok (letters 20)
unfolding allocate_machine_ip_in allocate_in probe host_ip_set is_free lookup letters size
    hash_domain_name
allocated = rw (taken_candidates, allocate_machine_ip_in) refl

free_22 : is_free net_lib (host_ip_set taken_network) "iii" (letters 22) ≡ true
unfolding host_ip_set is_free lookup letters
free_22 = refl

allocate_machine_ip_in_reference_example :
    allocate_machine_ip_in net_lib taken_network "m1" "iii"
    ≡ first_free net_lib
        (host_ip_set taken_network)
        "m1"
        "iii"
        (rotate (start_offset net_lib "m1" six) six)
allocate_machine_ip_in_reference_example =
    allocate_machine_ip_in_reference net_lib taken_network "m1" "iii" six taken_candidates
      (omega arith)

abbrev toy_plan : HostUpdate
toy_plan = record { ip = letters 20; xml = letters 20; command = add_last; do_update = true }

planned : plan_host_update net_lib taken_network "m1" "iii" ≡ ok toy_plan
unfolding plan_host_update plan_with host_entry_in_network letters
planned = rw (allocated, plan_host_update) refl

-- A network whose document the update turns from the one into the other.
abbrev documents : NetworkOperations String
documents = record {
  get_xml_desc = λ s. (ok s, s);
  update = λ command section index xml s. (ok tt, "reserved");
  get_dhcp_leases = λ s. (ok [], s);
}

reserved_20 :
    reserve_machine_ip net_lib documents "default" "m1" "iii" "taken"
    ≡ (ok (letters 20), "reserved")
unfolding letters
reserved_20 =
    reserve_machine_ip-carry_out net_lib documents "default" "m1" "iii" "taken" "taken" "taken"
      taken_network toy_plan refl refl planned
    ∙ carry_out_update net_lib documents "default" "m1" "iii" "taken" "reserved" toy_plan refl refl
