-- ===== src/Tests/Ledger.antt =====
-- The theorems on the ledger of addresses, on the subnet of eight addresses from 16 on, for two
-- machines whose names have the same hash.
use Prim.Native.String.{String}
use cluster_api_provider_lib.Shared.{
  ◌⊎◌, ◌-◌, ◌≡◌, ◌≢◌, refl, ap, ◌∙◌, true, false, some, List, [], ◌∷◌, arith,
}
use cluster_api_provider_lib.Errors.{Error}
use cluster_api_provider_lib.Errors.Exec.{ok, err, ◌>>=◌}
use cluster_api_provider_lib.Network.{NetworkDhcpHost, IpNet}
use cluster_api_provider_lib.Network.Candidates.{
  allocation_candidates, uint32_mod, parse_subnet, first_inet, first_dhcp_range,
}
use cluster_api_provider_lib.Network.Candidates.Tail.{IsSubnet, subnet_tail_candidates-range}
use cluster_api_provider_lib.Network.Allocation.{
  host_ip_set, is_free, allocate_machine_ip_in, allocate_in, probe, hash_domain_name,
  host_entry_in_network, lookup,
}
use cluster_api_provider_lib.Network.Reservation.{
  add_last, plan_host_update, plan_with, reserve_machine_ip, release_machine_ip, machine_address,
}
use cluster_api_provider_lib.Network.Ledger.{
  entries_of, entries, IsLedger, IsAssigned, IsErased, book,
}
use cluster_api_provider_lib.Network.Reservation.Calls.{
  reserve_machine_ip-carry_out, carry_out_update,
}
use cluster_api_provider_lib.Network.Ledger.Reserving.{reserve_machine_ip_outcome}
use cluster_api_provider_lib.Network.Ledger.Releasing.{release_machine_ip_outcome}
use cluster_api_provider_lib.Network.Ledger.Again.{reserve_machine_ip_again}
use cluster_api_provider_lib.Network.Ledger.History.{
  Call, reserve, release, look_up, run_call, run_calls, run_calls-IsLedger, reserved_stays_apart,
}
use cluster_api_provider_lib.Controller.Identity.{size}
use cluster_api_provider_lib.Tests.Host.{letters}
use cluster_api_provider_lib.Tests.Network.{six}
use cluster_api_provider_lib.Tests.Held.{
  first_host, Held, network_with, document_of, ledger_lib, toy_network, toy_texts, toy_laws,
}

-- What the two machines are given.
abbrev eight : IpNet ledger_lib.Ip
eight = record { ip = 16; mask = uint32_mod - 8 }

eight-IsSubnet : IsSubnet ledger_lib eight 16 8
eight-IsSubnet = record { address = refl; mask = refl; fits = omega arith }

candidates_with :
    (hosts : List NetworkDhcpHost) → allocation_candidates ledger_lib (network_with hosts) ≡ ok six
unfolding allocation_candidates first_inet parse_subnet first_dhcp_range letters size
candidates_with hosts =
    subnet_tail_candidates-range ledger_lib eight 16 8 200 eight-IsSubnet (omega arith)
      (omega arith) (omega arith)

-- Both names point at 19, and the second machine is given the next address when the first has it.
first_allocated : allocate_machine_ip_in ledger_lib (network_with []) "m1" "iii" ≡ ok (letters 20)
unfolding allocate_machine_ip_in allocate_in probe host_ip_set is_free lookup letters size
    hash_domain_name
first_allocated = rw (candidates_with [], allocate_machine_ip_in) refl

second_allocated :
    allocate_machine_ip_in ledger_lib (network_with (first_host ∷ [])) "m2" "iiii" ≡ ok (letters 21)
unfolding allocate_machine_ip_in allocate_in probe host_ip_set is_free lookup letters size
    hash_domain_name
second_allocated = rw (candidates_with (first_host ∷ []), allocate_machine_ip_in) refl

first_planned :
    plan_host_update ledger_lib (network_with []) "m1" "iii"
    ≡ ok (record { ip = letters 20; xml = "first"; command = add_last; do_update = true })
unfolding plan_host_update plan_with host_entry_in_network letters
first_planned = rw (first_allocated, plan_host_update) refl

second_planned :
    plan_host_update ledger_lib (network_with (first_host ∷ [])) "m2" "iiii"
    ≡ ok (record { ip = letters 21; xml = "second"; command = add_last; do_update = true })
unfolding plan_host_update plan_with host_entry_in_network letters
second_planned = rw (second_allocated, plan_host_update) refl

abbrev neither : Held
neither = record { first = false; second = false }

abbrev one : Held
one = record { first = true; second = false }

abbrev both : Held
both = record { first = true; second = true }

first_reserved :
    reserve_machine_ip ledger_lib toy_network "default" "m1" "iii" neither ≡ (ok (letters 20), one)
first_reserved =
    reserve_machine_ip-carry_out ledger_lib toy_network "default" "m1" "iii" neither neither
      "neither" (network_with []) _ refl refl first_planned
    ∙ carry_out_update ledger_lib toy_network "default" "m1" "iii" neither one _ refl refl

second_reserved :
    reserve_machine_ip ledger_lib toy_network "default" "m2" "iiii" one ≡ (ok (letters 21), both)
second_reserved =
    reserve_machine_ip-carry_out ledger_lib toy_network "default" "m2" "iiii" one one "first"
      (network_with (first_host ∷ [])) _ refl refl second_planned
    ∙ carry_out_update ledger_lib toy_network "default" "m2" "iiii" one both _ refl refl

neither-IsLedger : IsLedger ledger_lib (entries (document_of neither))
unfolding entries_of
neither-IsLedger = tt

one-IsLedger : IsLedger ledger_lib (entries (document_of one))
unfolding entries_of
one-IsLedger = (tt, tt)

reserve_machine_ip_outcome_example :
    ((ip : String) × ((reserve_machine_ip ledger_lib toy_network "default" "m2" "iiii" one).0
        ≡ ok ip)
      × IsAssigned ledger_lib "iiii" ip
          (document_of one)
          (document_of (reserve_machine_ip ledger_lib toy_network "default" "m2" "iiii" one).1))
    ⊎ ((e : Error) × ((reserve_machine_ip ledger_lib toy_network "default" "m2" "iiii" one).0
          ≡ err e)
        × (document_of (reserve_machine_ip ledger_lib toy_network "default" "m2" "iiii" one).1
            ≡ document_of one))
reserve_machine_ip_outcome_example =
    reserve_machine_ip_outcome ledger_lib toy_texts toy_network toy_laws "default" "m2" "iiii" one
      one-IsLedger

release_machine_ip_outcome_example :
    (((release_machine_ip ledger_lib toy_network "default" "m1" "iii" one).0 ≡ ok tt)
      × IsErased ledger_lib "iii"
          (document_of one)
          (document_of (release_machine_ip ledger_lib toy_network "default" "m1" "iii" one).1))
    ⊎ ((e : Error) × ((release_machine_ip ledger_lib toy_network "default" "m1" "iii" one).0
          ≡ err e)
        × (document_of (release_machine_ip ledger_lib toy_network "default" "m1" "iii" one).1
            ≡ document_of one))
release_machine_ip_outcome_example =
    release_machine_ip_outcome ledger_lib toy_texts toy_network toy_laws "default" "m1" "iii" one
      one-IsLedger

-- The first machine's entry is deleted, and only that one.
first_released :
    release_machine_ip ledger_lib toy_network "default" "m1" "iii" both
    ≡ (ok tt, record { first = false; second = true })
unfolding release_machine_ip host_entry_in_network letters ◌>>=◌
first_released = refl

-- The second machine comes while the first has its address, and the first one leaves.
abbrev coming_and_going : List Call
coming_and_going =
    reserve "m1" "iii" ∷ reserve "m2" "iiii" ∷ look_up "iiii" ∷ release "m1" "iii" ∷ []

run_calls-IsLedger_example :
    IsLedger ledger_lib
      (entries (document_of (run_calls ledger_lib toy_network "default" coming_and_going neither)))
run_calls-IsLedger_example =
    run_calls-IsLedger ledger_lib toy_texts toy_network toy_laws "default" coming_and_going neither
      neither-IsLedger

second_given :
    (reserve_machine_ip ledger_lib toy_network "default" "m2" "iiii" (
      run_calls ledger_lib toy_network "default"
        (look_up "iiii" ∷ [])
        (run_call ledger_lib toy_network "default" (reserve "m1" "iii") neither))).0
    ≡ ok (letters 21)
unfolding run_calls machine_address ◌>>=◌
second_given =
    ap
      (λ r.
        (reserve_machine_ip ledger_lib toy_network "default" "m2" "iiii"
          (run_calls ledger_lib toy_network "default" (look_up "iiii" ∷ []) r.1)).0)
      first_reserved
    ∙ ap (λ r. r.0) second_reserved

reserved_stays_apart_example :
    (letters 21 ≢ letters 20)
    × (book ledger_lib
          (document_of (
            run_calls ledger_lib toy_network "default"
              (reserve "m1" "iii" ∷ look_up "iiii" ∷ [])
              neither))
          "iii"
        ≡ some (letters 20))
reserved_stays_apart_example =
    reserved_stays_apart ledger_lib toy_texts toy_network toy_laws "default" neither "m1" "iii"
      (letters 20) "m2" "iiii" (letters 21) (look_up "iiii" ∷ []) neither-IsLedger
      (ap (λ r. r.0) first_reserved) (refl, tt) refl second_given

reserve_machine_ip_again_example :
    reserve_machine_ip ledger_lib toy_network "default" "m2" "iiii"
      (reserve_machine_ip ledger_lib toy_network "default" "m2" "iiii" one).1
    ≡ (ok (letters 21), (reserve_machine_ip ledger_lib toy_network "default" "m2" "iiii" one).1)
reserve_machine_ip_again_example =
    reserve_machine_ip_again ledger_lib toy_texts toy_network toy_laws "default" "m2" "iiii" one
      (letters 21) "both" one-IsLedger (ap (λ r. r.0) second_reserved)
      (ap (λ r. (toy_network.get_xml_desc r.1).0) second_reserved)
