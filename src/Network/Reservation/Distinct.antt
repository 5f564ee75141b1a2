-- ===== src/Network/Reservation/Distinct.antt =====
-- The address of a reservation is the planned one, and a planned one was free.
use cluster_api_provider_lib.Shared.{String, ◌≡◌, true, sym, subst, arith}
use cluster_api_provider_lib.Errors.Exec.{ok, ◌>>=◌}
use cluster_api_provider_lib.Network.{NetLib, Network}
use cluster_api_provider_lib.Network.Allocation.{host_ip_set, is_free, allocate_machine_ip_in}
use cluster_api_provider_lib.Network.Allocation.Choice.{allocate_machine_ip_in-first_free}
use cluster_api_provider_lib.Network.Reservation.{NetworkOperations, HostUpdate, carry_out}
use cluster_api_provider_lib.Network.Reservation.Plan.{candidates_of_allocated}

-- An address that is allocated is free for the MAC.
pub allocated_is_free :
    (lib : NetLib) (network : Network) (name mac ip : String)
    → allocate_machine_ip_in lib network name mac ≡ ok ip
    → is_free lib (host_ip_set network) mac ip ≡ true
allocated_is_free lib network name mac ip e =
    let (candidates, known) = candidates_of_allocated lib network name mac ip e in
    let f = allocate_machine_ip_in-first_free lib network name mac candidates ip known e in
    subst (λ b. is_free lib (host_ip_set network) mac b ≡ true) (sym f.result) f.free

module _ {S : Type 0} (lib : NetLib) (n : NetworkOperations S) (net_name name mac : String) where
  pub carry_out-ip :
      (u : HostUpdate) (s : S) (ip : String)
      → (carry_out lib n net_name name u s).0 ≡ ok ip
      → ip ≡ u.ip
  unfolding carry_out ◌>>=◌
  carry_out-ip u s ip e = ground arith
