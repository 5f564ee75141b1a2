-- ===== src/Network/Reservation/Calls.antt =====
-- reserveMachineIP over the calls of networkOperations.
use cluster_api_provider_lib.Shared.{◌≡◌, String, true, false, arith}
use cluster_api_provider_lib.Errors.Exec.{ok, ◌>>=◌}
use cluster_api_provider_lib.Network.{NetLib, Network}
use cluster_api_provider_lib.Network.Reservation.{
  NetworkOperations, ip_dhcp_host, HostUpdate, plan_host_update, network_xml, carry_out,
  reserve_machine_ip,
}

module _ {S : Type 0} (lib : NetLib) (n : NetworkOperations S) (net_name name mac : String) where
  -- A reservation reads the document once and carries out its plan.
  pub reserve_machine_ip-carry_out :
      (s s' : S) (xml : String) (network : Network) (u : HostUpdate)
      → n.get_xml_desc s ≡ (ok xml, s')
      → lib.unmarshal_network xml ≡ ok network
      → plan_host_update lib network name mac ≡ ok u
      → reserve_machine_ip lib n net_name name mac s ≡ carry_out lib n net_name name u s'
  unfolding reserve_machine_ip network_xml ◌>>=◌
  reserve_machine_ip-carry_out s s' xml network u read parsed planned = ground arith

  pub carry_out_update :
      (s s' : S) (u : HostUpdate)
      → u.do_update ≡ true
      → n.update u.command ip_dhcp_host 0 u.xml s ≡ (ok tt, s')
      → carry_out lib n net_name name u s ≡ (ok u.ip, s')
  unfolding carry_out ◌>>=◌
  carry_out_update s s' u asked done = ground arith

  pub carry_out_nothing :
      (s : S) (u : HostUpdate)
      → u.do_update ≡ false
      → carry_out lib n net_name name u s ≡ (ok u.ip, s)
  unfolding carry_out ◌>>=◌
  carry_out_nothing s u unasked = ground arith
