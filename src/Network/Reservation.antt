-- ===== src/Network/Reservation.antt =====
-- Static DHCP reservations and lease lookup: planHostUpdate, machineHostXML, networkXML,
-- reserveMachineIP, releaseMachineIP, leaseAddressForMac and machineAddress of
-- internal/libvirtclient/machine_network.go, over its interface networkOperations.
pub mod Plan
pub mod Leases
pub mod Calls
pub mod Distinct
use cluster_api_provider_lib.Shared.{
  ℕ, not, str_eq, String, ◌<>◌, Bool, true, false, ◌&&◌, Option, none, some, List, [], ◌∷◌,
  if◌then◌else◌,
}
use cluster_api_provider_lib.Errors.{Error, wrap}
use cluster_api_provider_lib.Errors.Exec.{
  Result, ok, err, Exec, pure, fail, lift, wrapping, wrap_result, ◌>>=◌, ◌>>◌,
}
use cluster_api_provider_lib.Network.{NetLib, Network, NetworkDhcpHost, NetworkDhcpLease}
use cluster_api_provider_lib.Network.Allocation.{host_entry_in_network, allocate_machine_ip_in}

-- libvirt.NetworkUpdateCommand, as far as it is used; `command_none` is NETWORK_UPDATE_COMMAND_NONE.
pub data NetworkUpdateCommand : Type 0 where
  command_none add_last modify delete : NetworkUpdateCommand

-- libvirt.NetworkUpdateSection, as far as it is used.
pub data NetworkUpdateSection : Type 0 where
  ip_dhcp_host : NetworkUpdateSection

-- The interface networkOperations, over a state `S`. The flags are 0 in every call.
pub record NetworkOperations (S : Type 0) : Type 0 where
  pub get_xml_desc : Exec S String
  pub update :
      NetworkUpdateCommand → NetworkUpdateSection → (parent_index : ℕ) → String → Exec S (Unit {0})
  pub get_dhcp_leases : Exec S (List NetworkDhcpLease)

-- The values that planHostUpdate returns.
pub record HostUpdate : Type 0 where
  pub ip : String
  pub xml : String
  pub command : NetworkUpdateCommand
  pub do_update : Bool

module _ (lib : NetLib) where
  open lib use {equal_fold, marshal_host, unmarshal_network}

  unfoldable pub machine_host_xml : String → String → String → Result String
  machine_host_xml domain_name mac ip =
      marshal_host (record { name = domain_name; mac = mac; ip = ip })

  -- `existing != nil && existing.IP != "" && strings.EqualFold(existing.IP, ip)`
  unfoldable pub already_reserved : Option NetworkDhcpHost → String → Bool
  already_reserved none ip = false
  already_reserved (some existing) ip = not (str_eq existing.ip "") && equal_fold existing.ip ip

  unfoldable pub command_for : Option NetworkDhcpHost → NetworkUpdateCommand
  command_for none = add_last
  command_for (some existing) = modify

  -- planHostUpdate once the address and the present entry are known.
  unfoldable pub plan_with : String → String → String → Option NetworkDhcpHost → Result HostUpdate
  unfolding machine_host_xml already_reserved command_for
  plan_with domain_name mac ip existing =
      if already_reserved existing ip
      then ok (record { ip = ip; xml = ""; command = command_none; do_update = false })
      else elim (machine_host_xml domain_name mac ip) [
        | err e ↦ err (wrap ("marshal DHCP host entry for " <> (domain_name <> ": ")) e)
        | ok xml ↦
            ok (record { ip = ip; xml = xml; command = command_for existing; do_update = true })
      ]

  unfoldable pub plan_host_update : Network → String → String → Result HostUpdate
  plan_host_update network domain_name mac =
      elim (allocate_machine_ip_in lib network domain_name mac) [
        | err e ↦ err e
        | ok ip ↦ plan_with domain_name mac ip (host_entry_in_network lib network mac)
      ]

  -- The first lease of the MAC that has an address; "" when there is none.
  unfoldable pub lease_address_for_mac : List NetworkDhcpLease → String → String
  lease_address_for_mac [] mac = ""
  lease_address_for_mac (lease ∷ leases) mac =
      if equal_fold lease.mac mac && not (str_eq lease.ip_addr "")
      then lease.ip_addr
      else lease_address_for_mac leases mac

  module _ {S : Type 0} (n : NetworkOperations S) where
    open n use {get_xml_desc, update, get_dhcp_leases}

    unfoldable pub network_xml : Exec S Network
    network_xml = do
      xml_desc ← wrapping "get network XML: " get_xml_desc
      lift (wrap_result "parse network XML: " (unmarshal_network xml_desc))

    -- reserveMachineIP once the update is planned.
    unfoldable pub carry_out : String → String → HostUpdate → Exec S String
    carry_out net_name domain_name plan =
        if plan.do_update
        then (do
          wrapping
              ("update DHCP host entry for "
                <> (domain_name <> (" on network " <> (net_name <> ": "))))
              (update plan.command ip_dhcp_host 0 plan.xml)
          pure plan.ip)
        else pure plan.ip

    unfoldable pub reserve_machine_ip : String → String → String → Exec S String
    unfolding network_xml carry_out
    reserve_machine_ip net_name domain_name mac = do
      network ← network_xml
      plan ← lift (plan_host_update network domain_name mac)
      carry_out net_name domain_name plan

    -- releaseMachineIP once the present entry is looked up.
    unfoldable pub release_entry :
        String → String → String → Option NetworkDhcpHost → Exec S (Unit {0})
    unfolding machine_host_xml
    release_entry net_name domain_name mac none = pure tt
    release_entry net_name domain_name mac (some existing) = do
      xml ← lift (
          wrap_result ("marshal DHCP host entry for " <> (domain_name <> ": "))
            (machine_host_xml domain_name mac existing.ip))
      wrapping
          ("remove DHCP host entry for " <> (domain_name <> (" on network " <> (net_name <> ": "))))
          (update delete ip_dhcp_host 0 xml)

    unfoldable pub release_machine_ip : String → String → String → Exec S (Unit {0})
    unfolding network_xml release_entry
    release_machine_ip net_name domain_name mac = do
      network ← network_xml
      release_entry net_name domain_name mac (host_entry_in_network lib network mac)

    unfoldable pub machine_address : String → String → Exec S String
    machine_address net_name mac = do
      leases ← wrapping ("get DHCP leases of network " <> (net_name <> ": ")) get_dhcp_leases
      pure (lease_address_for_mac leases mac)
