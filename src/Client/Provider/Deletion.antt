-- ===== src/Client/Provider/Deletion.antt =====
-- DeleteMachine on a host that holds nothing of the machine: it may be called again.
use cluster_api_provider_lib.Shared.{String, none, ◌≡◌, arith}
use cluster_api_provider_lib.Errors.{
  libvirt, no_domain, no_network, no_storage_pool, no_storage_vol, is_libvirt_err,
  is_volume_not_found,
}
use cluster_api_provider_lib.Errors.Exec.{ok, err, ◌>>=◌}
use cluster_api_provider_lib.Config.{MachineConfig, domain_disk_name, iso_disk_name}
use cluster_api_provider_lib.Network.{Network}
use cluster_api_provider_lib.Network.Allocation.{derive_domain_mac, host_entry_in_network}
use cluster_api_provider_lib.Network.Reservation.{release_machine_ip}
use cluster_api_provider_lib.System.{System, Session, on_host, opening, opened, free}
use cluster_api_provider_lib.Client.Volumes.{delete_volume}
use cluster_api_provider_lib.Client.Domains.{operations, delete_domain}
use cluster_api_provider_lib.Client.Provider.{release_machine_reservation, delete_resources}

module _ (sys : System) (conn : sys.lv.Connect) (h : sys.lv.Host) where
  open sys.lv use {
    lookup_domain_by_name, lookup_storage_pool_by_name, lookup_storage_vol_by_name,
    lookup_network_by_name, get_xml_desc,
  }

  -- The host has no such pool, or the pool has no such volume; asking changes nothing.
  pub data IsVolumeAbsent (pool_name name : String) : Type 0 where
    no_pool :
        (m : String)
        → lookup_storage_pool_by_name conn pool_name h ≡ (err (libvirt no_storage_pool m), h)
        → IsVolumeAbsent pool_name name
    no_volume :
        (pool : sys.lv.StoragePool) (m : String)
        → lookup_storage_pool_by_name conn pool_name h ≡ (ok pool, h)
        → lookup_storage_vol_by_name pool name h ≡ (err (libvirt no_storage_vol m), h)
        → IsVolumeAbsent pool_name name

  -- The host has no such network, or its document has no entry of the domain's MAC.
  pub data IsReservationAbsent (net_name name : String) : Type 0 where
    no_net :
        (m : String)
        → lookup_network_by_name conn net_name h ≡ (err (libvirt no_network m), h)
        → IsReservationAbsent net_name name
    no_entry :
        (net : sys.lv.NetworkRef) (xml : String) (network : Network)
        → lookup_network_by_name conn net_name h ≡ (ok net, h)
        → get_xml_desc net h ≡ (ok xml, h)
        → sys.net.unmarshal_network xml ≡ ok network
        → host_entry_in_network sys.net network (derive_domain_mac sys.net name) ≡ none
        → IsReservationAbsent net_name name

  pub record HoldsNothing (cfg : MachineConfig) : Type 0 where
    pub message : String
    pub domain : lookup_domain_by_name conn cfg.domain_name h ≡ (err (libvirt no_domain message), h)
    pub root_disk : IsVolumeAbsent cfg.infra_config.domain_pool (domain_disk_name cfg)
    pub iso_disk : IsVolumeAbsent cfg.infra_config.domain_pool (iso_disk_name cfg)
    pub reservation : IsReservationAbsent cfg.infra_config.network cfg.domain_name

module _ (sys : System) (conn : sys.lv.Connect) (s : Session sys) where
  delete_domain_absent :
      (name m : String)
      → sys.lv.lookup_domain_by_name conn name s.host ≡ (err (libvirt no_domain m), s.host)
      → delete_domain sys conn name s ≡ (ok tt, s)
  unfolding delete_domain opened opening ◌>>=◌ is_libvirt_err
  delete_domain_absent name m e = ground arith

  delete_volume_absent :
      (pool_name name : String)
      → IsVolumeAbsent sys conn s.host pool_name name
      → delete_volume sys conn pool_name name s ≡ (ok tt, s)
  unfolding delete_volume opened opening ◌>>=◌ free is_libvirt_err is_volume_not_found
  delete_volume_absent pool_name name (no_pool m p) = ground arith
  delete_volume_absent pool_name name (no_volume pool m p v) = ground arith

  release_absent :
      (cfg : MachineConfig)
      → IsReservationAbsent sys conn s.host cfg.infra_config.network cfg.domain_name
      → release_machine_reservation sys conn cfg s ≡ (ok tt, s)
  unfolding release_machine_reservation release_machine_ip operations opened opening ◌>>=◌ free
      is_libvirt_err on_host
  release_absent cfg (no_net m e) = ground arith
  release_absent cfg (no_entry net xml network e x u none_there) = ground arith

  -- On a host that has neither the domain nor the two volumes nor a DHCP entry of the machine, and
  -- that no look-up changes, the steps of DeleteMachine after the connection succeed and leave the
  -- host, the files and the open handles as they were.
  pub delete_resources_again :
      (cfg : MachineConfig)
      → HoldsNothing sys conn s.host cfg
      → delete_resources sys conn cfg s ≡ (ok tt, s)
  unfolding delete_resources ◌>>=◌
  delete_resources_again cfg n = rw (
    delete_domain_absent cfg.domain_name n.message n.domain,
    delete_volume_absent cfg.infra_config.domain_pool (domain_disk_name cfg) n.root_disk,
    delete_volume_absent cfg.infra_config.domain_pool (iso_disk_name cfg) n.iso_disk,
    release_absent cfg n.reservation,
  )
