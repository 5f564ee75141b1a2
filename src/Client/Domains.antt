-- ===== src/Client/Domains.antt =====
-- internal/libvirtclient/domain.go: creating, deleting and inspecting a domain.
pub mod Started
use cluster_api_provider_lib.Shared.{String, ◌<>◌, Bool, true, false, if◌then◌else◌}
use cluster_api_provider_lib.Errors.{wrap, no_domain, is_libvirt_err}
use cluster_api_provider_lib.Errors.Exec.{
  Result, ok, err, Exec, pure, fail, lift, wrapping, wrap_result, attempt, ◌>>=◌, ◌>>◌,
}
use cluster_api_provider_lib.Config.{MachineConfig, memory_or_default, vcpu_or_default}
use cluster_api_provider_lib.Builders.DomainXml.{
  DomainXml, new_domain, with_uuid, with_memory_mib, with_vcpu, with_disk_file, with_cloud_init_iso,
  with_network, with_serial_console,
}
use cluster_api_provider_lib.Network.Allocation.{derive_domain_mac}
use cluster_api_provider_lib.Network.Reservation.{NetworkOperations, reserve_machine_ip}
use cluster_api_provider_lib.System.{
  System, Session, DomainInfoState, on_host, opening, opened, using,
}
use cluster_api_provider_lib.Client.Volumes.{create_root_disk, create_iso_disk}

pub data DomainState : Type 0 where
  not_found running stopped unknown : DomainState

-- The switch of getDomainState.
unfoldable pub classify : DomainInfoState → DomainState
classify DomainInfoState.running = running
classify DomainInfoState.shutoff = stopped
classify DomainInfoState.shutdown = stopped
classify DomainInfoState.crashed = stopped
classify DomainInfoState.paused = unknown
classify DomainInfoState.blocked = unknown
classify DomainInfoState.pmsuspended = unknown
classify DomainInfoState.other = unknown

-- The document that createDomain builds.
unfoldable pub machine_domain : MachineConfig → String → String → String → DomainXml
unfolding new_domain with_uuid with_memory_mib with_vcpu with_disk_file with_cloud_init_iso
    with_network with_serial_console memory_or_default vcpu_or_default
machine_domain cfg disk_path cloud_iso_path mac = with_serial_console (
    with_network cfg.infra_config.network mac (
      with_cloud_init_iso cloud_iso_path (
        with_disk_file disk_path (
          with_vcpu (vcpu_or_default cfg) (
            with_memory_mib (memory_or_default cfg)
              (with_uuid cfg.domain_uuid (new_domain cfg.domain_name)))))))

module _ (sys : System) where
  open sys.lv use {
    Connect, DomainRef, NetworkRef, StoragePool, lookup_domain_by_name, domain_define_xml,
    domain_is_active, get_state, set_autostart, create_domain as start_defined, destroy, undefine,
    lookup_network_by_name, lookup_storage_pool_by_name, get_xml_desc, network_update,
    get_dhcp_leases, marshal_domain,
  }
  open sys.net use {quote}

  -- *libvirt.Network as the interface networkOperations.
  unfoldable pub operations : NetworkRef → NetworkOperations (Session sys)
  operations network = record {
    get_xml_desc = on_host sys (get_xml_desc network);
    update = λ cmd section parent_index xml.
        on_host sys (network_update network cmd section parent_index xml);
    get_dhcp_leases = on_host sys (get_dhcp_leases network);
  }

  -- createDomain once the disks are there and the address is reserved.
  unfoldable pub define_and_start :
      Connect → MachineConfig → String → String → String → Exec (Session sys) (Unit {0})
  unfolding machine_domain
  define_and_start conn cfg disk_path cloud_iso_path mac = do
    domain_xml ← lift (
        wrap_result "marshal domain XML: "
          (marshal_domain (machine_domain cfg disk_path cloud_iso_path mac)))
    using (opening sys (domain_define_xml conn domain_xml))
        ("define domain " <> (cfg.domain_name <> ": "))
        λ domain. do
          wrapping "set domain autostart: " (on_host sys (set_autostart domain true))
          wrapping ("create domain " <> (cfg.domain_name <> ": "))
              (on_host sys (start_defined domain))

  -- createDomain once the two pools are open.
  unfoldable pub create_in_pools :
      Connect → MachineConfig → StoragePool → StoragePool → Exec (Session sys) (Unit {0})
  create_in_pools conn cfg domain_pool base_pool = do
    disk_path ←
        wrapping ("create base disk pool " <> (cfg.infra_config.base_pool <> ": "))
          (create_root_disk sys base_pool domain_pool cfg)
    cloud_iso_path ←
        wrapping ("create iso disk " <> (cfg.infra_config.base_pool <> ": "))
          (create_iso_disk sys conn domain_pool cfg)
    let mac = derive_domain_mac sys.net cfg.domain_name
    using (opening sys (lookup_network_by_name conn cfg.infra_config.network))
        ("lookup network " <> (cfg.infra_config.network <> ": "))
        λ network. do
          reserve_machine_ip sys.net (operations network) cfg.infra_config.network cfg.domain_name
                mac
              >>= λ _. define_and_start conn cfg disk_path cloud_iso_path mac

  unfoldable pub create_domain : Connect → MachineConfig → Exec (Session sys) (Unit {0})
  create_domain conn cfg =
      using (opening sys (lookup_storage_pool_by_name conn cfg.infra_config.domain_pool))
        ("lookup domain disk pool " <> (cfg.infra_config.domain_pool <> ": "))
        λ domain_pool.
          using (opening sys (lookup_storage_pool_by_name conn cfg.infra_config.base_pool))
            ("lookup base disk pool " <> (cfg.infra_config.base_pool <> ": "))
            λ base_pool. create_in_pools conn cfg domain_pool base_pool

  -- `err == nil && active`: a failed IsActive counts as inactive.
  abbrev pub is_known_active : Result Bool → Bool
  is_known_active (ok active) = active
  is_known_active (err e) = false

  unfoldable pub destroy_if_active :
      String → DomainRef → Result Bool → Exec (Session sys) (Unit {0})
  destroy_if_active name dom active =
      if is_known_active active
      then wrapping ("destroy domain " <> (name <> ": ")) (on_host sys (destroy dom))
      else pure tt

  unfoldable pub delete_domain : Connect → String → Exec (Session sys) (Unit {0})
  unfolding destroy_if_active
  delete_domain conn name =
      opened (opening sys (lookup_domain_by_name conn name))
        (λ e.
          if is_libvirt_err e no_domain
          then pure tt
          else fail (wrap ("lookup domain " <> (name <> ": ")) e))
        (λ dom. do
          attempt (on_host sys (domain_is_active dom)) (destroy_if_active name dom)
          wrapping ("undefine domain " <> (name <> ": ")) (on_host sys (undefine dom)))

  unfoldable pub get_domain_state : Connect → String → Exec (Session sys) DomainState
  unfolding classify
  get_domain_state conn name =
      opened (opening sys (lookup_domain_by_name conn name))
        (λ e.
          if is_libvirt_err e no_domain
          then pure not_found
          else fail (wrap ("lookup domain " <> (quote name <> ": ")) e))
        (λ dom. do
          state ←
              wrapping ("get domain state " <> (quote name <> ": ")) (on_host sys (get_state dom))
          pure (classify state))
