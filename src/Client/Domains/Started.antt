-- ===== src/Client/Domains/Started.antt =====
-- The steps of createDomain of internal/libvirtclient/domain.go, and what its success says of them.
use cluster_api_provider_lib.Shared.{String, ◌≡◌, refl, ap, ◌∙◌, true}
use cluster_api_provider_lib.Errors.Exec.{ok}
use cluster_api_provider_lib.Errors.Exec.Inversion.{
  Gives, bind-Gives, wrapping-Gives, bind-lift-Gives,
}
use cluster_api_provider_lib.Config.{MachineConfig}
use cluster_api_provider_lib.Network.Allocation.{derive_domain_mac}
use cluster_api_provider_lib.Network.Reservation.{reserve_machine_ip}
use cluster_api_provider_lib.System.{System, Session, on_host, opening, free}
use cluster_api_provider_lib.System.Inversion.{using-Gives}
use cluster_api_provider_lib.Client.Volumes.Made.{
  IsRootDisk, IsIsoDisk, create_root_disk-IsRootDisk, create_iso_disk-IsIsoDisk,
}
use cluster_api_provider_lib.Client.Domains.{
  operations, machine_domain, define_and_start, create_in_pools, create_domain,
}

module _ (sys : System) (conn : sys.lv.Connect) (cfg : MachineConfig) where
  open sys.lv use {
    DomainRef, StoragePool, NetworkRef, domain_define_xml, set_autostart,
    create_domain as start_defined, lookup_network_by_name, lookup_storage_pool_by_name,
    marshal_domain,
  }

  -- The domain is defined from its document with the two disks and the MAC, set to start with the
  -- host, and started, from the first session to the second.
  pub record IsDefined (disk_path cloud_iso_path mac : String) (s s' : Session sys) : Type 0 where
    pub xml : String
    pub marshalled : marshal_domain (machine_domain cfg disk_path cloud_iso_path mac) ≡ ok xml
    pub domain : DomainRef
    pub defined_at : Session sys
    pub defined : Gives (opening sys (domain_define_xml conn xml)) s domain defined_at
    pub autostart_at : Session sys
    pub autostart : Gives (on_host sys (set_autostart domain true)) defined_at tt autostart_at
    pub started_at : Session sys
    pub started : Gives (on_host sys (start_defined domain)) autostart_at tt started_at
    pub freed : s' ≡ free started_at

  define_and_start-IsDefined :
      (disk_path cloud_iso_path mac : String) (s s' : Session sys)
      → Gives (define_and_start sys conn cfg disk_path cloud_iso_path mac) s tt s'
      → IsDefined disk_path cloud_iso_path mac s s'
  unfolding define_and_start
  define_and_start-IsDefined disk_path cloud_iso_path mac s s' g =
      let (xml, marshalled, rest) = bind-lift-Gives _ _ _ s s' tt g in
      let (domain, defined_at, started_at, defined, steps, freed) =
        using-Gives _ _ _ s s' tt rest in
      let (_, autostart_at, autostart, started) = bind-Gives _ _ defined_at started_at tt steps in
      record {
        xml = xml;
        marshalled = marshalled;
        domain = domain;
        defined_at = defined_at;
        defined = defined;
        autostart_at = autostart_at;
        autostart = wrapping-Gives _ _ defined_at autostart_at tt autostart;
        started_at = started_at;
        started = wrapping-Gives _ _ autostart_at started_at tt started;
        freed = freed;
      }

  -- The steps of createDomain from the first session to the second: the two pools are found, each of
  -- the two disks was there or is made, the network is found, the address reserved for the MAC of the
  -- domain's name, and the domain defined with these disks and this MAC, and started.
  pub record IsCreated (s s' : Session sys) : Type 0 where
    pub domain_pool : StoragePool
    pub domain_pool_at : Session sys
    pub domain_pool_found :
        Gives
          (opening sys (lookup_storage_pool_by_name conn cfg.infra_config.domain_pool))
          s
          domain_pool
          domain_pool_at
    pub base_pool : StoragePool
    pub base_pool_at : Session sys
    pub base_pool_found :
        Gives
          (opening sys (lookup_storage_pool_by_name conn cfg.infra_config.base_pool))
          domain_pool_at
          base_pool
          base_pool_at
    pub disk_path : String
    pub disk_at : Session sys
    pub disk : IsRootDisk sys base_pool domain_pool cfg disk_path base_pool_at disk_at
    pub cloud_iso_path : String
    pub iso_at : Session sys
    pub iso : IsIsoDisk sys conn domain_pool cfg cloud_iso_path disk_at iso_at
    pub network : NetworkRef
    pub network_at : Session sys
    pub network_found :
        Gives
          (opening sys (lookup_network_by_name conn cfg.infra_config.network))
          iso_at
          network
          network_at
    pub ip : String
    pub reserved_at : Session sys
    pub reserved :
        Gives
          (reserve_machine_ip sys.net
            (operations sys network)
            cfg.infra_config.network
            cfg.domain_name
            (derive_domain_mac sys.net cfg.domain_name))
          network_at
          ip
          reserved_at
    pub started_at : Session sys
    pub started :
        IsDefined disk_path cloud_iso_path
          (derive_domain_mac sys.net cfg.domain_name)
          reserved_at
          started_at
    pub freed : s' ≡ free (free (free started_at))

  -- createDomain succeeds only when each of its steps does, in this order: both pools are found, each
  -- disk was there under its name or is made, the network is found, an address is reserved for the MAC that the domain
  -- gets, and the domain is defined with the paths of these disks, set to start with the host and
  -- started; then the three handles are freed, the last opened first.
  pub create_domain-IsCreated :
      (s : Session sys)
      → (create_domain sys conn cfg s).0 ≡ ok tt
      → IsCreated s (create_domain sys conn cfg s).1
  unfolding create_domain create_in_pools
  create_domain-IsCreated s succeeded =
      let s' = (create_domain sys conn cfg s).1 in
      let (domain_pool, domain_pool_at, t1, domain_pool_found, g1, freed1) =
        using-Gives _ _ _ s s' tt (succeeded, refl) in
      let (base_pool, base_pool_at, t2, base_pool_found, g2, freed2) =
        using-Gives _ _ _ domain_pool_at t1 tt g1 in
      let (disk_path, disk_at, disk_made, g3) = bind-Gives _ _ base_pool_at t2 tt g2 in
      let (cloud_iso_path, iso_at, iso_made, g4) = bind-Gives _ _ disk_at t2 tt g3 in
      let (network, network_at, t3, network_found, g5, freed3) =
        using-Gives _ _ _ iso_at t2 tt g4 in
      let (ip, reserved_at, reserved, g6) = bind-Gives _ _ network_at t3 tt g5 in
      record {
        domain_pool = domain_pool;
        domain_pool_at = domain_pool_at;
        domain_pool_found = domain_pool_found;
        base_pool = base_pool;
        base_pool_at = base_pool_at;
        base_pool_found = base_pool_found;
        disk_path = disk_path;
        disk_at = disk_at;
        disk =
            create_root_disk-IsRootDisk sys base_pool domain_pool cfg disk_path base_pool_at disk_at
              (wrapping-Gives _ _ base_pool_at disk_at disk_path disk_made);
        cloud_iso_path = cloud_iso_path;
        iso_at = iso_at;
        iso =
            create_iso_disk-IsIsoDisk sys conn domain_pool cfg cloud_iso_path disk_at iso_at
              (wrapping-Gives _ _ disk_at iso_at cloud_iso_path iso_made);
        network = network;
        network_at = network_at;
        network_found = network_found;
        ip = ip;
        reserved_at = reserved_at;
        reserved = reserved;
        started_at = t3;
        started = define_and_start-IsDefined disk_path cloud_iso_path _ reserved_at t3 g6;
        freed = freed1 ∙ ap free (freed2 ∙ ap free freed3);
      }
