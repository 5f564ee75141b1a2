-- ===== src/Client/Provider/Deleted.antt =====
-- The steps of DeleteMachine of internal/libvirtclient/provider.go, and what its success says of them.
use cluster_api_provider_lib.Shared.{String, ◌≡◌, none, some, Option, refl, ◌∙◌}
use cluster_api_provider_lib.Errors.{
  no_domain, no_storage_pool, no_network, is_libvirt_err, is_volume_not_found,
}
use cluster_api_provider_lib.Errors.Exec.{ok, pure, attempt}
use cluster_api_provider_lib.Errors.Exec.Inversion.{
  Gives, bind-Gives, bind-lift-Gives, wrapping-Gives,
}
use cluster_api_provider_lib.Config.{MachineConfig, domain_disk_name, iso_disk_name}
use cluster_api_provider_lib.Network.{NetLib, Network, NetworkDhcpHost}
use cluster_api_provider_lib.Network.Allocation.{derive_domain_mac, host_entry_in_network}
use cluster_api_provider_lib.Network.Reservation.{
  NetworkOperations, delete, ip_dhcp_host, machine_host_xml, network_xml, release_entry,
  release_machine_ip,
}
use cluster_api_provider_lib.System.{System, Session, on_host, opening}
use cluster_api_provider_lib.System.Inversion.{Tolerates, opened-Tolerates}
use cluster_api_provider_lib.Client.Volumes.{delete_volume}
use cluster_api_provider_lib.Client.Domains.{operations, destroy_if_active, delete_domain}
use cluster_api_provider_lib.Client.Provider.{release_machine_reservation, delete_resources}

-- releaseMachineIP on the network: its document has no entry of the MAC, or the entry that it has was
-- deleted from it.
pub data IsReleased {S : Type 0} (lib : NetLib) (n : NetworkOperations S) (name mac : String)
    (s s' : S) : Type 0 where
  no_entry :
      (network : Network)
      → Gives (network_xml lib n) s network s'
      → host_entry_in_network lib network mac ≡ none
      → IsReleased lib n name mac s s'
  entry_deleted :
      (network : Network) (read : S) (entry : NetworkDhcpHost) (xml : String)
      → Gives (network_xml lib n) s network read
      → host_entry_in_network lib network mac ≡ some entry
      → machine_host_xml lib name mac entry.ip ≡ ok xml
      → Gives (n.update delete ip_dhcp_host 0 xml) read tt s'
      → IsReleased lib n name mac s s'

module _ {S : Type 0} (lib : NetLib) (n : NetworkOperations S) (net_name name mac : String) where
  release_entry-IsReleased :
      (network : Network) (existing : Option NetworkDhcpHost) (s read s' : S)
      → Gives (network_xml lib n) s network read
      → host_entry_in_network lib network mac ≡ existing
      → Gives (release_entry lib n net_name name mac existing) read tt s'
      → IsReleased lib n name mac s s'
  unfolding release_entry pure
  release_entry-IsReleased network none s read s' (e, at) entry (u, left) =
      no_entry network (e, at ∙ left) entry
  release_entry-IsReleased network (some existing) s read s' reads entry g =
      let (xml, marshalled, updated) = bind-lift-Gives _ _ _ read s' tt g in
      entry_deleted network read existing xml reads entry marshalled
        (wrapping-Gives _ _ read s' tt updated)

  release_machine_ip-IsReleased :
      (s s' : S)
      → Gives (release_machine_ip lib n net_name name mac) s tt s'
      → IsReleased lib n name mac s s'
  unfolding release_machine_ip
  release_machine_ip-IsReleased s s' g =
      let (network, read, reads, rest) = bind-Gives _ _ s s' tt g in
      release_entry-IsReleased network (host_entry_in_network lib network mac) s read s' reads refl
        rest

module _ (sys : System) (conn : sys.lv.Connect) where
  open sys.lv use {
    DomainRef, NetworkRef, StoragePool, StorageVol, lookup_domain_by_name, domain_is_active,
    undefine, lookup_storage_pool_by_name, lookup_storage_vol_by_name, delete_vol,
    lookup_network_by_name,
  }

  -- The domain was destroyed, if it is known to be active, and undefined.
  pub record IsUndefined (name : String) (dom : DomainRef) (s s' : Session sys) : Type 0 where
    pub stopped_at : Session sys
    pub stopped :
        Gives
          (attempt (on_host sys (domain_is_active dom)) (destroy_if_active sys name dom))
          s
          tt
          stopped_at
    pub undefined : Gives (on_host sys (undefine dom)) stopped_at tt s'

  -- There is no such domain, or it was undefined.
  abbrev pub IsDomainGone : String → Session sys → Session sys → Type 0
  IsDomainGone name =
      Tolerates (opening sys (lookup_domain_by_name conn name)) (λ e. is_libvirt_err e no_domain)
        (IsUndefined name)

  -- There is no such pool or no such volume in it, or the volume was deleted.
  abbrev pub IsVolumeGone : String → String → Session sys → Session sys → Type 0
  IsVolumeGone pool_name name =
      Tolerates (opening sys (lookup_storage_pool_by_name conn pool_name))
        (λ e. is_libvirt_err e no_storage_pool)
        (λ pool.
          Tolerates (opening sys (lookup_storage_vol_by_name pool name)) is_volume_not_found
            (λ vol s s'. Gives (on_host sys (delete_vol vol)) s tt s'))

  -- There is no such network, or its document has no entry of the MAC any more.
  abbrev pub IsReservationGone : String → String → Session sys → Session sys → Type 0
  IsReservationGone net_name name =
      Tolerates (opening sys (lookup_network_by_name conn net_name))
        (λ e. is_libvirt_err e no_network)
        (λ network.
          IsReleased sys.net (operations sys network) name (derive_domain_mac sys.net name))

  -- The steps of DeleteMachine once it is connected, from the first session to the second.
  pub record IsDeleted (cfg : MachineConfig) (s s' : Session sys) : Type 0 where
    pub domain_at : Session sys
    pub domain : IsDomainGone cfg.domain_name s domain_at
    pub disk_at : Session sys
    pub disk : IsVolumeGone cfg.infra_config.domain_pool (domain_disk_name cfg) domain_at disk_at
    pub iso_at : Session sys
    pub iso : IsVolumeGone cfg.infra_config.domain_pool (iso_disk_name cfg) disk_at iso_at
    pub reservation : IsReservationGone cfg.infra_config.network cfg.domain_name iso_at s'

  delete_domain-IsDomainGone :
      (name : String) (s s' : Session sys)
      → Gives (delete_domain sys conn name) s tt s'
      → IsDomainGone name s s'
  unfolding delete_domain
  delete_domain-IsDomainGone name s s' g =
      opened-Tolerates _ _ _ _ (IsUndefined name)
        (λ dom mid after h.
          let (_, stopped_at, stopped, undefined) = bind-Gives _ _ mid after tt h in
          record {
            stopped_at = stopped_at;
            stopped = stopped;
            undefined = wrapping-Gives _ _ stopped_at after tt undefined;
          })
        s s' g

  delete_volume-IsVolumeGone :
      (pool_name name : String) (s s' : Session sys)
      → Gives (delete_volume sys conn pool_name name) s tt s'
      → IsVolumeGone pool_name name s s'
  unfolding delete_volume
  delete_volume-IsVolumeGone pool_name name s s' g =
      opened-Tolerates _ _ _ _ _
        (λ pool mid after h.
          opened-Tolerates _ _ _ _ _ (λ vol m a v. wrapping-Gives _ _ m a tt v) mid after h)
        s s' g

  release-IsReservationGone :
      (cfg : MachineConfig) (s s' : Session sys)
      → Gives (release_machine_reservation sys conn cfg) s tt s'
      → IsReservationGone cfg.infra_config.network cfg.domain_name s s'
  unfolding release_machine_reservation
  release-IsReservationGone cfg s s' g =
      opened-Tolerates _ _ _ _ _
        (λ network mid after h.
          release_machine_ip-IsReleased sys.net (operations sys network) cfg.infra_config.network
            cfg.domain_name (derive_domain_mac sys.net cfg.domain_name) mid after h)
        s s' g

  pub delete_resources-IsDeleted :
      (cfg : MachineConfig) (s s' : Session sys)
      → Gives (delete_resources sys conn cfg) s tt s'
      → IsDeleted cfg s s'
  unfolding delete_resources
  delete_resources-IsDeleted cfg s s' g =
      let (_, domain_at, domain, g1) = bind-Gives _ _ s s' tt g in
      let (_, disk_at, disk, g2) = bind-Gives _ _ domain_at s' tt g1 in
      let (_, iso_at, iso, reservation) = bind-Gives _ _ disk_at s' tt g2 in
      record {
        domain_at = domain_at;
        domain = delete_domain-IsDomainGone cfg.domain_name s domain_at domain;
        disk_at = disk_at;
        disk = delete_volume-IsVolumeGone _ _ domain_at disk_at disk;
        iso_at = iso_at;
        iso = delete_volume-IsVolumeGone _ _ disk_at iso_at iso;
        reservation = release-IsReservationGone cfg iso_at s' reservation;
      }
