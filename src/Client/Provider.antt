-- ===== src/Client/Provider.antt =====
-- internal/libvirtclient/provider.go: the operations that the controllers call. Each opens a
-- connection of its own and closes it on every way out.
pub mod Balance
pub mod Address
pub mod Deletion
pub mod Deleted
use cluster_api_provider_lib.Shared.{String, ◌<>◌, if◌then◌else◌}
use cluster_api_provider_lib.Errors.{Error, wrap, no_network, is_libvirt_err}
use cluster_api_provider_lib.Errors.Exec.{Exec, pure, fail, wrapping, ◌>>=◌, ◌>>◌}
use cluster_api_provider_lib.Config.{InfraConfig, MachineConfig, domain_disk_name, iso_disk_name}
use cluster_api_provider_lib.Network.Allocation.{derive_domain_mac}
use cluster_api_provider_lib.Network.Reservation.{machine_address, release_machine_ip}
use cluster_api_provider_lib.System.{System, Session, on_host, opening, opened, using}
use cluster_api_provider_lib.Client.Connection.{connect}
use cluster_api_provider_lib.Client.Infra.{ensure_network, ensure_base_pool, ensure_domain_pool}
use cluster_api_provider_lib.Client.Volumes.{delete_volume}
use cluster_api_provider_lib.Client.Domains.{
  DomainState, operations, create_domain, delete_domain, get_domain_state,
}

module _ (sys : System) where
  open sys.lv use {
    Connect, NetworkRef, lookup_domain_by_name, lookup_network_by_name,
    create_domain as start_defined,
  }

  -- `conn, err := connect(cfg)`, the error wrapped, and `defer conn.Close()`.
  abbrev pub connected :
      {A : Type 0} → InfraConfig → (Connect → Exec (Session sys) A) → Exec (Session sys) A
  connected cfg body = using (connect sys cfg) "connect to libvirt host: " body

  unfoldable pub ensure_infra : InfraConfig → Exec (Session sys) (Unit {0})
  ensure_infra cfg = connected cfg λ conn. do
    ensure_network sys conn cfg.network
    ensure_base_pool sys conn cfg.base_pool
    ensure_domain_pool sys conn cfg.domain_pool

  unfoldable pub create_machine : MachineConfig → Exec (Session sys) (Unit {0})
  create_machine cfg = connected cfg.infra_config λ conn. create_domain sys conn cfg

  -- StartMachine looks the domain up and does not free it.
  unfoldable pub start_machine : MachineConfig → Exec (Session sys) (Unit {0})
  start_machine cfg = connected cfg.infra_config λ conn. do
    domain ←
        wrapping ("lookup domain " <> (cfg.domain_name <> ": "))
          (opening sys (lookup_domain_by_name conn cfg.domain_name))
    wrapping ("start domain " <> (cfg.domain_name <> ": ")) (on_host sys (start_defined domain))

  unfoldable pub get_machine_state : MachineConfig → Exec (Session sys) DomainState
  get_machine_state cfg =
      connected cfg.infra_config λ conn. get_domain_state sys conn cfg.domain_name

  unfoldable pub release_machine_reservation :
      Connect → MachineConfig → Exec (Session sys) (Unit {0})
  release_machine_reservation conn cfg =
      opened (opening sys (lookup_network_by_name conn cfg.infra_config.network))
        (λ e.
          if is_libvirt_err e no_network
          then pure tt
          else fail (wrap ("lookup network " <> (cfg.infra_config.network <> ": ")) e))
        (λ network.
          release_machine_ip sys.net (operations sys network) cfg.infra_config.network
            cfg.domain_name (derive_domain_mac sys.net cfg.domain_name))

  -- DeleteMachine once the connection is open.
  unfoldable pub delete_resources : Connect → MachineConfig → Exec (Session sys) (Unit {0})
  delete_resources conn cfg = do
    delete_domain sys conn cfg.domain_name
    delete_volume sys conn cfg.infra_config.domain_pool (domain_disk_name cfg)
    delete_volume sys conn cfg.infra_config.domain_pool (iso_disk_name cfg)
    release_machine_reservation conn cfg

  unfoldable pub delete_machine : MachineConfig → Exec (Session sys) (Unit {0})
  delete_machine cfg = connected cfg.infra_config λ conn. delete_resources conn cfg

  unfoldable pub get_machine_address : MachineConfig → Exec (Session sys) String
  get_machine_address cfg = connected cfg.infra_config λ conn.
      using (opening sys (lookup_network_by_name conn cfg.infra_config.network))
        ("lookup network " <> (cfg.infra_config.network <> ": "))
        λ network.
          machine_address sys.net (operations sys network) cfg.infra_config.network
            (derive_domain_mac sys.net cfg.domain_name)
