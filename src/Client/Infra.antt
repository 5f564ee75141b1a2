-- ===== src/Client/Infra.antt =====
-- internal/libvirtclient/infra.go: the checks that the network and the pools of a cluster exist and
-- are active.
pub mod Checks
use cluster_api_provider_lib.Shared.{String, ◌<>◌, Bool, true, false, if◌then◌else◌}
use cluster_api_provider_lib.Errors.{
  Error, wrap, infra_missing, infra_inactive, no_network, no_storage_pool, is_libvirt_err,
}
use cluster_api_provider_lib.Errors.Exec.{Result, ok, err, Exec, pure, fail, lift, wrapping, ◌>>=◌}
use cluster_api_provider_lib.System.{System, Session, on_host, opening, opened, using}

abbrev pub infra_kind_storage_pool : String
infra_kind_storage_pool = "storagePool"

abbrev pub infra_kind_network : String
infra_kind_network = "network"

unfoldable pub infra_check_error : String → String → (exists active : Bool) → Result (Unit {0})
infra_check_error kind name exists active =
    if exists
    then (if active then ok tt else err (infra_inactive kind name))
    else err (infra_missing kind name)

module _ (sys : System) where
  open sys.lv use {
    Connect, lookup_network_by_name, network_is_active, lookup_storage_pool_by_name, pool_is_active,
  }
  open sys.net use {quote}

  unfoldable pub network_exists : Connect → String → Exec (Session sys) Bool
  network_exists conn name =
      opened (opening sys (lookup_network_by_name conn name))
        (λ e.
          if is_libvirt_err e no_network
          then pure false
          else fail (wrap ("lookup network " <> (name <> ": ")) e))
        (λ net. pure true)

  unfoldable pub is_network_active : Connect → String → Exec (Session sys) Bool
  is_network_active conn name =
      using (opening sys (lookup_network_by_name conn name)) ("lookup network " <> (name <> ": "))
        λ net.
          wrapping ("check network active " <> (quote name <> ": "))
            (on_host sys (network_is_active net))

  unfoldable pub storage_pool_exists : Connect → String → Exec (Session sys) Bool
  storage_pool_exists conn name =
      opened (opening sys (lookup_storage_pool_by_name conn name))
        (λ e.
          if is_libvirt_err e no_storage_pool
          then pure false
          else fail (wrap ("lookup storage-pool " <> (name <> ": ")) e))
        (λ pool. pure true)

  unfoldable pub is_storage_pool_active : Connect → String → Exec (Session sys) Bool
  is_storage_pool_active conn name =
      using (opening sys (lookup_storage_pool_by_name conn name))
        ("lookup storage-pool " <> (name <> ": "))
        λ pool.
          wrapping ("check storage pool active " <> (quote name <> ": "))
            (on_host sys (pool_is_active pool))

  unfoldable pub ensure_network : Connect → String → Exec (Session sys) (Unit {0})
  ensure_network conn name = do
    net_exists ← network_exists conn name
    net_active ← is_network_active conn name
    lift (infra_check_error infra_kind_network name net_exists net_active)

  unfoldable pub ensure_base_pool : Connect → String → Exec (Session sys) (Unit {0})
  ensure_base_pool conn name = do
    base_pool_exists ← storage_pool_exists conn name
    base_pool_active ← is_storage_pool_active conn name
    lift (infra_check_error infra_kind_storage_pool name base_pool_exists base_pool_active)

  unfoldable pub ensure_domain_pool : Connect → String → Exec (Session sys) (Unit {0})
  ensure_domain_pool conn name = do
    domain_pool_exists ← storage_pool_exists conn name
    domain_pool_active ← is_storage_pool_active conn name
    lift (infra_check_error infra_kind_storage_pool name domain_pool_exists domain_pool_active)
