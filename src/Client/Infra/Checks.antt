-- ===== src/Client/Infra/Checks.antt =====
-- What the infrastructure checks report, by what the host answers.
use cluster_api_provider_lib.Shared.{String, ◌<>◌, Bool, ◌≡◌, arith, if◌then◌else◌}
use cluster_api_provider_lib.Errors.{
  libvirt, wrap, infra_inactive, no_network, no_storage_pool, is_libvirt_err,
}
use cluster_api_provider_lib.Errors.Exec.{ok, err, ◌>>=◌}
use cluster_api_provider_lib.System.{System, Session, on_host, opening, opened, free}
use cluster_api_provider_lib.Client.Infra.{
  infra_kind_network, infra_kind_storage_pool, infra_check_error, network_exists, is_network_active,
  storage_pool_exists, is_storage_pool_active, ensure_network, ensure_base_pool, ensure_domain_pool,
}

module _ (sys : System) (conn : sys.lv.Connect) (name : String) (s : Session sys) where
  -- When the host has no network of the name and looking it up changes nothing, ensureNetwork fails
  -- with the wrapped libvirt error of the second lookup, and so it does not report ErrInfraMissing.
  pub ensure_network_missing :
      (m : String)
      → sys.lv.lookup_network_by_name conn name s.host ≡ (err (libvirt no_network m), s.host)
      → (ensure_network sys conn name s).0
        ≡ err (wrap ("lookup network " <> (name <> ": ")) (libvirt no_network m))
  unfolding ensure_network network_exists is_network_active opened opening ◌>>=◌ free is_libvirt_err
      on_host infra_check_error
  ensure_network_missing m e = ground arith

  -- When the network is found and answers whether it is active, and neither call changes the host,
  -- ensureNetwork succeeds if it is active and reports ErrInfraInactive if it is not.
  pub ensure_network_present :
      (net : sys.lv.NetworkRef) (active : Bool)
      → sys.lv.lookup_network_by_name conn name s.host ≡ (ok net, s.host)
      → sys.lv.network_is_active net s.host ≡ (ok active, s.host)
      → (ensure_network sys conn name s).0
        ≡ (if active then ok tt else err (infra_inactive infra_kind_network name))
  unfolding ensure_network network_exists is_network_active opened opening ◌>>=◌ free is_libvirt_err
      on_host infra_check_error
  ensure_network_present net active e a = ground arith

  -- When the host has no pool of the name and looking it up changes nothing, ensureBasePool and
  -- ensureDomainPool fail with the wrapped libvirt error of the second lookup, not ErrInfraMissing.
  ensure_pools_missing :
      (m : String)
      → sys.lv.lookup_storage_pool_by_name conn name s.host
        ≡ (err (libvirt no_storage_pool m), s.host)
      → ((ensure_base_pool sys conn name s).0
          ≡ err (wrap ("lookup storage-pool " <> (name <> ": ")) (libvirt no_storage_pool m)))
        × ((ensure_domain_pool sys conn name s).0
            ≡ err (wrap ("lookup storage-pool " <> (name <> ": ")) (libvirt no_storage_pool m)))
  unfolding ensure_base_pool ensure_domain_pool storage_pool_exists is_storage_pool_active opened
      opening ◌>>=◌ free is_libvirt_err on_host infra_check_error
  ensure_pools_missing m e = ground arith

  -- When the pool is found and answers whether it is active, and neither call changes the host, both
  -- pool checks succeed if it is active and report ErrInfraInactive if it is not.
  ensure_pools_present :
      (pool : sys.lv.StoragePool) (active : Bool)
      → sys.lv.lookup_storage_pool_by_name conn name s.host ≡ (ok pool, s.host)
      → sys.lv.pool_is_active pool s.host ≡ (ok active, s.host)
      → ((ensure_base_pool sys conn name s).0
          ≡ (if active then ok tt else err (infra_inactive infra_kind_storage_pool name)))
        × ((ensure_domain_pool sys conn name s).0
            ≡ (if active then ok tt else err (infra_inactive infra_kind_storage_pool name)))
  unfolding ensure_base_pool ensure_domain_pool storage_pool_exists is_storage_pool_active opened
      opening ◌>>=◌ free is_libvirt_err on_host infra_check_error
  ensure_pools_present pool active e a = ground arith
