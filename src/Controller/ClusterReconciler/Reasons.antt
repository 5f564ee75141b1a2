-- ===== src/Controller/ClusterReconciler/Reasons.antt =====
-- The condition that a LibvirtCluster gets from what EnsureInfra of the libvirt client finds.
use cluster_api_provider_lib.Shared.{String, ◌≡◌, refl, false, arith}
use cluster_api_provider_lib.Errors.{
  Error, libvirt, no_network, is_infra_missing, is_infra_inactive,
}
use cluster_api_provider_lib.Errors.Exec.{ok, err, ◌>>=◌}
use cluster_api_provider_lib.Config.{InfraConfig}
use cluster_api_provider_lib.Api.Status.{
  infrastructure_provisioning_failed_reason, infrastructure_inactive_reason,
}
use cluster_api_provider_lib.System.{System, Session, opened}
use cluster_api_provider_lib.Client.Connection.{connect}
use cluster_api_provider_lib.Client.Infra.{ensure_network}
use cluster_api_provider_lib.Client.Infra.Checks.{ensure_network_missing, ensure_network_present}
use cluster_api_provider_lib.Client.Provider.{ensure_infra}
use cluster_api_provider_lib.Controller.ClusterReconciler.{get_infra_error}

module _ (sys : System) (cfg : InfraConfig) (s t : Session sys) (conn : sys.lv.Connect)
    (opens : connect sys cfg s ≡ (ok conn, t)) where
  -- An error of the network check is that of EnsureInfra.
  ensure_infra_failed :
      (e : Error)
      → (ensure_network sys conn cfg.network t).0 ≡ err e
      → (ensure_infra sys cfg s).0 ≡ err e
  unfolding ensure_infra opened ◌>>=◌
  ensure_infra_failed e failed = ground (arith, opens, failed)

  -- When the connection opens and the host has no network of the name, and looking it up changes
  -- nothing, EnsureInfra fails with an error for which the condition's reason is not
  -- InfrastructureMissing but InfrastructureProvisioningFailed.
  pub ensure_infra_missing :
      (m : String)
      → sys.lv.lookup_network_by_name conn cfg.network t.host ≡ (err (libvirt no_network m), t.host)
      → (e : Error) × ((ensure_infra sys cfg s).0 ≡ err e)
        × (get_infra_error e ≡ infrastructure_provisioning_failed_reason)
  unfolding get_infra_error is_infra_missing is_infra_inactive
  ensure_infra_missing m none_there =
      let failed = ensure_network_missing sys conn cfg.network t m none_there in
      (_, ensure_infra_failed _ failed, refl)

  -- When the connection opens and the host has the network, inactive, and asking changes nothing,
  -- EnsureInfra fails with an error for which the condition's reason is InfrastructureInactive.
  ensure_infra_inactive :
      (net : sys.lv.NetworkRef)
      → sys.lv.lookup_network_by_name conn cfg.network t.host ≡ (ok net, t.host)
      → sys.lv.network_is_active net t.host ≡ (ok false, t.host)
      → (e : Error) × ((ensure_infra sys cfg s).0 ≡ err e)
        × (get_infra_error e ≡ infrastructure_inactive_reason)
  unfolding get_infra_error is_infra_missing is_infra_inactive
  ensure_infra_inactive net there asleep =
      let failed = ensure_network_present sys conn cfg.network t net false there asleep in
      (_, ensure_infra_failed _ failed, refl)
