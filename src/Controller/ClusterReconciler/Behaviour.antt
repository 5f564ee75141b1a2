-- ===== src/Controller/ClusterReconciler/Behaviour.antt =====
-- What a reconcile of a LibvirtCluster does to the world and to the cluster.
use cluster_api_provider_lib.Shared.{◌≡◌, ◌⊎◌, inl, inr, true, false, Option, refl, arith}
use cluster_api_provider_lib.Errors.{Error}
use cluster_api_provider_lib.Errors.Exec.{Result, ok, err, ◌>>=◌}
use cluster_api_provider_lib.Config.{Credentials, InfraConfig}
use cluster_api_provider_lib.Api.{LibvirtCluster, Cluster}
use cluster_api_provider_lib.Api.Status.{
  libvirt_cluster_finalizer, infrastructure_provisioning_in_progress_reason,
}
use cluster_api_provider_lib.Controller.{
  no_requeue, Provider, Kube, KubeLib, Run, on_world, modify, reading,
}
use cluster_api_provider_lib.Controller.Credentials.{CredentialsLoader, load}
use cluster_api_provider_lib.Controller.ClusterReconciler.{
  new_infra_config, put_cluster_condition, has_control_plane_endpoint, infra_result, creds_result,
  check_infrastructure, reconcile_normal, reconcile_delete, infrastructure_not_ready,
  endpoint_ready,
}

module _ {W : Type 0} (lib : KubeLib) (kube : Kube W) (p : Provider W)
    (loader : CredentialsLoader) where
  open lib use {contains_finalizer, is_paused, remove_finalizer}

  infra_result_provisioned :
      (r : Result (Unit {0})) (run : Run W LibvirtCluster)
      → run.obj.status.initialization.provisioned ≡ false
      → ((infra_result lib kube p loader r run).1.obj.status.initialization.provisioned ≡ false)
        ⊎ (r ≡ ok tt)
  unfolding infra_result modify put_cluster_condition ◌>>=◌
  infra_result_provisioned (ok u) run fresh = inr refl
  infra_result_provisioned (err e) run fresh = inl fresh

  creds_result_provisioned :
      (cfg : InfraConfig) (r : Result (Option Credentials)) (run : Run W LibvirtCluster)
      → run.obj.status.initialization.provisioned ≡ false
      → ((creds_result lib kube p loader cfg r run).1.obj.status.initialization.provisioned ≡ false)
        ⊎ ((creds : Option Credentials) × (r ≡ ok creds)
            × ((p.ensure_infra (record cfg { credentials = creds }) run.world).0 ≡ ok tt))
  unfolding creds_result on_world modify put_cluster_condition ◌>>=◌
  creds_result_provisioned cfg (err e) run fresh = inl fresh
  creds_result_provisioned cfg (ok creds) run fresh =
      let ensured = p.ensure_infra (record cfg { credentials = creds }) run.world in
      elim (infra_result_provisioned ensured.0 (record run { world = ensured.1 }) fresh) [
        | inl e ↦ inl e
        | inr e ↦ inr (creds, refl, e)
      ]

  -- The credentials were read and EnsureInfra, asked with the cluster's own configuration and these
  -- credentials, succeeded.
  pub IsEnsured : Run W LibvirtCluster → Type 0
  IsEnsured run =
      let loaded = load kube loader run.obj run.world in
      (creds : Option Credentials) × (loaded.0 ≡ ok creds)
      × ((p.ensure_infra (record (new_infra_config run.obj) { credentials = creds }) loaded.1).0
          ≡ ok tt)

  checked :
      (run : Run W LibvirtCluster)
      → run.obj.status.initialization.provisioned ≡ false
      → ((check_infrastructure lib kube p loader run).1.obj.status.initialization.provisioned
          ≡ false)
        ⊎ IsEnsured run
  unfolding check_infrastructure new_infra_config on_world modify reading put_cluster_condition load
      IsEnsured ◌>>=◌
  checked run fresh =
      let loaded = load kube loader run.obj run.world in
      let in_progress =
        infrastructure_not_ready lib kube p loader infrastructure_provisioning_in_progress_reason
          "Infrastructure provisioning in progress" (endpoint_ready lib kube p loader run.obj) in
      creds_result_provisioned (new_infra_config run.obj) loaded.0
        (record { world = loaded.1; obj = in_progress }) fresh

  -- A LibvirtCluster that is not provisioned is so after a reconcile only when it is not paused,
  -- has the finalizer and a control plane endpoint, its credentials were read and EnsureInfra
  -- succeeded.
  pub reconcile_normal_provisioned :
      (owner : Cluster) (run : Run W LibvirtCluster)
      → run.obj.status.initialization.provisioned ≡ false
      → ((reconcile_normal lib kube p loader owner run).1.obj.status.initialization.provisioned
          ≡ false)
        ⊎ ((is_paused owner run.obj.metadata ≡ false)
            × (contains_finalizer run.obj.metadata.finalizers libvirt_cluster_finalizer ≡ true)
            × (has_control_plane_endpoint lib kube p loader owner run.obj ≡ true)
            × IsEnsured run)
  unfolding reconcile_normal modify reading ◌>>=◌
  reconcile_normal_provisioned owner run fresh = grind (arith, checked)

  -- The deletion of a LibvirtCluster leaves the world outside as it is, takes the finalizer off and
  -- leaves the status and the spec as they are. When there is no finalizer to take off, it fails with
  -- the cluster unchanged.
  reconcile_delete-world :
      (owner : Cluster) (run : Run W LibvirtCluster)
      → let removed = remove_finalizer run.obj.metadata.finalizers libvirt_cluster_finalizer in
        let after = reconcile_delete lib kube p loader owner run in
        (after.1.world ≡ run.world)
        × (after.1.obj.status ≡ run.obj.status)
        × (after.1.obj.spec ≡ run.obj.spec)
        × (((removed.1 ≡ true)
              × (after.0 ≡ ok no_requeue)
              × (after.1.obj.metadata.finalizers ≡ removed.0))
            ⊎ ((removed.1 ≡ false) × ((e : Error) × (after.0 ≡ err e) × (after.1.obj ≡ run.obj))))
  unfolding reconcile_delete modify reading ◌>>=◌
  reconcile_delete-world owner run = ground arith
