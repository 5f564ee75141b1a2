-- ===== src/Controller/ClusterReconciler/Requeue.antt =====
-- When a reconcile of a LibvirtCluster comes back.
use cluster_api_provider_lib.Shared.{◌≡◌, ◌⊎◌, true, false, Option, arith}
use cluster_api_provider_lib.Errors.Exec.{Result, ◌>>=◌}
use cluster_api_provider_lib.Config.{Credentials, InfraConfig}
use cluster_api_provider_lib.Api.{LibvirtCluster, Cluster}
use cluster_api_provider_lib.Api.Status.{
  libvirt_cluster_finalizer, infrastructure_provisioning_in_progress_reason,
}
use cluster_api_provider_lib.Controller.{
  CtrlResult, Provider, Kube, KubeLib, Run, on_world, modify, reading,
}
use cluster_api_provider_lib.Controller.Credentials.{CredentialsLoader, load}
use cluster_api_provider_lib.Controller.ClusterReconciler.{
  new_infra_config, infrastructure_not_ready, endpoint_ready, put_cluster_condition,
  has_control_plane_endpoint, infra_result, creds_result, check_infrastructure, reconcile_normal,
}
use cluster_api_provider_lib.Controller.MachineReconciler.Requeue.{ComesBack}

module _ {W : Type 0} (lib : KubeLib) (kube : Kube W) (p : Provider W)
    (loader : CredentialsLoader) where
  -- The reconcile comes back, or the cluster is ready and provisioned.
  abbrev EndsReady : Result CtrlResult × Run W LibvirtCluster → Type 0
  EndsReady after =
      ComesBack after.0
      ⊎ ((after.1.obj.status.ready ≡ true) × (after.1.obj.status.initialization.provisioned ≡ true))

  creds_result-EndsReady :
      (cfg : InfraConfig) (r : Result (Option Credentials)) (run : Run W LibvirtCluster)
      → EndsReady (creds_result lib kube p loader cfg r run)
        × ((creds_result lib kube p loader cfg r run).1.obj.spec ≡ run.obj.spec)
  unfolding creds_result infra_result on_world modify put_cluster_condition ◌>>=◌
  creds_result-EndsReady cfg r run = ground arith

  check_infrastructure-EndsReady :
      (run : Run W LibvirtCluster)
      → EndsReady (check_infrastructure lib kube p loader run)
        × ((check_infrastructure lib kube p loader run).1.obj.spec ≡ run.obj.spec)
  unfolding check_infrastructure new_infra_config on_world modify reading put_cluster_condition load
      ◌>>=◌
  check_infrastructure-EndsReady run =
      let loaded = load kube loader run.obj run.world in
      let in_progress =
        infrastructure_not_ready lib kube p loader infrastructure_provisioning_in_progress_reason
          "Infrastructure provisioning in progress" (endpoint_ready lib kube p loader run.obj) in
      creds_result-EndsReady (new_infra_config run.obj) loaded.0
        (record { world = loaded.1; obj = in_progress })

  -- A reconcile of a LibvirtCluster that is not being deleted keeps its spec, and fails or asks to be
  -- run again after a positive time, unless the cluster is paused, its finalizer was missing and was
  -- put on, it has no control plane endpoint, or it is ready and provisioned afterwards.
  pub reconcile_normal-EndsReady :
      (owner : Cluster) (run : Run W LibvirtCluster)
      → let after = reconcile_normal lib kube p loader owner run in
        (after.1.obj.spec ≡ run.obj.spec)
        × (ComesBack after.0
            ⊎ (lib.is_paused owner run.obj.metadata ≡ true)
            ⊎ ((lib.contains_finalizer run.obj.metadata.finalizers libvirt_cluster_finalizer
                  ≡ false)
                × (after.1.obj.metadata.finalizers
                    ≡ lib.add_finalizer run.obj.metadata.finalizers libvirt_cluster_finalizer))
            ⊎ (has_control_plane_endpoint lib kube p loader owner run.obj ≡ false)
            ⊎ ((after.1.obj.status.ready ≡ true)
                × (after.1.obj.status.initialization.provisioned ≡ true)))
  unfolding reconcile_normal modify reading put_cluster_condition ◌>>=◌
  reconcile_normal-EndsReady owner run = grind (arith, check_infrastructure-EndsReady)
