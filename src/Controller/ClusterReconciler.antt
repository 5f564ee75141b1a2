-- ===== src/Controller/ClusterReconciler.antt =====
-- LibvirtClusterReconciler of internal/controller/libvirtcluster_controller.go.
pub mod Behaviour
pub mod Requeue
pub mod Reasons
use cluster_api_provider_lib.Shared.{
  String, ◌<>◌, Bool, true, false, ◌||◌, not, Option, none, some, if◌then◌else◌,
}
use cluster_api_provider_lib.Errors.{
  Error, message, error_text, is_not_found, is_infra_missing, is_infra_inactive,
}
use cluster_api_provider_lib.Errors.Exec.{Result, ok, err, Exec, pure, fail, attempt, ◌>>=◌, ◌>>◌}
use cluster_api_provider_lib.Config.{Credentials, InfraConfig}
use cluster_api_provider_lib.Api.{
  get_cluster_conditions, set_cluster_conditions, NamespacedName, ConditionStatus, condition_true,
  condition_false, LibvirtCluster, Cluster,
}
use cluster_api_provider_lib.Api.Status.{
  libvirt_cluster_finalizer, infrastructure_ready_condition,
  infrastructure_provisioning_in_progress_reason, infrastructure_provisioning_failed_reason,
  infrastructure_missing_reason, infrastructure_inactive_reason, credentials_unavailable_reason,
  control_plane_endpoint_ready_condition, control_plane_endpoint_ready_reason,
  control_plane_endpoint_missing_reason,
}
use cluster_api_provider_lib.Controller.{
  CtrlResult, requeue, no_requeue, requeue_time_short, patched, Provider, Kube, KubeLib, Run,
  on_world, modify, reading,
}
use cluster_api_provider_lib.Controller.Credentials.{CredentialsLoader, load}

-- getInfraError
unfoldable pub get_infra_error : Error → String
get_infra_error e =
    if is_infra_missing e
    then infrastructure_missing_reason
    else if is_infra_inactive e
    then infrastructure_inactive_reason
    else infrastructure_provisioning_failed_reason

unfoldable pub new_infra_config : LibvirtCluster → InfraConfig
new_infra_config c = record {
  uri = c.spec.uri;
  base_pool = c.spec.base_pool;
  domain_pool = c.spec.domain_pool;
  network = c.spec.network;
  credentials = none;
}

-- Status.Ready and Status.Initialization.Provisioned are set together.
abbrev pub set_cluster_available : Bool → LibvirtCluster → LibvirtCluster
set_cluster_available b c = record c {
  status = record c.status { ready = b; initialization = record { provisioned = b } };
}

module _ {W : Type 0} (lib : KubeLib) (kube : Kube W) (p : Provider W)
    (loader : CredentialsLoader) where
  open lib use {
    set_condition, contains_finalizer, add_finalizer, remove_finalizer, is_paused, is_valid,
  }

  abbrev pub ClusterAct : Type 0 → Type 0
  ClusterAct A = Exec (Run W LibvirtCluster) A

  unfoldable pub put_cluster_condition :
      String → ConditionStatus → String → String → LibvirtCluster → LibvirtCluster
  unfolding get_cluster_conditions set_cluster_conditions
  put_cluster_condition type status reason text c =
      set_cluster_conditions
        (set_condition (record { type = type; status = status; reason = reason; message = text })
          (get_cluster_conditions c))
        c

  abbrev pub infrastructure_not_ready : String → String → LibvirtCluster → LibvirtCluster
  infrastructure_not_ready reason text c =
      put_cluster_condition infrastructure_ready_condition condition_false reason text c

  abbrev pub endpoint_missing : LibvirtCluster → LibvirtCluster
  endpoint_missing c = set_cluster_available false (
      put_cluster_condition control_plane_endpoint_ready_condition condition_false
        control_plane_endpoint_missing_reason
        "Set spec.controlPlaneEndpoint on the LibvirtCluster or the Cluster" c)

  abbrev pub endpoint_ready : LibvirtCluster → LibvirtCluster
  endpoint_ready c =
      put_cluster_condition control_plane_endpoint_ready_condition condition_true
        control_plane_endpoint_ready_reason "" c

  abbrev pub cluster_is_provisioned : LibvirtCluster → LibvirtCluster
  cluster_is_provisioned c = set_cluster_available true (
      put_cluster_condition infrastructure_ready_condition condition_true
        infrastructure_ready_condition "All infrastructure components are ready" c)

  unfoldable pub has_control_plane_endpoint : Cluster → LibvirtCluster → Bool
  has_control_plane_endpoint owner c =
      is_valid c.spec.control_plane_endpoint || is_valid owner.control_plane_endpoint

  unfoldable pub infra_result : Result (Unit {0}) → ClusterAct CtrlResult
  infra_result (err e) = do
    modify (infrastructure_not_ready (get_infra_error e) (error_text e))
    pure (requeue requeue_time_short)
  infra_result (ok _) = do modify cluster_is_provisioned; pure no_requeue

  -- `cfg` is the scope's InfraConfig, made before the reconcile changes the object.
  unfoldable pub creds_result : InfraConfig → Result (Option Credentials) → ClusterAct CtrlResult
  creds_result cfg (err e) = do
    modify (infrastructure_not_ready credentials_unavailable_reason (error_text e))
    pure (requeue requeue_time_short)
  creds_result cfg (ok creds) =
      attempt (on_world (p.ensure_infra (record cfg { credentials = creds }))) infra_result

  unfoldable pub check_infrastructure : ClusterAct CtrlResult
  unfolding creds_result infra_result
  check_infrastructure = do
    modify endpoint_ready
    modify (
        infrastructure_not_ready infrastructure_provisioning_in_progress_reason
          "Infrastructure provisioning in progress")
    reading λ c. attempt (on_world (load kube loader c)) (creds_result (new_infra_config c))

  unfoldable pub reconcile_normal : Cluster → ClusterAct CtrlResult
  unfolding check_infrastructure
  reconcile_normal owner = reading λ c.
      if is_paused owner c.metadata
      then pure no_requeue
      else if not (contains_finalizer c.metadata.finalizers libvirt_cluster_finalizer)
      then (do
        modify (λ c. record c {
          metadata = record c.metadata {
            finalizers = add_finalizer c.metadata.finalizers libvirt_cluster_finalizer;
          };
        })
        pure no_requeue)
      else if not (has_control_plane_endpoint owner c)
      then (do modify endpoint_missing; pure no_requeue)
      else check_infrastructure

  unfoldable pub reconcile_delete : Cluster → ClusterAct CtrlResult
  reconcile_delete owner = reading λ c.
      if (remove_finalizer c.metadata.finalizers libvirt_cluster_finalizer).1
      then (do
        modify (λ c. record c {
          metadata = record c.metadata {
            finalizers = (remove_finalizer c.metadata.finalizers libvirt_cluster_finalizer).0;
          };
        })
        pure no_requeue)
      else fail (
          message (
            "unable to remove finalizer "
            <> (libvirt_cluster_finalizer
                <> (" from LibvirtCluster  "
                    <> (owner.metadata.namespace <> ("/" <> owner.metadata.name))))))

  -- Reconcile between the patch helper and its deferred patch.
  unfoldable pub reconcile_body : Option Cluster → ClusterAct CtrlResult
  reconcile_body none = pure no_requeue
  reconcile_body (some owner) =
      reading λ c. if c.metadata.deleting then reconcile_delete owner else reconcile_normal owner

  unfoldable pub reconcile_object : LibvirtCluster → Option Cluster → Exec W CtrlResult
  reconcile_object c owner w =
      let run : Run W LibvirtCluster = record { world = w; obj = c } in
      let (r, after) = reconcile_body owner run in
      let (patch_result, w') = kube.patch_cluster c after.obj after.world in
      (patched r patch_result, w')

  fetched : Result LibvirtCluster → Exec W CtrlResult
  fetched (err e) = if is_not_found e then pure no_requeue else fail e
  fetched (ok c) = do
    owner ← kube.get_owner_cluster c.metadata
    kube.new_cluster_helper c >>= λ _. reconcile_object c owner

  unfoldable pub reconcile : NamespacedName → Exec W CtrlResult
  unfolding fetched
  reconcile request = attempt (kube.get_libvirt_cluster request) fetched
