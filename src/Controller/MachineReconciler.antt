-- ===== src/Controller/MachineReconciler.antt =====
-- LibvirtMachineReconciler of internal/controller/libvirtmachine_controller.go. A reconcile changes
-- the LibvirtMachine in memory, on error paths too, and its end writes the object back by a patch.
pub mod Body
pub mod Invariants
pub mod Outcomes
pub mod Creation
pub mod Requeue
pub mod Convergence
pub mod Admission
pub mod Addresses
pub use cluster_api_provider_lib.Controller.MachineScope.{MachineScope}
unfoldable pub use cluster_api_provider_lib.Controller.MachineScope.{
  domain_state_check_interval, new_machine_config, find_key, is_provisioned,
}
use cluster_api_provider_lib.Shared.{
  ℕ, str_eq, String, ◌<>◌, Bool, true, false, not, ◌&&◌, Option, none, some, List, [], ◌∷◌,
  if◌then◌else◌, is_some,
}
use cluster_api_provider_lib.Errors.{Error, message, wrap, error_text, is_not_found}
use cluster_api_provider_lib.Errors.Exec.{
  Result, ok, err, Exec, pure, fail, lift, wrapping, attempt, ◌>>=◌, ◌>>◌,
}
use cluster_api_provider_lib.Config.{Bytes, Credentials, InfraConfig, MachineConfig}
use cluster_api_provider_lib.Client.Domains.{DomainState, not_found, running, stopped, unknown}
use cluster_api_provider_lib.Api.{
  ObjectMeta, NamespacedName, Condition, ConditionStatus, condition_true, condition_false,
  MachineAddress, LibvirtMachine, LibvirtCluster, Cluster, Machine,
}
use cluster_api_provider_lib.Api.Status.{
  libvirt_machine_finalizer, infrastructure_ready_condition, infrastructure_ready_reason,
  infrastructure_provisioning_in_progress_reason, machine_created_condition,
  domain_provisioning_ready_condition, domain_provisioning_in_progress_reason,
  domain_provisioning_failed_reason, domain_running_condition, domain_not_running_reason,
  domain_not_found_reason,
}
use cluster_api_provider_lib.Controller.{
  CtrlResult, requeue, no_requeue, requeue_time_short, patched, Provider, SecretData, Kube, KubeLib,
  Run, on_world, modify, reading,
}
use cluster_api_provider_lib.Controller.MachineStatus.{
  set_ready, set_available, set_addresses, set_finalizers, waiting_for_infrastructure,
  infrastructure_is_ready, provisioning_in_progress, provisioning_failed, machine_is_created,
  domain_not_running, domain_is_running, domain_is_lost,
}
use cluster_api_provider_lib.Controller.Identity.{domain_name, domain_uuid, set_provider_id}
use cluster_api_provider_lib.Controller.Credentials.{CredentialsLoader, load, shown}

module _ {W : Type 0} (lib : KubeLib) (kube : Kube W) (p : Provider W) where
  open lib use {contains_finalizer, add_finalizer, remove_finalizer, is_paused}

  -- An action of the reconciler.
  abbrev pub Act : Type 0 → Type 0
  Act A = Exec (Run W LibvirtMachine) A

  unfoldable pub get_cloud_init_data : (namespace name : String) → Exec W Bytes
  get_cloud_init_data namespace name = do
    let key : NamespacedName = record { namespace = namespace; name = name }
    content ← kube.get_secret key
    elim (find_key content "value") [
      | none ↦ fail (message ("no userData key found in secret " <> shown key))
      | some user_data ↦ pure user_data
    ]

  module _ (scope : MachineScope) where
    unfoldable pub observe_result : Result String → Act CtrlResult
    observe_result (err e) = pure (requeue requeue_time_short)
    observe_result (ok address) =
        if str_eq address "" then pure (requeue requeue_time_short) else (do
          modify (set_addresses (record { type = "InternalIP"; address = address } ∷ []))
          pure (requeue domain_state_check_interval))

    unfoldable pub observe_machine_address : Act CtrlResult
    unfolding observe_result
    observe_machine_address =
        attempt (on_world (p.get_machine_address scope.machine_config)) observe_result

    unfoldable pub reconcile_lost_domain : Act CtrlResult
    reconcile_lost_domain = do
      modify (domain_is_lost lib scope.machine_config.domain_name)
      pure (requeue domain_state_check_interval)

    unfoldable pub create_result : Result (Unit {0}) → Act CtrlResult
    create_result (err e) = do modify (provisioning_failed lib e); fail e
    create_result (ok _) = do modify (machine_is_created lib); pure no_requeue

    -- `case missing` once the provider ID is known to be nil.
    unfoldable pub create_missing : Option String → Act CtrlResult
    unfolding create_result
    create_missing none = do
      modify (provisioning_in_progress lib)
      modify (set_ready false)
      pure (requeue domain_state_check_interval)
    create_missing (some secret) = do
      modify (provisioning_in_progress lib)
      user_data ←
          wrapping "error during getting cloud init user data: "
            (on_world (get_cloud_init_data scope.machine.metadata.namespace secret))
      attempt (on_world (p.create_machine (record scope.machine_config { user_data = user_data })))
          create_result

    unfoldable pub start_result : Result (Unit {0}) → Act CtrlResult
    start_result (err e) = do
      modify (domain_not_running lib ("Failed start Domain: " <> error_text e))
      fail e
    start_result (ok _) = do
      modify (λ m. set_available true (set_provider_id m))
      pure (requeue requeue_time_short)

    -- The switch over the domain's state.
    unfoldable pub reconcile_state : DomainState → Act CtrlResult
    unfolding reconcile_lost_domain create_missing start_result observe_machine_address
    reconcile_state not_found = reading λ m.
        if is_some m.spec.provider_id
        then reconcile_lost_domain
        else create_missing scope.machine.data_secret_name
    reconcile_state stopped = do
      modify (λ m. domain_not_running lib "Domain is stopped, starting it" (set_ready false m))
      attempt (on_world (p.start_machine scope.machine_config)) start_result
    reconcile_state running = do modify (domain_is_running lib); observe_machine_address
    reconcile_state unknown = do modify (set_available false); pure (requeue requeue_time_short)

    unfoldable pub reconcile_normal : Act CtrlResult
    unfolding reconcile_state
    reconcile_normal = reading λ m.
        if is_paused scope.cluster m.metadata
        then (do modify (set_available false); pure no_requeue)
        else if not (contains_finalizer m.metadata.finalizers libvirt_machine_finalizer)
            && not m.metadata.deleting
        then (do
          modify (λ m.
              set_available false
                (set_finalizers (add_finalizer m.metadata.finalizers libvirt_machine_finalizer) m))
          pure no_requeue)
        else if not (is_provisioned scope.cluster.infrastructure_provisioned)
        then (do modify (waiting_for_infrastructure lib); pure (requeue requeue_time_short))
        else (do
          modify (infrastructure_is_ready lib)
          state ← on_world (p.get_machine_state scope.machine_config)
          reconcile_state state)

    -- The finalizer is taken off; it is an error when it was not there.
    unfoldable pub drop_finalizer : Act CtrlResult
    drop_finalizer = reading λ m.
        if (remove_finalizer m.metadata.finalizers libvirt_machine_finalizer).1
        then (do
          modify
              (set_finalizers (remove_finalizer m.metadata.finalizers libvirt_machine_finalizer).0)
          pure no_requeue)
        else fail (
            message (
              "unable to remove finalizer "
              <> (libvirt_machine_finalizer
                  <> (" from LibvirtMachine  "
                      <> (scope.machine.metadata.namespace
                          <> ("/" <> scope.machine.metadata.name))))))

    unfoldable pub reconcile_delete : Act CtrlResult
    unfolding drop_finalizer
    reconcile_delete = do on_world (p.delete_machine scope.machine_config); drop_finalizer

  module _ (sha256_hex : String → String) (loader : CredentialsLoader) where
    -- Reconcile once the owner Machine and its Cluster are known.
    unfoldable pub reconcile_owned : Machine → Cluster → Act CtrlResult
    reconcile_owned owner_machine owner_cluster = do
      libvirt_cluster ← on_world (
          kube.get_libvirt_cluster (record {
            namespace = owner_cluster.metadata.namespace;
            name = owner_cluster.infrastructure_ref_name;
          }))
      creds ← on_world (load kube loader libvirt_cluster)
      reading λ m.
          let cfg = new_machine_config sha256_hex m libvirt_cluster in
          let scope : MachineScope = record {
            cluster = owner_cluster;
            machine = owner_machine;
            machine_config = record cfg {
              infra_config = record cfg.infra_config { credentials = creds };
            };
          } in
          if m.metadata.deleting then reconcile_delete scope else reconcile_normal scope

    with_cluster : Machine → Option Cluster → Act CtrlResult
    with_cluster owner_machine none = pure no_requeue
    with_cluster owner_machine (some owner_cluster) = reconcile_owned owner_machine owner_cluster

    with_machine : Option Machine → Act CtrlResult
    unfolding with_cluster
    with_machine none = pure (requeue requeue_time_short)
    with_machine (some owner_machine) = do
      owner_cluster ← on_world (kube.get_cluster_from_metadata owner_machine.metadata)
      with_cluster owner_machine owner_cluster

    -- Reconcile between the patch helper and its deferred patch.
    unfoldable pub reconcile_body : Act CtrlResult
    unfolding with_machine
    reconcile_body = do
      owner_machine ← reading λ m. on_world (kube.get_owner_machine m.metadata)
      with_machine owner_machine

    unfoldable pub reconcile_object : LibvirtMachine → Exec W CtrlResult
    reconcile_object m w =
        let run : Run W LibvirtMachine = record { world = w; obj = m } in
        let (r, after) = reconcile_body run in
        let (patch_result, w') = kube.patch_machine m after.obj after.world in
        (patched r patch_result, w')

    fetched : Result LibvirtMachine → Exec W CtrlResult
    fetched (err e) = if is_not_found e then pure no_requeue else fail e
    fetched (ok m) = do kube.new_machine_helper m; reconcile_object m

    unfoldable pub reconcile : NamespacedName → Exec W CtrlResult
    unfolding fetched
    reconcile request = attempt (kube.get_libvirt_machine request) fetched
