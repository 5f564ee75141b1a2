-- ===== src/Controller/MachineReconciler/Requeue.antt =====
-- When a reconcile of a machine comes back.
use cluster_api_provider_lib.Shared.{◌≤◌, ◌≡◌, ◌⊎◌, true, false, arith}
use cluster_api_provider_lib.Errors.Exec.{Result, ok, IsErr, ◌>>=◌}
use cluster_api_provider_lib.Client.Domains.{DomainState, not_found, running, stopped, unknown}
use cluster_api_provider_lib.Api.{LibvirtMachine}
use cluster_api_provider_lib.Api.Status.{libvirt_machine_finalizer}
use cluster_api_provider_lib.Controller.{
  CtrlResult, Provider, Kube, KubeLib, Run, on_world, modify, reading,
}
use cluster_api_provider_lib.Controller.Identity.{set_provider_id}
use cluster_api_provider_lib.Controller.MachineReconciler.{
  MachineScope, observe_result, create_result, start_result, create_missing, reconcile_state,
  reconcile_normal,
}
use cluster_api_provider_lib.Controller.MachineStatus.{
  set_ready, set_available, set_addresses, set_finalizers, put_condition,
}

-- The controller runs again by itself: after an error, or after the time that the result gives.
abbrev pub ComesBack : Result CtrlResult → Type 0
ComesBack r = IsErr r ⊎ ((after : CtrlResult) × (r ≡ ok after) × (1 ≤ after.requeue_after))

module _ {W : Type 0} (lib : KubeLib) (kube : Kube W) (p : Provider W) (scope : MachineScope) where
  reconcile_state-ComesBack :
      (state : DomainState) (run : Run W LibvirtMachine)
      → let after = reconcile_state lib kube p scope state run in
        ComesBack after.0 ⊎ (after.1.obj.status.ready ≡ true)
  unfolding reconcile_state start_result create_result observe_result on_world modify reading
      set_ready set_available put_condition set_provider_id set_addresses create_missing ◌>>=◌
  reconcile_state-ComesBack not_found run = ground arith
  reconcile_state-ComesBack stopped run = ground arith
  reconcile_state-ComesBack running run = ground arith
  reconcile_state-ComesBack unknown run = ground arith

  -- A reconcile of a machine fails or asks to be run again after a time, unless the machine is paused,
  -- its finalizer was missing (and was put on, which is a change of the object), or it is ready.
  pub reconcile_normal-ComesBack :
      (run : Run W LibvirtMachine)
      → let after = reconcile_normal lib kube p scope run in
        ComesBack after.0
        ⊎ (lib.is_paused scope.cluster run.obj.metadata ≡ true)
        ⊎ ((lib.contains_finalizer run.obj.metadata.finalizers libvirt_machine_finalizer ≡ false)
            × (after.1.obj.metadata.finalizers
                ≡ lib.add_finalizer run.obj.metadata.finalizers libvirt_machine_finalizer))
        ⊎ (after.1.obj.status.ready ≡ true)
  unfolding reconcile_normal on_world modify reading set_available set_finalizers put_condition
      ◌>>=◌
  reconcile_normal-ComesBack run = grind (arith, reconcile_state-ComesBack)
