-- ===== src/Controller/MachineReconciler/Convergence.antt =====
-- The first two reconciles of a new machine.
use cluster_api_provider_lib.Shared.{String, ◌<>◌, ◌≡◌, refl, true, false, none, some, List, arith}
use cluster_api_provider_lib.Errors.Exec.{ok, ◌>>=◌}
use cluster_api_provider_lib.Config.{Bytes}
use cluster_api_provider_lib.Client.Domains.{not_found}
use cluster_api_provider_lib.Api.{LibvirtMachine}
use cluster_api_provider_lib.Api.Status.{libvirt_machine_finalizer}
use cluster_api_provider_lib.Controller.{
  no_requeue, Provider, Kube, KubeLib, Run, on_world, modify, reading,
}
use cluster_api_provider_lib.Controller.Identity.{provider_id_prefix}
use cluster_api_provider_lib.Controller.MachineStatus.{set_available, set_finalizers}
use cluster_api_provider_lib.Controller.MachineReconciler.{
  MachineScope, is_provisioned, get_cloud_init_data, reconcile_normal,
}
use cluster_api_provider_lib.Controller.MachineReconciler.Creation.{reconcile_normal_created}

module _ {W : Type 0} (lib : KubeLib) (kube : Kube W) (p : Provider W) (scope : MachineScope)
    (run : Run W LibvirtMachine) (alive : run.obj.metadata.deleting ≡ false)
    (unpaused : (finalizers : List String)
      → lib.is_paused scope.cluster (record run.obj.metadata { finalizers = finalizers }) ≡ false)
    (unguarded : lib.contains_finalizer run.obj.metadata.finalizers libvirt_machine_finalizer
      ≡ false) where
  -- The machine after the first reconcile.
  abbrev guarded_machine : LibvirtMachine
  guarded_machine = set_available false (
      set_finalizers (lib.add_finalizer run.obj.metadata.finalizers libvirt_machine_finalizer)
        run.obj)

  reconcile_normal_first :
      reconcile_normal lib kube p scope run
      ≡ (ok no_requeue, record { world = run.world; obj = guarded_machine })
  unfolding reconcile_normal on_world modify reading ◌>>=◌
  reconcile_normal_first = ground (arith, unpaused run.obj.metadata.finalizers)

  -- A new machine, that is not paused and whose cluster's infrastructure is provisioned, is ready after
  -- two reconciles: when the finalizer that is put on is found, whether the machine is paused does not
  -- depend on the finalizers, the domain is not there, the user data can be read and CreateMachine
  -- succeeds, the first one only puts the finalizer on and the second one creates the domain, makes the
  -- machine ready and gives it the provider ID of its UID.
  pub reconcile_normal_twice :
      lib.contains_finalizer
          (lib.add_finalizer run.obj.metadata.finalizers libvirt_machine_finalizer)
          libvirt_machine_finalizer
        ≡ true
      → is_provisioned scope.cluster.infrastructure_provisioned ≡ true
      → run.obj.spec.provider_id ≡ none
      → (secret : String) → scope.machine.data_secret_name ≡ some secret
      → (user_data : Bytes) (w w' w'' : W)
      → p.get_machine_state scope.machine_config run.world ≡ (ok not_found, w)
      → get_cloud_init_data lib kube p scope.machine.metadata.namespace secret w
        ≡ (ok user_data, w')
      → p.create_machine (record scope.machine_config { user_data = user_data }) w' ≡ (ok tt, w'')
      → let first = reconcile_normal lib kube p scope run in
        let second = reconcile_normal lib kube p scope first.1 in
        (first.0 ≡ ok no_requeue)
        × (first.1.world ≡ run.world)
        × (second.0 ≡ ok no_requeue)
        × (second.1.world ≡ w'')
        × (second.1.obj.status.ready ≡ true)
        × (second.1.obj.spec.provider_id ≡ some (provider_id_prefix <> run.obj.metadata.uid))
  unfolding set_available set_finalizers
  reconcile_normal_twice guarded provisioned fresh secret bootstrapped user_data w w' w'' absent
        known created =
      let later =
        reconcile_normal_created lib kube p scope
          (record { world = run.world; obj = guarded_machine }) alive
          (unpaused (lib.add_finalizer run.obj.metadata.finalizers libvirt_machine_finalizer))
          guarded provisioned fresh secret bootstrapped user_data w w' w'' absent known created in
      rw (reconcile_normal_first) (refl, refl, later.0, later.1, later.2, later.4)
