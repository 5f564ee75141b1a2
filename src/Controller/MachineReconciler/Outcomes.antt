-- ===== src/Controller/MachineReconciler/Outcomes.antt =====
-- What a reconcile of a machine does to the world and to the machine in the situations that the code
-- tells apart.
use cluster_api_provider_lib.Shared.{
  String, ◌≡◌, ◌⊎◌, true, false, some, is_some, inl, inr, arith, [], ◌∷◌, refl, str_eq,
}
use cluster_api_provider_lib.Errors.{Error}
use cluster_api_provider_lib.Errors.Exec.{Result, ok, err, Exec, ◌>>=◌}
use cluster_api_provider_lib.Config.{MachineConfig}
use cluster_api_provider_lib.Client.Domains.{DomainState, not_found, running, stopped, unknown}
use cluster_api_provider_lib.Api.{LibvirtMachine}
use cluster_api_provider_lib.Api.Status.{libvirt_machine_finalizer}
use cluster_api_provider_lib.Controller.{
  CtrlResult, requeue, no_requeue, patched, Provider, Kube, KubeLib, Run, on_world, modify, reading,
}
use cluster_api_provider_lib.Controller.Identity.{set_provider_id}
use cluster_api_provider_lib.Controller.Credentials.{CredentialsLoader}
use cluster_api_provider_lib.Controller.MachineReconciler.{
  MachineScope, observe_result, start_result, reconcile_state, reconcile_normal,
  domain_state_check_interval, is_provisioned, drop_finalizer, reconcile_delete,
  reconcile_lost_domain, reconcile_body, reconcile_object,
}
use cluster_api_provider_lib.Controller.MachineStatus.{
  set_ready, set_available, set_addresses, set_finalizers, put_condition,
}

module _ {W : Type 0} (lib : KubeLib) (kube : Kube W) (p : Provider W) (scope : MachineScope) where
  open lib use {contains_finalizer, is_paused, remove_finalizer}

  abbrev pub without_create : (MachineConfig → Exec W (Unit {0})) → Provider W
  without_create create = record p { create_machine = create }

  state_created_once :
      (create : MachineConfig → Exec W (Unit {0})) (state : DomainState)
      (run : Run W LibvirtMachine)
      → is_some run.obj.spec.provider_id ≡ true
      → reconcile_state lib kube (without_create create) scope state run
        ≡ reconcile_state lib kube p scope state run
  unfolding reconcile_state reconcile_lost_domain start_result observe_result on_world modify
      reading put_condition ◌>>=◌
  state_created_once create not_found run has_id = rw has_id
  state_created_once create stopped run has_id = refl
  state_created_once create running run has_id = refl
  state_created_once create unknown run has_id = refl

  -- A machine that has a provider ID is never created again: whatever CreateMachine would do, the
  -- reconcile has the same result, the same effect on the world and the same machine.
  pub reconcile_normal_created_once :
      (create : MachineConfig → Exec W (Unit {0})) (run : Run W LibvirtMachine)
      → is_some run.obj.spec.provider_id ≡ true
      → reconcile_normal lib kube (without_create create) scope run
        ≡ reconcile_normal lib kube p scope run
  unfolding reconcile_normal on_world modify reading put_condition ◌>>=◌
  reconcile_normal_created_once create run has_id = grind (arith, state_created_once)

  -- Of a machine that is not being deleted, a reconcile leaves the world outside as it is unless the
  -- machine is not paused, carries the finalizer and its cluster's infrastructure is provisioned.
  reconcile_normal-world :
      (run : Run W LibvirtMachine)
      → run.obj.metadata.deleting ≡ false
      → ((reconcile_normal lib kube p scope run).1.world ≡ run.world)
        ⊎ ((is_paused scope.cluster run.obj.metadata ≡ false)
            × (contains_finalizer run.obj.metadata.finalizers libvirt_machine_finalizer ≡ true)
            × (is_provisioned scope.cluster.infrastructure_provisioned ≡ true))
  unfolding reconcile_normal on_world modify reading set_available set_finalizers put_condition
      ◌>>=◌
  reconcile_normal-world run alive = ground arith

  -- The deletion of a machine takes its finalizer off only after DeleteMachine succeeded. When
  -- DeleteMachine fails, that error is the result and the machine keeps everything it had. When there
  -- is no finalizer to take off, the deletion fails with the machine unchanged.
  pub reconcile_delete_finalizer :
      (run : Run W LibvirtMachine)
      → let deleted = p.delete_machine scope.machine_config run.world in
        let removed = remove_finalizer run.obj.metadata.finalizers libvirt_machine_finalizer in
        let after = reconcile_delete lib kube p scope run in
        (after.1.world ≡ deleted.1)
        × (((e : Error) × (deleted.0 ≡ err e) × (after.0 ≡ err e) × (after.1.obj ≡ run.obj))
            ⊎ ((deleted.0 ≡ ok tt)
                × (removed.1 ≡ true)
                × (after.0 ≡ ok no_requeue)
                × (after.1.obj.metadata.finalizers ≡ removed.0))
            ⊎ ((deleted.0 ≡ ok tt)
                × (removed.1 ≡ false)
                × ((e : Error) × (after.0 ≡ err e) × (after.1.obj ≡ run.obj))))
  unfolding reconcile_delete drop_finalizer on_world modify reading set_finalizers ◌>>=◌
  reconcile_delete_finalizer run = ground arith

  module _ (run : Run W LibvirtMachine) (alive : run.obj.metadata.deleting ≡ false)
      (unpaused : is_paused scope.cluster run.obj.metadata ≡ false)
      (guarded : contains_finalizer run.obj.metadata.finalizers libvirt_machine_finalizer ≡ true)
      (provisioned : is_provisioned scope.cluster.infrastructure_provisioned ≡ true) where
    -- When the machine has a provider ID and the host does not know its domain, the machine is not
    -- ready, has no address and keeps its provider ID and its provisioned flag, nothing but the
    -- domain's state is asked of the provider, and the machine is looked at again after a minute.
    reconcile_normal_lost :
        (id : String) (w : W)
        → run.obj.spec.provider_id ≡ some id
        → p.get_machine_state scope.machine_config run.world ≡ (ok not_found, w)
        → let after = reconcile_normal lib kube p scope run in
          (after.0 ≡ ok (requeue domain_state_check_interval))
          × (after.1.world ≡ w)
          × (after.1.obj.status.ready ≡ false)
          × (after.1.obj.status.initialization.provisioned
              ≡ run.obj.status.initialization.provisioned)
          × (after.1.obj.status.addresses ≡ [])
          × (after.1.obj.spec ≡ run.obj.spec)
    unfolding reconcile_normal reconcile_state on_world modify reading set_ready set_addresses
        put_condition ◌>>=◌
    reconcile_normal_lost id w has_id state = ground arith

    -- When the domain runs and has a lease, the machine becomes ready and provisioned, has the
    -- lease's address as its only one, and is looked at again after a minute.
    reconcile_normal_running :
        (w w' : W) (address : String)
        → p.get_machine_state scope.machine_config run.world ≡ (ok running, w)
        → p.get_machine_address scope.machine_config w ≡ (ok address, w')
        → str_eq address "" ≡ false
        → let after = reconcile_normal lib kube p scope run in
          (after.0 ≡ ok (requeue domain_state_check_interval))
          × (after.1.world ≡ w')
          × (after.1.obj.status.ready ≡ true)
          × (after.1.obj.status.initialization.provisioned ≡ true)
          × (after.1.obj.status.addresses ≡ record { type = "InternalIP"; address = address } ∷ [])
    unfolding reconcile_normal reconcile_state observe_result on_world modify reading set_available
        set_addresses put_condition set_provider_id ◌>>=◌
    reconcile_normal_running w w' address state lease nonempty = ground arith

    -- When the domain's state cannot be read, that error is the result, and neither the readiness,
    -- the addresses nor the spec of the machine change.
    reconcile_normal_unreadable :
        (w : W) (e : Error)
        → p.get_machine_state scope.machine_config run.world ≡ (err e, w)
        → let after = reconcile_normal lib kube p scope run in
          (after.0 ≡ err e)
          × (after.1.world ≡ w)
          × (after.1.obj.status.ready ≡ run.obj.status.ready)
          × (after.1.obj.status.addresses ≡ run.obj.status.addresses)
          × (after.1.obj.spec ≡ run.obj.spec)
    unfolding reconcile_normal on_world modify reading put_condition ◌>>=◌
    reconcile_normal_unreadable w e state = ground arith

module _ {W : Type 0} (lib : KubeLib) (kube : Kube W) (p : Provider W)
    (sha256_hex : String → String) (loader : CredentialsLoader) where
  patched-cases :
      (r : Result CtrlResult) (q : Result (Unit {0}))
      → ((c : CtrlResult) × (patched r q ≡ ok c) × (r ≡ ok c) × (q ≡ ok tt))
        ⊎ ((e : Error) × (patched r q ≡ err e)
            × ((r ≡ err e) ⊎ (((c : CtrlResult) × (r ≡ ok c)) × (q ≡ err e))))
  patched-cases (ok c) (ok u) = inl (c, refl, refl, refl)
  patched-cases (ok c) (err e) = inr (e, refl, inr ((c, refl), refl))
  patched-cases (err e) q = inr (e, refl, inl refl)

  -- A reconcile succeeds only when its body and the patch that follows it both do, and the patch is
  -- made, with the machine as it was read and as it is now, whether or not the body failed.
  reconcile_object_patched :
      (m : LibvirtMachine) (w : W)
      → let body = reconcile_body lib kube p sha256_hex loader (record { world = w; obj = m }) in
        let patch = kube.patch_machine m body.1.obj body.1.world in
        let after = reconcile_object lib kube p sha256_hex loader m w in
        (after.1 ≡ patch.1)
        × (((r : CtrlResult) × (after.0 ≡ ok r) × (body.0 ≡ ok r) × (patch.0 ≡ ok tt))
            ⊎ ((e : Error) × (after.0 ≡ err e)
                × ((body.0 ≡ err e) ⊎ (((r : CtrlResult) × (body.0 ≡ ok r)) × (patch.0 ≡ err e)))))
  unfolding reconcile_object
  reconcile_object_patched m w =
      let body = reconcile_body lib kube p sha256_hex loader (record { world = w; obj = m }) in
      (refl, patched-cases body.0 (kube.patch_machine m body.1.obj body.1.world).0)
