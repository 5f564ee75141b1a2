-- ===== src/Controller/MachineReconciler/Creation.antt =====
-- The creation of a machine's domain, what its success says, and the configuration that the provider
-- is given.
use cluster_api_provider_lib.Shared.{
  String, ◌<>◌, ◌≡◌, ap, true, false, none, some, arith, inl, inr, refl, Option-cases,
}
use cluster_api_provider_lib.Errors.{Error}
use cluster_api_provider_lib.Errors.Exec.{ok, err, ◌>>=◌, Result-cases}
use cluster_api_provider_lib.Config.{Bytes}
use cluster_api_provider_lib.Client.Domains.{not_found}
use cluster_api_provider_lib.Api.{LibvirtMachine, LibvirtCluster}
use cluster_api_provider_lib.Api.Status.{libvirt_machine_finalizer}
use cluster_api_provider_lib.Controller.{
  no_requeue, Provider, Kube, KubeLib, Run, on_world, modify, reading,
}
use cluster_api_provider_lib.Controller.Identity.{
  provider_id_prefix, domain_name, domain_uuid, set_provider_id,
}
use cluster_api_provider_lib.Controller.Identity.Uuid.{domain_uuid-set_provider_id}
use cluster_api_provider_lib.Controller.MachineStatus.{
  set_available, put_condition, set_ready, set_finalizers, infrastructure_is_ready,
}
use cluster_api_provider_lib.Controller.MachineReconciler.{
  MachineScope, is_provisioned, new_machine_config, get_cloud_init_data, create_missing,
  create_result, reconcile_state, reconcile_normal,
}

-- The provider is given the same configuration for a machine before and after its provider ID is
-- set.
new_machine_config-set_provider_id :
    (sha256_hex : String → String) (m : LibvirtMachine) (c : LibvirtCluster)
    → new_machine_config sha256_hex (set_provider_id m) c ≡ new_machine_config sha256_hex m c
unfolding new_machine_config domain_name set_provider_id
new_machine_config-set_provider_id sha256_hex m c =
    ap (λ uuid. record (new_machine_config sha256_hex m c) { domain_uuid = uuid })
      (domain_uuid-set_provider_id m m.metadata.uid).0

module _ {W : Type 0} (lib : KubeLib) (kube : Kube W) (p : Provider W) (scope : MachineScope)
    (run : Run W LibvirtMachine) (alive : run.obj.metadata.deleting ≡ false)
    (unpaused : lib.is_paused scope.cluster run.obj.metadata ≡ false)
    (guarded : lib.contains_finalizer run.obj.metadata.finalizers libvirt_machine_finalizer ≡ true)
    (provisioned : is_provisioned scope.cluster.infrastructure_provisioned ≡ true)
    (fresh : run.obj.spec.provider_id ≡ none) (secret : String)
    (bootstrapped : scope.machine.data_secret_name ≡ some secret) (user_data : Bytes) (w w' w'' : W)
    (absent : p.get_machine_state scope.machine_config run.world ≡ (ok not_found, w))
    (known : get_cloud_init_data lib kube p scope.machine.metadata.namespace secret w
      ≡ (ok user_data, w')) where
  -- When the domain of a machine without a provider ID is not there and the user data can be read,
  -- CreateMachine is called once, with the machine's configuration and the user data. When it
  -- succeeds, the machine is ready and provisioned and has the provider ID of its UID.
  pub reconcile_normal_created :
      p.create_machine (record scope.machine_config { user_data = user_data }) w' ≡ (ok tt, w'')
      → let after = reconcile_normal lib kube p scope run in
        (after.0 ≡ ok no_requeue)
        × (after.1.world ≡ w'')
        × (after.1.obj.status.ready ≡ true)
        × (after.1.obj.status.initialization.provisioned ≡ true)
        × (after.1.obj.spec.provider_id ≡ some (provider_id_prefix <> run.obj.metadata.uid))
  unfolding reconcile_normal reconcile_state create_missing create_result on_world modify reading
      set_available put_condition set_provider_id domain_uuid ◌>>=◌
  reconcile_normal_created created = ground arith

-- CreateMachine succeeded, with the machine's configuration and the user data of its Secret.
pub record WasCreated {W : Type 0} (lib : KubeLib) (kube : Kube W) (p : Provider W)
    (scope : MachineScope) (w : W) : Type 0 where
  pub secret : String
  pub bootstrapped : scope.machine.data_secret_name ≡ some secret
  pub user_data : Bytes
  pub read_at : W
  pub read :
      get_cloud_init_data lib kube p scope.machine.metadata.namespace secret w
      ≡ (ok user_data, read_at)
  pub succeeded :
      (p.create_machine (record scope.machine_config { user_data = user_data }) read_at).0 ≡ ok tt

module _ {W : Type 0} (lib : KubeLib) (kube : Kube W) (p : Provider W) (scope : MachineScope)
    (run : Run W LibvirtMachine) where
  -- The ways in which a machine is not ready after `case missing`.
  unready_without_secret :
      scope.machine.data_secret_name ≡ none
      → (create_missing lib kube p scope scope.machine.data_secret_name run).1.obj.status.ready
        ≡ false
  unfolding create_missing on_world modify set_ready set_available put_condition ◌>>=◌
  unready_without_secret absent = rw absent refl

  unready_without_data :
      (secret : String) (e : Error) (w : W)
      → get_cloud_init_data lib kube p scope.machine.metadata.namespace secret run.world
        ≡ (err e, w)
      → (create_missing lib kube p scope (some secret) run).1.obj.status.ready ≡ false
  unfolding create_missing on_world modify set_available put_condition ◌>>=◌
  unready_without_data secret e w unread = ground arith

  unready_after_failure :
      (secret : String) (user_data : Bytes) (w : W) (e : Error)
      → get_cloud_init_data lib kube p scope.machine.metadata.namespace secret run.world
        ≡ (ok user_data, w)
      → (p.create_machine (record scope.machine_config { user_data = user_data }) w).0 ≡ err e
      → (create_missing lib kube p scope (some secret) run).1.obj.status.ready ≡ false
  unfolding create_missing create_result on_world modify set_available put_condition ◌>>=◌
  unready_after_failure secret user_data w e read failed = ground arith

  created_with_secret :
      (secret : String)
      → scope.machine.data_secret_name ≡ some secret
      → (create_missing lib kube p scope (some secret) run).1.obj.status.ready ≡ true
      → WasCreated lib kube p scope run.world
  created_with_secret secret there ready =
      let data_of = get_cloud_init_data lib kube p scope.machine.metadata.namespace secret in
      elim (Result-cases (data_of run.world).0) [
        | inr (e, x) ↦ absurd (cc (unready_without_data secret e (data_of run.world).1 (cc), ready))
        | inl (user_data, x) ↦
            elim (Result-cases
              (p.create_machine (record scope.machine_config { user_data = user_data })
                (data_of run.world).1).0) [
                  | inr (e, y) ↦ absurd (
                      cc (
                        unready_after_failure secret user_data (data_of run.world).1 e (cc) y,
                        ready,
                      ))
                  | inl (u, y) ↦ record {
                    secret = secret;
                    bootstrapped = there;
                    user_data = user_data;
                    read_at = (data_of run.world).1;
                    read = cc;
                    succeeded = y;
                  }
                ]
      ]

  create_missing-WasCreated :
      (create_missing lib kube p scope scope.machine.data_secret_name run).1.obj.status.ready ≡ true
      → WasCreated lib kube p scope run.world
  create_missing-WasCreated ready = elim (Option-cases scope.machine.data_secret_name) [
    | inl absent ↦ absurd (cc (unready_without_secret absent, ready))
    | inr (secret, there) ↦ created_with_secret secret there (cc)
  ]

module _ {W : Type 0} (lib : KubeLib) (kube : Kube W) (p : Provider W) (scope : MachineScope)
    (run : Run W LibvirtMachine) (fresh : run.obj.spec.provider_id ≡ none) (w : W)
    (absent : p.get_machine_state scope.machine_config run.world ≡ (ok not_found, w)) where
  ready_by_create_missing :
      (reconcile_normal lib kube p scope run).1.obj.status.ready ≡ true
      → (create_missing lib kube p scope scope.machine.data_secret_name
          (record { world = w; obj = infrastructure_is_ready lib run.obj })).1.obj.status.ready
        ≡ true
  unfolding reconcile_normal reconcile_state on_world modify reading set_available set_finalizers
      put_condition ◌>>=◌
  ready_by_create_missing ready = ground arith

  -- A machine without a provider ID whose domain is not there is ready after the reconcile only when
  -- the user data of its Secret was read and CreateMachine succeeded with it.
  pub reconcile_normal-WasCreated :
      (reconcile_normal lib kube p scope run).1.obj.status.ready ≡ true
      → WasCreated lib kube p scope w
  reconcile_normal-WasCreated ready =
      create_missing-WasCreated lib kube p scope
        (record { world = w; obj = infrastructure_is_ready lib run.obj })
        (ready_by_create_missing ready)
