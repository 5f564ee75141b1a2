-- ===== src/Controller/LibvirtProvider/Deletion.antt =====
-- The deletion of a machine through the libvirt client.
use cluster_api_provider_lib.Shared.{refl, sym, subst, inl, inr, ◌≡◌, true, arith, pred}
use cluster_api_provider_lib.Errors.Exec.{ok, ◌>>=◌}
use cluster_api_provider_lib.System.{System, Session, opened, free}
use cluster_api_provider_lib.Client.Connection.{connect}
use cluster_api_provider_lib.Client.Provider.{delete_machine}
use cluster_api_provider_lib.Client.Provider.Deleted.{IsDeleted, delete_resources-IsDeleted}
use cluster_api_provider_lib.Config.{MachineConfig}
use cluster_api_provider_lib.Errors.Exec.Inversion.{Gives}
use cluster_api_provider_lib.System.Inversion.{using-Gives}
use cluster_api_provider_lib.Controller.MachineReconciler.Outcomes.{reconcile_delete_finalizer}
use cluster_api_provider_lib.Client.Provider.Deletion.{HoldsNothing, delete_resources_again}
use cluster_api_provider_lib.Api.{LibvirtMachine}
use cluster_api_provider_lib.Api.Status.{libvirt_machine_finalizer}
use cluster_api_provider_lib.Controller.{
  CtrlResult, no_requeue, Kube, KubeLib, Run, on_world, modify, reading,
}
use cluster_api_provider_lib.Controller.MachineStatus.{set_finalizers}
use cluster_api_provider_lib.Controller.MachineReconciler.{
  MachineScope, reconcile_delete, drop_finalizer,
}
use cluster_api_provider_lib.Controller.LibvirtProvider.{client_provider}

module _ (sys : System) (lib : KubeLib) (kube : Kube (Session sys)) (scope : MachineScope)
    (run : Run (Session sys) LibvirtMachine) (conn : sys.lv.Connect) (t : Session sys)
    (opens : connect sys scope.machine_config.infra_config run.world ≡ (ok conn, t))
    (nothing : HoldsNothing sys conn t.host scope.machine_config) where
  delete_machine_again : delete_machine sys scope.machine_config run.world ≡ (ok tt, free t)
  unfolding delete_machine opened free ◌>>=◌
  delete_machine_again =
      ground (arith, opens, delete_resources_again sys conn t scope.machine_config nothing)

  -- When the connection opens, the host holds nothing of the machine, no look-up changes it, and the
  -- machine has its finalizer, the deletion through the libvirt client succeeds and takes the
  -- finalizer off, leaves the host as the connection left it and closes the connection.
  pub reconcile_delete_again :
      (lib.remove_finalizer run.obj.metadata.finalizers libvirt_machine_finalizer).1 ≡ true
      → let removed = lib.remove_finalizer run.obj.metadata.finalizers libvirt_machine_finalizer in
        let after = reconcile_delete lib kube (client_provider sys) scope run in
        (after.0 ≡ ok no_requeue)
        × (after.1.obj.metadata.finalizers ≡ removed.0)
        × (after.1.world.host ≡ t.host)
        × (after.1.world.handles ≡ pred t.handles)
  unfolding reconcile_delete drop_finalizer client_provider on_world modify reading set_finalizers
      free ◌>>=◌
  reconcile_delete_again there = ground (arith, delete_machine_again)

-- What is left after a deletion of a machine through the client that took the finalizer off.
pub record IsGone (sys : System) (cfg : MachineConfig) (s s' : Session sys) : Type 0 where
  pub conn : sys.lv.Connect
  pub connected_at : Session sys
  pub connected : Gives (connect sys cfg.infra_config) s conn connected_at
  pub deleted_at : Session sys
  pub deleted : IsDeleted sys conn cfg connected_at deleted_at
  pub closed : s' ≡ free deleted_at

delete_machine-IsGone :
    (sys : System) (cfg : MachineConfig) (s : Session sys)
    → (delete_machine sys cfg s).0 ≡ ok tt
    → IsGone sys cfg s (delete_machine sys cfg s).1
unfolding delete_machine
delete_machine-IsGone sys cfg s succeeded =
    let s' = (delete_machine sys cfg s).1 in
    let (conn, connected_at, deleted_at, connected, steps, closed) =
      using-Gives _ _ _ s s' tt (succeeded, refl) in
    record {
      conn = conn;
      connected_at = connected_at;
      connected = connected;
      deleted_at = deleted_at;
      deleted = delete_resources-IsDeleted sys conn cfg connected_at deleted_at steps;
      closed = closed;
    }

module _ (sys : System) (lib : KubeLib) (kube : Kube (Session sys)) (scope : MachineScope)
    (run : Run (Session sys) LibvirtMachine) where
  -- With the libvirt client as the provider, the deletion of a machine succeeds, and takes the
  -- finalizer off, only when a connection opened and on it, in this order, the domain was not there or
  -- was undefined, each of its two volumes was not there or was deleted, and the network was not there
  -- or its document had no entry of the machine's MAC or lost it.
  pub reconcile_delete-IsGone :
      (r : CtrlResult)
      → (reconcile_delete lib kube (client_provider sys) scope run).0 ≡ ok r
      → let after = reconcile_delete lib kube (client_provider sys) scope run in
        let removed = lib.remove_finalizer run.obj.metadata.finalizers libvirt_machine_finalizer in
        IsGone sys scope.machine_config run.world after.1.world
        × (after.1.obj.metadata.finalizers ≡ removed.0)
        × (removed.1 ≡ true)
  unfolding client_provider
  reconcile_delete-IsGone r succeeded =
      let (world, cases) = reconcile_delete_finalizer lib kube (client_provider sys) scope run in
      elim cases [
        | inl (e, failed, result, same) ↦ absurd (cc (result, succeeded))
        | inr (inl (deleted, there, result, finalizers)) ↦ (
          subst (IsGone sys scope.machine_config run.world) (sym world)
              (delete_machine-IsGone sys scope.machine_config run.world deleted),
          finalizers,
          there,
        )
        | inr (inr (deleted, there, (e, result, same))) ↦ absurd (cc (result, succeeded))
      ]
