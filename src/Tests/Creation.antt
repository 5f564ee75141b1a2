-- ===== src/Tests/Creation.antt =====
-- The theorems on the creation and the deletion of a domain, on the small cluster.
use cluster_api_provider_lib.Shared.{arith, ◌≡◌, refl, true, none, some, [], ◌∷◌}
use cluster_api_provider_lib.Errors.Exec.{ok, ◌>>=◌}
use cluster_api_provider_lib.Client.Domains.{not_found}
use cluster_api_provider_lib.Controller.{no_requeue, Provider, Run}
use cluster_api_provider_lib.Controller.Identity.{size, domain_name}
use cluster_api_provider_lib.Controller.Identity.Label.{
  IsLabel, domain_name-IsLabel, all, starts, is_name_char, is_label_char, is_alphanumeric,
}
use cluster_api_provider_lib.Controller.MachineReconciler.{
  find_key, get_cloud_init_data, reconcile_normal, reconcile_delete,
}
use cluster_api_provider_lib.Controller.MachineReconciler.Convergence.{reconcile_normal_twice}
use cluster_api_provider_lib.System.{Session, opening}
use cluster_api_provider_lib.Client.Connection.{connect, connect_with, open_connection}
use cluster_api_provider_lib.Client.Provider.Deletion.{no_pool, no_net}
use cluster_api_provider_lib.Api.{LibvirtMachine}
use cluster_api_provider_lib.Api.Status.{libvirt_machine_finalizer}
use cluster_api_provider_lib.Controller.LibvirtProvider.{client_provider}
use cluster_api_provider_lib.Controller.LibvirtProvider.Deletion.{reconcile_delete_again}
use cluster_api_provider_lib.Tests.Host.{toy_system, bare_host, session_on}
use cluster_api_provider_lib.Tests.Kubernetes.{
  Calls, provider_with, scope, machine_with, toy_kube, toy_lib, run_of, contains,
}

abbrev empty_provider : Provider Calls
empty_provider = provider_with (ok not_found) (ok "") (ok tt)

domain_name-IsLabel_example : IsLabel (domain_name (λ s. "00aa11bb22") (machine_with none))
unfolding all starts is_name_char is_label_char is_alphanumeric size
domain_name-IsLabel_example =
    domain_name-IsLabel (λ s. "00aa11bb22") (machine_with none) refl refl refl refl (omega arith)

-- The deletion of a machine of which the host holds nothing.
reconcile_delete_again_example :
    let run : Run (Session toy_system) LibvirtMachine = record {
      world = session_on bare_host;
      obj = machine_with none;
    } in
    let removed = toy_lib.remove_finalizer run.obj.metadata.finalizers libvirt_machine_finalizer in
    let after = reconcile_delete toy_lib toy_kube (client_provider toy_system) scope run in
    (after.0 ≡ ok no_requeue)
    × (after.1.obj.metadata.finalizers ≡ removed.0)
    × (after.1.world.host ≡ bare_host)
    × (after.1.world.handles ≡ 0)
unfolding contains connect connect_with open_connection opening ◌>>=◌
reconcile_delete_again_example =
    reconcile_delete_again toy_system toy_lib toy_kube scope
      (record { world = session_on bare_host; obj = machine_with none }) "qemu:///system"
      (record (session_on bare_host) { handles = 1 }) refl
      (record {
        message = "not found";
        domain = refl;
        root_disk = no_pool "not found" refl;
        iso_disk = no_pool "not found" refl;
        reservation = no_net "not found" refl;
      })
      refl

abbrev unguarded : Run Calls LibvirtMachine
unguarded =
    let m = machine_with none in
    run_of (record m { metadata = record m.metadata { finalizers = [] } })

reconcile_normal_twice_example :
    let first = reconcile_normal toy_lib toy_kube empty_provider scope unguarded in
    let second = reconcile_normal toy_lib toy_kube empty_provider scope first.1 in
    (first.0 ≡ ok no_requeue)
    × (first.1.world ≡ [])
    × (second.0 ≡ ok no_requeue)
    × (second.1.world ≡ "CreateMachine" ∷ "GetMachineState" ∷ [])
    × (second.1.obj.status.ready ≡ true)
    × (second.1.obj.spec.provider_id ≡ some "libvirt://u1")
unfolding contains get_cloud_init_data find_key ◌>>=◌
reconcile_normal_twice_example =
    reconcile_normal_twice toy_lib toy_kube empty_provider scope unguarded refl (λ fs. refl) refl
      refl refl refl "bootstrap" refl (1 ∷ []) ("GetMachineState" ∷ []) ("GetMachineState" ∷ [])
      ("CreateMachine" ∷ "GetMachineState" ∷ []) refl refl refl
