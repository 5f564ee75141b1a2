-- ===== src/Tests/Machines.antt =====
-- The theorems on the machine reconciler, on the small cluster.
use cluster_api_provider_lib.Shared.{String, ◌≡◌, ◌⊎◌, inl, refl, true, false, none, some, []}
use cluster_api_provider_lib.Errors.{Error, message}
use cluster_api_provider_lib.Errors.Exec.{ok, err}
use cluster_api_provider_lib.Client.Domains.{not_found, running}
use cluster_api_provider_lib.Api.{LibvirtMachine}
use cluster_api_provider_lib.Api.Status.{libvirt_machine_finalizer}
use cluster_api_provider_lib.Controller.{no_requeue, Provider, Run}
use cluster_api_provider_lib.Controller.MachineReconciler.{
  reconcile_normal, reconcile_delete, reconcile_body,
}
use cluster_api_provider_lib.Controller.Identity.{domain_uuid, set_provider_id}
use cluster_api_provider_lib.Controller.Identity.Uuid.{domain_uuid-set_provider_id}
use cluster_api_provider_lib.Controller.MachineReconciler.Invariants.{
  IsConsistent, reconcile_body-IsConsistent, Evolves, reconcile_body-Evolves,
}
use cluster_api_provider_lib.Controller.MachineReconciler.Outcomes.{
  without_create, reconcile_normal_created_once, reconcile_delete_finalizer,
}
use cluster_api_provider_lib.Controller.MachineReconciler.Requeue.{
  ComesBack, reconcile_normal-ComesBack,
}
use cluster_api_provider_lib.Tests.Kubernetes.{
  Calls, provider_with, scope, machine_with, toy_kube, toy_lib, run_of,
}

abbrev provider_id : String
provider_id = "libvirt://u1"

-- No domain, and every other call succeeds.
abbrev empty_provider : Provider Calls
empty_provider = provider_with (ok not_found) (ok "") (ok tt)

abbrev running_provider : Provider Calls
running_provider = provider_with (ok running) (ok "10.0.0.7") (ok tt)

abbrev failing_provider : Provider Calls
failing_provider = provider_with (err (message "timeout")) (ok "") (err (message "timeout"))

reconcile_body-IsConsistent_example :
    IsConsistent
      (reconcile_body toy_lib toy_kube empty_provider
        (λ s. s)
        (record { default_secret = record { namespace = ""; name = "" } })
        (run_of (machine_with none))).1.obj
reconcile_body-IsConsistent_example =
    reconcile_body-IsConsistent toy_lib toy_kube empty_provider (λ s. s)
      (record { default_secret = record { namespace = ""; name = "" } })
      (run_of (machine_with none)) (inl refl)

reconcile_body-Evolves_example :
    Evolves
      (machine_with (some provider_id))
      (reconcile_body toy_lib toy_kube running_provider
        (λ s. s)
        (record { default_secret = record { namespace = ""; name = "" } })
        (run_of (machine_with (some provider_id)))).1.obj
reconcile_body-Evolves_example =
    reconcile_body-Evolves toy_lib toy_kube running_provider (λ s. s)
      (record { default_secret = record { namespace = ""; name = "" } })
      (run_of (machine_with (some provider_id)))

reconcile_normal_created_once_example :
    reconcile_normal toy_lib toy_kube
      (without_create toy_lib toy_kube empty_provider scope
        (λ cfg calls. (err (message "exists"), calls)))
      scope
      (run_of (machine_with (some provider_id)))
    ≡ reconcile_normal toy_lib toy_kube empty_provider scope
        (run_of (machine_with (some provider_id)))
reconcile_normal_created_once_example =
    reconcile_normal_created_once toy_lib toy_kube empty_provider scope
      (λ cfg calls. (err (message "exists"), calls)) (run_of (machine_with (some provider_id))) refl

abbrev unguarded : Run Calls LibvirtMachine
unguarded =
    let m = machine_with none in
    run_of (record m { metadata = record m.metadata { finalizers = [] } })

reconcile_delete_finalizer_example :
    let run = run_of (machine_with (some provider_id)) in
    let deleted = failing_provider.delete_machine scope.machine_config run.world in
    let after = reconcile_delete toy_lib toy_kube failing_provider scope run in
    let removed = toy_lib.remove_finalizer run.obj.metadata.finalizers libvirt_machine_finalizer in
    (after.1.world ≡ deleted.1)
    × (((e : Error) × (deleted.0 ≡ err e) × (after.0 ≡ err e) × (after.1.obj ≡ run.obj))
        ⊎ ((deleted.0 ≡ ok tt)
            × (removed.1 ≡ true)
            × (after.0 ≡ ok no_requeue)
            × (after.1.obj.metadata.finalizers ≡ removed.0))
        ⊎ ((deleted.0 ≡ ok tt)
            × (removed.1 ≡ false)
            × ((e : Error) × (after.0 ≡ err e) × (after.1.obj ≡ run.obj))))
reconcile_delete_finalizer_example =
    reconcile_delete_finalizer toy_lib toy_kube failing_provider scope
      (run_of (machine_with (some provider_id)))

reconcile_normal-ComesBack_example :
    let after = reconcile_normal toy_lib toy_kube failing_provider scope unguarded in
    ComesBack after.0
    ⊎ (toy_lib.is_paused scope.cluster unguarded.obj.metadata ≡ true)
    ⊎ ((toy_lib.contains_finalizer unguarded.obj.metadata.finalizers libvirt_machine_finalizer
          ≡ false)
        × (after.1.obj.metadata.finalizers
            ≡ toy_lib.add_finalizer unguarded.obj.metadata.finalizers libvirt_machine_finalizer))
    ⊎ (after.1.obj.status.ready ≡ true)
reconcile_normal-ComesBack_example =
    reconcile_normal-ComesBack toy_lib toy_kube failing_provider scope unguarded

domain_uuid-set_provider_id_example :
    let m = set_provider_id (machine_with none) in
    (domain_uuid m ≡ domain_uuid (machine_with none))
    × (domain_uuid (record m { metadata = record m.metadata { uid = "u2" } })
        ≡ domain_uuid (machine_with none))
domain_uuid-set_provider_id_example = domain_uuid-set_provider_id (machine_with none) "u2"
