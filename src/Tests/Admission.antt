-- ===== src/Tests/Admission.antt =====
-- The theorems on the validation of a machine's spec, on a machine of 2 CPUs, 2 GiB and 20 GiB.
use cluster_api_provider_lib.Shared.{◌≡◌, refl, true, false, some, none, []}
use cluster_api_provider_lib.Api.Validation.{is_valid_spec, is_valid_update}
use cluster_api_provider_lib.Client.Domains.{machine_domain}
use cluster_api_provider_lib.Client.Volumes.{root_volume}
use cluster_api_provider_lib.Client.Domains.{running}
use cluster_api_provider_lib.Errors.Exec.{ok}
use cluster_api_provider_lib.Controller.{Provider}
use cluster_api_provider_lib.Controller.MachineReconciler.{reconcile_body}
use cluster_api_provider_lib.Controller.MachineReconciler.Admission.{reconcile_body_admitted}
use cluster_api_provider_lib.Controller.LibvirtProvider.Shape.{
  given_config, machine_domain-document, document_of, disk_document_of,
}
use cluster_api_provider_lib.Tests.Host.{toy_system}
use cluster_api_provider_lib.Tests.Kubernetes.{
  machine_with, toy_cluster, toy_kube, toy_lib, provider_with, run_of, Calls,
}

abbrev running_provider : Provider Calls
running_provider = provider_with (ok running) (ok "10.0.0.7") (ok tt)

-- The API server takes no other provider ID for one that is set, and no machine without a CPU.
moved_refused :
    is_valid_update
      (machine_with (some "libvirt://u1")).spec
      (machine_with (some "libvirt://u2")).spec
    ≡ false
unfolding is_valid_update
moved_refused = refl

no_cpu_refused : is_valid_spec (record (machine_with none).spec { vcpu = 0 }) ≡ false
unfolding is_valid_spec
no_cpu_refused = refl

spec_valid : is_valid_spec (machine_with (some "libvirt://u1")).spec ≡ true
unfolding is_valid_spec
spec_valid = refl

reconcile_body_admitted_example :
    is_valid_update
      (machine_with (some "libvirt://u1")).spec
      (reconcile_body toy_lib toy_kube running_provider
        (λ s. s)
        (record { default_secret = record { namespace = ""; name = "" } })
        (run_of (machine_with (some "libvirt://u1")))).1.obj.spec
    ≡ true
reconcile_body_admitted_example =
    reconcile_body_admitted toy_lib toy_kube running_provider (λ s. s)
      (record { default_secret = record { namespace = ""; name = "" } })
      (run_of (machine_with (some "libvirt://u1"))) spec_valid

machine_domain-document_example :
    let m = machine_with (some "libvirt://u1") in
    let cfg = given_config toy_system (λ s. s) m toy_cluster none [] in
    (machine_domain cfg "/disk" "/iso" "52:54:00:00:00:02"
      ≡ document_of toy_system (λ s. s) m toy_cluster none [] "/disk" "/iso" "52:54:00:00:00:02")
    × (root_volume toy_system cfg "/base"
        ≡ disk_document_of toy_system (λ s. s) m toy_cluster none [] "/base")
machine_domain-document_example =
    machine_domain-document toy_system (λ s. s) (machine_with (some "libvirt://u1")) toy_cluster
      none [] "/disk" "/iso" "52:54:00:00:00:02" "/base" spec_valid (λ e. absurd (cc (e)))
      (λ e. absurd (cc (e)))
