-- ===== src/Tests/Clusters.antt =====
-- The theorems on the cluster reconciler and on the credentials, on the small cluster.
use cluster_api_provider_lib.Shared.{◌≡◌, ◌⊎◌, refl, true, false, none, some, [], ◌∷◌}
use cluster_api_provider_lib.Errors.{message}
use cluster_api_provider_lib.Errors.Exec.{ok, err}
use cluster_api_provider_lib.Config.{Credentials}
use cluster_api_provider_lib.Client.Domains.{not_found}
use cluster_api_provider_lib.Api.{LibvirtCluster}
use cluster_api_provider_lib.Api.Status.{libvirt_cluster_finalizer}
use cluster_api_provider_lib.Controller.{SecretData, Provider, Run}
use cluster_api_provider_lib.Controller.Credentials.{
  has_any_key, missing_keys, credentials_from_secret, section_of, require_keys, value_of,
  CredentialsLoader,
}
use cluster_api_provider_lib.Controller.Credentials.Secrets.{
  IsReading, credentials_from_secret-IsReading,
}
use cluster_api_provider_lib.Controller.ClusterReconciler.{
  has_control_plane_endpoint, reconcile_normal,
}
use cluster_api_provider_lib.Controller.MachineReconciler.Requeue.{ComesBack}
use cluster_api_provider_lib.Controller.ClusterReconciler.Requeue.{reconcile_normal-EndsReady}
use cluster_api_provider_lib.Controller.ClusterReconciler.Behaviour.{
  IsEnsured, reconcile_normal_provisioned,
}
use cluster_api_provider_lib.Tests.Kubernetes.{
  Calls, provider_with, owner_cluster, toy_cluster, toy_kube, toy_lib,
}

abbrev loader : CredentialsLoader
loader = record { default_secret = record { namespace = ""; name = "" } }

abbrev failing_provider : Provider Calls
failing_provider = provider_with (ok not_found) (ok "") (err (message "inactive"))

abbrev run : Run Calls LibvirtCluster
run = record { world = []; obj = toy_cluster }

reconcile_normal_provisioned_example :
    ((reconcile_normal toy_lib toy_kube failing_provider loader owner_cluster
        run).1.obj.status.initialization.provisioned
      ≡ false)
    ⊎ ((toy_lib.is_paused owner_cluster run.obj.metadata ≡ false)
        × (toy_lib.contains_finalizer run.obj.metadata.finalizers libvirt_cluster_finalizer ≡ true)
        × (has_control_plane_endpoint toy_lib toy_kube failing_provider loader owner_cluster run.obj
            ≡ true)
        × IsEnsured toy_lib toy_kube failing_provider loader run)
reconcile_normal_provisioned_example =
    reconcile_normal_provisioned toy_lib toy_kube failing_provider loader owner_cluster run refl

abbrev tls_secret : SecretData
tls_secret = ("ca.crt", 1 ∷ []) ∷ ("tls.crt", 2 ∷ []) ∷ ("tls.key", 3 ∷ []) ∷ []

abbrev tls_credentials : Credentials
tls_credentials = record {
  tls = some (record { ca_cert = 1 ∷ []; client_cert = 2 ∷ []; client_key = 3 ∷ [] });
  ssh = none;
}

tls_read : credentials_from_secret tls_secret ≡ ok (some tls_credentials)
unfolding credentials_from_secret section_of require_keys has_any_key missing_keys value_of
tls_read = refl

credentials_from_secret-IsReading_example :
    IsReading tls_secret (credentials_from_secret tls_secret)
credentials_from_secret-IsReading_example = credentials_from_secret-IsReading tls_secret

abbrev referring : LibvirtCluster
referring = record toy_cluster {
  spec = record toy_cluster.spec { credentials_ref = some (record { name = "libvirt-tls" }) };
}

reconcile_normal-EndsReady_example :
    let after = reconcile_normal toy_lib toy_kube failing_provider loader owner_cluster run in
    (after.1.obj.spec ≡ run.obj.spec)
    × (ComesBack after.0
        ⊎ (toy_lib.is_paused owner_cluster run.obj.metadata ≡ true)
        ⊎ ((toy_lib.contains_finalizer run.obj.metadata.finalizers libvirt_cluster_finalizer
              ≡ false)
            × (after.1.obj.metadata.finalizers
                ≡ toy_lib.add_finalizer run.obj.metadata.finalizers libvirt_cluster_finalizer))
        ⊎ (has_control_plane_endpoint toy_lib toy_kube failing_provider loader owner_cluster run.obj
            ≡ false)
        ⊎ ((after.1.obj.status.ready ≡ true)
            × (after.1.obj.status.initialization.provisioned ≡ true)))
reconcile_normal-EndsReady_example =
    reconcile_normal-EndsReady toy_lib toy_kube failing_provider loader owner_cluster run
