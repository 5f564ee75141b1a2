-- ===== src/Tests/Secrets.antt =====
-- The theorem on the clusters that a changed Secret enqueues: two clusters, one of which refers to it.
use cluster_api_provider_lib.Shared.{◌≡◌, refl, inl, inr, some, List, [], ◌∷◌}
use cluster_api_provider_lib.Errors.Exec.{ok}
use cluster_api_provider_lib.Api.{NamespacedName, LibvirtCluster}
use cluster_api_provider_lib.Controller.{Kube}
use cluster_api_provider_lib.Controller.Credentials.{
  CredentialsLoader, key_of, secret_to_libvirt_clusters,
}
use cluster_api_provider_lib.Controller.Credentials.Requests.{
  Enqueued, Listed, Reads, select, secret_to_libvirt_clusters_complete,
}
use cluster_api_provider_lib.Tests.Kubernetes.{Calls, toy_cluster, toy_kube}

abbrev referring : LibvirtCluster
referring = record toy_cluster {
  spec = record toy_cluster.spec { credentials_ref = some (record { name = "libvirt-tls" }) };
}

abbrev both : List LibvirtCluster
both = toy_cluster ∷ referring ∷ []

abbrev listing_kube : Kube Calls
listing_kube = record (toy_kube {W = Calls}) {
  list_all = λ calls. (ok both, calls);
  list_in = λ namespace value calls. (ok (select namespace value both), calls);
}

abbrev loader : CredentialsLoader
loader = record { default_secret = record { namespace = "capl"; name = "default" } }

abbrev secret : NamespacedName
secret = record { namespace = "ns"; name = "libvirt-tls" }

secret_to_libvirt_clusters_complete_example :
    (requests : List NamespacedName) × (secret_to_libvirt_clusters listing_kube loader secret []
      ≡ (ok requests, []))
    × Enqueued (key_of listing_kube loader referring) requests
unfolding Listed Reads
secret_to_libvirt_clusters_complete_example =
    secret_to_libvirt_clusters_complete listing_kube loader secret referring both [] refl refl
      (inr (inl refl)) (inl (refl, refl))
