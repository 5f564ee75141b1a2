-- ===== src/Controller/Credentials/Requests.antt =====
-- Which clusters a changed Secret enqueues: all whose credentials Load would read from it.
use cluster_api_provider_lib.Shared.{
  String, ◌≡◌, ◌⊎◌, inl, inr, Bool, true, false, ◌&&◌, some, none, List, [], ◌∷◌, if◌then◌else◌,
  map, str_eq, eq_refl, arith, Bool-cases, ap, sym, subst,
}
use cluster_api_provider_lib.Errors.Exec.{ok, ◌>>=◌}
use cluster_api_provider_lib.Api.{NamespacedName, LibvirtCluster}
use cluster_api_provider_lib.Controller.{Kube}
use cluster_api_provider_lib.Controller.Credentials.{
  CredentialsLoader, credentials_ref_name, key_of, secret_to_libvirt_clusters,
}

-- The key is among the requests.
unfoldable pub Enqueued : NamespacedName → List NamespacedName → Type 0
Enqueued key [] = ⊥
Enqueued key (k ∷ ks) = (k ≡ key) ⊎ Enqueued key ks

-- The cluster is in the list.
unfoldable pub Listed : LibvirtCluster → List LibvirtCluster → Type 0
Listed c [] = ⊥
Listed c (d ∷ ds) = (d ≡ c) ⊎ Listed c ds

-- The selection of List with InNamespace and MatchingFields on the index of credentials_ref_name:
-- the clusters of the namespace that have the value among their index values.
unfoldable pub has_value_in : List String → String → Bool
has_value_in [] v = false
has_value_in (x ∷ xs) v = let rest = has_value_in xs v in if str_eq x v then true else rest

unfoldable pub select : (namespace value : String) → List LibvirtCluster → List LibvirtCluster
select namespace value [] = []
select namespace value (c ∷ cs) =
    let rest = select namespace value cs in
    if str_eq c.metadata.namespace namespace && has_value_in (credentials_ref_name c) value
    then c ∷ rest
    else rest

-- The Secret from which Load reads the credentials of the cluster: that of its reference, or the
-- default one, if that is on.
unfoldable pub Reads : CredentialsLoader → LibvirtCluster → NamespacedName → Type 0
Reads loader c secret =
    (c.spec.credentials_ref ≡ some (record { name = secret.name }))
      × (c.metadata.namespace ≡ secret.namespace)
    ⊎ (c.spec.credentials_ref ≡ none) × (loader.default_secret ≡ secret)

abbrev is_default : CredentialsLoader → NamespacedName → Bool
is_default loader secret =
    str_eq secret.namespace loader.default_secret.namespace
    && str_eq secret.name loader.default_secret.name

is_default_self :
    (loader : CredentialsLoader) (secret : NamespacedName)
    → loader.default_secret ≡ secret
    → is_default loader secret ≡ true
is_default_self loader secret def =
    let key = loader.default_secret in
    subst (λ k. is_default loader k ≡ true) def
      (ground (arith, eq_refl key.namespace, eq_refl key.name))

Enqueued-map :
    {W : Type 0} (kube : Kube W) (loader : CredentialsLoader) (c : LibvirtCluster)
    (cs : List LibvirtCluster)
    → Listed c cs
    → Enqueued (key_of kube loader c) (map (key_of kube loader) cs)
unfolding Listed Enqueued
Enqueued-map kube loader c [] l = elim l [ ]
Enqueued-map kube loader c (d ∷ ds) (inl e) = inl (ap (key_of kube loader) e)
Enqueued-map kube loader c (d ∷ ds) (inr l) = inr (Enqueued-map kube loader c ds l)

Listed-select :
    (c : LibvirtCluster) (name : String) (cs : List LibvirtCluster)
    → c.spec.credentials_ref ≡ some (record { name = name })
    → Listed c cs
    → Listed c (select c.metadata.namespace name cs)
unfolding Listed select has_value_in credentials_ref_name
Listed-select c name [] ref l = elim l [ ]
Listed-select c name (d ∷ ds) ref (inl e) =
    subst (λ x. Listed c (select c.metadata.namespace name (x ∷ ds))) (sym e)
      (ground (arith, eq_refl c.metadata.namespace, eq_refl name))
Listed-select c name (d ∷ ds) ref (inr l) = ground (arith, Listed-select c name ds ref l)

-- When List gives all the clusters, or those that the index selects, a changed Secret enqueues every
-- cluster of its namespace that refers to it and, if it is the default Secret, every cluster without
-- a reference.
pub secret_to_libvirt_clusters_complete :
    {W : Type 0} (kube : Kube W) (loader : CredentialsLoader) (secret : NamespacedName)
    (c : LibvirtCluster) (all : List LibvirtCluster) (w : W)
    → kube.list_all w ≡ (ok all, w)
    → kube.list_in secret.namespace secret.name w
      ≡ (ok (select secret.namespace secret.name all), w)
    → Listed c all
    → Reads loader c secret
    → (requests : List NamespacedName) × (secret_to_libvirt_clusters kube loader secret w
        ≡ (ok requests, w))
      × Enqueued (key_of kube loader c) requests
unfolding secret_to_libvirt_clusters Reads ◌>>=◌
secret_to_libvirt_clusters_complete kube loader secret c all w every selected l (inl (ref, home)) =
    elim (Bool-cases (is_default loader secret)) [
      | inl hit ↦ (
        map (key_of kube loader) all,
        ground (arith, hit, every),
        Enqueued-map kube loader c all l,
      )
      | inr miss ↦ (
        map (key_of kube loader) (select secret.namespace secret.name all),
        ground (arith, miss, selected),
        Enqueued-map kube loader c (select secret.namespace secret.name all) (
            subst (λ n. Listed c (select n secret.name all)) home
              (Listed-select c secret.name all ref l)),
      )
    ]
secret_to_libvirt_clusters_complete kube loader secret c all w every selected l (inr (ref, def)) = (
  map (key_of kube loader) all,
  ground (arith, is_default_self loader secret def, every),
  Enqueued-map kube loader c all l,
)
