-- ===== src/Tests/Lifetime.antt =====
-- The life of the small cluster's machine: one reconcile, which creates its domain.
use cluster_api_provider_lib.Shared.{◌+◌, ◌≤◌, ◌≡◌, ◌⊎◌, refl, none, true, [], false}
use cluster_api_provider_lib.Errors.Exec.{ok}
use cluster_api_provider_lib.Client.Domains.{not_found}
use cluster_api_provider_lib.Controller.{Provider}
use cluster_api_provider_lib.Controller.Credentials.{CredentialsLoader}
use cluster_api_provider_lib.Controller.Lifetime.{
  Life, Reach, here, next, saved, before_patch, outside_after, counting_kube, uncounted,
}
use cluster_api_provider_lib.Controller.Lifetime.Creations.{KeepsId, created_at_most_once}
use cluster_api_provider_lib.Controller.Lifetime.Finalizer.{
  has_finalizer, KeepsFinalizer, owed_has_finalizer,
}
use cluster_api_provider_lib.Tests.Kubernetes.{
  Calls, provider_with, machine_with, toy_kube, toy_lib,
}

abbrev empty_provider : Provider Calls
empty_provider = provider_with (ok not_found) (ok "") (ok tt)

abbrev no_default : CredentialsLoader
no_default = record { default_secret = record { namespace = ""; name = "" } }

abbrev new_life : Life Calls
new_life = record {
  object = machine_with none;
  outside = record { inner = []; created = 0; owed = false };
  unsaved = 0;
}

abbrev created_life : Life Calls
created_life = record {
  object = (before_patch toy_lib toy_kube empty_provider (λ s. s) no_default new_life).obj;
  outside = outside_after toy_lib toy_kube empty_provider (λ s. s) no_default new_life;
  unsaved = 0;
}

one_reconcile :
    Reach toy_lib toy_kube empty_provider (λ s. s) no_default KeepsId new_life created_life
unfolding counting_kube uncounted
one_reconcile = next here (saved refl refl)

created_at_most_once_example : created_life.outside.created ≤ created_life.unsaved + 1
created_at_most_once_example =
    created_at_most_once toy_lib toy_kube empty_provider (λ s. s) no_default new_life created_life
      refl refl one_reconcile

guarded_reconcile :
    Reach toy_lib toy_kube empty_provider
      (λ s. s)
      no_default
      (KeepsFinalizer toy_lib)
      new_life
      created_life
unfolding counting_kube uncounted
guarded_reconcile = next here (saved refl refl)

owed_has_finalizer_example :
    (created_life.outside.owed ≡ false) ⊎ (has_finalizer toy_lib created_life.object ≡ true)
owed_has_finalizer_example =
    owed_has_finalizer toy_lib toy_kube empty_provider (λ s. s) no_default new_life created_life
      refl guarded_reconcile
