-- ===== src/Controller/Lifetime/Creations.antt =====
-- How often CreateMachine succeeds in the life of a machine.
use cluster_api_provider_lib.Shared.{
  ℕ, ◌+◌, ◌≤◌, String, ◌≡◌, refl, Option, none, some, true, is_some, ◌⊎◌, arith,
}
use cluster_api_provider_lib.Errors.Exec.{Exec, ◌>>=◌}
use cluster_api_provider_lib.Client.Domains.{DomainState, not_found, running, stopped, unknown}
use cluster_api_provider_lib.Api.{LibvirtMachine}
use cluster_api_provider_lib.Controller.{Provider, Kube, KubeLib, Run, on_world, modify, reading}
use cluster_api_provider_lib.Controller.Credentials.{CredentialsLoader, load, load_ref}
use cluster_api_provider_lib.Controller.Effects.{IsPreorder, Within}
use cluster_api_provider_lib.Controller.Identity.{set_provider_id}
use cluster_api_provider_lib.Controller.Lifetime.{
  Counted, uncounted, counted, settling, counting_provider, counting_kube, Life, Step, saved, lost,
  changed, Reach, here, next, before_patch, outside_after,
}
use cluster_api_provider_lib.Controller.MachineReconciler.{
  MachineScope, observe_result, create_result, start_result, create_missing, reconcile_state,
  reconcile_normal, drop_finalizer, reconcile_delete, reconcile_object, get_cloud_init_data,
}
use cluster_api_provider_lib.Controller.MachineReconciler.Body.{IsQuiet, Within-reconcile_body}
use cluster_api_provider_lib.Controller.MachineStatus.{
  set_ready, set_available, set_addresses, set_finalizers, put_condition,
}

-- 1 for a machine with a provider ID.
abbrev has_id : Option String → ℕ
has_id none = 0
has_id (some id) = 1

-- Others may change the object, and do not take its provider ID away.
abbrev pub KeepsId : LibvirtMachine → LibvirtMachine → Type 0
KeepsId m n = (m.spec.provider_id ≡ none) ⊎ (is_some n.spec.provider_id ≡ true)

-- What was created beyond the provider IDs that were set did not grow.
abbrev Grows :
    {W : Type 0} → Run (Counted W) LibvirtMachine → Run (Counted W) LibvirtMachine → Type 0
Grows a b =
    b.world.created + has_id a.obj.spec.provider_id
    ≤ a.world.created + has_id b.obj.spec.provider_id

Grows-IsPreorder : {W : Type 0} → IsPreorder (Grows {W = W})
Grows-IsPreorder = record { same = λ a. omega arith; trans = λ a b c f g. omega (arith, f, g) }

module _ {W : Type 0} (lib : KubeLib) (kube : Kube W) (p : Provider W) (scope : MachineScope) where
  state-Grows :
      (state : DomainState) (run : Run (Counted W) LibvirtMachine)
      → Grows run (reconcile_state lib (counting_kube kube) (counting_provider p) scope state run).1
  unfolding reconcile_state start_result create_result observe_result on_world modify reading
      set_ready set_available put_condition set_provider_id set_addresses create_missing
      get_cloud_init_data counting_provider counting_kube counted settling uncounted ◌>>=◌
  state-Grows not_found run = ground arith
  state-Grows stopped run = ground arith
  state-Grows running run = ground arith
  state-Grows unknown run = ground arith

  normal-Grows :
      Within Grows (reconcile_normal lib (counting_kube kube) (counting_provider p) scope)
  unfolding reconcile_normal on_world modify reading set_available set_finalizers put_condition
      counting_provider uncounted ◌>>=◌
  normal-Grows = record { at = λ run. grind (arith, state-Grows) }

  delete-Grows :
      Within Grows (reconcile_delete lib (counting_kube kube) (counting_provider p) scope)
  unfolding reconcile_delete drop_finalizer on_world modify reading set_finalizers counting_provider
      settling uncounted ◌>>=◌
  delete-Grows = record { at = λ run. ground arith }

module _ {W : Type 0} (kube : Kube W) (loader : CredentialsLoader) where
  Within-uncounted : {A : Type 0} (f : Exec W A) → Within Grows (on_world (uncounted f))
  unfolding on_world uncounted
  Within-uncounted f = record { at = λ run. omega arith }

  reads-IsQuiet : IsQuiet (counting_kube kube) loader Grows
  unfolding counting_kube on_world uncounted load load_ref ◌>>=◌
  reads-IsQuiet = record {
    owner = λ m. Within-uncounted (kube.get_owner_machine m);
    cluster = λ m. Within-uncounted (kube.get_cluster_from_metadata m);
    infra = λ key. Within-uncounted (kube.get_libvirt_cluster key);
    creds = λ c. record { at = λ run. ground arith };
  }

module _ {W : Type 0} (lib : KubeLib) (kube : Kube W) (p : Provider W)
    (sha256_hex : String → String) (loader : CredentialsLoader) where
  body-Grows :
      (s : Life W)
      → Grows
          (record { world = s.outside; obj = s.object })
          (before_patch lib kube p sha256_hex loader s)
  body-Grows s =
      (Within-reconcile_body lib (counting_kube kube) (counting_provider p) sha256_hex loader
          Grows-IsPreorder (reads-IsQuiet kube loader) (normal-Grows lib kube p)
          (delete-Grows lib kube p)).at
        (record { world = s.outside; obj = s.object })

  -- The patch creates nothing.
  outside_after-created :
      (s : Life W)
      → (outside_after lib kube p sha256_hex loader s).created
        ≡ (before_patch lib kube p sha256_hex loader s).world.created
  unfolding reconcile_object counting_kube uncounted
  outside_after-created s = refl

  -- Creations are matched by the provider ID, if there is one, and by the failed patches.
  abbrev IsMatched : Life W → Type 0
  IsMatched s = s.outside.created ≤ s.unsaved + has_id s.object.spec.provider_id

  Step-IsMatched :
      {s t : Life W} → Step lib kube p sha256_hex loader KeepsId s t → IsMatched s → IsMatched t
  Step-IsMatched {s} (saved stored e) h = ground (arith, body-Grows s, outside_after-created s)
  Step-IsMatched {s} (lost x failed e) h = ground (arith, body-Grows s, outside_after-created s)
  Step-IsMatched {s} (changed object inner kept e) h = ground arith

  Reach-IsMatched :
      {s t : Life W} → IsMatched s → Reach lib kube p sha256_hex loader KeepsId s t → IsMatched t
  Reach-IsMatched h here = h
  Reach-IsMatched h (next r step) = Step-IsMatched step (Reach-IsMatched h r)

  -- In the life of a machine, from an object for which nothing was created on, CreateMachine succeeds
  -- at most once more than there were reconciles whose patch failed; so at most once when every patch
  -- succeeds. Between reconciles the world changes in any way, and so does the object, but for a
  -- provider ID, which others do not take away.
  pub created_at_most_once :
      (s t : Life W)
      → s.outside.created ≡ 0
      → s.unsaved ≡ 0
      → Reach lib kube p sha256_hex loader KeepsId s t
      → t.outside.created ≤ t.unsaved + 1
  created_at_most_once s t nothing stored reach =
      ground (arith, Reach-IsMatched (omega (arith, nothing)) reach)
