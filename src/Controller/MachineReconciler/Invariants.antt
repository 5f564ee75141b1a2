-- ===== src/Controller/MachineReconciler/Invariants.antt =====
-- What every reconcile of a machine keeps: the consistency of its status, its provider ID, and all of
-- it that is not the reconciler's to write.
use cluster_api_provider_lib.Shared.{
  String, ◌≡◌, refl, ◌∙◌, ◌⊎◌, inr, true, false, none, is_some, [], arith,
}
use cluster_api_provider_lib.Errors.Exec.{◌>>=◌}
use cluster_api_provider_lib.Client.Domains.{DomainState, not_found, running, stopped, unknown}
use cluster_api_provider_lib.Api.{LibvirtMachine}
use cluster_api_provider_lib.Controller.{Provider, Kube, KubeLib, Run, on_world, modify, reading}
use cluster_api_provider_lib.Controller.Credentials.{CredentialsLoader}
use cluster_api_provider_lib.Controller.Effects.{IsPreorder, Within}
use cluster_api_provider_lib.Controller.Identity.{set_provider_id}
use cluster_api_provider_lib.Controller.MachineReconciler.{
  MachineScope, observe_result, create_result, start_result, create_missing, reconcile_state,
  reconcile_normal, drop_finalizer, reconcile_delete, reconcile_body,
}
use cluster_api_provider_lib.Controller.MachineReconciler.Body.{
  Within-reconcile_body, OnMachine, OnMachine-IsPreorder, OnMachine-IsQuiet,
}
use cluster_api_provider_lib.Controller.MachineStatus.{
  set_ready, set_available, set_addresses, set_finalizers, put_condition,
}

-- A machine that is not ready, or has a provider ID and is provisioned.
abbrev pub IsConsistent : LibvirtMachine → Type 0
IsConsistent m =
    (m.status.ready ≡ false)
    ⊎ ((is_some m.spec.provider_id ≡ true) × (m.status.initialization.provisioned ≡ true))

-- What is not the reconciler's to write: the spec without the provider ID, and the metadata without
-- the finalizers.
unfoldable pub given_part : LibvirtMachine → LibvirtMachine
given_part m = record {
  metadata = record m.metadata { finalizers = [] };
  spec = record m.spec { provider_id = none };
  status = record {
    ready = false;
    addresses = [];
    conditions = [];
    initialization = record { provisioned = false };
  };
}

-- The later machine has the earlier one's provider ID, if there was one, and its given part.
pub record Evolves (m n : LibvirtMachine) : Type 0 where
  pub provider_id : (m.spec.provider_id ≡ none) ⊎ (n.spec.provider_id ≡ m.spec.provider_id)
  pub given : given_part n ≡ given_part m

Evolves-IsPreorder : IsPreorder Evolves
Evolves-IsPreorder = record {
  same = λ m. record { provider_id = inr refl; given = refl };
  trans = λ m n o e f. record { provider_id = ground (arith, e, f); given = f.given ∙ e.given };
}

Keeping-IsPreorder : IsPreorder (λ m n. IsConsistent m → IsConsistent n)
Keeping-IsPreorder = record { same = λ m c. c; trans = λ m n o f g c. g (f c) }

module _ {W : Type 0} (lib : KubeLib) (kube : Kube W) (p : Provider W) (scope : MachineScope) where
  state-IsConsistent :
      (state : DomainState) (run : Run W LibvirtMachine)
      → IsConsistent (reconcile_state lib kube p scope state run).1.obj
  unfolding reconcile_state start_result create_result observe_result on_world modify reading
      set_ready set_available put_condition set_provider_id set_addresses create_missing ◌>>=◌
  state-IsConsistent not_found run = ground arith
  state-IsConsistent stopped run = ground arith
  state-IsConsistent running run = ground arith
  state-IsConsistent unknown run = ground arith

  reconcile_normal-IsConsistent :
      (run : Run W LibvirtMachine)
      → IsConsistent run.obj
      → IsConsistent (reconcile_normal lib kube p scope run).1.obj
  unfolding reconcile_normal on_world modify reading set_available set_finalizers put_condition
      ◌>>=◌
  reconcile_normal-IsConsistent run before = grind (arith, state-IsConsistent)

  reconcile_delete-IsConsistent :
      (run : Run W LibvirtMachine)
      → IsConsistent run.obj
      → IsConsistent (reconcile_delete lib kube p scope run).1.obj
  unfolding reconcile_delete drop_finalizer on_world modify reading set_finalizers ◌>>=◌
  reconcile_delete-IsConsistent run before = ground arith

  state-Evolves :
      (state : DomainState) (run : Run W LibvirtMachine)
      → Evolves run.obj (reconcile_state lib kube p scope state run).1.obj
  unfolding reconcile_state start_result create_result observe_result on_world modify reading
      set_ready set_available put_condition set_provider_id set_addresses create_missing given_part
      ◌>>=◌
  state-Evolves not_found run = ground arith
  state-Evolves stopped run = ground arith
  state-Evolves running run = ground arith
  state-Evolves unknown run = ground arith

  reconcile_normal-Evolves : Within (OnMachine Evolves) (reconcile_normal lib kube p scope)
  unfolding reconcile_normal on_world modify reading set_available set_finalizers put_condition
      given_part ◌>>=◌
  reconcile_normal-Evolves = record { at = λ run. grind (arith, state-Evolves) }

  reconcile_delete-Evolves : Within (OnMachine Evolves) (reconcile_delete lib kube p scope)
  unfolding reconcile_delete drop_finalizer on_world modify reading set_finalizers given_part ◌>>=◌
  reconcile_delete-Evolves = record { at = λ run. ground arith }

module _ {W : Type 0} (lib : KubeLib) (kube : Kube W) (p : Provider W)
    (sha256_hex : String → String) (loader : CredentialsLoader) (run : Run W LibvirtMachine) where
  -- The machine that a reconcile writes back, deleting or not and on every error path, is not ready,
  -- or has a provider ID and is provisioned, when the machine that it read was so.
  pub reconcile_body-IsConsistent :
      IsConsistent run.obj → IsConsistent (reconcile_body lib kube p sha256_hex loader run).1.obj
  reconcile_body-IsConsistent before =
      (Within-reconcile_body lib kube p sha256_hex loader (OnMachine-IsPreorder Keeping-IsPreorder)
          (OnMachine-IsQuiet Keeping-IsPreorder kube loader)
          (λ scope. record { at = reconcile_normal-IsConsistent lib kube p scope })
          (λ scope. record { at = reconcile_delete-IsConsistent lib kube p scope })).at
        run before

  -- A reconcile, deleting or not and on every error path, keeps a provider ID that is there and
  -- changes nothing of the machine but its status, its provider ID and its finalizers.
  pub reconcile_body-Evolves :
      Evolves run.obj (reconcile_body lib kube p sha256_hex loader run).1.obj
  reconcile_body-Evolves =
      (Within-reconcile_body lib kube p sha256_hex loader (OnMachine-IsPreorder Evolves-IsPreorder)
          (OnMachine-IsQuiet Evolves-IsPreorder kube loader) (reconcile_normal-Evolves lib kube p)
          (reconcile_delete-Evolves lib kube p)).at
        run
