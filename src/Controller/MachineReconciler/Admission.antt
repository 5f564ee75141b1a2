-- ===== src/Controller/MachineReconciler/Admission.antt =====
-- The patch that ends a reconcile of a machine, and the validation of the API server.
use cluster_api_provider_lib.Shared.{
  String, ◌≡◌, refl, ap, Option, some, none, true, arith, eq_iff, inl, inr, ◌⊎◌,
}
use cluster_api_provider_lib.Api.{LibvirtMachine, LibvirtMachineSpec}
use cluster_api_provider_lib.Api.Validation.{is_valid_spec, is_same_once_set, is_valid_update}
use cluster_api_provider_lib.Controller.{Kube, KubeLib, Provider, Run}
use cluster_api_provider_lib.Controller.Credentials.{CredentialsLoader}
use cluster_api_provider_lib.Controller.MachineReconciler.{reconcile_body}
use cluster_api_provider_lib.Controller.MachineReconciler.Invariants.{
  Evolves, given_part, reconcile_body-Evolves,
}

same_or_new :
    (old new : Option String) → (old ≡ none) ⊎ (new ≡ old) → is_same_once_set old new ≡ true
unfolding is_same_once_set
same_or_new none new kept = refl
same_or_new (some id) none kept = refl
same_or_new (some id) (some id') (inl e) = absurd (cc (e))
same_or_new (some id) (some id') (inr e) = ground (arith, eq_iff id' id)

-- A spec that has the given part of an admitted one.
update_of_given :
    (old new : LibvirtMachineSpec)
    → is_valid_spec old ≡ true
    → (old.provider_id ≡ none) ⊎ (new.provider_id ≡ old.provider_id)
    → new.vcpu ≡ old.vcpu
    → new.memory_mib ≡ old.memory_mib
    → new.disk_gib ≡ old.disk_gib
    → new.image ≡ old.image
    → is_valid_update old new ≡ true
unfolding is_valid_update
update_of_given old new valid kept vcpu memory disk image = ground (
  arith,
  same_or_new old.provider_id new.provider_id kept,
  eq_iff new.image old.image,
  eq_iff new.image "",
  eq_iff old.image "",
)

Evolves-update :
    (m n : LibvirtMachine)
    → is_valid_spec m.spec ≡ true
    → Evolves m n
    → is_valid_update m.spec n.spec ≡ true
unfolding given_part
Evolves-update m n valid e =
    update_of_given m.spec n.spec valid e.provider_id
      (ap (λ (k : LibvirtMachine). k.spec.vcpu) e.given)
      (ap (λ (k : LibvirtMachine). k.spec.memory_mib) e.given)
      (ap (λ (k : LibvirtMachine). k.spec.disk_gib) e.given)
      (ap (λ (k : LibvirtMachine). k.spec.image) e.given)

-- When the machine that was read is one that the API server admits, it admits the spec that a
-- reconcile writes back, deleting or not and on every error path: no rule on an immutable field
-- refuses it, the one on a provider ID that is set included, and no minimum does.
pub reconcile_body_admitted :
    {W : Type 0} (lib : KubeLib) (kube : Kube W) (p : Provider W) (sha256_hex : String → String)
    (loader : CredentialsLoader) (run : Run W LibvirtMachine)
    → is_valid_spec run.obj.spec ≡ true
    → is_valid_update run.obj.spec (reconcile_body lib kube p sha256_hex loader run).1.obj.spec
      ≡ true
reconcile_body_admitted lib kube p sha256_hex loader run valid =
    Evolves-update run.obj _ valid (reconcile_body-Evolves lib kube p sha256_hex loader run)
