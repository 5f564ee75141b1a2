-- ===== src/Controller/MachineReconciler/Body.antt =====
-- What the two reconciles and the reads before them do to the state, Reconcile as a whole does.
use cluster_api_provider_lib.Shared.{String, Option, none, some, ◌≡◌, false}
use cluster_api_provider_lib.Errors.Exec.{Exec}
use cluster_api_provider_lib.Api.{
  ObjectMeta, NamespacedName, LibvirtMachine, LibvirtCluster, Machine, Cluster,
}
use cluster_api_provider_lib.Controller.{
  requeue, no_requeue, requeue_time_short, Provider, Kube, KubeLib, Run, on_world,
}
use cluster_api_provider_lib.Controller.Credentials.{CredentialsLoader, load}
use cluster_api_provider_lib.Controller.Effects.{
  IsPreorder, Within, Leads, Leads-pure, Leads-bind, Leads-branch, Leads-reading, Leads-of_Within,
}
use cluster_api_provider_lib.Controller.MachineReconciler.{
  MachineScope, reconcile_normal, reconcile_delete, reconcile_owned, with_machine, with_cluster,
  reconcile_body,
}

-- The reads of Reconcile keep to the relation.
pub record IsQuiet {W : Type 0} (kube : Kube W) (loader : CredentialsLoader)
    (R : Run W LibvirtMachine → Run W LibvirtMachine → Type 0) : Type 0 where
  pub owner : (m : ObjectMeta) → Within R (on_world (kube.get_owner_machine m))
  pub cluster : (m : ObjectMeta) → Within R (on_world (kube.get_cluster_from_metadata m))
  pub infra : (key : NamespacedName) → Within R (on_world (kube.get_libvirt_cluster key))
  pub creds : (c : LibvirtCluster) → Within R (on_world (load kube loader c))

-- The reads of Reconcile keep the condition.
pub record ReadsKeep {W : Type 0} (kube : Kube W) (loader : CredentialsLoader)
    (Pre : Run W LibvirtMachine → Type 0) : Type 0 where
  pub owner : (m : ObjectMeta) → Leads Pre Pre (on_world (kube.get_owner_machine m))
  pub cluster : (m : ObjectMeta) → Leads Pre Pre (on_world (kube.get_cluster_from_metadata m))
  pub infra : (key : NamespacedName) → Leads Pre Pre (on_world (kube.get_libvirt_cluster key))
  pub creds : (c : LibvirtCluster) → Leads Pre Pre (on_world (load kube loader c))

module _ {W : Type 0} (lib : KubeLib) (kube : Kube W) (p : Provider W)
    (sha256_hex : String → String) (loader : CredentialsLoader)
    {Pre Post : Run W LibvirtMachine → Type 0}
    (weaken : (run : Run W LibvirtMachine) → Pre run → Post run) (reads : ReadsKeep kube loader Pre)
    (normal : (scope : MachineScope) (run : Run W LibvirtMachine)
      → Pre run
      → run.obj.metadata.deleting ≡ false
      → Post (reconcile_normal lib kube p scope run).1)
    (deletion : (scope : MachineScope) (run : Run W LibvirtMachine)
      → Pre run
      → Post (reconcile_delete lib kube p scope run).1) where
  Leads-owned :
      (machine : Machine) (cluster : Cluster)
      → Leads Pre Post (reconcile_owned lib kube p sha256_hex loader machine cluster)
  unfolding reconcile_owned
  Leads-owned machine cluster = Leads-bind weaken _ _ (reads.infra _) λ c.
      Leads-bind weaken _ _ (reads.creds c) λ creds. Leads-reading _ λ run pre.
        Leads-branch Post run.obj.metadata.deleting _ _ run (λ e. deletion _ run pre)
          (λ e. normal _ run pre e)

  Leads-with_cluster :
      (machine : Machine) (cluster : Option Cluster)
      → Leads Pre Post (with_cluster lib kube p sha256_hex loader machine cluster)
  unfolding with_cluster
  Leads-with_cluster machine none = Leads-pure weaken no_requeue
  Leads-with_cluster machine (some cluster) = Leads-owned machine cluster

  Leads-with_machine :
      (machine : Option Machine)
      → Leads Pre Post (with_machine lib kube p sha256_hex loader machine)
  unfolding with_machine
  Leads-with_machine none = Leads-pure weaken (requeue requeue_time_short)
  Leads-with_machine (some machine) =
      Leads-bind weaken _ _ (reads.cluster _) λ cluster. Leads-with_cluster machine cluster

  pub Leads-reconcile_body : Leads Pre Post (reconcile_body lib kube p sha256_hex loader)
  unfolding reconcile_body
  Leads-reconcile_body =
      Leads-bind weaken _ _ (Leads-reading _ λ run pre. (reads.owner run.obj.metadata).at run pre)
        Leads-with_machine

module _ {W : Type 0} (lib : KubeLib) (kube : Kube W) (p : Provider W)
    (sha256_hex : String → String) (loader : CredentialsLoader)
    {R : Run W LibvirtMachine → Run W LibvirtMachine → Type 0} (order : IsPreorder R)
    (quiet : IsQuiet kube loader R)
    (normal : (scope : MachineScope) → Within R (reconcile_normal lib kube p scope))
    (deletion : (scope : MachineScope) → Within R (reconcile_delete lib kube p scope)) where
  reads_keep : (start : Run W LibvirtMachine) → ReadsKeep kube loader (R start)
  reads_keep start = record {
    owner = λ m. Leads-of_Within order start _ (quiet.owner m);
    cluster = λ m. Leads-of_Within order start _ (quiet.cluster m);
    infra = λ key. Leads-of_Within order start _ (quiet.infra key);
    creds = λ c. Leads-of_Within order start _ (quiet.creds c);
  }

  pub Within-reconcile_body : Within R (reconcile_body lib kube p sha256_hex loader)
  Within-reconcile_body = record {
    at = λ start.
        (Leads-reconcile_body lib kube p sha256_hex loader {Pre = R start} {Post = R start}
            (λ run r. r) (reads_keep start)
            (λ scope run r alive. order.trans start run _ r ((normal scope).at run))
            (λ scope run r. order.trans start run _ r ((deletion scope).at run))).at
          start (order.same start);
  }

-- A relation on the machine alone.
abbrev pub OnMachine :
    {W : Type 0}
    → (LibvirtMachine → LibvirtMachine → Type 0)
    → Run W LibvirtMachine
    → Run W LibvirtMachine
    → Type 0
OnMachine Q a b = Q a.obj b.obj

module _ {W : Type 0} {Q : LibvirtMachine → LibvirtMachine → Type 0} (order : IsPreorder Q) where
  pub OnMachine-IsPreorder : IsPreorder (OnMachine {W = W} Q)
  OnMachine-IsPreorder = record {
    same = λ a. order.same a.obj;
    trans = λ a b c. order.trans a.obj b.obj c.obj;
  }

  Within-on_world : {A : Type 0} (f : Exec W A) → Within (OnMachine Q) (on_world f)
  unfolding on_world
  Within-on_world f = record { at = λ run. order.same run.obj }

  -- The reads leave the machine as it is.
  pub OnMachine-IsQuiet :
      (kube : Kube W) (loader : CredentialsLoader) → IsQuiet kube loader (OnMachine Q)
  OnMachine-IsQuiet kube loader = record {
    owner = λ m. Within-on_world (kube.get_owner_machine m);
    cluster = λ m. Within-on_world (kube.get_cluster_from_metadata m);
    infra = λ key. Within-on_world (kube.get_libvirt_cluster key);
    creds = λ c. Within-on_world (load kube loader c);
  }
