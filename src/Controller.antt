-- ===== src/Controller.antt =====
-- internal/controller: the two reconcilers, the credentials loader and the machine's names. The
-- `provider` interface of libvirt_provider.go, the Kubernetes client and the helpers of the Cluster
-- API libraries are the interfaces that the reconcilers take; `W` is the state of the world outside.
pub mod Effects
pub mod Identity
pub mod Credentials
pub mod MachineStatus
pub mod MachineScope
pub mod MachineReconciler
pub mod ClusterReconciler
pub mod LibvirtProvider
pub mod MockProvider
pub mod Lifetime
pub mod Setup
use cluster_api_provider_lib.Shared.{ℕ, String, Bool, Option, List}
use cluster_api_provider_lib.Errors.Exec.{Result, ok, err, Exec}
use cluster_api_provider_lib.Config.{Bytes, InfraConfig, MachineConfig}
use cluster_api_provider_lib.Client.Domains.{DomainState}
use cluster_api_provider_lib.Api.{
  ObjectMeta, NamespacedName, Condition, ApiEndpoint, LibvirtMachine, LibvirtCluster, Cluster,
  Machine,
}

-- ctrl.Result, in seconds.
pub record CtrlResult : Type 0 where
  pub requeue_after : ℕ

abbrev pub requeue : ℕ → CtrlResult
requeue seconds = record { requeue_after = seconds }

-- `ctrl.Result{}`
abbrev pub no_requeue : CtrlResult
no_requeue = requeue 0

abbrev pub requeue_time_short : ℕ
requeue_time_short = 30

-- The end of both reconciles, a deferred patch: its error is returned only when there is no other.
abbrev pub patched : Result CtrlResult → Result (Unit {0}) → Result CtrlResult
patched (ok r) (err e) = err e
patched r _ = r

-- The interface `provider`.
pub record Provider (W : Type 0) : Type 0 where
  pub ensure_infra : InfraConfig → Exec W (Unit {0})
  pub get_machine_state : MachineConfig → Exec W DomainState
  pub create_machine : MachineConfig → Exec W (Unit {0})
  pub start_machine : MachineConfig → Exec W (Unit {0})
  pub delete_machine : MachineConfig → Exec W (Unit {0})
  pub get_machine_address : MachineConfig → Exec W String

-- A Secret's data.
abbrev pub SecretData : Type 0
SecretData = List (String × Bytes)

-- The Kubernetes client, cluster-api's util and its patch helper. `patch_*` takes the object as it
-- was when the helper was made and as it is now; `list_all` and `list_in` are List with no option,
-- and with InNamespace and MatchingFields of the credentials index.
pub record Kube (W : Type 0) : Type 0 where
  pub get_libvirt_machine : NamespacedName → Exec W LibvirtMachine
  pub get_libvirt_cluster : NamespacedName → Exec W LibvirtCluster
  pub get_secret : NamespacedName → Exec W SecretData
  pub get_owner_machine : ObjectMeta → Exec W (Option Machine)
  pub get_owner_cluster : ObjectMeta → Exec W (Option Cluster)
  pub get_cluster_from_metadata : ObjectMeta → Exec W (Option Cluster)
  pub new_machine_helper : LibvirtMachine → Exec W (Unit {0})
  pub new_cluster_helper : LibvirtCluster → Exec W (Unit {0})
  pub patch_machine : LibvirtMachine → LibvirtMachine → Exec W (Unit {0})
  pub patch_cluster : LibvirtCluster → LibvirtCluster → Exec W (Unit {0})
  pub list_all : Exec W (List LibvirtCluster)
  pub list_in : (namespace value : String) → Exec W (List LibvirtCluster)

-- Pure helpers of cluster-api and controller-runtime: conditions.Set on the conditions of an object,
-- controllerutil's finalizer functions, annotations.IsPaused and APIEndpoint.IsValid.
pub record KubeLib : Type 0 where
  pub set_condition : Condition → List Condition → List Condition
  pub contains_finalizer : List String → String → Bool
  pub add_finalizer : List String → String → List String
  pub remove_finalizer : List String → String → List String × Bool
  pub is_paused : Cluster → ObjectMeta → Bool
  pub is_valid : ApiEndpoint → Bool

-- The state of a reconcile: the world, and the object that it changes in place.
pub record Run (W Obj : Type 0) : Type 0 where
  pub world : W
  pub obj : Obj

module _ {W Obj : Type 0} where
  unfoldable pub on_world : {A : Type 0} → Exec W A → Exec (Run W Obj) A
  on_world f s = ((f s.world).0, record s { world = (f s.world).1 })

  unfoldable pub modify : (Obj → Obj) → Exec (Run W Obj) (Unit {0})
  modify f s = (ok tt, record s { obj = f s.obj })

  -- A step that reads the object.
  unfoldable pub reading : {A : Type 0} → (Obj → Exec (Run W Obj) A) → Exec (Run W Obj) A
  reading f s = f s.obj s
