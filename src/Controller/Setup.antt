-- ===== src/Controller/Setup.antt =====
-- SetupWithManager of both reconcilers: which objects they watch, and which reconciles an event asks
-- for. The manager of controller-runtime and the map functions of cluster-api are a parameter.
use cluster_api_provider_lib.Shared.{String, List, [], ◌∷◌}
use cluster_api_provider_lib.Errors.Exec.{Exec, wrapping, ◌>>=◌, ◌>>◌}
use cluster_api_provider_lib.Api.{NamespacedName, LibvirtCluster}
use cluster_api_provider_lib.Controller.{CtrlResult, Provider, Kube, KubeLib}
use cluster_api_provider_lib.Controller.Credentials.{
  CredentialsLoader, credentials_ref_name, secret_to_libvirt_clusters,
}
use cluster_api_provider_lib.Controller.ClusterReconciler
use cluster_api_provider_lib.Controller.MachineReconciler

abbrev pub credentials_ref_name_field : String
credentials_ref_name_field = ".spec.credentialsRef.name"

-- The requests for an object that changed, by its key.
abbrev pub MapFunc : Type 0 → Type 0
MapFunc W = NamespacedName → Exec W (List NamespacedName)

-- The predicates of cluster-api that filter events.
pub data Predicate : Type 0 where
  every_event cluster_unpaused resource_not_paused : Predicate

pub record Watch (W : Type 0) : Type 0 where
  pub kind : String
  pub requests : MapFunc W
  pub predicate : Predicate

-- What the builder of a controller was given: For, Watches, Named and the reconciler of Complete.
pub record ControllerSpec (W : Type 0) : Type 0 where
  pub for_kind : String
  pub watches : List (Watch W)
  pub name : String
  pub reconcile : NamespacedName → Exec W CtrlResult

-- The manager: IndexField on LibvirtCluster objects, Complete, and the map functions of cluster-api's
-- util, of which ClusterToTypedObjectsMapper can fail.
pub record Manager (W : Type 0) : Type 0 where
  pub index_field : String → (LibvirtCluster → List String) → Exec W (Unit {0})
  pub complete : ControllerSpec W → Exec W (Unit {0})
  pub cluster_to_infrastructure : (kind : String) → MapFunc W
  pub machine_to_infrastructure : (kind : String) → MapFunc W
  pub cluster_to_typed_objects : (kind : String) → Exec W (MapFunc W)

module _ {W : Type 0} (mgr : Manager W) (lib : KubeLib) (kube : Kube W) (p : Provider W)
    (loader : CredentialsLoader) where
  unfoldable pub cluster_controller : ControllerSpec W
  cluster_controller = record {
    for_kind = "LibvirtCluster";
    watches =
        record {
          kind = "Secret";
          requests = secret_to_libvirt_clusters kube loader;
          predicate = every_event;
        }
        ∷ record {
          kind = "Cluster";
          requests = mgr.cluster_to_infrastructure "LibvirtCluster";
          predicate = cluster_unpaused;
        }
        ∷ [];
    name = "libvirtcluster";
    reconcile = ClusterReconciler.reconcile lib kube p loader;
  }

  unfoldable pub setup_cluster_reconciler : Exec W (Unit {0})
  setup_cluster_reconciler = do
    wrapping "index LibvirtCluster by .spec.credentialsRef.name: "
        (mgr.index_field credentials_ref_name_field credentials_ref_name)
    mgr.complete cluster_controller

  module _ (sha256_hex : String → String) where
    unfoldable pub machine_controller : MapFunc W → ControllerSpec W
    machine_controller cluster_to_libvirt_machine = record {
      for_kind = "LibvirtMachine";
      watches =
          record {
            kind = "Machine";
            requests = mgr.machine_to_infrastructure "LibvirtMachine";
            predicate = resource_not_paused;
          }
          ∷ record {
            kind = "Cluster";
            requests = cluster_to_libvirt_machine;
            predicate = cluster_unpaused;
          }
          ∷ [];
      name = "libvirtmachine";
      reconcile = MachineReconciler.reconcile lib kube p sha256_hex loader;
    }

    unfoldable pub setup_machine_reconciler : Exec W (Unit {0})
    setup_machine_reconciler = do
      cluster_to_libvirt_machine ← mgr.cluster_to_typed_objects "LibvirtMachine"
      mgr.complete (machine_controller cluster_to_libvirt_machine)
