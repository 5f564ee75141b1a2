-- ===== src/Api.antt =====
-- api/v1alpha1: the LibvirtMachine and LibvirtCluster objects and the constants of status.go, with
-- the parts of the Kubernetes and Cluster API objects that the controllers read. The int32 fields of
-- the machine's spec have a positive minimum by their validation markers, and are natural numbers.
pub mod Status
pub mod Validation
use cluster_api_provider_lib.Shared.{ℕ, String, Bool, Option, List}

-- metav1.ObjectMeta, as far as it is read; `deleting` is a non-zero DeletionTimestamp.
pub record ObjectMeta : Type 0 where
  pub namespace : String
  pub name : String
  pub uid : String
  pub finalizers : List String
  pub annotations : List (String × String)
  pub deleting : Bool

pub record NamespacedName : Type 0 where
  pub namespace : String
  pub name : String

pub data ConditionStatus : Type 0 where
  condition_true condition_false condition_unknown : ConditionStatus

-- metav1.Condition; the generation and the transition time are the library's.
pub record Condition : Type 0 where
  pub type : String
  pub status : ConditionStatus
  pub reason : String
  pub message : String

pub record MachineAddress : Type 0 where
  pub type : String
  pub address : String

-- clusterv1.APIEndpoint.
pub record ApiEndpoint : Type 0 where
  pub host : String
  pub port : ℕ

pub record LibvirtMachineSpec : Type 0 where
  pub provider_id : Option String
  pub vcpu : ℕ
  pub memory_mib : ℕ
  pub disk_gib : ℕ
  pub image : String

pub record LibvirtMachineInitializationStatus : Type 0 where
  pub provisioned : Bool

pub record LibvirtMachineStatus : Type 0 where
  pub ready : Bool
  pub addresses : List MachineAddress
  pub conditions : List Condition
  pub initialization : LibvirtMachineInitializationStatus

pub record LibvirtMachine : Type 0 where
  pub metadata : ObjectMeta
  pub spec : LibvirtMachineSpec
  pub status : LibvirtMachineStatus

-- A Secret in the namespace of the cluster.
pub record CredentialsReference : Type 0 where
  pub name : String

pub record LibvirtClusterSpec : Type 0 where
  pub uri : String
  pub control_plane_endpoint : ApiEndpoint
  pub base_pool : String
  pub domain_pool : String
  pub network : String
  pub credentials_ref : Option CredentialsReference

pub record LibvirtClusterInitializationStatus : Type 0 where
  pub provisioned : Bool

pub record LibvirtClusterStatus : Type 0 where
  pub ready : Bool
  pub initialization : LibvirtClusterInitializationStatus
  pub conditions : List Condition

pub record LibvirtCluster : Type 0 where
  pub metadata : ObjectMeta
  pub spec : LibvirtClusterSpec
  pub status : LibvirtClusterStatus

-- clusterv1.Cluster and clusterv1.Machine.
pub record Cluster : Type 0 where
  pub metadata : ObjectMeta
  pub paused : Option Bool
  pub control_plane_endpoint : ApiEndpoint
  pub infrastructure_ref_name : String
  pub infrastructure_provisioned : Option Bool

pub record Machine : Type 0 where
  pub metadata : ObjectMeta
  pub data_secret_name : Option String

-- GetConditions and SetConditions of the two objects, which conditions.Set calls.
unfoldable pub get_machine_conditions : LibvirtMachine → List Condition
get_machine_conditions m = m.status.conditions

unfoldable pub set_machine_conditions : List Condition → LibvirtMachine → LibvirtMachine
set_machine_conditions conditions m = record m {
  status = record m.status { conditions = conditions };
}

unfoldable pub get_cluster_conditions : LibvirtCluster → List Condition
get_cluster_conditions c = c.status.conditions

unfoldable pub set_cluster_conditions : List Condition → LibvirtCluster → LibvirtCluster
set_cluster_conditions conditions c = record c {
  status = record c.status { conditions = conditions };
}
