-- ===== src/Tests/Kubernetes.antt =====
-- A small cluster: a provider whose world is the list of the calls made, the newest first, and one
-- machine with its owners.
use cluster_api_provider_lib.Shared.{
  String, Bool, true, false, not, Option, none, some, List, [], ◌∷◌, if◌then◌else◌, str_eq,
}
use cluster_api_provider_lib.Errors.Exec.{Result, ok, Exec}
use cluster_api_provider_lib.Client.Domains.{DomainState}
use cluster_api_provider_lib.Api.{
  ObjectMeta, ApiEndpoint, LibvirtMachine, LibvirtCluster, Cluster, Machine,
}
use cluster_api_provider_lib.Api.Status.{libvirt_machine_finalizer, libvirt_cluster_finalizer}
use cluster_api_provider_lib.Controller.{Provider, Kube, KubeLib, Run}
use cluster_api_provider_lib.Controller.MachineReconciler.{MachineScope}
use cluster_api_provider_lib.Tests.Host.{toy_config}

abbrev pub Calls : Type 0
Calls = List String

abbrev recorded : {A : Type 0} → String → Result A → Exec Calls A
recorded name r calls = (r, name ∷ calls)

-- A provider by the answers to GetMachineState and GetMachineAddress and to the other calls.
abbrev pub provider_with : Result DomainState → Result String → Result (Unit {0}) → Provider Calls
provider_with state address result = record {
  ensure_infra = λ cfg. recorded "EnsureInfra" result;
  get_machine_state = λ cfg. recorded "GetMachineState" state;
  create_machine = λ cfg. recorded "CreateMachine" result;
  start_machine = λ cfg. recorded "StartMachine" result;
  delete_machine = λ cfg. recorded "DeleteMachine" result;
  get_machine_address = λ cfg. recorded "GetMachineAddress" address;
}

abbrev pub meta_with : List String → ObjectMeta
meta_with finalizers = record {
  namespace = "ns";
  name = "m1";
  uid = "u1";
  finalizers = finalizers;
  annotations = [];
  deleting = false;
}

abbrev pub endpoint : ApiEndpoint
endpoint = record { host = "10.0.0.1"; port = 6443 }

abbrev pub owner_cluster : Cluster
owner_cluster = record {
  metadata = meta_with [];
  paused = none;
  control_plane_endpoint = endpoint;
  infrastructure_ref_name = "c1";
  infrastructure_provisioned = some true;
}

abbrev pub owner_machine : Machine
owner_machine = record { metadata = meta_with []; data_secret_name = some "bootstrap" }

abbrev pub scope : MachineScope
scope = record { cluster = owner_cluster; machine = owner_machine; machine_config = toy_config }

abbrev pub machine_with : Option String → LibvirtMachine
machine_with provider_id = record {
  metadata = meta_with (libvirt_machine_finalizer ∷ []);
  spec = record {
    provider_id = provider_id;
    vcpu = 2;
    memory_mib = 2048;
    disk_gib = 20;
    image = "debian";
  };
  status = record {
    ready = false;
    addresses = [];
    conditions = [];
    initialization = record { provisioned = false };
  };
}

abbrev pub toy_cluster : LibvirtCluster
toy_cluster = record {
  metadata = meta_with (libvirt_cluster_finalizer ∷ []);
  spec = record {
    uri = "qemu:///system";
    control_plane_endpoint = endpoint;
    base_pool = "base";
    domain_pool = "domains";
    network = "default";
    credentials_ref = none;
  };
  status = record {
    ready = false;
    initialization = record { provisioned = false };
    conditions = [];
  };
}

abbrev pub toy_kube : {W : Type 0} → Kube W
toy_kube = record {
  get_libvirt_machine = λ key w. (ok (machine_with none), w);
  get_libvirt_cluster = λ key w. (ok toy_cluster, w);
  get_secret = λ key w. (ok (("value", 1 ∷ []) ∷ []), w);
  get_owner_machine = λ metadata w. (ok (some owner_machine), w);
  get_owner_cluster = λ metadata w. (ok (some owner_cluster), w);
  get_cluster_from_metadata = λ metadata w. (ok (some owner_cluster), w);
  new_machine_helper = λ m w. (ok tt, w);
  new_cluster_helper = λ c w. (ok tt, w);
  patch_machine = λ before after w. (ok tt, w);
  patch_cluster = λ before after w. (ok tt, w);
  list_all = λ w. (ok (toy_cluster ∷ []), w);
  list_in = λ namespace value w. (ok [], w);
}

unfoldable pub contains : List String → String → Bool
contains [] s = false
contains (x ∷ xs) s = let rest = contains xs s in if str_eq x s then true else rest

unfoldable pub without : List String → String → List String
without [] s = []
without (x ∷ xs) s = let rest = without xs s in if str_eq x s then rest else x ∷ rest

abbrev pub toy_lib : KubeLib
toy_lib = record {
  set_condition = λ c cs. c ∷ cs;
  contains_finalizer = contains;
  add_finalizer = λ fs f. f ∷ fs;
  remove_finalizer = λ fs f. (without fs f, contains fs f);
  is_paused = λ cluster metadata. false;
  is_valid = λ e. not (str_eq e.host "");
}

abbrev pub run_of : LibvirtMachine → Run Calls LibvirtMachine
run_of m = record { world = []; obj = m }
