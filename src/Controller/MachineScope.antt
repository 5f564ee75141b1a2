-- ===== src/Controller/MachineScope.antt =====
-- What a reconcile of a machine works on: its scope and the configuration that the provider is given,
-- from internal/controller/libvirtmachine_controller.go.
use cluster_api_provider_lib.Shared.{
  ℕ, str_eq, String, Bool, false, Option, none, some, [], ◌∷◌, if◌then◌else◌,
}
use cluster_api_provider_lib.Config.{Bytes, MachineConfig}
use cluster_api_provider_lib.Api.{LibvirtMachine, LibvirtCluster, Cluster, Machine}
use cluster_api_provider_lib.Controller.{SecretData}
use cluster_api_provider_lib.Controller.Identity.{domain_name, domain_uuid}

abbrev pub domain_state_check_interval : ℕ
domain_state_check_interval = 60

-- MachineScope without the context, the client and the LibvirtMachine, which is the run's object.
pub record MachineScope : Type 0 where
  pub cluster : Cluster
  pub machine : Machine
  pub machine_config : MachineConfig

unfoldable pub new_machine_config :
    (sha256_hex : String → String) → LibvirtMachine → LibvirtCluster → MachineConfig
new_machine_config sha256_hex m c = record {
  infra_config = record {
    uri = c.spec.uri;
    base_pool = c.spec.base_pool;
    domain_pool = c.spec.domain_pool;
    network = c.spec.network;
    credentials = none;
  };
  domain_name = domain_name sha256_hex m;
  domain_uuid = domain_uuid m;
  hostname = m.metadata.name;
  base_image = m.spec.image;
  memory_mib = m.spec.memory_mib;
  vcpu = m.spec.vcpu;
  disk_size = m.spec.disk_gib;
  user_data = [];
}

-- The value of a key, and whether the key is there.
unfoldable pub find_key : SecretData → String → Option Bytes
find_key [] key = none
find_key ((k, v) ∷ content) key = if str_eq k key then some v else find_key content key

-- `infraProvisioned != nil && *infraProvisioned`
abbrev pub is_provisioned : Option Bool → Bool
is_provisioned none = false
is_provisioned (some b) = b
