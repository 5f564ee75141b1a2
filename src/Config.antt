-- ===== src/Config.antt =====
-- internal/libvirtclient/config.go (the two configuration structs and their accessors) and the
-- credential structs of internal/libvirtclient/credentials.go.
use cluster_api_provider_lib.Shared.{ℕ, ◌==◌, str_eq, String, ◌<>◌, Option, List, if◌then◌else◌}
use cluster_api_provider_lib.Builders.{default_memory_mib, default_cpu, default_volume_capacity_gib}

abbrev pub Bytes : Type 0
Bytes = List ℕ

pub record TlsCredentials : Type 0 where
  pub ca_cert : Bytes
  pub client_cert : Bytes
  pub client_key : Bytes

pub record SshCredentials : Type 0 where
  pub private_key : Bytes
  pub known_hosts : Bytes

pub record Credentials : Type 0 where
  pub tls : Option TlsCredentials
  pub ssh : Option SshCredentials

pub record InfraConfig : Type 0 where
  pub uri : String
  pub base_pool : String
  pub domain_pool : String
  pub network : String
  pub credentials : Option Credentials

pub record MachineConfig : Type 0 where
  pub infra_config : InfraConfig
  pub domain_name : String
  pub domain_uuid : String
  pub hostname : String
  pub base_image : String
  pub memory_mib : ℕ
  pub vcpu : ℕ
  pub disk_size : ℕ
  pub user_data : Bytes

-- The accessors, by the name of the field that they read.
pub instance_id : MachineConfig → String
instance_id c = if str_eq c.domain_uuid "" then c.domain_name else c.domain_uuid

pub guest_hostname : MachineConfig → String
guest_hostname c = if str_eq c.hostname "" then c.domain_name else c.hostname

unfoldable pub domain_disk_name : MachineConfig → String
domain_disk_name c = c.domain_name <> ".qcow2"

unfoldable pub iso_disk_name : MachineConfig → String
iso_disk_name c = "cloudinit-" <> (c.domain_name <> ".iso")

unfoldable pub memory_or_default : MachineConfig → ℕ
memory_or_default c = if c.memory_mib == 0 then default_memory_mib else c.memory_mib

unfoldable pub vcpu_or_default : MachineConfig → ℕ
vcpu_or_default c = if c.vcpu == 0 then default_cpu else c.vcpu

unfoldable pub disk_size_gib : MachineConfig → ℕ
disk_size_gib c = if c.disk_size == 0 then default_volume_capacity_gib else c.disk_size
