-- ===== src/Builders/DomainXml.antt =====
-- internal/libvirtclient/builders/domain.go: libvirtxml.Domain, as far as it is set.
use cluster_api_provider_lib.Shared.{
  ℕ, str_eq, String, Bool, true, false, Option, none, some, List, [], ◌∷◌, ◌++◌, if◌then◌else◌,
}
use cluster_api_provider_lib.Builders.{
  default_memory_mib, default_cpu, default_domain_type, default_memory_unit, default_os_type,
  default_os_arch, default_disk_driver_name, default_disk_format, default_disk_target,
  default_disk_bus, default_network_name, default_network_model, default_cloud_init_driver_name,
  default_cloud_init_format, default_cloud_init_bus, default_cloud_init_target, default_boot_dev_hd,
}

pub record DomainDisk : Type 0 where
  pub device : String
  pub driver_name : String
  pub driver_type : String
  pub file : String
  pub target_dev : String
  pub target_bus : String
  pub read_only : Bool

pub record DomainInterface : Type 0 where
  pub network : String
  pub model : String
  pub mac : Option String

pub record DomainXml : Type 0 where
  pub type : String
  pub name : String
  pub uuid : String
  pub memory : ℕ
  pub memory_unit : String
  pub vcpu : ℕ
  pub os_type : String
  pub os_arch : String
  pub boot_devices : List String
  pub disks : List DomainDisk
  pub interfaces : List DomainInterface
  pub serial_ports : List ℕ
  pub consoles : List (String × ℕ)

unfoldable pub new_domain : String → DomainXml
new_domain name = record {
  type = default_domain_type;
  name = name;
  uuid = "";
  memory = default_memory_mib;
  memory_unit = default_memory_unit;
  vcpu = default_cpu;
  os_type = default_os_type;
  os_arch = default_os_arch;
  boot_devices = default_boot_dev_hd ∷ [];
  disks = [];
  interfaces = [];
  serial_ports = [];
  consoles = [];
}

unfoldable pub with_uuid : String → DomainXml → DomainXml
with_uuid uuid d = record d { uuid = uuid }

unfoldable pub with_memory_mib : ℕ → DomainXml → DomainXml
with_memory_mib memory d = record d { memory = memory; memory_unit = default_memory_unit }

unfoldable pub with_vcpu : ℕ → DomainXml → DomainXml
with_vcpu vcpu d = record d { vcpu = vcpu }

unfoldable pub root_disk : String → DomainDisk
root_disk path = record {
  device = "disk";
  driver_name = default_disk_driver_name;
  driver_type = default_disk_format;
  file = path;
  target_dev = default_disk_target;
  target_bus = default_disk_bus;
  read_only = false;
}

unfoldable pub with_disk_file : String → DomainXml → DomainXml
unfolding root_disk
with_disk_file path d = record d { disks = d.disks ++ root_disk path ∷ [] }

unfoldable pub cloud_init_disk : String → DomainDisk
cloud_init_disk path = record {
  device = "cdrom";
  driver_name = default_cloud_init_driver_name;
  driver_type = default_cloud_init_format;
  file = path;
  target_dev = default_cloud_init_target;
  target_bus = default_cloud_init_bus;
  read_only = true;
}

unfoldable pub with_cloud_init_iso : String → DomainXml → DomainXml
unfolding cloud_init_disk
with_cloud_init_iso path d = record d { disks = d.disks ++ cloud_init_disk path ∷ [] }

unfoldable pub network_interface : String → String → DomainInterface
network_interface name mac = record {
  network = if str_eq name "" then default_network_name else name;
  model = default_network_model;
  mac = if str_eq mac "" then none else some mac;
}

unfoldable pub with_network : String → String → DomainXml → DomainXml
unfolding network_interface
with_network name mac d = record d { interfaces = d.interfaces ++ network_interface name mac ∷ [] }

unfoldable pub with_serial_console : DomainXml → DomainXml
with_serial_console d = record d {
  serial_ports = d.serial_ports ++ 0 ∷ [];
  consoles = d.consoles ++ ("serial", 0) ∷ [];
}
