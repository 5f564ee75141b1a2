-- ===== src/Builders.antt =====
-- internal/libvirtclient/builders: the defaults, the volume builder (volume.go) and, in a child, the
-- domain builder (domain.go). A builder changes the document that it holds and returns itself, so
-- each method is a function on the document. The documents have the fields that the builders set.
pub mod DomainXml
pub mod VolumeXml
use cluster_api_provider_lib.Shared.{ℕ, String}

abbrev pub default_volume_capacity_gib : ℕ
default_volume_capacity_gib = 20

abbrev pub default_memory_mib : ℕ
default_memory_mib = 1024

abbrev pub default_cpu : ℕ
default_cpu = 1

abbrev pub default_volume_format : String
default_volume_format = "qcow2"

abbrev pub default_domain_type : String
default_domain_type = "kvm"

abbrev pub default_memory_unit : String
default_memory_unit = "MiB"

abbrev pub default_os_type : String
default_os_type = "hvm"

abbrev pub default_os_arch : String
default_os_arch = "x86_64"

abbrev pub default_disk_driver_name : String
default_disk_driver_name = "qemu"

abbrev pub default_disk_format : String
default_disk_format = "qcow2"

abbrev pub default_disk_target : String
default_disk_target = "vda"

abbrev pub default_disk_bus : String
default_disk_bus = "virtio"

abbrev pub default_network_name : String
default_network_name = "default"

abbrev pub default_network_model : String
default_network_model = "virtio"

abbrev pub default_cloud_init_driver_name : String
default_cloud_init_driver_name = "qemu"

abbrev pub default_cloud_init_format : String
default_cloud_init_format = "raw"

abbrev pub default_cloud_init_bus : String
default_cloud_init_bus = "sata"

abbrev pub default_cloud_init_target : String
default_cloud_init_target = "sda"

abbrev pub default_boot_dev_hd : String
default_boot_dev_hd = "hd"

abbrev pub default_volume_capacity_unit : String
default_volume_capacity_unit = "G"

abbrev pub raw_volume_format : String
raw_volume_format = "raw"
