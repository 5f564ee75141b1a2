-- ===== src/Controller/LibvirtProvider/Shape.antt =====
-- From the spec of a machine to the documents that libvirt is given: newMachineConfig, the defaults
-- of config.go, and the builders, together.
use cluster_api_provider_lib.Shared.{
  String, ◌≡◌, true, Option, [], ◌∷◌, ◌<>◌, arith, ◌≢◌, eq_iff, some, false,
}
use cluster_api_provider_lib.Config.{Bytes, Credentials, MachineConfig}
use cluster_api_provider_lib.Api.{LibvirtMachine, LibvirtCluster}
use cluster_api_provider_lib.Api.Validation.{is_valid_spec}
use cluster_api_provider_lib.Builders.DomainXml.{
  DomainXml, root_disk, cloud_init_disk, network_interface,
}
use cluster_api_provider_lib.Builders.VolumeXml.{StorageVolume}
use cluster_api_provider_lib.Client.Domains.{machine_domain}
use cluster_api_provider_lib.Client.Volumes.{root_volume}
use cluster_api_provider_lib.System.{System}
use cluster_api_provider_lib.Controller.Identity.{domain_name, domain_uuid}
use cluster_api_provider_lib.Controller.MachineReconciler.{new_machine_config}

module _ (sys : System) (sha256_hex : String → String) (m : LibvirtMachine) (c : LibvirtCluster)
    (creds : Option Credentials) (user_data : Bytes) where
  -- The configuration that CreateMachine is given.
  abbrev pub given_config : MachineConfig
  given_config =
      let cfg = new_machine_config sha256_hex m c in
      record cfg {
        infra_config = record cfg.infra_config { credentials = creds };
        user_data = user_data;
      }

  -- The document that the domain of this machine is to be defined from.
  abbrev pub document_of : (disk_path iso_path mac : String) → DomainXml
  document_of disk_path iso_path mac = record {
    type = "kvm";
    name = domain_name sha256_hex m;
    uuid = domain_uuid m;
    memory = m.spec.memory_mib;
    memory_unit = "MiB";
    vcpu = m.spec.vcpu;
    os_type = "hvm";
    os_arch = "x86_64";
    boot_devices = "hd" ∷ [];
    disks =
        record {
          device = "disk";
          driver_name = "qemu";
          driver_type = "qcow2";
          file = disk_path;
          target_dev = "vda";
          target_bus = "virtio";
          read_only = false;
        }
        ∷ record {
          device = "cdrom";
          driver_name = "qemu";
          driver_type = "raw";
          file = iso_path;
          target_dev = "sda";
          target_bus = "sata";
          read_only = true;
        }
        ∷ [];
    interfaces = record { network = c.spec.network; model = "virtio"; mac = some mac } ∷ [];
    serial_ports = 0 ∷ [];
    consoles = ("serial", 0) ∷ [];
  }

  -- The document that its root disk is to be made from.
  abbrev pub disk_document_of : (base_path : String) → StorageVolume
  disk_document_of base_path = record {
    name = domain_name sha256_hex m <> ".qcow2";
    capacity = m.spec.disk_gib;
    unit = "G";
    format = "qcow2";
    backing_store = some (record { path = base_path; format = "qcow2" });
  }

  -- For an admitted machine, a cluster with a network's name and a MAC that is not empty, the domain
  -- is the one that the specs describe, field by field: memory, CPUs, name and UUID of the machine, its
  -- two disks with their devices and drivers, and one interface, on the network that the cluster's spec
  -- names and with the MAC; and so is the volume of its root disk. No default of the client takes the
  -- place of a value of a spec.
  pub machine_domain-document :
      (disk_path iso_path mac base_path : String)
      → is_valid_spec m.spec ≡ true
      → c.spec.network ≢ ""
      → mac ≢ ""
      → (machine_domain given_config disk_path iso_path mac ≡ document_of disk_path iso_path mac)
        × (root_volume sys given_config base_path ≡ disk_document_of base_path)
  unfolding machine_domain root_volume new_machine_config is_valid_spec network_interface root_disk
      cloud_init_disk
  machine_domain-document disk_path iso_path mac base_path valid named given =
      (ground (arith, eq_iff c.spec.network "", eq_iff mac ""), ground arith)
