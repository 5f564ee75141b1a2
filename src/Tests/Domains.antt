-- ===== src/Tests/Domains.antt =====
-- The creation and the deletion of a domain through the client, on the small host that has the base
-- image and gives the new domain the address 17 + 2.
use cluster_api_provider_lib.Shared.{String, ◌≡◌, refl, ◌∙◌, true, false, none, [], ◌∷◌}
use cluster_api_provider_lib.Errors.{is_libvirt_err, is_volume_not_found}
use cluster_api_provider_lib.Errors.Exec.{ok, ◌>>=◌}
use cluster_api_provider_lib.Config.{MachineConfig, domain_disk_name, iso_disk_name}
use cluster_api_provider_lib.Network.Reservation.{
  HostUpdate, add_last, reserve_machine_ip, plan_host_update, plan_with, release_machine_ip,
  release_entry, network_xml,
}
use cluster_api_provider_lib.Network.Allocation.{
  allocate_machine_ip_in, allocate_in, probe, host_ip_set, is_free, hash_domain_name, lookup,
  derive_domain_mac, host_entry_in_network,
}
use cluster_api_provider_lib.Controller.Identity.{size}
use cluster_api_provider_lib.Network.Reservation.Calls.{
  reserve_machine_ip-carry_out, carry_out_update,
}
use cluster_api_provider_lib.System.{Session, on_host, on_files, opening, opened, free}
use cluster_api_provider_lib.Client.CloudInit.{
  write_cloud_init_iso, build_cloud_init_iso, copy_file, populate_iso, populated, write_iso_file,
  written, closing,
}
use cluster_api_provider_lib.Client.CloudInit.Image.{IsCopied, write_cloud_init_iso-IsCopied}
use cluster_api_provider_lib.Client.Volumes.{
  create_root_disk, create_iso_disk, get_volume_path, delete_volume, new_root_disk, new_iso_disk,
  create_volume, root_volume, iso_volume, storage_vol_upload, sent,
}
use cluster_api_provider_lib.Client.Domains.{
  not_found, get_domain_state, operations, create_domain, create_in_pools, define_and_start,
  delete_domain, destroy_if_active,
}
use cluster_api_provider_lib.Builders.VolumeXml.{
  new_volume, with_capacity, with_backing_store, with_raw_type,
}
use cluster_api_provider_lib.Client.Connection.{connect, connect_with, open_connection}
use cluster_api_provider_lib.Client.Provider.{
  create_machine, get_machine_state, delete_machine, delete_resources, release_machine_reservation,
}
use cluster_api_provider_lib.Api.{LibvirtMachine}
use cluster_api_provider_lib.Controller.{Run, no_requeue, on_world, modify, reading}
use cluster_api_provider_lib.Controller.MachineReconciler.{
  reconcile_normal, get_cloud_init_data, find_key, reconcile_delete, drop_finalizer,
}
use cluster_api_provider_lib.Controller.MachineReconciler.Creation.{
  WasCreated, reconcile_normal_created,
}
use cluster_api_provider_lib.Controller.LibvirtProvider.{client_provider}
use cluster_api_provider_lib.Controller.LibvirtProvider.Creation.{IsMade, reconcile_normal-IsMade}
use cluster_api_provider_lib.Tests.Kubernetes.{
  scope, machine_with, toy_kube, toy_lib, contains, without,
}
use cluster_api_provider_lib.Controller.MachineStatus.{set_finalizers}
use cluster_api_provider_lib.Controller.LibvirtProvider.Deletion.{IsGone, reconcile_delete-IsGone}
use cluster_api_provider_lib.Api.Status.{libvirt_machine_finalizer}
use cluster_api_provider_lib.Tests.Host.{
  ToyHost, net_lib, toy_system, toy_config, session_on, full_host, letters, empty_network, holds,
  all_but,
}
use cluster_api_provider_lib.Tests.Network.{candidates_of}

abbrev mac : String
mac = derive_domain_mac net_lib "m1"

allocated : allocate_machine_ip_in net_lib empty_network "m1" mac ≡ ok (letters 19)
unfolding allocate_machine_ip_in allocate_in probe host_ip_set is_free lookup letters size
    hash_domain_name
allocated = rw (candidates_of [], allocate_machine_ip_in) refl

abbrev plan : HostUpdate
plan = record { ip = letters 19; xml = letters 19; command = add_last; do_update = true }

planned : plan_host_update net_lib empty_network "m1" mac ≡ ok plan
unfolding plan_host_update plan_with host_entry_in_network letters
planned = rw (allocated, plan_host_update) refl

-- The same host without the domain, and of the volumes with the base image alone.
abbrev waiting_host : ToyHost
waiting_host = record full_host { domain = false; volumes = "debian" ∷ [] }

-- The host once both disks are made, the one of the cloud-init image last.
abbrev host_with_disks : ToyHost
host_with_disks = record waiting_host { volumes = "cloudinit-m1.iso" ∷ "m1.qcow2" ∷ "debian" ∷ [] }

abbrev waiting : Session toy_system
waiting = session_on waiting_host

abbrev with_data : MachineConfig
with_data = record toy_config { user_data = 1 ∷ [] }

abbrev holding_connection : Session toy_system
holding_connection = record (session_on host_with_disks) { handles = 4 }

reserved_there :
    reserve_machine_ip net_lib
      (operations toy_system "default")
      "default"
      "m1"
      mac
      holding_connection
    ≡ (ok (letters 19), holding_connection)
unfolding operations on_host
reserved_there =
    reserve_machine_ip-carry_out net_lib (operations toy_system "default") "default" "m1" mac
      holding_connection holding_connection "<network/>" empty_network plan refl refl planned
    ∙ carry_out_update net_lib (operations toy_system "default") "default" "m1" mac
        holding_connection holding_connection plan refl refl

-- Connected, with both pools open.
abbrev in_pools : ToyHost → Session toy_system
in_pools h = record (session_on h) { handles = 3 }

abbrev host_with_root_disk : ToyHost
host_with_root_disk = record waiting_host { volumes = "m1.qcow2" ∷ "debian" ∷ [] }

root_disk_made :
    create_root_disk toy_system "base" "domains" with_data (in_pools waiting_host)
    ≡ (ok "/m1.qcow2", in_pools host_with_root_disk)
unfolding create_root_disk new_root_disk create_volume get_volume_path root_volume new_volume
    with_capacity with_backing_store domain_disk_name is_volume_not_found holds free on_host opening
    opened ◌>>=◌
root_disk_made = refl

iso_disk_made :
    create_iso_disk toy_system "qemu:///system" "domains" with_data (in_pools host_with_root_disk)
    ≡ (ok "/cloudinit-m1.iso", in_pools host_with_disks)
unfolding create_iso_disk new_iso_disk create_volume get_volume_path iso_volume new_volume
    with_capacity with_raw_type iso_disk_name is_volume_not_found write_cloud_init_iso
    build_cloud_init_iso copy_file populate_iso populated write_iso_file written closing
    storage_vol_upload sent holds free on_host on_files opening opened ◌>>=◌
iso_disk_made = refl

made :
    create_machine toy_system with_data waiting
    ≡ (ok tt, record waiting { host = record host_with_disks { domain = true; active = true } })
unfolding create_machine connect connect_with open_connection create_domain create_in_pools
    define_and_start free on_host opening opened operations ◌>>=◌
made = rw (root_disk_made, iso_disk_made, reserved_there) refl

abbrev machine_run : Run (Session toy_system) LibvirtMachine
machine_run = record { world = waiting; obj = machine_with none }

state_absent : get_machine_state toy_system toy_config waiting ≡ (ok not_found, waiting)
unfolding get_machine_state get_domain_state connect connect_with open_connection free on_host
    opening opened is_libvirt_err ◌>>=◌
state_absent = refl

data_read :
    get_cloud_init_data toy_lib toy_kube
      (client_provider toy_system)
      scope.machine.metadata.namespace
      "bootstrap"
      waiting
    ≡ (ok (1 ∷ []), waiting)
unfolding get_cloud_init_data find_key ◌>>=◌
data_read = refl

became_ready :
    (reconcile_normal toy_lib toy_kube
      (client_provider toy_system)
      scope
      machine_run).1.obj.status.ready
    ≡ true
unfolding client_provider contains
became_ready =
    (reconcile_normal_created toy_lib toy_kube (client_provider toy_system) scope machine_run refl
      refl refl refl refl "bootstrap" refl (1 ∷ []) waiting waiting _ state_absent data_read made).2

reconcile_normal-IsMade_example :
    (was : WasCreated toy_lib toy_kube (client_provider toy_system) scope waiting) × IsMade
      toy_system
      (record toy_config { user_data = was.user_data })
      was.read_at
reconcile_normal-IsMade_example =
    reconcile_normal-IsMade toy_system toy_lib toy_kube scope machine_run refl waiting state_absent
      became_ready

image_written : (write_cloud_init_iso toy_system with_data waiting).0 ≡ ok (1 ∷ 2 ∷ [])
unfolding write_cloud_init_iso build_cloud_init_iso copy_file populate_iso populated write_iso_file
    written closing on_files ◌>>=◌
image_written = refl

write_cloud_init_iso-IsCopied_example :
    IsCopied toy_system with_data
      (1 ∷ 2 ∷ [])
      waiting.files
      (write_cloud_init_iso toy_system with_data waiting).1.files
write_cloud_init_iso-IsCopied_example =
    write_cloud_init_iso-IsCopied toy_system with_data (1 ∷ 2 ∷ []) waiting image_written

-- The host with the machine's domain, volumes and network, and no entry of it.
abbrev leaving : Run (Session toy_system) LibvirtMachine
leaving = record { world = session_on full_host; obj = machine_with none }

left :
    (reconcile_delete toy_lib toy_kube (client_provider toy_system) scope leaving).0 ≡ ok no_requeue
unfolding reconcile_delete drop_finalizer client_provider delete_machine delete_resources
    delete_domain destroy_if_active delete_volume release_machine_reservation release_machine_ip
    release_entry network_xml operations host_entry_in_network connect connect_with open_connection
    domain_disk_name iso_disk_name free on_host opening opened is_libvirt_err is_volume_not_found
    on_world modify reading set_finalizers contains holds all_but ◌>>=◌
left = refl

reconcile_delete-IsGone_example :
    let after = reconcile_delete toy_lib toy_kube (client_provider toy_system) scope leaving in
    IsGone toy_system toy_config (session_on full_host) after.1.world
    × (after.1.obj.metadata.finalizers ≡ [])
    × (contains leaving.obj.metadata.finalizers libvirt_machine_finalizer ≡ true)
unfolding without
reconcile_delete-IsGone_example =
    reconcile_delete-IsGone toy_system toy_lib toy_kube scope leaving no_requeue left
