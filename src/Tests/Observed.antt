-- ===== src/Tests/Observed.antt =====
-- The address of the small cluster's machine, whose domain runs on the small host: of its two leases the
-- second one has an address.
use cluster_api_provider_lib.Shared.{◌≡◌, refl, some, [], ◌∷◌}
use cluster_api_provider_lib.Errors.{is_libvirt_err}
use cluster_api_provider_lib.Errors.Exec.{◌>>=◌}
use cluster_api_provider_lib.Api.{LibvirtMachine}
use cluster_api_provider_lib.System.{Session, on_host, opening, opened, free}
use cluster_api_provider_lib.Network.Allocation.{derive_domain_mac}
use cluster_api_provider_lib.Network.Reservation.{lease_address_for_mac, machine_address}
use cluster_api_provider_lib.Client.Connection.{connect, connect_with, open_connection}
use cluster_api_provider_lib.Client.Domains.{get_domain_state, operations}
use cluster_api_provider_lib.Client.Provider.{get_machine_address, get_machine_state}
use cluster_api_provider_lib.Controller.{Run, on_world, modify, reading}
use cluster_api_provider_lib.Controller.MachineStatus.{set_addresses}
use cluster_api_provider_lib.Controller.MachineReconciler.{
  observe_result, reconcile_state, reconcile_normal,
}
use cluster_api_provider_lib.Controller.LibvirtProvider.{client_provider}
use cluster_api_provider_lib.Controller.LibvirtProvider.Observation.{
  AreLeased, reconcile_normal-AreLeased,
}
use cluster_api_provider_lib.Tests.Host.{toy_system, session_on, full_host, letters}
use cluster_api_provider_lib.Tests.Kubernetes.{scope, machine_with, toy_kube, toy_lib, contains}

abbrev on_full_host : Run (Session toy_system) LibvirtMachine
on_full_host = record { world = session_on full_host; obj = machine_with (some "libvirt://u1") }

address_found :
    (reconcile_normal toy_lib toy_kube
      (client_provider toy_system)
      scope
      on_full_host).1.obj.status.addresses
    ≡ (record { type = "InternalIP"; address = "192.168.122.19" } ∷ [])
unfolding client_provider get_machine_address get_machine_state get_domain_state machine_address
    lease_address_for_mac operations connect connect_with open_connection free on_host opening
    opened is_libvirt_err on_world modify reading reconcile_normal reconcile_state observe_result
    contains derive_domain_mac letters set_addresses ◌>>=◌
address_found = refl

reconcile_normal-AreLeased_example :
    AreLeased toy_system scope on_full_host
      (reconcile_normal toy_lib toy_kube
        (client_provider toy_system)
        scope
        on_full_host).1.obj.status.addresses
reconcile_normal-AreLeased_example =
    reconcile_normal-AreLeased toy_system scope on_full_host toy_lib toy_kube
