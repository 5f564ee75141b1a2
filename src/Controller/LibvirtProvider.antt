-- ===== src/Controller/LibvirtProvider.antt =====
-- internal/controller/libvirt_provider.go: the libvirt client as the controllers' interface
-- `provider`.
pub mod Creation
pub mod Deletion
pub mod Observation
pub mod Shape
use cluster_api_provider_lib.System.{System, Session}
use cluster_api_provider_lib.Client.Provider.{
  ensure_infra, create_machine, start_machine, get_machine_state, delete_machine,
  get_machine_address,
}
use cluster_api_provider_lib.Controller.{Provider}

unfoldable pub client_provider : (sys : System) → Provider (Session sys)
client_provider sys = record {
  ensure_infra = ensure_infra sys;
  get_machine_state = get_machine_state sys;
  create_machine = create_machine sys;
  start_machine = start_machine sys;
  delete_machine = delete_machine sys;
  get_machine_address = get_machine_address sys;
}
