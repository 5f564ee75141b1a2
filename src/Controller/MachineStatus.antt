-- ===== src/Controller/MachineStatus.antt =====
-- What libvirtmachine_controller.go writes into a LibvirtMachine: the fields of its status, and the
-- conditions, one function for each place that sets one.
use cluster_api_provider_lib.Shared.{String, ◌<>◌, Bool, true, false, List, []}
use cluster_api_provider_lib.Errors.{Error, error_text}
use cluster_api_provider_lib.Api.{
  ConditionStatus, condition_true, condition_false, MachineAddress, LibvirtMachine,
  get_machine_conditions, set_machine_conditions,
}
use cluster_api_provider_lib.Api.Status.{
  infrastructure_ready_condition, infrastructure_ready_reason,
  infrastructure_provisioning_in_progress_reason, machine_created_condition,
  domain_provisioning_ready_condition, domain_provisioning_in_progress_reason,
  domain_provisioning_failed_reason, domain_running_condition, domain_not_running_reason,
  domain_not_found_reason,
}
use cluster_api_provider_lib.Controller.{KubeLib}
use cluster_api_provider_lib.Controller.Identity.{set_provider_id}

unfoldable pub set_ready : Bool → LibvirtMachine → LibvirtMachine
set_ready b m = record m { status = record m.status { ready = b } }

-- Status.Ready and Status.Initialization.Provisioned are set together.
unfoldable pub set_available : Bool → LibvirtMachine → LibvirtMachine
set_available b m = record m {
  status = record m.status { ready = b; initialization = record { provisioned = b } };
}

unfoldable pub set_addresses : List MachineAddress → LibvirtMachine → LibvirtMachine
set_addresses addresses m = record m { status = record m.status { addresses = addresses } }

unfoldable pub set_finalizers : List String → LibvirtMachine → LibvirtMachine
set_finalizers finalizers m = record m { metadata = record m.metadata { finalizers = finalizers } }

module _ (lib : KubeLib) where
  open lib use {set_condition}

  unfoldable pub put_condition :
      String → ConditionStatus → String → String → LibvirtMachine → LibvirtMachine
  unfolding get_machine_conditions set_machine_conditions
  put_condition type status reason text m =
      set_machine_conditions
        (set_condition (record { type = type; status = status; reason = reason; message = text })
          (get_machine_conditions m))
        m

  abbrev pub waiting_for_infrastructure : LibvirtMachine → LibvirtMachine
  waiting_for_infrastructure m =
      put_condition infrastructure_ready_condition condition_false
        infrastructure_provisioning_in_progress_reason
        "Waiting for cluster infrastructure to be ready" (set_available false m)

  abbrev pub infrastructure_is_ready : LibvirtMachine → LibvirtMachine
  infrastructure_is_ready m =
      put_condition infrastructure_ready_condition condition_true infrastructure_ready_reason
        "Cluster infrastructure is ready" m

  abbrev pub provisioning_in_progress : LibvirtMachine → LibvirtMachine
  provisioning_in_progress m =
      put_condition domain_provisioning_ready_condition condition_false
        domain_provisioning_in_progress_reason "Domain provisioning in progress"
        (set_available false m)

  abbrev pub provisioning_failed : Error → LibvirtMachine → LibvirtMachine
  provisioning_failed e m =
      put_condition domain_provisioning_ready_condition condition_false
        domain_provisioning_failed_reason ("Failed to create Domain: " <> error_text e) m

  abbrev pub machine_is_created : LibvirtMachine → LibvirtMachine
  machine_is_created m = set_available true (
      put_condition machine_created_condition condition_true machine_created_condition ""
        (set_provider_id m))

  abbrev pub domain_not_running : String → LibvirtMachine → LibvirtMachine
  domain_not_running text m =
      put_condition domain_running_condition condition_false domain_not_running_reason text m

  abbrev pub domain_is_running : LibvirtMachine → LibvirtMachine
  domain_is_running m = set_available true (
      set_provider_id (
        put_condition domain_running_condition condition_true domain_running_condition
          "Domain is running" m))

  abbrev pub domain_is_lost : String → LibvirtMachine → LibvirtMachine
  domain_is_lost name m =
      put_condition domain_running_condition condition_false domain_not_found_reason
        ("Domain "
          <> (name <> " was deleted on the libvirt host, delete the Machine to replace it"))
        (set_addresses [] (set_ready false m))
