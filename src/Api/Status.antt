-- ===== src/Api/Status.antt =====
-- The finalizers, condition types and reasons of api/v1alpha1/status.go, and the two Secret keys of
-- api/v1alpha1/libvirtcluster_types.go.
use cluster_api_provider_lib.Shared.{String}

abbrev pub libvirt_cluster_finalizer : String
libvirt_cluster_finalizer = "libvirtcluster.infrastructure.cluster.x-k8s.io/finalizer"

abbrev pub libvirt_machine_finalizer : String
libvirt_machine_finalizer = "libvirtmachine.infrastructure.cluster.x-k8s.io/finalizer"

abbrev pub infrastructure_ready_condition : String
infrastructure_ready_condition = "InfrastructureReady"

abbrev pub infrastructure_provisioning_in_progress_reason : String
infrastructure_provisioning_in_progress_reason = "InfrastructureProvisioningInProgress"

abbrev pub infrastructure_provisioning_failed_reason : String
infrastructure_provisioning_failed_reason = "InfrastructureProvisioningFailed"

abbrev pub infrastructure_ready_reason : String
infrastructure_ready_reason = "InfrastructureReady"

abbrev pub infrastructure_missing_reason : String
infrastructure_missing_reason = "InfrastructureMissing"

abbrev pub infrastructure_inactive_reason : String
infrastructure_inactive_reason = "InfrastructureInactive"

abbrev pub credentials_unavailable_reason : String
credentials_unavailable_reason = "CredentialsUnavailable"

abbrev pub control_plane_endpoint_ready_condition : String
control_plane_endpoint_ready_condition = "ControlPlaneEndpointReady"

abbrev pub control_plane_endpoint_ready_reason : String
control_plane_endpoint_ready_reason = "ControlPlaneEndpointReady"

abbrev pub control_plane_endpoint_missing_reason : String
control_plane_endpoint_missing_reason = "ControlPlaneEndpointMissing"

abbrev pub machine_created_condition : String
machine_created_condition = "MachineCreated"

abbrev pub domain_provisioning_ready_condition : String
domain_provisioning_ready_condition = "DomainProvisioningReady"

abbrev pub domain_provisioning_in_progress_reason : String
domain_provisioning_in_progress_reason = "DomainProvisioningInProgress"

abbrev pub domain_provisioning_failed_reason : String
domain_provisioning_failed_reason = "DomainProvisioningFailed"

abbrev pub domain_running_condition : String
domain_running_condition = "DomainRunning"

abbrev pub domain_not_running_reason : String
domain_not_running_reason = "DomainNotRunning"

abbrev pub domain_not_found_reason : String
domain_not_found_reason = "DomainNotFound"

abbrev pub credentials_ca_cert_key : String
credentials_ca_cert_key = "ca.crt"

abbrev pub credentials_known_hosts_key : String
credentials_known_hosts_key = "known_hosts"
