-- ===== src/Tests/Client.antt =====
-- The libvirt client's theorems on the small host.
use cluster_api_provider_lib.Shared.{◌-◌, ◌⊎◌, String, ◌≡◌, refl, none, some, false, ◌∷◌, [], arith}
use cluster_api_provider_lib.Errors.{Error}
use cluster_api_provider_lib.Errors.Exec.{ok, err, ◌>>=◌}
use cluster_api_provider_lib.Config.{Credentials, InfraConfig}
use cluster_api_provider_lib.Api.Status.{infrastructure_provisioning_failed_reason}
use cluster_api_provider_lib.Controller.ClusterReconciler.{get_infra_error}
use cluster_api_provider_lib.Controller.ClusterReconciler.Reasons.{ensure_infra_missing}
use cluster_api_provider_lib.Client.Connection.Cleanup.{connect_removes}
use cluster_api_provider_lib.System.{on_host, opening, opened}
use cluster_api_provider_lib.System.Handles.{IsBalanced}
use cluster_api_provider_lib.Client.Volumes.Upload.{drain, drain-next_chunk}
use cluster_api_provider_lib.Client.Connection.{
  connection_uri, connect, connect_with, open_connection,
}
use cluster_api_provider_lib.Client.Provider.{
  ensure_infra, create_machine, start_machine, get_machine_state, delete_machine,
  get_machine_address,
}
use cluster_api_provider_lib.Client.Provider.Balance.{provider-IsBalanced, start_machine_leaks}
use cluster_api_provider_lib.Tests.Host.{
  ToyHost, toy_system, bare_host, full_host, session_on, toy_infra, toy_config,
}

ensure_infra_missing_example :
    (e : Error) × ((ensure_infra toy_system toy_infra (session_on bare_host)).0 ≡ err e)
    × (get_infra_error e ≡ infrastructure_provisioning_failed_reason)
unfolding connect connect_with open_connection opening ◌>>=◌
ensure_infra_missing_example =
    ensure_infra_missing toy_system toy_infra (session_on bare_host)
      (record (session_on bare_host) { handles = 1 }) "qemu:///system" refl "not found" refl

abbrev idle_host : ToyHost
idle_host = record full_host { active = false }

abbrev tls_credentials : Credentials
tls_credentials = record {
  tls = some (record { ca_cert = 1 ∷ []; client_cert = 2 ∷ []; client_key = 3 ∷ [] });
  ssh = none;
}

abbrev tls_infra : InfraConfig
tls_infra = record toy_infra { credentials = some tls_credentials }

connect_removes_example :
    let made =
      connection_uri toy_system tls_credentials "qemu:///system" "libvirt-credentials-"
        (record (session_on bare_host) { files = 1 }) in
    let after = connect toy_system tls_infra (session_on bare_host) in
    (after.1.files ≡ made.1.files - 1)
    × (((e : Error) × (made.0 ≡ err e) × (after.0 ≡ err e) × (after.1.host ≡ bare_host))
        ⊎ ((uri : String) × (made.0 ≡ ok uri) × (after.1.host ≡ bare_host)))
connect_removes_example =
    connect_removes toy_system tls_infra tls_credentials (session_on bare_host) refl
      "libvirt-credentials-" 1 refl

drain-next_chunk_example : drain 4 2 (7 ∷ 8 ∷ 9 ∷ []) ≡ some (7 ∷ 8 ∷ 9 ∷ [])
drain-next_chunk_example = drain-next_chunk 4 2 (7 ∷ 8 ∷ 9 ∷ []) (omega arith) (omega arith)

provider-IsBalanced_example :
    IsBalanced (ensure_infra toy_system toy_infra)
    × IsBalanced (create_machine toy_system toy_config)
    × IsBalanced (get_machine_state toy_system toy_config)
    × IsBalanced (delete_machine toy_system toy_config)
    × IsBalanced (get_machine_address toy_system toy_config)
provider-IsBalanced_example = provider-IsBalanced toy_system toy_infra toy_config

started : (start_machine toy_system toy_config (session_on full_host)).0 ≡ ok tt
unfolding start_machine connect connect_with open_connection opened opening on_host ◌>>=◌
started = refl

start_machine_leaks_example :
    (start_machine toy_system toy_config (session_on full_host)).1.handles ≡ 1
start_machine_leaks_example =
    start_machine_leaks toy_system toy_config (session_on full_host) started
