-- ===== src/Startup.antt =====
-- cmd/main.go: the flags, the options of the two servers and of the manager, and the order of the
-- calls that start the manager. The package flag and controller-runtime are parameters; the loggers,
-- with their flags, and the scheme, which change nothing of this, are left out.
pub mod Servers
use cluster_api_provider_lib.Shared.{
  ℕ, String, Bool, true, false, List, [], ◌∷◌, str_eq, not, if◌then◌else◌,
}
use cluster_api_provider_lib.Errors.Exec.{Result, ok, err, Exec, ◌>>=◌, ◌>>◌}
use cluster_api_provider_lib.System.{System, Session}
use cluster_api_provider_lib.Controller.{Kube, KubeLib}
use cluster_api_provider_lib.Controller.Credentials.{CredentialsLoader, new_credentials_loader}
use cluster_api_provider_lib.Controller.LibvirtProvider.{client_provider}
use cluster_api_provider_lib.Controller.Setup.{
  Manager, setup_cluster_reconciler, setup_machine_reconciler,
}

-- The variables that the flags set.
pub record Flags : Type 0 where
  pub metrics_addr : String
  pub metrics_cert_path : String
  pub metrics_cert_name : String
  pub metrics_cert_key : String
  pub webhook_cert_path : String
  pub webhook_cert_name : String
  pub webhook_cert_key : String
  pub enable_leader_election : Bool
  pub probe_addr : String
  pub secure_metrics : Bool
  pub enable_http2 : Bool
  pub credentials_secret_name : String
  pub credentials_secret_namespace : String

abbrev pub default_credentials_secret_name : String
default_credentials_secret_name = "cluster-api-provider-libvirt-credentials"

-- Without arguments, from the value of POD_NAMESPACE.
unfoldable pub default_flags : String → Flags
default_flags pod_namespace = record {
  metrics_addr = "0";
  metrics_cert_path = "";
  metrics_cert_name = "tls.crt";
  metrics_cert_key = "tls.key";
  webhook_cert_path = "";
  webhook_cert_name = "tls.crt";
  webhook_cert_key = "tls.key";
  enable_leader_election = false;
  probe_addr = ":8081";
  secure_metrics = true;
  enable_http2 = false;
  credentials_secret_name = default_credentials_secret_name;
  credentials_secret_namespace = pod_namespace;
}

-- What flag.Parse makes of the arguments: the flags, a request for the usage text, or a mistake.
pub data ParsedFlags : Type 0 where
  parsed : Flags → ParsedFlags
  help invalid : ParsedFlags

-- tls.Config, as far as it is written.
pub record TlsConfig : Type 0 where
  pub next_protos : List String

abbrev pub TlsOpt : Type 0
TlsOpt = TlsConfig → TlsConfig

unfoldable pub disable_http2 : TlsOpt
disable_http2 c = record c { next_protos = "http/1.1" ∷ [] }

unfoldable pub tls_opts : Flags → List TlsOpt
tls_opts f = if not f.enable_http2 then disable_http2 ∷ [] else []

-- webhook.Options.
pub record WebhookOptions : Type 0 where
  pub tls_opts : List TlsOpt
  pub cert_dir : String
  pub cert_name : String
  pub key_name : String

unfoldable pub webhook_server_options : Flags → WebhookOptions
webhook_server_options f =
    if not (str_eq f.webhook_cert_path "")
    then record {
      tls_opts = tls_opts f;
      cert_dir = f.webhook_cert_path;
      cert_name = f.webhook_cert_name;
      key_name = f.webhook_cert_key;
    }
    else record { tls_opts = tls_opts f; cert_dir = ""; cert_name = ""; key_name = "" }

-- The options of the metrics server; `filtered` is a FilterProvider that authenticates and authorizes.
pub record MetricsOptions : Type 0 where
  pub bind_address : String
  pub secure_serving : Bool
  pub tls_opts : List TlsOpt
  pub filtered : Bool
  pub cert_dir : String
  pub cert_name : String
  pub key_name : String

unfoldable pub metrics_without_cert : Flags → MetricsOptions
metrics_without_cert f = record {
  bind_address = f.metrics_addr;
  secure_serving = f.secure_metrics;
  tls_opts = tls_opts f;
  filtered = f.secure_metrics;
  cert_dir = "";
  cert_name = "";
  key_name = "";
}

unfoldable pub metrics_server_options : Flags → MetricsOptions
unfolding metrics_without_cert
metrics_server_options f =
    if not (str_eq f.metrics_cert_path "")
    then record (metrics_without_cert f) {
      cert_dir = f.metrics_cert_path;
      cert_name = f.metrics_cert_name;
      key_name = f.metrics_cert_key;
    }
    else metrics_without_cert f

-- ctrl.Options.
pub record ManagerOptions : Type 0 where
  pub metrics : MetricsOptions
  pub webhook : WebhookOptions
  pub health_probe_bind_address : String
  pub leader_election : Bool
  pub leader_election_id : String

unfoldable pub manager_options : Flags → ManagerOptions
manager_options f = record {
  metrics = metrics_server_options f;
  webhook = webhook_server_options f;
  health_probe_bind_address = f.probe_addr;
  leader_election = f.enable_leader_election;
  leader_election_id = "12f9358c.cluster.x-k8s.io";
}

-- The package flag: the flags with these defaults, and the arguments. controller-runtime: NewManager, with the configuration of the API server, whose absence is a failure
-- like any other; the manager's client; its checks; and Start, which returns when the manager ends.
pub record Runtime (W : Type 0) : Type 0 where
  pub parse_flags : Flags → List String → ParsedFlags
  pub new_manager : ManagerOptions → Exec W (Manager W)
  pub get_client : Manager W → Kube W
  pub add_healthz_check : Manager W → String → Exec W (Unit {0})
  pub add_readyz_check : Manager W → String → Exec W (Unit {0})
  pub start : Manager W → Exec W (Unit {0})

-- os.Exit(1) after each error.
abbrev pub exit_code : Result (Unit {0}) → ℕ
exit_code (ok _) = 0
exit_code (err e) = 1

module _ (sys : System) (rt : Runtime (Session sys)) (lib : KubeLib)
    (sha256_hex : String → String) where
  open rt use {new_manager, get_client, add_healthz_check, add_readyz_check, start}

  unfoldable pub start_manager : Flags → Exec (Session sys) (Unit {0})
  start_manager f = do
    mgr ← new_manager (manager_options f)
    let provider = client_provider sys
    let kube = get_client mgr
    let credentials =
        new_credentials_loader f.credentials_secret_name f.credentials_secret_namespace
    setup_cluster_reconciler mgr lib kube provider credentials
    setup_machine_reconciler mgr lib kube provider credentials sha256_hex
    add_healthz_check mgr "healthz"
    add_readyz_check mgr "readyz"
    start mgr

  -- flag.Parse ends the process by itself, since flag.CommandLine is made with ExitOnError: with 0 after
  -- the usage text was asked for, with 2 after a mistake.
  unfoldable pub main : String → List String → Session sys → ℕ × Session sys
  main pod_namespace args s = elim (rt.parse_flags (default_flags pod_namespace) args) [
    | help ↦ (0, s)
    | invalid ↦ (2, s)
    | parsed f ↦ (exit_code (start_manager f s).0, (start_manager f s).1)
  ]
