-- ===== src/Tests/Startup.antt =====
-- A start-up over the small host, whose manager ends at once; "-h" asks for the usage text.
use cluster_api_provider_lib.Shared.{ℕ, ◌≡◌, String, List, [], ◌∷◌, refl, str_eq, if◌then◌else◌}
use cluster_api_provider_lib.Errors.Exec.{ok, ◌>>=◌}
use cluster_api_provider_lib.System.{Session}
use cluster_api_provider_lib.Controller.Setup.{
  Manager, setup_cluster_reconciler, setup_machine_reconciler,
}
use cluster_api_provider_lib.Startup.{
  Flags, default_flags, TlsConfig, webhook_server_options, metrics_server_options, ParsedFlags,
  parsed, help, invalid, Runtime, main, start_manager,
}
use cluster_api_provider_lib.Startup.Servers.{configured, tls_opts-next_protos}
use cluster_api_provider_lib.Tests.Host.{toy_system, session_on, full_host}
use cluster_api_provider_lib.Tests.Kubernetes.{toy_kube, toy_lib}

abbrev toy_manager : Manager (Session toy_system)
toy_manager = record {
  index_field = λ field index s. (ok tt, s);
  complete = λ spec s. (ok tt, s);
  cluster_to_infrastructure = λ kind key s. (ok (key ∷ []), s);
  machine_to_infrastructure = λ kind key s. (ok (key ∷ []), s);
  cluster_to_typed_objects = λ kind s. (ok (λ key t. (ok [], t)), s);
}

abbrev toy_parse : Flags → List String → ParsedFlags
toy_parse defaults [] = parsed defaults
toy_parse defaults (arg ∷ args) = if str_eq arg "-h" then help else invalid

abbrev toy_runtime : Runtime (Session toy_system)
toy_runtime = record {
  parse_flags = toy_parse;
  new_manager = λ options s. (ok toy_manager, s);
  get_client = λ mgr. toy_kube;
  add_healthz_check = λ mgr name s. (ok tt, s);
  add_readyz_check = λ mgr name s. (ok tt, s);
  start = λ mgr s. (ok tt, s);
}

abbrev run : List String → ℕ
run args =
    (main toy_system toy_runtime toy_lib (λ s. s) "capl-system" args (session_on full_host)).0

asked_for_help : run ("-h" ∷ []) ≡ 0
unfolding main
asked_for_help = refl

mistaken : run ("--leader" ∷ []) ≡ 2
unfolding main
mistaken = refl

without_arguments : run [] ≡ 0
unfolding main start_manager setup_cluster_reconciler setup_machine_reconciler ◌>>=◌
without_arguments = refl

-- The servers offer HTTP/2 before the options apply.
abbrev h2 : TlsConfig
h2 = record { next_protos = "h2" ∷ [] }

tls_opts-next_protos_example :
    let f = default_flags "capl-system" in
    ((configured (webhook_server_options f).tls_opts h2).next_protos ≡ "http/1.1" ∷ [])
    × ((configured (metrics_server_options f).tls_opts h2).next_protos ≡ "http/1.1" ∷ [])
    × ((metrics_server_options f).filtered ≡ (metrics_server_options f).secure_serving)
unfolding default_flags
tls_opts-next_protos_example = tls_opts-next_protos (default_flags "capl-system") h2
