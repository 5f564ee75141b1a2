-- ===== src/Startup/Servers.antt =====
-- What the options of the webhook server and of the metrics server amount to.
use cluster_api_provider_lib.Shared.{◌≡◌, List, [], ◌∷◌, if◌then◌else◌, arith}
use cluster_api_provider_lib.Startup.{
  Flags, TlsConfig, TlsOpt, disable_http2, tls_opts, webhook_server_options, metrics_server_options,
}

-- A server applies its options in order.
unfoldable pub configured : List TlsOpt → TlsConfig → TlsConfig
configured [] c = c
configured (opt ∷ opts) c = configured opts (opt c)

-- Both servers offer HTTP/1.1 alone, whatever their configuration was, unless HTTP/2 is enabled, and
-- then the options leave the configuration as it is. The metrics are filtered by authentication and
-- authorization exactly when they are served securely.
pub tls_opts-next_protos :
    (f : Flags) (c : TlsConfig)
    → let protos = if f.enable_http2 then c.next_protos else "http/1.1" ∷ [] in
      ((configured (webhook_server_options f).tls_opts c).next_protos ≡ protos)
      × ((configured (metrics_server_options f).tls_opts c).next_protos ≡ protos)
      × ((metrics_server_options f).filtered ≡ (metrics_server_options f).secure_serving)
unfolding webhook_server_options metrics_server_options tls_opts disable_http2 configured
tls_opts-next_protos f c = ground arith
