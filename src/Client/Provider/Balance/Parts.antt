-- ===== src/Client/Provider/Balance/Parts.antt =====
-- The handles of the connection, of the checks of network and pools, and of the look-ups of a domain.
use cluster_api_provider_lib.Shared.{String, Option, none, some, List, [], ◌∷◌, refl}
use cluster_api_provider_lib.Config.{TlsCredentials, SshCredentials, Credentials, InfraConfig}
use cluster_api_provider_lib.System.{System}
use cluster_api_provider_lib.System.Handles.{
  IsBalanced, IsBalanced-bind, IsOpener, IsOpener-bind, IsOpener-deferring, balance_rules,
}
use cluster_api_provider_lib.Client.Connection.{
  CredentialFile, write_credential_files, tls_params, ssh_params, transport_params, connection_uri,
  open_connection, remove_dir, connect_with, connect,
}
use cluster_api_provider_lib.Client.Infra.{
  network_exists, is_network_active, storage_pool_exists, is_storage_pool_active, ensure_network,
  ensure_base_pool, ensure_domain_pool,
}
use cluster_api_provider_lib.Client.Domains.{delete_domain, get_domain_state}

module _ (sys : System) where
  write_credential_files-IsBalanced :
      (dir : String) (files : List CredentialFile)
      → IsBalanced (write_credential_files sys dir files)
  unfolding write_credential_files
  write_credential_files-IsBalanced dir [] = search balance_rules
  write_credential_files-IsBalanced dir (f ∷ files) =
      IsBalanced-bind _ _ (search balance_rules) λ _. write_credential_files-IsBalanced dir files

  tls_params-IsBalanced :
      (t : Option TlsCredentials) (dir : String) (params : sys.url.Values)
      → IsBalanced (tls_params sys t dir params)
  unfolding tls_params
  tls_params-IsBalanced none dir params = search balance_rules
  tls_params-IsBalanced (some t) dir params =
      search (balance_rules, write_credential_files-IsBalanced)

  ssh_params-IsBalanced :
      (t : Option SshCredentials) (dir : String) (params : sys.url.Values)
      → IsBalanced (ssh_params sys t dir params)
  unfolding ssh_params
  ssh_params-IsBalanced none dir params = search balance_rules
  ssh_params-IsBalanced (some t) dir params =
      search (balance_rules, write_credential_files-IsBalanced)

  connection_uri-IsBalanced :
      (c : Credentials) (uri dir : String) → IsBalanced (connection_uri sys c uri dir)
  unfolding connection_uri transport_params
  connection_uri-IsBalanced c uri dir =
      search (balance_rules, tls_params-IsBalanced, ssh_params-IsBalanced) depth 8

  open_connection-IsOpener : (uri : String) → IsOpener (open_connection sys uri)
  unfolding open_connection
  open_connection-IsOpener uri = search balance_rules

  connect_with-IsOpener :
      (c : Option Credentials) (uri : String) → IsOpener (connect_with sys c uri)
  unfolding connect_with remove_dir
  connect_with-IsOpener none uri = open_connection-IsOpener uri
  connect_with-IsOpener (some c) uri = IsOpener-bind _ _ (search balance_rules) λ dir.
      IsOpener-deferring _ _ (λ s. refl)
        (IsOpener-bind _ _ (connection_uri-IsBalanced c uri dir) open_connection-IsOpener)

  pub connect-IsOpener : (cfg : InfraConfig) → IsOpener (connect sys cfg)
  unfolding connect
  connect-IsOpener cfg = connect_with-IsOpener cfg.credentials cfg.uri

module _ (sys : System) (conn : sys.lv.Connect) (name : String) where
  network_exists-IsBalanced : IsBalanced (network_exists sys conn name)
  unfolding network_exists
  network_exists-IsBalanced = search balance_rules

  is_network_active-IsBalanced : IsBalanced (is_network_active sys conn name)
  unfolding is_network_active
  is_network_active-IsBalanced = search balance_rules

  storage_pool_exists-IsBalanced : IsBalanced (storage_pool_exists sys conn name)
  unfolding storage_pool_exists
  storage_pool_exists-IsBalanced = search balance_rules

  is_storage_pool_active-IsBalanced : IsBalanced (is_storage_pool_active sys conn name)
  unfolding is_storage_pool_active
  is_storage_pool_active-IsBalanced = search balance_rules

  ruleset infra_rules = (
    balance_rules, network_exists-IsBalanced, is_network_active-IsBalanced,
    storage_pool_exists-IsBalanced, is_storage_pool_active-IsBalanced,
  )

  pub ensure_network-IsBalanced : IsBalanced (ensure_network sys conn name)
  unfolding ensure_network
  ensure_network-IsBalanced = search infra_rules

  pub ensure_base_pool-IsBalanced : IsBalanced (ensure_base_pool sys conn name)
  unfolding ensure_base_pool
  ensure_base_pool-IsBalanced = search infra_rules

  pub ensure_domain_pool-IsBalanced : IsBalanced (ensure_domain_pool sys conn name)
  unfolding ensure_domain_pool
  ensure_domain_pool-IsBalanced = search infra_rules

  pub get_domain_state-IsBalanced : IsBalanced (get_domain_state sys conn name)
  unfolding get_domain_state
  get_domain_state-IsBalanced = search balance_rules

  pub delete_domain-IsBalanced : IsBalanced (delete_domain sys conn name)
  unfolding delete_domain
  delete_domain-IsBalanced = search balance_rules depth 8
