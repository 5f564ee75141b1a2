-- ===== src/Client/Connection.antt =====
-- Opening a connection: connect and openConnection of internal/libvirtclient/config.go, and
-- connectionURI, files, writeCredentialFiles and transport of internal/libvirtclient/credentials.go.
pub mod Cleanup
use Prim.Native.Char.{code}
use cluster_api_provider_lib.Shared.{
  ℕ, ◌==◌, str_eq, String, ◌<>◌, ◌||◌, Option, none, some, List, [], ◌∷◌, if◌then◌else◌,
}
use cluster_api_provider_lib.Errors.{Error, message}
use cluster_api_provider_lib.Errors.Exec.{
  Exec, pure, fail, lift, wrapping, wrap_result, deferring, ◌>>=◌, ◌>>◌,
}
use cluster_api_provider_lib.Config.{
  Bytes, TlsCredentials, SshCredentials, Credentials, InfraConfig,
}
use cluster_api_provider_lib.System.{System, Session, on_files, opening}

pub record CredentialFile : Type 0 where
  pub name : String
  pub content : Bytes

abbrev pub credentials_dir_pattern : String
credentials_dir_pattern = "libvirt-credentials-"

-- 0o600
abbrev pub credentials_file_mode : ℕ
credentials_file_mode = 0o600

abbrev pub transport_tls : String
transport_tls = "tls"

abbrev pub transport_libssh : String
transport_libssh = "libssh"

abbrev pub transport_libssh2 : String
transport_libssh2 = "libssh2"

abbrev pub tls_ca_cert_file : String
tls_ca_cert_file = "cacert.pem"

abbrev pub tls_client_cert_file : String
tls_client_cert_file = "clientcert.pem"

abbrev pub tls_client_key_file : String
tls_client_key_file = "clientkey.pem"

abbrev pub ssh_private_key_file : String
ssh_private_key_file = "id_key"

abbrev pub ssh_known_hosts_file : String
ssh_known_hosts_file = "known_hosts"

abbrev pub uri_param_pki_path : String
uri_param_pki_path = "pkipath"

abbrev pub uri_param_key_file : String
uri_param_key_file = "keyfile"

abbrev pub uri_param_known_hosts : String
uri_param_known_hosts = "known_hosts"

abbrev pub uri_param_ssh_auth : String
uri_param_ssh_auth = "sshauth"

abbrev pub ssh_auth_private_key : String
ssh_auth_private_key = "privkey"

-- What stands after the first "+" of a URI scheme, and "" when there is none.
unfoldable pub transport : String → String
transport String.[] = ""
transport (String.◌∷◌ c rest) = if code c == b'+' then rest else transport rest

unfoldable pub tls_files : TlsCredentials → List CredentialFile
tls_files t =
    record { name = tls_ca_cert_file; content = t.ca_cert }
    ∷ record { name = tls_client_cert_file; content = t.client_cert }
    ∷ record { name = tls_client_key_file; content = t.client_key }
    ∷ []

unfoldable pub ssh_files : SshCredentials → List CredentialFile
ssh_files c =
    record { name = ssh_private_key_file; content = c.private_key }
    ∷ record { name = ssh_known_hosts_file; content = c.known_hosts }
    ∷ []

abbrev pub no_tls_credentials : Error
no_tls_credentials = message "the URI uses TLS but the credentials have no TLS keys"

abbrev pub no_ssh_credentials : Error
no_ssh_credentials = message "the URI uses SSH but the credentials have no SSH keys"

module _ (sys : System) where
  open sys.os use {mkdir_temp, remove_all, write_file, join}
  open sys.url use {Url, Values, parse, scheme, query, set, with_query}

  unfoldable pub write_credential_files :
      String → List CredentialFile → Exec (Session sys) (Unit {0})
  write_credential_files dir [] = pure tt
  write_credential_files dir (f ∷ files) = do
    wrapping ("write credential file " <> (f.name <> ": "))
        (on_files sys (write_file (join dir f.name) f.content credentials_file_mode))
    write_credential_files dir files

  unfoldable pub tls_params : Option TlsCredentials → String → Values → Exec (Session sys) Values
  unfolding tls_files
  tls_params none dir params = fail no_tls_credentials
  tls_params (some t) dir params = do
    write_credential_files dir (tls_files t)
    pure (set uri_param_pki_path dir params)

  unfoldable pub ssh_params : Option SshCredentials → String → Values → Exec (Session sys) Values
  unfolding ssh_files
  ssh_params none dir params = fail no_ssh_credentials
  ssh_params (some c) dir params = do
    write_credential_files dir (ssh_files c)
    pure (
        set uri_param_ssh_auth ssh_auth_private_key (
          set uri_param_known_hosts (join dir ssh_known_hosts_file)
            (set uri_param_key_file (join dir ssh_private_key_file) params)))

  -- The switch of connectionURI over the transport.
  unfoldable pub transport_params :
      Credentials → String → String → String → Values → Exec (Session sys) Values
  transport_params c uri_scheme kind dir params =
      if str_eq kind transport_tls
      then tls_params c.tls dir params
      else if str_eq kind transport_libssh || str_eq kind transport_libssh2
      then ssh_params c.ssh dir params
      else fail (
          message (
            "credentials are not supported for URI scheme "
            <> (sys.net.quote uri_scheme <> ", use qemu+tls, qemu+libssh or qemu+libssh2")))

  unfoldable pub connection_uri : Credentials → String → String → Exec (Session sys) String
  connection_uri c uri dir = do
    parsed ← lift (wrap_result "parse libvirt URI: " (parse uri))
    params ← transport_params c (scheme parsed) (transport (scheme parsed)) dir (query parsed)
    pure (with_query parsed params)

  unfoldable pub open_connection : String → Exec (Session sys) sys.lv.Connect
  open_connection uri = wrapping "connect to libvirt: " (opening sys (sys.lv.new_connect uri))

  -- `defer os.RemoveAll(dir)`
  unfoldable pub remove_dir : String → Session sys → Session sys
  remove_dir dir s = record s { files = remove_all dir s.files }

  unfoldable pub connect_with : Option Credentials → String → Exec (Session sys) sys.lv.Connect
  connect_with none uri = open_connection uri
  connect_with (some c) uri = do
    dir ← wrapping "create credentials dir: " (on_files sys (mkdir_temp credentials_dir_pattern))
    deferring (remove_dir dir) (do new_uri ← connection_uri c uri dir; open_connection new_uri)

  unfoldable pub connect : InfraConfig → Exec (Session sys) sys.lv.Connect
  connect cfg = connect_with cfg.credentials cfg.uri
