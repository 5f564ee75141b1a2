-- ===== src/Client/Connection/Cleanup.antt =====
-- The credentials that connect writes to a temporary directory do not outlive the call.
use cluster_api_provider_lib.Shared.{String, List, [], ◌∷◌, ◌≡◌, refl, some, ◌⊎◌, inl, inr, arith}
use cluster_api_provider_lib.Errors.{Error}
use cluster_api_provider_lib.Errors.Exec.{Result-cases, ok, err, ◌>>=◌}
use cluster_api_provider_lib.Config.{InfraConfig, Credentials}
use cluster_api_provider_lib.System.{System, Session, on_files, on_host, opening}
use cluster_api_provider_lib.Client.Connection.{
  CredentialFile, write_credential_files, transport_params, tls_params, ssh_params,
  credentials_dir_pattern, remove_dir, connection_uri, open_connection, connect_with, connect,
}

-- Writing the credential files and making the URI leave the host alone.
write_credential_files-host :
    (sys : System) (dir : String) (files : List CredentialFile) (s : Session sys)
    → (write_credential_files sys dir files s).1.host ≡ s.host
unfolding write_credential_files on_files ◌>>=◌
write_credential_files-host sys dir [] s = refl
write_credential_files-host sys dir (f ∷ files) s =
    grind (arith, write_credential_files-host sys dir files)

connection_uri-host :
    (sys : System) (c : Credentials) (uri dir : String) (s : Session sys)
    → (connection_uri sys c uri dir s).1.host ≡ s.host
unfolding connection_uri transport_params tls_params ssh_params ◌>>=◌
connection_uri-host sys c uri dir s = grind (arith, write_credential_files-host sys dir)

-- With credentials, and once the temporary directory is made, connect removes it as its last step on
-- the files, whether the connection opens or not; and it asks the host for a connection only when
-- the URI and its credential files could be made.
pub connect_removes :
    (sys : System) (cfg : InfraConfig) (c : Credentials) (s : Session sys)
    → cfg.credentials ≡ some c
    → (dir : String) (files : sys.os.Files)
    → sys.os.mkdir_temp credentials_dir_pattern s.files ≡ (ok dir, files)
    → let made = connection_uri sys c cfg.uri dir (record s { files = files }) in
      let after = connect sys cfg s in
      (after.1.files ≡ sys.os.remove_all dir made.1.files)
      × (((e : Error) × (made.0 ≡ err e) × (after.0 ≡ err e) × (after.1.host ≡ s.host))
          ⊎ ((uri : String) × (made.0 ≡ ok uri)
              × (after.1.host ≡ (sys.lv.new_connect uri s.host).1)))
unfolding connect connect_with remove_dir open_connection opening on_files on_host ◌>>=◌
connect_removes sys cfg c s has dir files made =
    let start : Session sys = record s { files = files } in
    let same = connection_uri-host sys c cfg.uri dir start in
    elim (Result-cases (connection_uri sys c cfg.uri dir start).0) [
      | inl (uri, ready) ↦ (
        ground (arith, has, made, ready),
        inr (uri, ready, ground (arith, has, made, ready, same)),
      )
      | inr (e, failed) ↦ (
        ground (arith, has, made, failed),
        inl (e, failed, ground (arith, has, made, failed), ground (arith, has, made, failed, same)),
      )
    ]
