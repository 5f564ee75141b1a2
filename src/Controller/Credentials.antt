-- ===== src/Controller/Credentials.antt =====
-- internal/controller/credentials.go: reading libvirt credentials from Secrets, and which clusters a
-- Secret concerns; newCredentialsLoader of cmd/main.go.
pub mod Secrets
pub mod Requests
use cluster_api_provider_lib.Shared.{
  ℕ, ◌==◌, str_eq, String, ◌<>◌, Bool, true, false, ◌&&◌, ◌||◌, Option, none, some, List, [], ◌∷◌,
  if◌then◌else◌, length, map,
}
use cluster_api_provider_lib.Errors.{Error, message, wrap, is_not_found}
use cluster_api_provider_lib.Errors.Exec.{
  Result, ok, err, Exec, pure, fail, lift, wrapping, wrap_result, attempt, ◌>>=◌,
}
use cluster_api_provider_lib.Config.{Bytes, Credentials, TlsCredentials, SshCredentials}
use cluster_api_provider_lib.Api.{NamespacedName, LibvirtCluster}
use cluster_api_provider_lib.Api.Status.{credentials_ca_cert_key, credentials_known_hosts_key}
use cluster_api_provider_lib.Controller.{SecretData, Kube}

-- corev1.TLSCertKey, TLSPrivateKeyKey and SSHAuthPrivateKey.
abbrev pub tls_secret_keys : List String
tls_secret_keys = credentials_ca_cert_key ∷ "tls.crt" ∷ "tls.key" ∷ []

abbrev pub ssh_secret_keys : List String
ssh_secret_keys = "ssh-privatekey" ∷ credentials_known_hosts_key ∷ []

-- data[key], with nil for a missing key.
unfoldable pub value_of : SecretData → String → Bytes
value_of [] key = []
value_of ((k, v) ∷ content) key = if str_eq k key then v else value_of content key

abbrev pub has_value : SecretData → String → Bool
has_value content key = elim (value_of content key) [ [] ↦ false | b ∷ bs ↦ true ]

unfoldable pub has_any_key : SecretData → List String → Bool
has_any_key content [] = false
has_any_key content (key ∷ keys) = if has_value content key then true else has_any_key content keys

-- The keys with no value, in the order of the list.
unfoldable pub missing_keys : SecretData → List String → List String
missing_keys content [] = []
missing_keys content (key ∷ keys) =
    let rest = missing_keys content keys in if has_value content key then rest else key ∷ rest

-- strings.Join(keys, ", ")
unfoldable pub join_keys : List String → String
join_keys [] = ""
join_keys (key ∷ []) = key
join_keys (key ∷ next ∷ keys) = key <> (", " <> join_keys (next ∷ keys))

unfoldable pub require_keys : SecretData → List String → Result (Unit {0})
require_keys content keys = elim (missing_keys content keys) [
  | [] ↦ ok tt
  | key ∷ rest ↦ err (message ("missing keys: " <> join_keys (key ∷ rest)))
]

abbrev pub tls_of : SecretData → TlsCredentials
tls_of content = record {
  ca_cert = value_of content credentials_ca_cert_key;
  client_cert = value_of content "tls.crt";
  client_key = value_of content "tls.key";
}

abbrev pub ssh_of : SecretData → SshCredentials
ssh_of content = record {
  private_key = value_of content "ssh-privatekey";
  known_hosts = value_of content credentials_known_hosts_key;
}

-- One block of credentialsFromSecret: nothing when no key of the set is there, an error when some
-- are missing.
unfoldable pub section_of : {A : Type 0} → SecretData → List String → A → Result (Option A)
section_of content keys value =
    if has_any_key content keys
    then (elim (require_keys content keys) [ ok _ ↦ ok (some value) | err e ↦ err e ])
    else ok none

abbrev pub credentials_of : Option TlsCredentials → Option SshCredentials → Option Credentials
credentials_of none none = none
credentials_of tls ssh = some (record { tls = tls; ssh = ssh })

unfoldable pub credentials_from_secret : SecretData → Result (Option Credentials)
unfolding section_of
credentials_from_secret content = elim (section_of content tls_secret_keys (tls_of content)) [
  | err e ↦ err e
  | ok tls ↦ elim (section_of content ssh_secret_keys (ssh_of content)) [
    | err e ↦ err e
    | ok ssh ↦ ok (credentials_of tls ssh)
  ]
]

abbrev pub shown : NamespacedName → String
shown key = key.namespace <> ("/" <> key.name)

-- CredentialsLoader without its client, which is an argument of the methods.
pub record CredentialsLoader : Type 0 where
  pub default_secret : NamespacedName

unfoldable pub new_credentials_loader : (name namespace : String) → CredentialsLoader
new_credentials_loader name namespace =
    if str_eq name "" || str_eq namespace ""
    then record { default_secret = record { namespace = ""; name = "" } }
    else record { default_secret = record { namespace = namespace; name = name } }

-- credentialsRefName, the index function.
unfoldable pub credentials_ref_name : LibvirtCluster → List String
credentials_ref_name c = elim c.spec.credentials_ref [ none ↦ [] | some ref ↦ ref.name ∷ [] ]

module _ {W : Type 0} (kube : Kube W) (l : CredentialsLoader) where
  open kube use {get_secret, list_all, list_in}

  no_keys : NamespacedName → Error
  no_keys key = message (
      "credentials secret "
      <> (shown key
          <> (": no TLS keys ("
              <> (join_keys tls_secret_keys
                  <> (") or SSH keys (" <> (join_keys ssh_secret_keys <> ") found"))))))

  required : NamespacedName → Option Credentials → Exec W (Option Credentials)
  unfolding no_keys
  required key none = fail (no_keys key)
  required key (some creds) = pure (some creds)

  unfoldable pub load_ref : String → String → Exec W (Option Credentials)
  unfolding required
  load_ref namespace name = do
    let key : NamespacedName = record { namespace = namespace; name = name }
    content ← wrapping ("get credentials secret " <> (shown key <> ": ")) (get_secret key)
    creds ← lift (
        wrap_result ("credentials secret " <> (shown key <> ": "))
          (credentials_from_secret content))
    required key creds

  default_loaded : Result SecretData → Exec W (Option Credentials)
  default_loaded (ok content) = lift (
      wrap_result ("default credentials secret " <> (shown l.default_secret <> ": "))
        (credentials_from_secret content))
  default_loaded (err e) =
      if is_not_found e
      then pure none
      else fail (wrap ("get default credentials secret " <> (shown l.default_secret <> ": ")) e)

  unfoldable pub load : LibvirtCluster → Exec W (Option Credentials)
  unfolding default_loaded
  load c = elim c.spec.credentials_ref [
    | some ref ↦ load_ref c.metadata.namespace ref.name
    | none ↦
        if str_eq l.default_secret.name ""
        then pure none
        else attempt (get_secret l.default_secret) default_loaded
  ]

  abbrev pub key_of : LibvirtCluster → NamespacedName
  key_of c = record { namespace = c.metadata.namespace; name = c.metadata.name }

  listed : Result (List LibvirtCluster) → Exec W (List NamespacedName)
  listed (ok items) = pure (map key_of items)
  listed (err e) = pure []

  -- `secret` is the key of the Secret that changed. A failed List gives no requests.
  unfoldable pub secret_to_libvirt_clusters : NamespacedName → Exec W (List NamespacedName)
  unfolding listed
  secret_to_libvirt_clusters secret =
      attempt
        (if str_eq secret.namespace l.default_secret.namespace
            && str_eq secret.name l.default_secret.name
          then list_all
          else list_in secret.namespace secret.name)
        listed
