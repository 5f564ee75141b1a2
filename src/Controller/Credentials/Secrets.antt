-- ===== src/Controller/Credentials/Secrets.antt =====
-- Which Secrets give credentials.
use cluster_api_provider_lib.Shared.{
  Bool-cases, refl, ◌<>◌, Option, String, ◌≡◌, ◌≢◌, ◌⊎◌, true, false, none, some, is_some, List, [],
  ◌∷◌, All, inl, inr, arith,
}
use cluster_api_provider_lib.Errors.{Error, message}
use cluster_api_provider_lib.Errors.Exec.{Result, ok, err, ◌>>=◌}
use cluster_api_provider_lib.Config.{Credentials}
use cluster_api_provider_lib.Api.{LibvirtCluster}
use cluster_api_provider_lib.Controller.{SecretData, Kube}
use cluster_api_provider_lib.Controller.Credentials.{
  tls_of, ssh_of, join_keys, missing_keys, credentials_from_secret, CredentialsLoader, load,
  load_ref, has_any_key, has_value, value_of, require_keys, section_of,
}

-- Some key of the list has the property.
abbrev pub SomeKey : (String → Type 0) → List String → Type 0
SomeKey P [] = ⊥
SomeKey P (key ∷ keys) = P key ⊎ SomeKey P keys

module _ (content : SecretData) where
  abbrev pub IsEmpty : String → Type 0
  IsEmpty key = value_of content key ≡ []

  abbrev pub IsFull : String → Type 0
  IsFull key = value_of content key ≢ []

  -- Some keys of the set have a value, and some do not.
  abbrev pub IsPartial : List String → Type 0
  IsPartial keys = SomeKey IsFull keys × SomeKey IsEmpty keys

  IsFull-of_value : (key : String) → has_value content key ≡ true → IsFull key
  IsFull-of_value key e e' = ground arith

  has_any_key-true : (keys : List String) → has_any_key content keys ≡ true → SomeKey IsFull keys
  unfolding has_any_key
  has_any_key-true [] e = absurd (cc (e))
  has_any_key-true (key ∷ keys) e = ground (arith, IsFull-of_value key, has_any_key-true keys)

  has_any_key-false : (keys : List String) → has_any_key content keys ≡ false → All IsEmpty keys
  unfolding has_any_key
  has_any_key-false [] e = tt
  has_any_key-false (key ∷ keys) e = ground (arith, has_any_key-false keys)

  missing_keys-none : (keys : List String) → missing_keys content keys ≡ [] → All IsFull keys
  unfolding missing_keys
  missing_keys-none [] e = tt
  missing_keys-none (key ∷ keys) e = ground (arith, IsFull-of_value key, missing_keys-none keys)

  missing_keys-some :
      (keys : List String) (k : String) (rest : List String)
      → missing_keys content keys ≡ k ∷ rest
      → SomeKey IsEmpty keys
  unfolding missing_keys
  missing_keys-some [] k rest e = absurd (cc (e))
  missing_keys-some (key ∷ keys) k rest e = ground (arith, missing_keys-some keys k rest)

  -- One set of keys: all are empty and it gives nothing, all have values and it gives `value`, or it
  -- is an error.
  abbrev IsSection : {A : Type 0} → List String → A → Result (Option A) → Type 0
  IsSection keys value r =
      ((r ≡ ok none) × All IsEmpty keys)
      ⊎ ((r ≡ ok (some value)) × All IsFull keys)
      ⊎ ((e : Error) × (r ≡ err e) × IsPartial keys)

  IsSection-by_missing :
      {A : Type 0} (keys : List String) (value : A)
      → has_any_key content keys ≡ true
      → (missing : List String) → missing_keys content keys ≡ missing
      → IsSection keys value (section_of content keys value)
  unfolding section_of require_keys
  IsSection-by_missing keys value some_full [] e =
      inr (inl (rw (some_full, e) refl, missing_keys-none keys e))
  IsSection-by_missing keys value some_full (key ∷ rest) e = inr (
      inr (
        message ("missing keys: " <> join_keys (key ∷ rest)),
        rw (some_full, e) refl,
        (has_any_key-true keys some_full, missing_keys-some keys key rest e),
      ))

  section_of-IsSection :
      {A : Type 0} (keys : List String) (value : A)
      → IsSection keys value (section_of content keys value)
  unfolding section_of
  section_of-IsSection keys value = elim (Bool-cases (has_any_key content keys)) [
    | inl e ↦ IsSection-by_missing keys value e _ refl
    | inr e ↦ inl (rw e refl, has_any_key-false keys e)
  ]

  abbrev tls_names : List String
  tls_names = "ca.crt" ∷ "tls.crt" ∷ "tls.key" ∷ []

  abbrev ssh_names : List String
  ssh_names = "ssh-privatekey" ∷ "known_hosts" ∷ []

  -- A part of the credentials: there with these values, all of which are set, or not there, and none
  -- is set.
  abbrev pub IsPart : {A : Type 0} → List String → A → Option A → Type 0
  IsPart keys value part =
      ((part ≡ none) × All IsEmpty keys) ⊎ ((part ≡ some value) × All IsFull keys)

  -- What a Secret of this content gives.
  pub data IsReading (r : Result (Option Credentials)) : Type 0 where
    refused : (e : Error) → r ≡ err e → IsPartial tls_names ⊎ IsPartial ssh_names → IsReading r
    empty : r ≡ ok none → All IsEmpty tls_names → All IsEmpty ssh_names → IsReading r
    given :
        (creds : Credentials)
        → r ≡ ok (some creds)
        → SomeKey IsFull tls_names ⊎ SomeKey IsFull ssh_names
        → IsPart tls_names
            (record {
              ca_cert = value_of content "ca.crt";
              client_cert = value_of content "tls.crt";
              client_key = value_of content "tls.key";
            })
            creds.tls
        → IsPart ssh_names
            (record {
              private_key = value_of content "ssh-privatekey";
              known_hosts = value_of content "known_hosts";
            })
            creds.ssh
        → IsReading r

  -- A Secret is refused when one of the two sets of keys is given in part; it gives nothing when no key
  -- of either set has a value; else it gives credentials, with the values of each set that is whole and
  -- nothing for a set that is empty.
  pub credentials_from_secret-IsReading : IsReading (credentials_from_secret content)
  unfolding credentials_from_secret
  credentials_from_secret-IsReading = elim (section_of-IsSection tls_names (tls_of content)) [
    | inr (inr (e, x, partial)) ↦ refused e (ground arith) (inl partial)
    | inl (x, no_tls) ↦ elim (section_of-IsSection ssh_names (ssh_of content)) [
      | inr (inr (e, y, partial)) ↦ refused e (ground arith) (inr partial)
      | inl (y, no_ssh) ↦ empty (ground arith) no_tls no_ssh
      | inr (inl (y, full)) ↦
          given (record { tls = none; ssh = some (ssh_of content) }) (ground arith)
            (inr (inl full.0)) (inl (refl, no_tls)) (inr (refl, full))
    ]
    | inr (inl (x, full)) ↦ elim (section_of-IsSection ssh_names (ssh_of content)) [
      | inr (inr (e, y, partial)) ↦ refused e (ground arith) (inr partial)
      | inl (y, no_ssh) ↦
          given (record { tls = some (tls_of content); ssh = none }) (ground arith)
            (inl (inl full.0)) (inr (refl, full)) (inl (refl, no_ssh))
      | inr (inl (y, full')) ↦
          given (record { tls = some (tls_of content); ssh = some (ssh_of content) }) (ground arith)
            (inl (inl full.0)) (inr (refl, full)) (inr (refl, full'))
    ]
  ]

-- Credentials that a reference names are there or are an error, never nothing.
load-some :
    {W : Type 0} (kube : Kube W) (loader : CredentialsLoader) (c : LibvirtCluster) (w : W)
    → is_some c.spec.credentials_ref ≡ true
    → (load kube loader c w).0 ≢ ok none
unfolding load load_ref ◌>>=◌
load-some kube loader c w has_ref eq = ground arith
