-- ===== src/Controller/Identity.antt =====
-- The names of a machine: domainName, setProviderID and domainUUID of
-- internal/controller/libvirtmachine_controller.go. The names of Kubernetes objects are ASCII, so
-- bytes are characters.
pub mod Uuid
pub mod Length
pub mod Label
use Prim.Native.Char.{code}
use cluster_api_provider_lib.Shared.{
  ℕ, zero, suc, ◌-◌, ltb, ◌==◌, String, ◌<>◌, Bool, true, false, ◌&&◌, Option, none, some,
  if◌then◌else◌,
}
use cluster_api_provider_lib.Api.{LibvirtMachine}

abbrev pub provider_id_prefix : String
provider_id_prefix = "libvirt://"

abbrev pub domain_name_max_length : ℕ
domain_name_max_length = 63

abbrev pub domain_name_hash_length : ℕ
domain_name_hash_length = 6

abbrev pub domain_name_separator : String
domain_name_separator = "-"

-- len of an ASCII text.
unfoldable pub size : String → ℕ
size String.[] = 0
size (String.◌∷◌ c s) = suc (size s)

-- s[:n]
unfoldable pub take : ℕ → String → String
take zero s = String.[]
take (suc n) String.[] = String.[]
take (suc n) (String.◌∷◌ c s) = String.◌∷◌ c (take n s)

-- strings.ReplaceAll(s, ".", "-")
unfoldable pub replace_dots : String → String
replace_dots String.[] = String.[]
replace_dots (String.◌∷◌ c s) =
    if code c == b'.'
    then domain_name_separator <> replace_dots s
    else String.◌∷◌ c (replace_dots s)

abbrev pub is_empty : String → Bool
is_empty String.[] = true
is_empty (String.◌∷◌ c s) = false

-- strings.TrimRight(s, "-")
unfoldable pub trim_right : String → String
trim_right String.[] = String.[]
trim_right (String.◌∷◌ c s) =
    let rest = trim_right s in
    if is_empty rest && code c == b'-' then String.[] else String.◌∷◌ c rest

-- strings.TrimPrefix: `none` when the prefix is not there.
strip : String → String → Option String
strip String.[] s = some s
strip (String.◌∷◌ p prefix) String.[] = none
strip (String.◌∷◌ p prefix) (String.◌∷◌ c s) = if code p == code c then strip prefix s else none

unfoldable pub trim_prefix : String → String → String
unfolding strip
trim_prefix prefix s = elim (strip prefix s) [ none ↦ s | some rest ↦ rest ]

-- The prefix of the domain name, cut to leave room for the separator and the hash.
unfoldable pub cut_prefix : String → String
cut_prefix prefix =
    let max_prefix_length =
      domain_name_max_length - size domain_name_separator - domain_name_hash_length in
    if ltb max_prefix_length (size prefix)
    then trim_right (take max_prefix_length prefix)
    else prefix

-- `sha256_hex` is hex.EncodeToString of sha256.Sum256.
unfoldable pub domain_name : (sha256_hex : String → String) → LibvirtMachine → String
unfolding cut_prefix
domain_name sha256_hex m =
    let hash =
      take domain_name_hash_length
        (sha256_hex (m.metadata.namespace <> ("/" <> m.metadata.name))) in
    let prefix = m.metadata.namespace <> (domain_name_separator <> replace_dots m.metadata.name) in
    cut_prefix prefix <> (domain_name_separator <> hash)

abbrev uuid_of : Option String → String → String
uuid_of none uid = uid
uuid_of (some provider_id) uid = trim_prefix provider_id_prefix provider_id

unfoldable pub domain_uuid : LibvirtMachine → String
domain_uuid m = uuid_of m.spec.provider_id m.metadata.uid

abbrev id_or : Option String → String → String
id_or none id = id
id_or (some provider_id) id = provider_id

-- An identifier that is there stays as it is.
unfoldable pub set_provider_id : LibvirtMachine → LibvirtMachine
unfolding domain_uuid
set_provider_id m = record m {
  spec = record m.spec {
    provider_id = some (id_or m.spec.provider_id (provider_id_prefix <> domain_uuid m));
  };
}
