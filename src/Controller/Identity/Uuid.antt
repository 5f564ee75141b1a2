-- ===== src/Controller/Identity/Uuid.antt =====
-- The provider ID and the domain's UUID give one another back.
use Prim.Native.String.{String}
use text.Mathlib.TextLemmas.{nil-append, cons-append}
use cluster_api_provider_lib.Shared.{◌<>◌, ◌≡◌, refl, Option, none, some, arith}
use cluster_api_provider_lib.Api.{LibvirtMachine}
use cluster_api_provider_lib.Controller.Identity.{
  strip, trim_prefix, provider_id_prefix, domain_uuid, set_provider_id, uuid_of, id_or,
}

strip-append : (prefix s : String) → strip prefix (prefix <> s) ≡ some s
unfolding strip
strip-append String.[] s = rw nil-append
strip-append (String.◌∷◌ c prefix) s = rw cons-append (ground (arith, strip-append prefix s))

pub trim_prefix-append : (prefix s : String) → trim_prefix prefix (prefix <> s) ≡ s
unfolding trim_prefix
trim_prefix-append prefix s = rw (strip-append prefix s, trim_prefix)

kept_uuid :
    (o : Option String) (uid : String)
    → trim_prefix provider_id_prefix (id_or o (provider_id_prefix <> uuid_of o uid)) ≡ uuid_of o uid
kept_uuid none uid = trim_prefix-append provider_id_prefix uid
kept_uuid (some id) uid = refl

-- Setting the provider ID does not change the UUID of the domain, and from then on the UUID does not
-- depend on the UID of the object any more.
pub domain_uuid-set_provider_id :
    (m : LibvirtMachine) (uid : String)
    → let m' = set_provider_id m in
      (domain_uuid m' ≡ domain_uuid m)
      × (domain_uuid (record m' { metadata = record m'.metadata { uid = uid } }) ≡ domain_uuid m)
unfolding set_provider_id domain_uuid
domain_uuid-set_provider_id m uid =
    (kept_uuid m.spec.provider_id m.metadata.uid, kept_uuid m.spec.provider_id m.metadata.uid)
