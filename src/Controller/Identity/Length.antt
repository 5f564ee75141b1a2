-- ===== src/Controller/Identity/Length.antt =====
-- The length of a domain's name.
use Prim.Native.String.{String}
use text.Mathlib.TextLemmas.{nil-append, cons-append}
use cluster_api_provider_lib.Shared.{ℕ, zero, suc, ◌+◌, ◌≤◌, ◌<>◌, ◌≡◌, arith}
use cluster_api_provider_lib.Api.{LibvirtMachine}
use cluster_api_provider_lib.Controller.Identity.{
  size, take, trim_right, cut_prefix, domain_name, domain_name_max_length, domain_name_separator,
}

size-append : (s t : String) → size (s <> t) ≡ size s + size t
unfolding size
size-append String.[] t = rw nil-append (omega arith)
size-append (String.◌∷◌ c s) t = rw cons-append (omega (arith, size-append s t))

size-take_le : (n : ℕ) (s : String) → size (take n s) ≤ n
unfolding take size
size-take_le zero s = omega arith
size-take_le (suc n) String.[] = omega arith
size-take_le (suc n) (String.◌∷◌ c s) = omega (arith, size-take_le n s)

size-trim_right_le : (s : String) → size (trim_right s) ≤ size s
unfolding trim_right size
size-trim_right_le String.[] = omega arith
size-trim_right_le (String.◌∷◌ c s) = ground (arith, size-trim_right_le s)

size-cut_prefix_le : (prefix : String) → size (cut_prefix prefix) ≤ 56
unfolding cut_prefix size
size-cut_prefix_le prefix =
    ground (arith, size-trim_right_le (take 56 prefix), size-take_le 56 prefix)

size_joined :
    (prefix hash : String)
    → size prefix ≤ 56
    → size hash ≤ 6
    → size (prefix <> (domain_name_separator <> hash)) ≤ domain_name_max_length
unfolding size
size_joined prefix hash p h =
    let outer = size-append prefix (domain_name_separator <> hash) in
    let inner = size-append domain_name_separator hash in omega (arith, outer, inner)

-- The name of a domain has at most 63 characters, whatever the namespace, the name and the hash.
pub size-domain_name_le :
    (sha256_hex : String → String) (m : LibvirtMachine)
    → size (domain_name sha256_hex m) ≤ domain_name_max_length
unfolding domain_name
size-domain_name_le sha256_hex m = size_joined _ _ (size-cut_prefix_le _) (size-take_le 6 _)
