-- ===== src/Controller/Identity/Label.antt =====
-- The characters of a domain's name, and the DNS labels of RFC 1123, which domainName of
-- internal/controller/libvirtmachine_controller.go makes.
use Prim.Native.Char.{Char, code}
use Prim.Native.String.{String}
use text.Mathlib.TextLemmas.{nil-append, cons-append}
use cluster_api_provider_lib.Shared.{
  ℕ, zero, suc, ◌≤◌, ◌<>◌, ◌≡◌, refl, Bool, true, false, ◌&&◌, ◌||◌, leb, ◌==◌, if◌then◌else◌,
  arith,
}
use cluster_api_provider_lib.Api.{LibvirtMachine}
use cluster_api_provider_lib.Controller.Identity.{
  size, take, replace_dots, trim_right, cut_prefix, domain_name, domain_name_separator,
  domain_name_hash_length, is_empty,
}
use cluster_api_provider_lib.Controller.Identity.Length.{size-domain_name_le}

-- A lower-case letter or a digit, the same or a hyphen, and the same or a hyphen or a dot.
unfoldable pub is_alphanumeric : Char → Bool
is_alphanumeric c =
    (leb b'a' (code c) && leb (code c) b'z') || (leb b'0' (code c) && leb (code c) b'9')

unfoldable pub is_label_char : Char → Bool
unfolding is_alphanumeric
is_label_char c = is_alphanumeric c || code c == b'-'

unfoldable pub is_name_char : Char → Bool
unfolding is_label_char
is_name_char c = is_label_char c || code c == b'.'

-- All characters are so; the first one is there and is so; the last one is.
unfoldable pub all : (Char → Bool) → String → Bool
all p String.[] = true
all p (String.◌∷◌ c s) = p c && all p s

unfoldable pub starts : (Char → Bool) → String → Bool
starts p String.[] = false
starts p (String.◌∷◌ c s) = p c

unfoldable pub ends : (Char → Bool) → String → Bool
ends p String.[] = false
ends p (String.◌∷◌ c s) = let rest = ends p s in if is_empty s then p c else rest

-- A label of RFC 1123.
pub record IsLabel (s : String) : Type 0 where
  pub chars : all is_label_char s ≡ true
  pub first : starts is_alphanumeric s ≡ true
  pub last : ends is_alphanumeric s ≡ true
  pub short : size s ≤ 63

module _ (p : Char → Bool) where
  all-append : (s t : String) → all p s ≡ true → all p t ≡ true → all p (s <> t) ≡ true
  unfolding all
  all-append String.[] t h k = rw nil-append k
  all-append (String.◌∷◌ c s) t h k = rw cons-append (ground (arith, all-append s t))

  all-take : (n : ℕ) (s : String) → all p s ≡ true → all p (take n s) ≡ true
  unfolding all take
  all-take zero s h = refl
  all-take (suc n) String.[] h = refl
  all-take (suc n) (String.◌∷◌ c s) h = ground (arith, all-take n s)

  all-trim_right : (s : String) → all p s ≡ true → all p (trim_right s) ≡ true
  unfolding all trim_right
  all-trim_right String.[] h = refl
  all-trim_right (String.◌∷◌ c s) h = ground (arith, all-trim_right s)

  starts-append : (s t : String) → starts p s ≡ true → starts p (s <> t) ≡ true
  unfolding starts
  starts-append String.[] t h = absurd (cc (h))
  starts-append (String.◌∷◌ c s) t h = rw cons-append h

  starts-take : (n : ℕ) (s : String) → starts p s ≡ true → starts p (take (suc n) s) ≡ true
  unfolding starts take
  starts-take n String.[] h = absurd (cc (h))
  starts-take n (String.◌∷◌ c s) h = h

  -- A text that ends in such a character has one.
  ends_nonempty : (s : String) → ends p s ≡ true → is_empty s ≡ false
  unfolding ends
  ends_nonempty String.[] h = absurd (cc (h))
  ends_nonempty (String.◌∷◌ c s) h = refl

  is_empty-append : (s t : String) → is_empty t ≡ false → is_empty (s <> t) ≡ false
  is_empty-append String.[] t h = rw nil-append h
  is_empty-append (String.◌∷◌ c s) t h = rw cons-append refl

  ends-append : (s t : String) → ends p t ≡ true → ends p (s <> t) ≡ true
  unfolding ends
  ends-append String.[] t h = rw nil-append h
  ends-append (String.◌∷◌ c s) t h =
      rw cons-append (ground (arith, ends-append s t, is_empty-append s t (ends_nonempty t h)))

  -- In a text of such characters the last one is such a character.
  ends_of_all : (s : String) → all p s ≡ true → is_empty s ≡ false → ends p s ≡ true
  unfolding all ends
  ends_of_all String.[] h k = absurd (cc (k))
  ends_of_all (String.◌∷◌ c s) h k = ground (arith, ends_of_all s)

hyphen : all is_label_char domain_name_separator ≡ true
unfolding all is_label_char is_alphanumeric
hyphen = refl

all-hyphen :
    (s : String)
    → all is_label_char s ≡ true
    → all is_label_char (domain_name_separator <> s) ≡ true
all-hyphen s h = all-append is_label_char domain_name_separator s hyphen h

all-replace_dots :
    (s : String) → all is_name_char s ≡ true → all is_label_char (replace_dots s) ≡ true
unfolding all replace_dots is_name_char
all-replace_dots String.[] h = refl
all-replace_dots (String.◌∷◌ c s) h =
    ground (arith, all-hyphen (replace_dots s), all-replace_dots s)

-- What trimming takes off is no letter or digit.
starts-trim_right :
    (s : String) → starts is_alphanumeric s ≡ true → starts is_alphanumeric (trim_right s) ≡ true
unfolding starts trim_right is_alphanumeric
starts-trim_right String.[] h = absurd (cc (h))
starts-trim_right (String.◌∷◌ c s) h = ground arith

all-label_of_alphanumeric : (s : String) → all is_alphanumeric s ≡ true → all is_label_char s ≡ true
unfolding all is_label_char
all-label_of_alphanumeric String.[] h = refl
all-label_of_alphanumeric (String.◌∷◌ c s) h = ground (arith, all-label_of_alphanumeric s)

-- The cut prefix keeps its characters and its first one.
all-cut_prefix : (s : String) → all is_label_char s ≡ true → all is_label_char (cut_prefix s) ≡ true
unfolding cut_prefix size
all-cut_prefix s h =
    ground (arith, h, all-trim_right is_label_char (take 56 s) (all-take is_label_char 56 s h))

starts-cut_prefix :
    (s : String) → starts is_alphanumeric s ≡ true → starts is_alphanumeric (cut_prefix s) ≡ true
unfolding cut_prefix size
starts-cut_prefix s h =
    ground (arith, h, starts-trim_right (take 56 s) (starts-take is_alphanumeric 55 s h))

take_nonempty : (n : ℕ) (s : String) → 1 ≤ size s → is_empty (take (suc n) s) ≡ false
unfolding take size
take_nonempty n String.[] h = absurd (omega (arith, h))
take_nonempty n (String.◌∷◌ c s) h = refl

-- The name of a domain is a DNS label of RFC 1123, when the namespace is made of the characters of a
-- label and starts with a letter or a digit, the name is made of these characters and dots, and the
-- hash has one letter or digit at least and nothing else.
pub domain_name-IsLabel :
    (sha256_hex : String → String) (m : LibvirtMachine)
    → all is_label_char m.metadata.namespace ≡ true
    → starts is_alphanumeric m.metadata.namespace ≡ true
    → all is_name_char m.metadata.name ≡ true
    → all is_alphanumeric (sha256_hex (m.metadata.namespace <> ("/" <> m.metadata.name))) ≡ true
    → 1 ≤ size (sha256_hex (m.metadata.namespace <> ("/" <> m.metadata.name)))
    → IsLabel (domain_name sha256_hex m)
unfolding domain_name
domain_name-IsLabel sha256_hex m namespace starting name digits some_there =
    let digest = sha256_hex (m.metadata.namespace <> ("/" <> m.metadata.name)) in
    let hash = take domain_name_hash_length digest in
    let joined = m.metadata.namespace <> (domain_name_separator <> replace_dots m.metadata.name) in
    let hash_digits = all-take is_alphanumeric domain_name_hash_length digest digits in
    let hash_there = take_nonempty 5 digest some_there in
    let joined_chars =
      all-append is_label_char m.metadata.namespace
        (domain_name_separator <> replace_dots m.metadata.name) namespace
        (all-hyphen (replace_dots m.metadata.name) (all-replace_dots m.metadata.name name)) in
    let ending = ends_of_all is_alphanumeric hash hash_digits hash_there in
    record {
      chars =
          all-append is_label_char (cut_prefix joined) (domain_name_separator <> hash)
            (all-cut_prefix joined joined_chars)
            (all-hyphen hash (all-label_of_alphanumeric hash hash_digits));
      first = starts-append is_alphanumeric (cut_prefix joined) (domain_name_separator <> hash) (
          starts-cut_prefix joined (starts-append is_alphanumeric m.metadata.namespace _ starting));
      last =
          ends-append is_alphanumeric (cut_prefix joined) (domain_name_separator <> hash)
            (ends-append is_alphanumeric domain_name_separator hash ending);
      short = size-domain_name_le sha256_hex m;
    }
