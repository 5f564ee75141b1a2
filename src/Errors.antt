-- ===== src/Errors.antt =====
-- Go's error values and `(value, error)` results. A `%w` in `fmt.Errorf` keeps the wrapped error, so
-- that `errors.As` finds it again; `isLibvirtErr` and `isVolumeNotFound` of internal/libvirtclient
-- and the two error types of internal/libvirtclient/infra.go are here, since both controllers and
-- the client use them.
pub mod Exec
use cluster_api_provider_lib.Shared.{
  ℕ, ◌==◌, String, ◌<>◌, Bool, true, false, Option, none, some, if◌then◌else◌,
}

-- The error codes of the libvirt bindings that the code tests for, and all the others.
pub data ErrorNumber : Type 0 where
  no_domain no_network no_storage_pool no_storage_vol : ErrorNumber
  other : ℕ → ErrorNumber

abbrev pub same_code : ErrorNumber → ErrorNumber → Bool
same_code no_domain no_domain = true
same_code no_network no_network = true
same_code no_storage_pool no_storage_pool = true
same_code no_storage_vol no_storage_vol = true
same_code (other m) (other n) = m == n
same_code _ _ = false

-- `libvirt` is *libvirt.Error; `infra_missing` and `infra_inactive` are the client's own types, with
-- their kind and name; `object_not_found` is an API error for which apierrors.IsNotFound holds;
-- `message` is any error without a wrapped one; `wrap` is fmt.Errorf with `%w`; `join` errors.Join;
-- `never_returns` is no Go value, but stands for the outcome of a call that loops for ever.
pub data Error : Type 0 where
  libvirt : ErrorNumber → String → Error
  infra_missing infra_inactive : String → String → Error
  object_not_found : String → Error
  message : String → Error
  wrap : String → Error → Error
  join : Error → Error → Error
  never_returns : Error

abbrev first_of_two {ℓ} : {A : Type ℓ} → Option A → Option A → Option A
first_of_two none o = o
first_of_two (some a) o = some a

-- errors.As for *libvirt.Error: the first one of the chain, with its code.
pub as_libvirt_error : Error → Option ErrorNumber
as_libvirt_error (libvirt code m) = some code
as_libvirt_error (wrap m e) = as_libvirt_error e
as_libvirt_error (join d e) = first_of_two (as_libvirt_error d) (as_libvirt_error e)
as_libvirt_error _ = none

abbrev has_code : ErrorNumber → Option ErrorNumber → Bool
has_code code none = false
has_code code (some c) = same_code c code

unfoldable pub is_libvirt_err : Error → ErrorNumber → Bool
unfolding as_libvirt_error
is_libvirt_err e code = has_code code (as_libvirt_error e)

unfoldable pub is_volume_not_found : Error → Bool
unfolding as_libvirt_error
is_volume_not_found e = has_code no_storage_vol (as_libvirt_error e)

-- errors.As for *ErrInfraMissing and *ErrInfraInactive.
unfoldable pub is_infra_missing : Error → Bool
is_infra_missing (infra_missing kind name) = true
is_infra_missing (wrap m e) = is_infra_missing e
is_infra_missing (join d e) = if is_infra_missing d then true else is_infra_missing e
is_infra_missing _ = false

unfoldable pub is_infra_inactive : Error → Bool
is_infra_inactive (infra_inactive kind name) = true
is_infra_inactive (wrap m e) = is_infra_inactive e
is_infra_inactive (join d e) = if is_infra_inactive d then true else is_infra_inactive e
is_infra_inactive _ = false

-- apierrors.IsNotFound, which looks through wrapping too.
unfoldable pub is_not_found : Error → Bool
is_not_found (object_not_found m) = true
is_not_found (wrap m e) = is_not_found e
is_not_found (join d e) = if is_not_found d then true else is_not_found e
is_not_found _ = false

-- err.Error(), which condition messages show.
unfoldable pub error_text : Error → String
error_text (libvirt code m) = m
error_text (infra_missing kind name) = kind <> (" '" <> (name <> "' not found"))
error_text (infra_inactive kind name) =
    kind
    <> (" '"
        <> (name
            <> ("' exists but is not active (start it out-of-band; "
                <> "the provider does not manage pool/network lifecycle)")))
error_text (object_not_found m) = m
error_text (message m) = m
error_text (wrap m e) = m <> error_text e
error_text never_returns = ""
error_text (join d e) = error_text d <> ("\n" <> error_text e)
