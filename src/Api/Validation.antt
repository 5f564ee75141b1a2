-- ===== src/Api/Validation.antt =====
-- What the API server admits of a LibvirtMachine: the kubebuilder validation markers on the fields of
-- LibvirtMachineSpec, of api/v1alpha1/libvirtmachine_types.go. A rule `self == oldSelf` compares a
-- field with its old value where both are set.
use cluster_api_provider_lib.Shared.{◌==◌, leb, str_eq, String, Bool, true, not, ◌&&◌, Option, some}
use cluster_api_provider_lib.Api.{LibvirtMachineSpec}

-- Minimum and MinLength.
unfoldable pub is_valid_spec : LibvirtMachineSpec → Bool
is_valid_spec spec =
    leb 1 spec.vcpu
    && (leb 256 spec.memory_mib && (leb 1 spec.disk_gib && not (str_eq spec.image "")))

-- The rule of an optional field.
unfoldable pub is_same_once_set : Option String → Option String → Bool
is_same_once_set (some old) (some new) = str_eq new old
is_same_once_set _ _ = true

-- An update from the old spec to the new one.
unfoldable pub is_valid_update : (old new : LibvirtMachineSpec) → Bool
unfolding is_valid_spec is_same_once_set
is_valid_update old new =
    is_valid_spec new
    && (is_same_once_set old.provider_id new.provider_id
        && (new.vcpu == old.vcpu
            && (new.memory_mib == old.memory_mib
                && (new.disk_gib == old.disk_gib && str_eq new.image old.image))))
