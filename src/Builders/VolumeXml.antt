-- ===== src/Builders/VolumeXml.antt =====
-- internal/libvirtclient/builders/volume.go: libvirtxml.StorageVolume, as far as it is set.
use cluster_api_provider_lib.Shared.{ℕ, String, Option, none, some}
use cluster_api_provider_lib.Builders.{
  default_volume_capacity_gib, default_volume_capacity_unit, default_volume_format,
  raw_volume_format,
}

pub record BackingStore : Type 0 where
  pub path : String
  pub format : String

pub record StorageVolume : Type 0 where
  pub name : String
  pub capacity : ℕ
  pub unit : String
  pub format : String
  pub backing_store : Option BackingStore

unfoldable pub new_volume : String → StorageVolume
new_volume name = record {
  name = name;
  capacity = default_volume_capacity_gib;
  unit = default_volume_capacity_unit;
  format = default_volume_format;
  backing_store = none;
}

unfoldable pub with_raw_type : StorageVolume → StorageVolume
with_raw_type v = record v { format = raw_volume_format }

unfoldable pub with_capacity : ℕ → String → StorageVolume → StorageVolume
with_capacity size unit v = record v { capacity = size; unit = unit }

unfoldable pub with_backing_store : String → String → StorageVolume → StorageVolume
with_backing_store path format v = record v {
  backing_store = some (record { path = path; format = format });
}
