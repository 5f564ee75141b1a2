-- ===== src/Client/Volumes.antt =====
-- internal/libvirtclient/volume.go: the root disk and the cloud-init disk of a machine.
pub mod Upload
pub mod Made
use cluster_api_provider_lib.Shared.{
  ℕ, zero, suc, str_eq, String, ◌<>◌, Bool, List, [], ◌∷◌, if◌then◌else◌, length,
}
use cluster_api_provider_lib.Errors.{
  Error, message, wrap, no_storage_pool, is_libvirt_err, is_volume_not_found,
}
use cluster_api_provider_lib.Errors.Exec.{
  Result, ok, err, Exec, pure, fail, lift, wrapping, wrap_result, attempt, ◌>>=◌, ◌>>◌,
}
use cluster_api_provider_lib.Config.{
  Bytes, MachineConfig, domain_disk_name, iso_disk_name, disk_size_gib,
}
use cluster_api_provider_lib.Builders.{default_volume_format}
use cluster_api_provider_lib.Builders.VolumeXml.{
  StorageVolume, new_volume, with_raw_type, with_capacity, with_backing_store,
}
use cluster_api_provider_lib.System.{System, Session, on_host, opening, opened, using}
use cluster_api_provider_lib.Client.CloudInit.{write_cloud_init_iso}

-- The handler of SendAll: `n` bytes of what is left at most, and the rest. No bytes mean the end.
unfoldable pub next_chunk : Bytes → ℕ → Bytes × Bytes
next_chunk left zero = ([], left)
next_chunk [] (suc n) = ([], [])
next_chunk (b ∷ left) (suc n) = let (chunk, rest) = next_chunk left n in (b ∷ chunk, rest)

module _ (sys : System) where
  open sys.lv use {
    Host, Connect, StoragePool, StorageVol, Stream, lookup_storage_pool_by_name,
    lookup_storage_vol_by_name, storage_vol_create_xml, get_path, delete_vol, new_stream, upload,
    send_all, abort, finish, marshal_volume,
  }
  open sys.net use {quote}

  -- `_ = stream.Abort()`
  unfoldable pub abort_stream : Stream → Session sys → Result (Unit {0}) × Session sys
  abort_stream stream s = (ok tt, record s { host = abort stream s.host })

  unfoldable pub sent : Stream → Result (Unit {0}) → Exec (Session sys) (Unit {0})
  unfolding abort_stream
  sent stream (ok _) = pure tt
  sent stream (err e) = do abort_stream stream; fail (wrap "send volume data: " e)

  unfoldable pub storage_vol_upload : Connect → Bytes → StorageVol → Exec (Session sys) (Unit {0})
  unfolding sent
  storage_vol_upload conn content vol =
      using (opening sys (new_stream conn)) "create new stream: " λ stream. do
        wrapping "start volume upload: " (on_host sys (upload vol stream (length content)))
        attempt (on_host sys (send_all stream next_chunk content)) (sent stream)
        wrapping "finish volume upload: " (on_host sys (finish stream))

  unfoldable pub create_volume : StoragePool → String → Exec (Session sys) String
  create_volume pool volume_xml =
      using (opening sys (storage_vol_create_xml pool volume_xml)) "create disk volume: "
        λ vol. wrapping "get VM disk path: " (on_host sys (get_path vol))

  -- "" when the pool has no such volume.
  unfoldable pub get_volume_path : StoragePool → String → Exec (Session sys) String
  get_volume_path pool volume_name =
      opened (opening sys (lookup_storage_vol_by_name pool volume_name))
        (λ e. if is_volume_not_found e then pure "" else fail e)
        (λ vol.
          wrapping ("get volume path for " <> (volume_name <> ": ")) (on_host sys (get_path vol)))

  unfoldable pub root_volume : MachineConfig → String → StorageVolume
  unfolding new_volume with_capacity with_backing_store domain_disk_name disk_size_gib
  root_volume cfg base_image_path =
      with_backing_store base_image_path default_volume_format
        (with_capacity (disk_size_gib cfg) "G" (new_volume (domain_disk_name cfg)))

  -- createRootDisk when the pool has no root disk of the machine.
  unfoldable pub new_root_disk :
      StoragePool → StoragePool → MachineConfig → Exec (Session sys) String
  unfolding root_volume
  new_root_disk base_pool domain_pool cfg = do
    base_image_path ← get_volume_path base_pool cfg.base_image
    if str_eq base_image_path ""
        then fail (message ("base image " <> (quote cfg.base_image <> " not found")))
        else (do
          volume_xml ← lift (
              wrap_result "marshal volume XML: " (marshal_volume (root_volume cfg base_image_path)))
          wrapping "create root disk: " (create_volume domain_pool volume_xml))

  unfoldable pub create_root_disk :
      StoragePool → StoragePool → MachineConfig → Exec (Session sys) String
  create_root_disk base_pool domain_pool cfg = do
    volume_path ← get_volume_path domain_pool (domain_disk_name cfg)
    if str_eq volume_path "" then new_root_disk base_pool domain_pool cfg else pure volume_path

  unfoldable pub iso_volume : MachineConfig → ℕ → StorageVolume
  unfolding new_volume with_capacity with_raw_type iso_disk_name
  iso_volume cfg size = with_raw_type (with_capacity size "bytes" (new_volume (iso_disk_name cfg)))

  -- createISODisk when the pool has no cloud-init disk of the machine.
  unfoldable pub new_iso_disk : Connect → StoragePool → MachineConfig → Exec (Session sys) String
  unfolding iso_volume
  new_iso_disk conn domain_pool cfg = do
    content ← wrapping "write cloud-init iso: " (write_cloud_init_iso sys cfg)
    volume_xml ←
        lift (wrap_result "marshal volume XML: " (marshal_volume (iso_volume cfg (length content))))
    volume_path ← wrapping "create cloudinit disk: " (create_volume domain_pool volume_xml)
    opened (opening sys (lookup_storage_vol_by_name domain_pool (iso_disk_name cfg))) (λ e. fail e)
        (λ vol. do
          wrapping "upload data to volume: " (storage_vol_upload conn content vol)
          pure volume_path)

  unfoldable pub create_iso_disk : Connect → StoragePool → MachineConfig → Exec (Session sys) String
  create_iso_disk conn domain_pool cfg = do
    volume_path ← get_volume_path domain_pool (iso_disk_name cfg)
    if str_eq volume_path "" then new_iso_disk conn domain_pool cfg else pure volume_path

  unfoldable pub delete_volume : Connect → String → String → Exec (Session sys) (Unit {0})
  delete_volume conn pool_name volume_name =
      opened (opening sys (lookup_storage_pool_by_name conn pool_name))
        (λ e.
          if is_libvirt_err e no_storage_pool
          then pure tt
          else fail (wrap ("lookup storage-pool " <> (pool_name <> ": ")) e))
        (λ pool.
          opened (opening sys (lookup_storage_vol_by_name pool volume_name))
            (λ e.
              if is_volume_not_found e
              then pure tt
              else fail (
                  wrap ("lookup volume " <> (volume_name <> (" in pool " <> (pool_name <> ": "))))
                    e))
            (λ vol.
              wrapping ("delete volume " <> (volume_name <> (" from pool " <> (pool_name <> ": "))))
                (on_host sys (delete_vol vol))))
