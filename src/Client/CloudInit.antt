-- ===== src/Client/CloudInit.antt =====
-- internal/libvirtclient/cloudinit.go: the NoCloud ISO image with user-data and meta-data.
pub mod Image
use cluster_api_provider_lib.Shared.{true, ℕ, ◌*◌, String, ◌<>◌, if◌then◌else◌}
use cluster_api_provider_lib.Errors.{Error, wrap, join, message}
use cluster_api_provider_lib.Errors.Exec.{
  Result, ok, err, Exec, fail, lift, wrapping, wrap_result, attempt, deferring, ◌>>=◌, ◌>>◌,
}
use cluster_api_provider_lib.Config.{
  Bytes, MachineConfig, instance_id, guest_hostname, iso_disk_name,
}
use cluster_api_provider_lib.System.{FinalizeOptions, System, Session, on_files}

abbrev pub iso_disk_size : ℕ
iso_disk_size = 10 * 1024 * 1024

abbrev pub iso_logical_block_size : ℕ
iso_logical_block_size = 2048

abbrev pub user_data_file_name : String
user_data_file_name = "user-data"

abbrev pub meta_data_file_name : String
meta_data_file_name = "meta-data"

abbrev pub iso_label : String
iso_label = "cidata"

-- errors.Join of an error and a result, nil if that succeeded.
abbrev pub join_result : Error → Result (Unit {0}) → Error
join_result e (ok _) = e
join_result e (err d) = join e d

abbrev pub finalize_options : FinalizeOptions
finalize_options = record { volume_identifier = iso_label; rock_ridge = true }

module _ (sys : System) where
  open sys.os use {Files, mkdir_temp, remove_all, open_for_reading, copy}
  open sys.disk use {
    Disk, FileSystem, marshal_meta_data, create_disk, close_disk, create_filesystem, open_file,
    write, close_file, is_iso9660, finalize, close_filesystem,
  }

  -- After the clean-up call `close` the error `e` is returned, joined with that of the clean-up.
  unfoldable pub failing_after : Error → Exec Files (Unit {0}) → Exec Files (Unit {0})
  failing_after e close = attempt close (λ r. fail (join_result e r))

  unfoldable pub written :
      String → Exec Files (Unit {0}) → Result (Unit {0}) → Exec Files (Unit {0})
  unfolding failing_after
  written name close (ok _) = wrapping ("close cloud-init " <> (name <> " file: ")) close
  written name close (err e) = failing_after (wrap ("write cloud-init " <> (name <> ": ")) e) close

  unfoldable pub write_iso_file : FileSystem → String → Bytes → Exec Files (Unit {0})
  unfolding written
  write_iso_file fs name content = do
    f ← wrapping ("open cloud-init " <> (name <> " file: ")) (open_file fs name)
    attempt (write f content) (written name (close_file f))

  unfoldable pub populate_iso : FileSystem → Bytes → Bytes → Exec Files (Unit {0})
  unfolding write_iso_file
  populate_iso fs user_data meta_data = do
    write_iso_file fs user_data_file_name user_data
    write_iso_file fs meta_data_file_name meta_data
    if is_iso9660 fs
        then wrapping "finalize ISO: " (finalize fs finalize_options)
        else fail (message "not an iso9660 filesystem")

  unfoldable pub populated : Exec Files (Unit {0}) → Result (Unit {0}) → Exec Files (Unit {0})
  unfolding failing_after
  populated close (ok _) = wrapping "close ISO filesystem: " close
  populated close (err e) = failing_after e close

  -- The deferred close of the disk: its error is joined to the result.
  abbrev pub closed_result : Result (Unit {0}) → Result (Unit {0}) → Result (Unit {0})
  closed_result r (ok _) = r
  closed_result (ok _) (err e) = err (wrap "close ISO disk: " e)
  closed_result (err d) (err e) = err (join d (wrap "close ISO disk: " e))

  unfoldable pub closing : Disk → Exec Files (Unit {0}) → Exec Files (Unit {0})
  closing disk body = attempt body (λ r. attempt (close_disk disk) (λ c. lift (closed_result r c)))

  unfoldable pub build_cloud_init_iso : String → MachineConfig → Exec Files (Unit {0})
  unfolding populate_iso populated closing
  build_cloud_init_iso iso_path cfg = do
    metadata ← lift (
        wrap_result "marshal cloud-init meta-data: "
          (marshal_meta_data (instance_id cfg) (guest_hostname cfg)))
    cloud_disk ← wrapping "create ISO disk: " (create_disk iso_path iso_disk_size)
    closing cloud_disk (do
      fs ← wrapping "create ISO filesystem: " (create_filesystem cloud_disk iso_logical_block_size)
      attempt (populate_iso fs cfg.user_data metadata) (populated (close_filesystem fs)))

  -- The deferred close of the source changes no file.
  unfoldable pub copy_file : String → Exec Files Bytes
  copy_file path = do
    src ← wrapping "open iso file: " (open_for_reading path)
    wrapping "copy ISO data: " (copy src)

  -- The bytes that writeCloudInitISO writes to its destination.
  unfoldable pub write_cloud_init_iso : MachineConfig → Exec (Session sys) Bytes
  unfolding build_cloud_init_iso copy_file
  write_cloud_init_iso cfg = on_files sys (do
    tmp_dir ← wrapping "create temporary dir for ISO file: " (mkdir_temp "iso-*")
    deferring (remove_all tmp_dir) (do
      build_cloud_init_iso (sys.os.join tmp_dir (iso_disk_name cfg)) cfg
      copy_file (sys.os.join tmp_dir (iso_disk_name cfg))))
