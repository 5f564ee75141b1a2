-- ===== src/Client/CloudInit/Image.antt =====
-- The steps of writeCloudInitISO of internal/libvirtclient/cloudinit.go, and what its success says of
-- them.
use cluster_api_provider_lib.Shared.{String, ◌≡◌, refl, true, false, if◌then◌else◌, Bool}
use cluster_api_provider_lib.Errors.{Error, message}
use cluster_api_provider_lib.Errors.Exec.{Result, ok, err, Exec, IsErr, fail, attempt, lift}
use cluster_api_provider_lib.Errors.Exec.Inversion.{
  Gives, bind-Gives, bind-lift-Gives, wrapping-Gives, attempt-Gives, deferring-Gives,
}
use cluster_api_provider_lib.Config.{
  Bytes, MachineConfig, instance_id, guest_hostname, iso_disk_name,
}
use cluster_api_provider_lib.System.{System, Session, on_files}
use cluster_api_provider_lib.Client.CloudInit.{
  iso_disk_size, iso_logical_block_size, user_data_file_name, meta_data_file_name, failing_after,
  written, write_iso_file, populate_iso, populated, closing, closed_result, build_cloud_init_iso,
  copy_file, write_cloud_init_iso,
}

module _ (sys : System) where
  open sys.os use {Files, mkdir_temp, remove_all, open_for_reading, copy}
  open sys.disk use {
    Disk, FileSystem, File, marshal_meta_data, create_disk, close_disk, create_filesystem,
    open_file, write, close_file, is_iso9660, finalize, close_filesystem,
  }

  -- The file was opened, written with the content and closed.
  pub record IsFileWritten (fs : FileSystem) (name : String) (content : Bytes) (f f' : Files)
      : Type 0 where
    pub file : File
    pub opened_at : Files
    pub opened : Gives (open_file fs name) f file opened_at
    pub written_at : Files
    pub wrote : Gives (write file content) opened_at tt written_at
    pub closed : Gives (close_file file) written_at tt f'

  failing_after-IsErr :
      (e : Error) (close : Exec Files (Unit {0})) (f : Files)
      → IsErr (failing_after sys e close f).0
  unfolding failing_after attempt fail
  failing_after-IsErr e close f = tt

  write_iso_file-IsFileWritten :
      (fs : FileSystem) (name : String) (content : Bytes) (f f' : Files)
      → Gives (write_iso_file sys fs name content) f tt f'
      → IsFileWritten fs name content f f'
  unfolding write_iso_file written
  write_iso_file-IsFileWritten fs name content f f' g =
      let (file, opened_at, opened, rest) = bind-Gives _ _ f f' tt g in
      let (_, written_at, wrote, closed) =
        attempt-Gives _ _ opened_at f' tt (λ e mid. failing_after-IsErr _ _ mid) rest in
      record {
        file = file;
        opened_at = opened_at;
        opened = wrapping-Gives _ _ f opened_at file opened;
        written_at = written_at;
        wrote = wrote;
        closed = wrapping-Gives _ _ written_at f' tt closed;
      }

  -- The ISO image at the path: a disk with a file system that holds both files under the names that
  -- NoCloud wants, finalized under its label with the Rock Ridge names, and closed.
  pub record IsImage (iso_path : String) (cfg : MachineConfig) (f f' : Files) : Type 0 where
    pub metadata : Bytes
    pub marshalled : marshal_meta_data (instance_id cfg) (guest_hostname cfg) ≡ ok metadata
    pub disk : Disk
    pub disk_at : Files
    pub disk_made : Gives (create_disk iso_path iso_disk_size) f disk disk_at
    pub fs : FileSystem
    pub fs_at : Files
    pub fs_made : Gives (create_filesystem disk iso_logical_block_size) disk_at fs fs_at
    pub user_data_at : Files
    pub user_data_written : IsFileWritten fs user_data_file_name cfg.user_data fs_at user_data_at
    pub metadata_at : Files
    pub metadata_written : IsFileWritten fs meta_data_file_name metadata user_data_at metadata_at
    pub iso : is_iso9660 fs ≡ true
    pub finalized_at : Files
    pub finalized :
        Gives
          (finalize fs (record { volume_identifier = "cidata"; rock_ridge = true }))
          metadata_at
          tt
          finalized_at
    pub fs_closed_at : Files
    pub fs_closed : Gives (close_filesystem fs) finalized_at tt fs_closed_at
    pub disk_closed : Gives (close_disk disk) fs_closed_at tt f'

  -- Only an ISO 9660 file system is finalized.
  iso_only :
      (iso : Bool) (m : Exec Files (Unit {0})) (t : String) (f f' : Files)
      → Gives (if iso then m else fail (message t)) f tt f'
      → (iso ≡ true) × Gives m f tt f'
  unfolding fail
  iso_only true m t f f' g = (refl, g)
  iso_only false m t f f' g = absurd (cc (g.0))

  closed_result-ok :
      (r c : Result (Unit {0})) → closed_result sys r c ≡ ok tt → (r ≡ ok tt) × (c ≡ ok tt)
  closed_result-ok (ok a) (ok c) e = (refl, refl)
  closed_result-ok (err d) (ok c) e = absurd (cc (e))
  closed_result-ok (ok a) (err c) e = absurd (cc (e))
  closed_result-ok (err d) (err c) e = absurd (cc (e))

  closing-Gives :
      (disk : Disk) (body : Exec Files (Unit {0})) (f f' : Files)
      → Gives (closing sys disk body) f tt f'
      → (mid : Files) × Gives body f tt mid × Gives (close_disk disk) mid tt f'
  unfolding closing attempt lift
  closing-Gives disk body f f' g =
      let (e, c) = closed_result-ok (body f).0 (close_disk disk (body f).1).0 g.0 in
      ((body f).1, (e, refl), (c, g.1))

  build_cloud_init_iso-IsImage :
      (iso_path : String) (cfg : MachineConfig) (f f' : Files)
      → Gives (build_cloud_init_iso sys iso_path cfg) f tt f'
      → IsImage iso_path cfg f f'
  unfolding build_cloud_init_iso populate_iso populated
  build_cloud_init_iso-IsImage iso_path cfg f f' g =
      let (metadata, marshalled, g1) = bind-lift-Gives _ _ _ f f' tt g in
      let (disk, disk_at, disk_made, g2) = bind-Gives _ _ f f' tt g1 in
      let (fs_closed_at, g3, disk_closed) = closing-Gives disk _ disk_at f' g2 in
      let (fs, fs_at, fs_made, g4) = bind-Gives _ _ disk_at fs_closed_at tt g3 in
      let (_, finalized_at, g5, fs_closed) =
        attempt-Gives _ _ fs_at fs_closed_at tt (λ e mid. failing_after-IsErr _ _ mid) g4 in
      let (_, user_data_at, user_data_written, g6) = bind-Gives _ _ fs_at finalized_at tt g5 in
      let (_, metadata_at, metadata_written, g7) = bind-Gives _ _ user_data_at finalized_at tt g6 in
      let (iso, finalized) = iso_only _ _ _ metadata_at finalized_at g7 in
      record {
        metadata = metadata;
        marshalled = marshalled;
        disk = disk;
        disk_at = disk_at;
        disk_made = wrapping-Gives _ _ f disk_at disk disk_made;
        fs = fs;
        fs_at = fs_at;
        fs_made = wrapping-Gives _ _ disk_at fs_at fs fs_made;
        user_data_at = user_data_at;
        user_data_written =
            write_iso_file-IsFileWritten fs _ _ fs_at user_data_at user_data_written;
        metadata_at = metadata_at;
        metadata_written =
            write_iso_file-IsFileWritten fs _ _ user_data_at metadata_at metadata_written;
        iso = iso;
        finalized_at = finalized_at;
        finalized = wrapping-Gives _ _ metadata_at finalized_at tt finalized;
        fs_closed_at = fs_closed_at;
        fs_closed = wrapping-Gives _ _ finalized_at fs_closed_at tt fs_closed;
        disk_closed = disk_closed;
      }

  -- From the first state of the files to the second: a temporary directory was made, the image built
  -- in it and copied, and the directory removed.
  pub record IsCopied (cfg : MachineConfig) (content : Bytes) (f f' : Files) : Type 0 where
    pub tmp_dir : String
    pub made_at : Files
    pub made : Gives (mkdir_temp "iso-*") f tmp_dir made_at
    pub image_at : Files
    pub image : IsImage (sys.os.join tmp_dir (iso_disk_name cfg)) cfg made_at image_at
    pub src : String
    pub opened_at : Files
    pub opened :
        Gives (open_for_reading (sys.os.join tmp_dir (iso_disk_name cfg))) image_at src opened_at
    pub copied_at : Files
    pub copied : Gives (copy src) opened_at content copied_at
    pub removed : f' ≡ remove_all tmp_dir copied_at

  -- writeCloudInitISO succeeds only when the image was made whole in a temporary directory: a file
  -- system with the user data and the marshalled meta-data, each under its name and closed, finalized
  -- with the label cidata, with file system and disk closed. What it writes is the copy of that image,
  -- and the directory is removed last.
  pub write_cloud_init_iso-IsCopied :
      (cfg : MachineConfig) (content : Bytes) (s : Session sys)
      → (write_cloud_init_iso sys cfg s).0 ≡ ok content
      → IsCopied cfg content s.files (write_cloud_init_iso sys cfg s).1.files
  unfolding write_cloud_init_iso on_files copy_file
  write_cloud_init_iso-IsCopied cfg content s succeeded =
      let f' = (write_cloud_init_iso sys cfg s).1.files in
      let (tmp_dir, made_at, made, g1) = bind-Gives _ _ s.files f' content (succeeded, refl) in
      let (copied_at, g2, removed) = deferring-Gives _ _ made_at f' content g1 in
      let (_, image_at, image, g3) = bind-Gives _ _ made_at copied_at content g2 in
      let (src, opened_at, opened, copied) = bind-Gives _ _ image_at copied_at content g3 in
      record {
        tmp_dir = tmp_dir;
        made_at = made_at;
        made = wrapping-Gives _ _ s.files made_at tmp_dir made;
        image_at = image_at;
        image = build_cloud_init_iso-IsImage _ cfg made_at image_at image;
        src = src;
        opened_at = opened_at;
        opened = wrapping-Gives _ _ image_at opened_at src opened;
        copied_at = copied_at;
        copied = wrapping-Gives _ _ opened_at copied_at content copied;
        removed = removed;
      }
