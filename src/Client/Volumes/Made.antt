-- ===== src/Client/Volumes/Made.antt =====
-- The two disks of a machine: what the success of createRootDisk and of createISODisk of
-- internal/libvirtclient/volume.go says of the calls that they make.
use cluster_api_provider_lib.Shared.{
  String, Bool, Bool-cases, ◌≡◌, ◌≢◌, ◌∙◌, ◌⊎◌, inl, inr, sym, ap, subst, str_eq, eq_iff, arith,
  true, false, if◌then◌else◌, length,
}
use cluster_api_provider_lib.Errors.{Error}
use cluster_api_provider_lib.Errors.Exec.{ok, err, IsErr, Exec, pure, fail, wrapping, ◌>>=◌, ◌>>◌}
use cluster_api_provider_lib.Errors.Exec.Inversion.{
  Gives, bind-Gives, wrapping-Gives, bind-lift-Gives, attempt-Gives,
}
use cluster_api_provider_lib.Config.{Bytes, MachineConfig, domain_disk_name, iso_disk_name}
use cluster_api_provider_lib.System.{System, Session, on_host, opening, opened, free}
use cluster_api_provider_lib.System.Inversion.{using-Gives, opened-Gives}
use cluster_api_provider_lib.Client.CloudInit.Image.{IsCopied, write_cloud_init_iso-IsCopied}
use cluster_api_provider_lib.Client.Volumes.{
  next_chunk, storage_vol_upload, sent, create_volume, get_volume_path, root_volume, new_root_disk,
  create_root_disk, iso_volume, new_iso_disk, create_iso_disk,
}

module _ (sys : System) where
  open sys.lv use {
    Connect, StoragePool, StorageVol, Stream, lookup_storage_vol_by_name, storage_vol_create_xml,
    get_path, new_stream, upload, send_all, finish, marshal_volume,
  }

  -- A volume of the name is in the pool, with the path.
  pub record IsPresent (pool : StoragePool) (name path : String) (s s' : Session sys) : Type 0 where
    pub vol : StorageVol
    pub found_at : Session sys
    pub found : Gives (opening sys (lookup_storage_vol_by_name pool name)) s vol found_at
    pub path_at : Session sys
    pub path_read : Gives (on_host sys (get_path vol)) found_at path path_at
    pub freed : s' ≡ free path_at

  -- The look-up found no volume of the name, or one with an empty path.
  abbrev pub IsAbsent : StoragePool → String → Session sys → Session sys → Type 0
  IsAbsent pool name s s' = Gives (get_volume_path sys pool name) s "" s'

  -- A volume was made from the document, with the path.
  pub record IsVolumeMade (pool : StoragePool) (xml path : String) (s s' : Session sys)
      : Type 0 where
    pub vol : StorageVol
    pub made_at : Session sys
    pub made : Gives (opening sys (storage_vol_create_xml pool xml)) s vol made_at
    pub path_at : Session sys
    pub path_read : Gives (on_host sys (get_path vol)) made_at path path_at
    pub freed : s' ≡ free path_at

  -- The whole content was announced, sent and finished on a stream to the volume.
  pub record IsUploaded (conn : Connect) (content : Bytes) (vol : StorageVol) (s s' : Session sys)
      : Type 0 where
    pub stream : Stream
    pub stream_at : Session sys
    pub stream_made : Gives (opening sys (new_stream conn)) s stream stream_at
    pub begun_at : Session sys
    pub begun : Gives (on_host sys (upload vol stream (length content))) stream_at tt begun_at
    pub sent_at : Session sys
    pub all_sent : Gives (on_host sys (send_all stream next_chunk content)) begun_at tt sent_at
    pub finished_at : Session sys
    pub finished : Gives (on_host sys (finish stream)) sent_at tt finished_at
    pub freed : s' ≡ free finished_at

  not_by_absence :
      (tolerated : Bool) (e : Error) (path : String) (s s' : Session sys)
      → path ≢ ""
      → ¬ Gives (if tolerated then pure "" else fail e) s path s'
  unfolding pure fail
  not_by_absence true e path s s' given g = given (cc (g.0))
  not_by_absence false e path s s' given g = cc (g.0)

  get_volume_path-IsPresent :
      (pool : StoragePool) (name path : String) (s s' : Session sys)
      → path ≢ ""
      → Gives (get_volume_path sys pool name) s path s'
      → IsPresent pool name path s s'
  unfolding get_volume_path
  get_volume_path-IsPresent pool name path s s' given g = elim (opened-Gives _ _ _ s s' path g) [
    | inl (vol, found_at, path_at, found, read, freed) ↦ record {
      vol = vol;
      found_at = found_at;
      found = found;
      path_at = path_at;
      path_read = wrapping-Gives _ _ found_at path_at path read;
      freed = freed;
    }
    | inr (e, x, gave) ↦ absurd (not_by_absence _ e path _ s' given gave)
  ]

  create_volume-IsVolumeMade :
      (pool : StoragePool) (xml path : String) (s s' : Session sys)
      → Gives (create_volume sys pool xml) s path s'
      → IsVolumeMade pool xml path s s'
  unfolding create_volume
  create_volume-IsVolumeMade pool xml path s s' g =
      let (vol, made_at, path_at, made, read, freed) = using-Gives _ _ _ s s' path g in
      record {
        vol = vol;
        made_at = made_at;
        made = made;
        path_at = path_at;
        path_read = wrapping-Gives _ _ made_at path_at path read;
        freed = freed;
      }

  sent-IsErr : (stream : Stream) (e : Error) (s : Session sys) → IsErr (sent sys stream (err e) s).0
  unfolding sent ◌>>=◌
  sent-IsErr stream e s = tt

  sent_at-ok :
      (stream : Stream) (s s' : Session sys) → Gives (sent sys stream (ok tt)) s tt s' → s ≡ s'
  unfolding sent pure
  sent_at-ok stream s s' g = g.1

  storage_vol_upload-IsUploaded :
      (conn : Connect) (content : Bytes) (vol : StorageVol) (s s' : Session sys)
      → Gives (storage_vol_upload sys conn content vol) s tt s'
      → IsUploaded conn content vol s s'
  unfolding storage_vol_upload
  storage_vol_upload-IsUploaded conn content vol s s' g =
      let (stream, stream_at, finished_at, stream_made, steps, freed) =
        using-Gives _ _ _ s s' tt g in
      let (_, begun_at, begun, g1) = bind-Gives _ _ stream_at finished_at tt steps in
      let (_, sent_at, sending, finished) = bind-Gives _ _ begun_at finished_at tt g1 in
      let (_, mid, all_sent, rest) =
        attempt-Gives _ _ begun_at sent_at tt (sent-IsErr stream) sending in
      record {
        stream = stream;
        stream_at = stream_at;
        stream_made = stream_made;
        begun_at = begun_at;
        begun = wrapping-Gives _ _ stream_at begun_at tt begun;
        sent_at = sent_at;
        all_sent = (all_sent.0, all_sent.1 ∙ sent_at-ok stream mid sent_at rest);
        finished_at = finished_at;
        finished = wrapping-Gives _ _ sent_at finished_at tt finished;
        freed = freed;
      }

  -- The root disk has the path: it was in the domain pool under its name, or it was made there over
  -- the base image, with the size of the configuration.
  pub data IsRootDisk (base_pool domain_pool : StoragePool) (cfg : MachineConfig) (path : String)
      (s s' : Session sys) : Type 0 where
    was_there :
        IsPresent domain_pool (domain_disk_name cfg) path s s'
        → IsRootDisk base_pool domain_pool cfg path s s'
    was_made :
        (looked_at based_at : Session sys) (base_path xml : String)
        → IsAbsent domain_pool (domain_disk_name cfg) s looked_at
        → IsPresent base_pool cfg.base_image base_path looked_at based_at
        → marshal_volume (root_volume sys cfg base_path) ≡ ok xml
        → IsVolumeMade domain_pool xml path based_at s'
        → IsRootDisk base_pool domain_pool cfg path s s'

  -- The cloud-init disk has the path: it was in the domain pool under its name, whatever it holds, or
  -- an image of the configuration, with its user data, was built, a volume of its size made, and the
  -- whole image uploaded to it.
  pub data IsIsoDisk (conn : Connect) (domain_pool : StoragePool) (cfg : MachineConfig)
      (path : String) (s s' : Session sys) : Type 0 where
    was_there :
        IsPresent domain_pool (iso_disk_name cfg) path s s'
        → IsIsoDisk conn domain_pool cfg path s s'
    was_uploaded :
        (looked_at built_at made_at found_at uploaded_at : Session sys) (content : Bytes)
        (xml : String) (vol : StorageVol)
        → IsAbsent domain_pool (iso_disk_name cfg) s looked_at
        → IsCopied sys cfg content looked_at.files built_at.files
        → marshal_volume (iso_volume sys cfg (length content)) ≡ ok xml
        → IsVolumeMade domain_pool xml path built_at made_at
        → Gives
            (opening sys (lookup_storage_vol_by_name domain_pool (iso_disk_name cfg)))
            made_at
            vol
            found_at
        → IsUploaded conn content vol found_at uploaded_at
        → s' ≡ free uploaded_at
        → IsIsoDisk conn domain_pool cfg path s s'

  -- The branch on the path that a look-up gave.
  by_path :
      (found : String) (absent present : Exec (Session sys) String) (s s' : Session sys)
      (path : String)
      → Gives (if str_eq found "" then absent else present) s path s'
      → ((found ≡ "") × Gives absent s path s') ⊎ ((found ≢ "") × Gives present s path s')
  by_path found absent present s s' path g = elim (Bool-cases (str_eq found "")) [
    | inl e ↦ inl (ground (arith, eq_iff found ""), rw e at g)
    | inr e ↦ inr (ground (arith, eq_iff found ""), rw e at g)
  ]

  pure_path :
      (found path : String) (s s' : Session sys)
      → Gives (pure found) s path s'
      → (found ≡ path) × (s ≡ s')
  unfolding pure
  pure_path found path s s' g = (cc (g.0), g.1)

  IsPresent-of_found :
      (pool : StoragePool) (name found path : String) (s mid s' : Session sys)
      → Gives (get_volume_path sys pool name) s found mid
      → found ≢ ""
      → Gives (pure found) mid path s'
      → IsPresent pool name path s s'
  IsPresent-of_found pool name found path s mid s' looked given kept =
      let (same, left) = pure_path found path mid s' kept in
      get_volume_path-IsPresent pool name path s s' (λ e. given (same ∙ e))
        (looked.0 ∙ ap ok same, looked.1 ∙ left)

  pub create_root_disk-IsRootDisk :
      (base_pool domain_pool : StoragePool) (cfg : MachineConfig) (path : String)
      (s s' : Session sys)
      → Gives (create_root_disk sys base_pool domain_pool cfg) s path s'
      → IsRootDisk base_pool domain_pool cfg path s s'
  unfolding create_root_disk new_root_disk fail
  create_root_disk-IsRootDisk base_pool domain_pool cfg path s s' g =
      let (found, looked_at, looked, g1) = bind-Gives _ _ s s' path g in
      elim (by_path found _ _ looked_at s' path g1) [
        | inr (given, kept) ↦
            was_there (IsPresent-of_found _ _ found path s looked_at s' looked given kept)
        | inl (none_there, making) ↦
            let (base_path, based_at, base, g2) = bind-Gives _ _ looked_at s' path making in
            elim (by_path base_path _ _ based_at s' path g2) [
              | inl (e, failed) ↦ absurd (cc (failed.0))
              | inr (given, g3) ↦
                  let (xml, marshalled, g4) = bind-lift-Gives _ _ _ based_at s' path g3 in
                  was_made looked_at based_at base_path xml (looked.0 ∙ ap ok none_there, looked.1)
                    (get_volume_path-IsPresent base_pool cfg.base_image base_path looked_at based_at
                      given base)
                    marshalled
                    (create_volume-IsVolumeMade domain_pool xml path based_at s'
                      (wrapping-Gives _ _ based_at s' path g4))
            ]
      ]

  failing_lookup :
      (conn : Connect) (content : Bytes) (found path : String)
      (open_call : Exec (Session sys) StorageVol) (s s' : Session sys)
      → Gives
          (opened open_call
            (λ e. fail e)
            (λ vol. do
              wrapping "upload data to volume: " (storage_vol_upload sys conn content vol)
              pure found))
          s
          path
          s'
      → (vol : StorageVol) × (found_at uploaded_at : Session sys) × Gives open_call s vol found_at
        × IsUploaded conn content vol found_at uploaded_at
        × (found ≡ path)
        × (s' ≡ free uploaded_at)
  unfolding fail
  failing_lookup conn content found path open_call s s' g =
      elim (opened-Gives open_call (λ e. fail e) _ s s' path g) [
        | inr (e, x, failed) ↦ absurd (cc (failed.0))
        | inl (vol, found_at, after, looked, steps, freed) ↦
            let (_, uploaded_at, uploaded, kept) = bind-Gives _ _ found_at after path steps in
            let (same, left) = pure_path found path uploaded_at after kept in
            (
              vol,
              found_at,
              uploaded_at,
              looked,
              storage_vol_upload-IsUploaded conn content vol found_at uploaded_at
                  (wrapping-Gives _ _ found_at uploaded_at tt uploaded),
              same,
              freed ∙ ap free (sym left),
            )
      ]

  pub create_iso_disk-IsIsoDisk :
      (conn : Connect) (domain_pool : StoragePool) (cfg : MachineConfig) (path : String)
      (s s' : Session sys)
      → Gives (create_iso_disk sys conn domain_pool cfg) s path s'
      → IsIsoDisk conn domain_pool cfg path s s'
  unfolding create_iso_disk new_iso_disk
  create_iso_disk-IsIsoDisk conn domain_pool cfg path s s' g =
      let (found, looked_at, looked, g1) = bind-Gives _ _ s s' path g in
      elim (by_path found _ _ looked_at s' path g1) [
        | inr (given, kept) ↦
            was_there (IsPresent-of_found _ _ found path s looked_at s' looked given kept)
        | inl (none_there, making) ↦
            let (content, built_at, built, g2) = bind-Gives _ _ looked_at s' path making in
            let (xml, marshalled, g3) = bind-lift-Gives _ _ _ built_at s' path g2 in
            let (made_path, made_at, made, g4) = bind-Gives _ _ built_at s' path g3 in
            let (vol, found_at, uploaded_at, vol_found, uploaded, same, freed) =
              failing_lookup conn content made_path path _ made_at s' g4 in
            let image = wrapping-Gives _ _ looked_at built_at content built in
            was_uploaded looked_at built_at made_at found_at uploaded_at content xml vol
              (looked.0 ∙ ap ok none_there, looked.1)
              (subst (λ t. IsCopied sys cfg content looked_at.files t.files) image.1
                (write_cloud_init_iso-IsCopied sys cfg content looked_at image.0))
              marshalled
              (subst (λ a. IsVolumeMade domain_pool xml a built_at made_at) same
                (create_volume-IsVolumeMade domain_pool xml made_path built_at made_at
                  (wrapping-Gives _ _ built_at made_at made_path made)))
              vol_found uploaded freed
      ]
