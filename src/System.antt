-- ===== src/System.antt =====
-- What internal/libvirtclient calls and the repository does not implement: the libvirt bindings, the
-- XML documents' marshalling, the files of the operating system, net/url, and the ISO image library.
-- Each is a record of operations over a state of its own; nothing is assumed of them here. A `Session`
-- is the state of a call: the host, the files, and how many libvirt handles the call holds open.
pub mod Handles
pub mod Inversion
use cluster_api_provider_lib.Shared.{ℕ, suc, pred, String, Bool, List}
use cluster_api_provider_lib.Errors.{Error, wrap}
use cluster_api_provider_lib.Errors.Exec.{Result, ok, err, Exec, fail, attempt, deferring}
use cluster_api_provider_lib.Config.{Bytes}
use cluster_api_provider_lib.Network.{NetLib, NetworkDhcpLease}
use cluster_api_provider_lib.Network.Reservation.{NetworkUpdateCommand, NetworkUpdateSection}
use cluster_api_provider_lib.Builders.DomainXml.{DomainXml}
use cluster_api_provider_lib.Builders.VolumeXml.{StorageVolume}

-- libvirt.DomainState; `other` is any value beyond those that getDomainState names.
pub data DomainInfoState : Type 0 where
  running blocked paused shutdown shutoff crashed pmsuspended other : DomainInfoState

-- libvirt.org/go/libvirt, over the state of the host. Free and Close are not listed: they give back
-- a handle and change nothing on the host. `send_all` calls the handler with what is left to send
-- and a number of bytes until the handler sends none.
pub record Libvirt : Type 1 where
  pub Host : Type 0
  pub Connect : Type 0
  pub DomainRef : Type 0
  pub NetworkRef : Type 0
  pub StoragePool : Type 0
  pub StorageVol : Type 0
  pub Stream : Type 0
  pub new_connect : String → Exec Host Connect
  pub lookup_domain_by_name : Connect → String → Exec Host DomainRef
  pub domain_define_xml : Connect → String → Exec Host DomainRef
  pub domain_is_active : DomainRef → Exec Host Bool
  pub get_state : DomainRef → Exec Host DomainInfoState
  pub set_autostart : DomainRef → Bool → Exec Host (Unit {0})
  pub create_domain : DomainRef → Exec Host (Unit {0})
  pub destroy : DomainRef → Exec Host (Unit {0})
  pub undefine : DomainRef → Exec Host (Unit {0})
  pub lookup_network_by_name : Connect → String → Exec Host NetworkRef
  pub network_is_active : NetworkRef → Exec Host Bool
  pub get_xml_desc : NetworkRef → Exec Host String
  pub network_update :
      NetworkRef → NetworkUpdateCommand → NetworkUpdateSection → ℕ → String → Exec Host (Unit {0})
  pub get_dhcp_leases : NetworkRef → Exec Host (List NetworkDhcpLease)
  pub lookup_storage_pool_by_name : Connect → String → Exec Host StoragePool
  pub pool_is_active : StoragePool → Exec Host Bool
  pub lookup_storage_vol_by_name : StoragePool → String → Exec Host StorageVol
  pub storage_vol_create_xml : StoragePool → String → Exec Host StorageVol
  pub get_path : StorageVol → Exec Host String
  pub delete_vol : StorageVol → Exec Host (Unit {0})
  pub new_stream : Connect → Exec Host Stream
  pub upload : StorageVol → Stream → ℕ → Exec Host (Unit {0})
  pub send_all : Stream → (Bytes → ℕ → Bytes × Bytes) → Bytes → Exec Host (Unit {0})
  pub abort : Stream → Host → Host
  pub finish : Stream → Exec Host (Unit {0})
  pub marshal_domain : DomainXml → Result String
  pub marshal_volume : StorageVolume → Result String

-- os, io and path/filepath, over the state of the files.
pub record Os : Type 1 where
  pub Files : Type 0
  pub mkdir_temp : String → Exec Files String
  pub remove_all : String → Files → Files
  pub write_file : String → Bytes → ℕ → Exec Files (Unit {0})
  pub join : String → String → String
  pub open_for_reading : String → Exec Files String
  pub copy : String → Exec Files Bytes

-- net/url: a URL, its query parameters, and the text of the URL with new parameters.
pub record UrlLib : Type 1 where
  pub Url : Type 0
  pub Values : Type 0
  pub parse : String → Result Url
  pub scheme : Url → String
  pub query : Url → Values
  pub set : String → String → Values → Values
  pub with_query : Url → Values → String

-- iso9660.FinalizeOptions, as far as it is set.
pub record FinalizeOptions : Type 0 where
  pub volume_identifier : String
  pub rock_ridge : Bool

-- go-diskfs and sigs.k8s.io/yaml, over the same files as `Os`.
pub record DiskLib (os : Os) : Type 1 where
  pub Disk : Type 0
  pub FileSystem : Type 0
  pub File : Type 0
  pub marshal_meta_data : String → String → Result Bytes
  pub create_disk : String → ℕ → Exec os.Files Disk
  pub close_disk : Disk → Exec os.Files (Unit {0})
  pub create_filesystem : Disk → ℕ → Exec os.Files FileSystem
  pub open_file : FileSystem → String → Exec os.Files File
  pub write : File → Bytes → Exec os.Files (Unit {0})
  pub close_file : File → Exec os.Files (Unit {0})
  pub is_iso9660 : FileSystem → Bool
  pub finalize : FileSystem → FinalizeOptions → Exec os.Files (Unit {0})
  pub close_filesystem : FileSystem → Exec os.Files (Unit {0})

pub record System : Type 1 where
  pub net : NetLib
  pub lv : Libvirt
  pub os : Os
  pub url : UrlLib
  pub disk : DiskLib os

pub record Session (sys : System) : Type 0 where
  pub host : sys.lv.Host
  pub files : sys.os.Files
  pub handles : ℕ

module _ (sys : System) {A : Type 0} where
  -- A libvirt call that opens no handle.
  unfoldable pub on_host : Exec sys.lv.Host A → Exec (Session sys) A
  on_host f s = ((f s.host).0, record s { host = (f s.host).1 })

  unfoldable pub on_files : Exec sys.os.Files A → Exec (Session sys) A
  on_files f s = ((f s.files).0, record s { files = (f s.files).1 })

  abbrev pub more_handles : Result A → ℕ → ℕ
  more_handles (ok a) n = suc n
  more_handles (err e) n = n

  -- A libvirt call that opens a handle when it succeeds.
  unfoldable pub opening : Exec sys.lv.Host A → Exec (Session sys) A
  opening f s = (
    (f s.host).0,
    record s { host = (f s.host).1; handles = more_handles (f s.host).0 s.handles },
  )

-- Free and Close.
unfoldable pub free : {sys : System} → Session sys → Session sys
free s = record s { handles = pred s.handles }

module _ {sys : System} {A B : Type 0} where
  -- What follows a call that may have opened a handle: the error branch, or the body with
  -- `defer x.Free()` in front of it.
  abbrev pub opened_result :
      (Error → Exec (Session sys) B) → (A → Exec (Session sys) B) → Result A → Exec (Session sys) B
  opened_result failed body (ok a) = deferring free (body a)
  opened_result failed body (err e) = failed e

  unfoldable pub opened :
      Exec (Session sys) A
      → (Error → Exec (Session sys) B)
      → (A → Exec (Session sys) B)
      → Exec (Session sys) B
  opened open_call failed body = attempt open_call (opened_result failed body)

  -- The commonest error branch: `return ..., fmt.Errorf("<t>%w", err)`.
  abbrev pub using :
      Exec (Session sys) A → String → (A → Exec (Session sys) B) → Exec (Session sys) B
  using open_call t body = opened open_call (λ e. fail (wrap t e)) body
