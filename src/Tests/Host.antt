-- ===== src/Tests/Host.antt =====
-- A small libvirt host with one of each thing, present or absent, and toy text functions: an address
-- is written as that many letters, and a MAC as the number of its bytes.
use Prim.Native.String.{String}
use cluster_api_provider_lib.Shared.{
  ℕ, zero, suc, ◌-◌, ◌%◌, ◌<>◌, Bool, true, false, Option, none, some, List, [], ◌∷◌, if◌then◌else◌,
  str_eq, length,
}
use cluster_api_provider_lib.Errors.{
  ErrorNumber, libvirt, no_domain, no_network, no_storage_pool, no_storage_vol, message,
}
use cluster_api_provider_lib.Errors.Exec.{Result, ok, err, Exec}
use cluster_api_provider_lib.Config.{InfraConfig, MachineConfig}
use cluster_api_provider_lib.Network.{NetLib, Network, NetworkIp, NetworkDhcpHost}
use cluster_api_provider_lib.Network.Candidates.{uint32_mod}
use cluster_api_provider_lib.Network.Allocation.{derive_domain_mac}
use cluster_api_provider_lib.System.{Libvirt, Os, UrlLib, DiskLib, System, Session, DomainInfoState}
use cluster_api_provider_lib.Controller.Identity.{size}

unfoldable pub letters : ℕ → String
letters zero = String.[]
letters (suc n) = "i" <> letters n

abbrev pub dot_248 : String
dot_248 = "255.255.255.248"

-- The subnet of eight addresses from 16 on.
abbrev pub subnet_of : Option (List NetworkDhcpHost) → NetworkIp
subnet_of none = record { family = "inet"; address = letters 17; netmask = dot_248; dhcp = none }
subnet_of (some hosts) = record {
  family = "inet";
  address = letters 17;
  netmask = dot_248;
  dhcp = some (record { ranges = []; hosts = hosts });
}

abbrev pub empty_network : Network
empty_network = record { ips = subnet_of (some []) ∷ [] }

-- The candidates of the first are 17 to 22, and 19 is held by another machine; the second holds
-- the reservation of 20 too.
abbrev pub taken_network : Network
taken_network = record {
  ips = subnet_of (some (record { name = "m0"; mac = "ii"; ip = letters 19 } ∷ [])) ∷ [];
}

abbrev pub reserved_network : Network
reserved_network = record {
  ips =
      subnet_of (
        some (
          record { name = "m0"; mac = "ii"; ip = letters 19 }
          ∷ record { name = "m1"; mac = "iii"; ip = letters 20 }
          ∷ []))
      ∷ [];
}

abbrev parse_document : String → Result Network
parse_document xml =
    if str_eq xml ""
    then err (message "EOF")
    else if str_eq xml "taken"
    then ok taken_network
    else if str_eq xml "reserved"
    then ok reserved_network
    else ok empty_network

abbrev pub net_lib : NetLib
net_lib = record {
  Ip = ℕ;
  parse_ip = λ s. if str_eq s dot_248 then some (uint32_mod - 8) else some (size s);
  to4 = λ a. some a;
  ip_mask = λ a m. a - a % (uint32_mod - m);
  ipv4_string = letters;
  ip_string = letters;
  ip_net_string = λ a m. letters a;
  mac_string = λ bytes. letters (length bytes);
  equal_fold = str_eq;
  fnv64a = size;
  quote = λ s. "\"" <> (s <> "\"");
  marshal_host = λ host. ok host.ip;
  unmarshal_network = λ xml. parse_document xml;
}

-- What the host has.
pub record ToyHost : Type 0 where
  pub domain : Bool
  pub network : Bool
  pub pool : Bool
  pub volumes : List String
  pub active : Bool

unfoldable pub holds : String → List String → Bool
holds name [] = false
holds name (n ∷ names) = if str_eq n name then true else holds name names

unfoldable pub all_but : String → List String → List String
all_but name [] = []
all_but name (n ∷ names) = let rest = all_but name names in if str_eq n name then rest else n ∷ rest

abbrev find : (ToyHost → Bool) → ErrorNumber → String → Exec ToyHost String
find has code name h = (if has h then ok name else err (libvirt code "not found"), h)

abbrev answer : {A : Type 0} → A → Exec ToyHost A
answer a h = (ok a, h)

abbrev pub toy_libvirt : Libvirt
toy_libvirt = record {
  Host = ToyHost;
  Connect = String;
  DomainRef = String;
  NetworkRef = String;
  StoragePool = String;
  StorageVol = String;
  Stream = Unit;
  new_connect = answer;
  lookup_domain_by_name = λ conn. find (λ h. h.domain) no_domain;
  domain_define_xml = λ conn xml h. (ok xml, record h { domain = true });
  domain_is_active = λ dom h. (ok h.active, h);
  get_state =
      λ dom h. (ok (if h.active then DomainInfoState.running else DomainInfoState.shutoff), h);
  set_autostart = λ dom b. answer tt;
  create_domain = λ dom h. (ok tt, record h { active = true });
  destroy = λ dom h. (ok tt, record h { active = false });
  undefine = λ dom h. (ok tt, record h { domain = false });
  lookup_network_by_name = λ conn. find (λ h. h.network) no_network;
  network_is_active = λ net h. (ok h.active, h);
  get_xml_desc = λ net. answer "<network/>";
  network_update = λ net command section parent xml. answer tt;
  get_dhcp_leases = λ net. answer (
      record { mac = derive_domain_mac net_lib "m1"; ip_addr = "" }
      ∷ record { mac = derive_domain_mac net_lib "m1"; ip_addr = "192.168.122.19" }
      ∷ []);
  lookup_storage_pool_by_name = λ conn. find (λ h. h.pool) no_storage_pool;
  pool_is_active = λ pool h. (ok h.active, h);
  lookup_storage_vol_by_name = λ pool name. find (λ h. holds name h.volumes) no_storage_vol name;
  storage_vol_create_xml = λ pool xml h. (ok xml, record h { volumes = xml ∷ h.volumes });
  get_path = λ vol. answer ("/" <> vol);
  delete_vol = λ vol h. (ok tt, record h { volumes = all_but vol h.volumes });
  new_stream = λ conn. answer tt;
  upload = λ vol stream n. answer tt;
  send_all = λ stream handler content. answer tt;
  abort = λ stream h. h;
  finish = λ stream. answer tt;
  marshal_domain = λ d. ok "<domain/>";
  marshal_volume = λ v. ok v.name;
}

-- The files of the system are the number of temporary directories.
abbrev pub toy_os : Os
toy_os = record {
  Files = ℕ;
  mkdir_temp = λ pattern n. (ok pattern, suc n);
  remove_all = λ dir n. n - 1;
  write_file = λ path content mode n. (ok tt, n);
  join = λ dir name. dir <> ("/" <> name);
  open_for_reading = λ path n. (ok path, n);
  copy = λ path n. (ok (1 ∷ 2 ∷ []), n);
}

abbrev pub toy_url : UrlLib
toy_url = record {
  Url = String;
  Values = String;
  parse = λ s. ok s;
  scheme = λ url. "qemu+tls";
  query = λ url. "";
  set = λ key value params. params <> (key <> ("=" <> value));
  with_query = λ url params. url <> ("?" <> params);
}

abbrev pub toy_disk : DiskLib toy_os
toy_disk = record {
  Disk = Unit;
  FileSystem = Unit;
  File = Unit;
  marshal_meta_data = λ id host. ok [];
  create_disk = λ path n files. (ok tt, files);
  close_disk = λ disk files. (ok tt, files);
  create_filesystem = λ disk n files. (ok tt, files);
  open_file = λ fs name files. (ok tt, files);
  write = λ f content files. (ok tt, files);
  close_file = λ f files. (ok tt, files);
  is_iso9660 = λ fs. true;
  finalize = λ fs label files. (ok tt, files);
  close_filesystem = λ fs files. (ok tt, files);
}

abbrev pub toy_system : System
toy_system = record { net = net_lib; lv = toy_libvirt; os = toy_os; url = toy_url; disk = toy_disk }

abbrev pub bare_host : ToyHost
bare_host = record { domain = false; network = false; pool = false; volumes = []; active = false }

abbrev pub full_host : ToyHost
full_host = record {
  domain = true;
  network = true;
  pool = true;
  volumes = "debian" ∷ "m1.qcow2" ∷ "cloudinit-m1.iso" ∷ [];
  active = true;
}

abbrev pub session_on : ToyHost → Session toy_system
session_on h = record { host = h; files = 0; handles = 0 }

abbrev pub toy_infra : InfraConfig
toy_infra = record {
  uri = "qemu:///system";
  base_pool = "base";
  domain_pool = "domains";
  network = "default";
  credentials = none;
}

abbrev pub toy_config : MachineConfig
toy_config = record {
  infra_config = toy_infra;
  domain_name = "m1";
  domain_uuid = "u1";
  hostname = "m1";
  base_image = "debian";
  memory_mib = 1024;
  vcpu = 1;
  disk_size = 10;
  user_data = [];
}
