-- ===== src/Client/Provider/Balance/Resources.antt =====
-- The handles of the calls on volumes, reservations and domains.
use cluster_api_provider_lib.Shared.{String, Option, none, some, refl}
use cluster_api_provider_lib.Errors.Exec.{Result, ok, err}
use cluster_api_provider_lib.Config.{Bytes, MachineConfig}
use cluster_api_provider_lib.Network.{NetworkDhcpHost}
use cluster_api_provider_lib.Network.Reservation.{
  network_xml, reserve_machine_ip, release_entry, release_machine_ip, machine_address,
}
use cluster_api_provider_lib.System.{System}
use cluster_api_provider_lib.System.Handles.{IsBalanced, IsBalanced-bind, balance_rules}
use cluster_api_provider_lib.Client.CloudInit.{write_cloud_init_iso}
use cluster_api_provider_lib.Client.Volumes.{
  abort_stream, sent, storage_vol_upload, create_volume, get_volume_path, new_root_disk,
  create_root_disk, new_iso_disk, create_iso_disk, delete_volume,
}
use cluster_api_provider_lib.Client.Domains.{
  operations, define_and_start, create_in_pools, create_domain,
}
use cluster_api_provider_lib.Client.Provider.Balance.Parts.{delete_domain-IsBalanced}
use cluster_api_provider_lib.Client.Provider.{release_machine_reservation, delete_resources}

module _ (sys : System) where
  get_volume_path-IsBalanced :
      (pool : sys.lv.StoragePool) (name : String) → IsBalanced (get_volume_path sys pool name)
  unfolding get_volume_path
  get_volume_path-IsBalanced pool name = search balance_rules

  create_volume-IsBalanced :
      (pool : sys.lv.StoragePool) (xml : String) → IsBalanced (create_volume sys pool xml)
  unfolding create_volume
  create_volume-IsBalanced pool xml = search balance_rules

  abort_stream-IsBalanced : (stream : sys.lv.Stream) → IsBalanced (abort_stream sys stream)
  unfolding abort_stream
  abort_stream-IsBalanced stream = record { at = λ s. refl }

  sent-IsBalanced :
      (stream : sys.lv.Stream) (r : Result (Unit {0})) → IsBalanced (sent sys stream r)
  unfolding sent
  sent-IsBalanced stream (ok _) = search balance_rules
  sent-IsBalanced stream (err e) = search (balance_rules, abort_stream-IsBalanced)

  storage_vol_upload-IsBalanced :
      (conn : sys.lv.Connect) (content : Bytes) (vol : sys.lv.StorageVol)
      → IsBalanced (storage_vol_upload sys conn content vol)
  unfolding storage_vol_upload
  storage_vol_upload-IsBalanced conn content vol = search (balance_rules, sent-IsBalanced) depth 9

  delete_volume-IsBalanced :
      (conn : sys.lv.Connect) (pool_name name : String)
      → IsBalanced (delete_volume sys conn pool_name name)
  unfolding delete_volume
  delete_volume-IsBalanced conn pool_name name = search balance_rules depth 8

  ruleset volume_rules = (
    balance_rules, get_volume_path-IsBalanced, create_volume-IsBalanced,
    storage_vol_upload-IsBalanced,
  )

  create_root_disk-IsBalanced :
      (base_pool domain_pool : sys.lv.StoragePool) (cfg : MachineConfig)
      → IsBalanced (create_root_disk sys base_pool domain_pool cfg)
  unfolding create_root_disk new_root_disk
  create_root_disk-IsBalanced base_pool domain_pool cfg = search volume_rules depth 9

  write_cloud_init_iso-IsBalanced :
      (cfg : MachineConfig) → IsBalanced (write_cloud_init_iso sys cfg)
  unfolding write_cloud_init_iso
  write_cloud_init_iso-IsBalanced cfg = search balance_rules

  create_iso_disk-IsBalanced :
      (conn : sys.lv.Connect) (domain_pool : sys.lv.StoragePool) (cfg : MachineConfig)
      → IsBalanced (create_iso_disk sys conn domain_pool cfg)
  unfolding create_iso_disk new_iso_disk
  create_iso_disk-IsBalanced conn domain_pool cfg =
      search (volume_rules, write_cloud_init_iso-IsBalanced) depth 9

  network_xml-IsBalanced :
      (network : sys.lv.NetworkRef) → IsBalanced (network_xml sys.net (operations sys network))
  unfolding network_xml operations
  network_xml-IsBalanced network = search balance_rules

  reserve_machine_ip-IsBalanced :
      (network : sys.lv.NetworkRef) (net_name name mac : String)
      → IsBalanced (reserve_machine_ip sys.net (operations sys network) net_name name mac)
  unfolding reserve_machine_ip operations
  reserve_machine_ip-IsBalanced network net_name name mac = search balance_rules depth 9

  release_entry-IsBalanced :
      (network : sys.lv.NetworkRef) (net_name name mac : String) (host : Option NetworkDhcpHost)
      → IsBalanced (release_entry sys.net (operations sys network) net_name name mac host)
  unfolding release_entry operations
  release_entry-IsBalanced network net_name name mac none = search balance_rules
  release_entry-IsBalanced network net_name name mac (some host) = search balance_rules

  release_machine_ip-IsBalanced :
      (network : sys.lv.NetworkRef) (net_name name mac : String)
      → IsBalanced (release_machine_ip sys.net (operations sys network) net_name name mac)
  unfolding release_machine_ip
  release_machine_ip-IsBalanced network net_name name mac =
      IsBalanced-bind _ _ (network_xml-IsBalanced network)
        λ n. release_entry-IsBalanced network net_name name mac _

  pub machine_address-IsBalanced :
      (network : sys.lv.NetworkRef) (net_name mac : String)
      → IsBalanced (machine_address sys.net (operations sys network) net_name mac)
  unfolding machine_address operations
  machine_address-IsBalanced network net_name mac = search balance_rules

  define_and_start-IsBalanced :
      (conn : sys.lv.Connect) (cfg : MachineConfig) (disk_path iso_path mac : String)
      → IsBalanced (define_and_start sys conn cfg disk_path iso_path mac)
  unfolding define_and_start
  define_and_start-IsBalanced conn cfg disk_path iso_path mac = search balance_rules depth 9

  create_in_pools-IsBalanced :
      (conn : sys.lv.Connect) (cfg : MachineConfig) (domain_pool base_pool : sys.lv.StoragePool)
      → IsBalanced (create_in_pools sys conn cfg domain_pool base_pool)
  unfolding create_in_pools
  create_in_pools-IsBalanced conn cfg domain_pool base_pool =
      search
        (
          balance_rules, create_root_disk-IsBalanced, create_iso_disk-IsBalanced,
          reserve_machine_ip-IsBalanced, define_and_start-IsBalanced,
        )
        depth 9

  pub create_domain-IsBalanced :
      (conn : sys.lv.Connect) (cfg : MachineConfig) → IsBalanced (create_domain sys conn cfg)
  unfolding create_domain
  create_domain-IsBalanced conn cfg = search (balance_rules, create_in_pools-IsBalanced) depth 8

  release_machine_reservation-IsBalanced :
      (conn : sys.lv.Connect) (cfg : MachineConfig)
      → IsBalanced (release_machine_reservation sys conn cfg)
  unfolding release_machine_reservation
  release_machine_reservation-IsBalanced conn cfg =
      search (balance_rules, release_machine_ip-IsBalanced) depth 8

  pub delete_resources-IsBalanced :
      (conn : sys.lv.Connect) (cfg : MachineConfig) → IsBalanced (delete_resources sys conn cfg)
  unfolding delete_resources
  delete_resources-IsBalanced conn cfg =
      search
        (
          balance_rules,
          delete_domain-IsBalanced sys,
          delete_volume-IsBalanced,
          release_machine_reservation-IsBalanced,
        )
        depth 9
