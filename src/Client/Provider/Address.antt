-- ===== src/Client/Provider/Address.antt =====
-- The steps of GetMachineAddress of internal/libvirtclient/provider.go, and what its success says of
-- them.
use cluster_api_provider_lib.Shared.{String, ◌≡◌, ◌≢◌, refl}
use cluster_api_provider_lib.Errors.Exec.{ok}
use cluster_api_provider_lib.Errors.Exec.Inversion.{Gives}
use cluster_api_provider_lib.System.{System, Session, opening, free}
use cluster_api_provider_lib.System.Inversion.{using-Gives}
use cluster_api_provider_lib.Config.{MachineConfig}
use cluster_api_provider_lib.Network.Allocation.{derive_domain_mac}
use cluster_api_provider_lib.Network.Reservation.Leases.{IsLookedUp, machine_address-IsLookedUp}
use cluster_api_provider_lib.Client.Connection.{connect}
use cluster_api_provider_lib.Client.Domains.{operations}
use cluster_api_provider_lib.Client.Provider.{get_machine_address}

module _ (sys : System) where
  -- GetMachineAddress from the session `s`: the connection and the network of the configuration
  -- open, the address is that of a lease of the domain's MAC on this network, and both handles are
  -- freed.
  pub record IsObserved (cfg : MachineConfig) (s : Session sys) (address : String) : Type 0 where
    pub conn : sys.lv.Connect
    pub connected_at : Session sys
    pub connected : Gives (connect sys cfg.infra_config) s conn connected_at
    pub network : sys.lv.NetworkRef
    pub opened_at : Session sys
    pub opened :
        Gives
          (opening sys (sys.lv.lookup_network_by_name conn cfg.infra_config.network))
          connected_at
          network
          opened_at
    pub asked_at : Session sys
    pub looked_up :
        IsLookedUp sys.net
          (operations sys network)
          (derive_domain_mac sys.net cfg.domain_name)
          address
          opened_at
          asked_at
    pub closed : (get_machine_address sys cfg s).1 ≡ free (free asked_at)

  pub get_machine_address-IsObserved :
      (cfg : MachineConfig) (s : Session sys) (address : String)
      → address ≢ ""
      → (get_machine_address sys cfg s).0 ≡ ok address
      → IsObserved cfg s address
  unfolding get_machine_address
  get_machine_address-IsObserved cfg s address given succeeded =
      let (conn, connected_at, after, connected, inner, closed) =
        using-Gives _ _ _ s (get_machine_address sys cfg s).1 address (succeeded, refl) in
      let (network, opened_at, asked_at, opened, looked_up, freed) =
        using-Gives _ _ _ connected_at after address inner in
      record {
        conn = conn;
        connected_at = connected_at;
        connected = connected;
        network = network;
        opened_at = opened_at;
        opened = opened;
        asked_at = asked_at;
        looked_up =
            machine_address-IsLookedUp sys.net (operations sys network) cfg.infra_config.network
              (derive_domain_mac sys.net cfg.domain_name) opened_at asked_at address given
              looked_up;
        closed = cc (closed, freed);
      }
