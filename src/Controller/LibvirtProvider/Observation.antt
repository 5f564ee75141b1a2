-- ===== src/Controller/LibvirtProvider/Observation.antt =====
-- The address of a machine's status, looked up through the libvirt client.
use cluster_api_provider_lib.Shared.{String, ◌≡◌, inl, inr, List, [], ◌∷◌}
use cluster_api_provider_lib.Errors.Exec.{ok}
use cluster_api_provider_lib.System.{System, Session}
use cluster_api_provider_lib.Client.Domains.{running}
use cluster_api_provider_lib.Client.Provider.{get_machine_state}
use cluster_api_provider_lib.Client.Provider.Address.{IsObserved, get_machine_address-IsObserved}
use cluster_api_provider_lib.Api.{LibvirtMachine, MachineAddress}
use cluster_api_provider_lib.Controller.{Kube, KubeLib, Run}
use cluster_api_provider_lib.Controller.MachineReconciler.{MachineScope, reconcile_normal}
use cluster_api_provider_lib.Controller.MachineReconciler.Addresses.{
  IsSourced, kept, observed, ComeFrom, reconcile_normal-ComeFrom,
}
use cluster_api_provider_lib.Controller.LibvirtProvider.{client_provider}

module _ (sys : System) (scope : MachineScope) (run : Run (Session sys) LibvirtMachine) where
  -- The addresses before, or none, or the address of a lease, asked for once the domain was found to
  -- be running.
  pub data AreLeased (after : List MachineAddress) : Type 0 where
    unchanged : after ≡ run.obj.status.addresses → AreLeased after
    taken_away : after ≡ [] → AreLeased after
    leased :
        (s : Session sys) (address : String)
        → get_machine_state sys scope.machine_config run.world ≡ (ok running, s)
        → IsObserved sys scope.machine_config s address
        → after ≡ (record { type = "InternalIP"; address = address } ∷ [])
        → AreLeased after

  IsSourced-AreLeased :
      (s : Session sys) (after : List MachineAddress)
      → get_machine_state sys scope.machine_config run.world ≡ (ok running, s)
      → IsSourced (client_provider sys) scope s run.obj.status.addresses after
      → AreLeased after
  unfolding client_provider
  IsSourced-AreLeased s after found (kept same) = unchanged same
  IsSourced-AreLeased s after found (observed address gave given is_set) =
      leased s address found
        (get_machine_address-IsObserved sys scope.machine_config s address given gave) is_set

  ComeFrom-AreLeased :
      (lib : KubeLib) (kube : Kube (Session sys)) (after : List MachineAddress)
      → ComeFrom lib kube (client_provider sys) scope run after
      → AreLeased after
  unfolding client_provider
  ComeFrom-AreLeased lib kube after (inl same) = unchanged same
  ComeFrom-AreLeased lib kube after (inr (inl none_left)) = taken_away none_left
  ComeFrom-AreLeased lib kube after (inr (inr (s, found, source))) =
      IsSourced-AreLeased s after found source

  -- With the libvirt client as the provider, the addresses that a reconcile of a machine that is not
  -- being deleted leaves in its status are the ones before, or none, or one InternalIP: then the
  -- domain was found to be running, and on a connection and a network that opened after this, the
  -- address is that of the first lease that is of the domain's MAC and has an address.
  pub reconcile_normal-AreLeased :
      (lib : KubeLib) (kube : Kube (Session sys))
      → AreLeased (reconcile_normal lib kube (client_provider sys) scope run).1.obj.status.addresses
  reconcile_normal-AreLeased lib kube =
      ComeFrom-AreLeased lib kube _
        (reconcile_normal-ComeFrom lib kube (client_provider sys) scope run)
