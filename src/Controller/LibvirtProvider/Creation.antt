-- ===== src/Controller/LibvirtProvider/Creation.antt =====
-- The creation of a machine through the libvirt client.
use cluster_api_provider_lib.Shared.{◌≡◌, refl, subst, true, none}
use cluster_api_provider_lib.Errors.Exec.{ok}
use cluster_api_provider_lib.Errors.Exec.Inversion.{Gives}
use cluster_api_provider_lib.System.{System, Session, free}
use cluster_api_provider_lib.System.Inversion.{using-Gives}
use cluster_api_provider_lib.Config.{MachineConfig}
use cluster_api_provider_lib.Client.Connection.{connect}
use cluster_api_provider_lib.Client.Domains.{not_found}
use cluster_api_provider_lib.Client.Domains.Started.{IsCreated, create_domain-IsCreated}
use cluster_api_provider_lib.Client.Provider.{create_machine, get_machine_state}
use cluster_api_provider_lib.Api.{LibvirtMachine}
use cluster_api_provider_lib.Controller.{Kube, KubeLib, Run}
use cluster_api_provider_lib.Controller.MachineReconciler.{MachineScope, reconcile_normal}
use cluster_api_provider_lib.Controller.MachineReconciler.Creation.{
  WasCreated, reconcile_normal-WasCreated,
}
use cluster_api_provider_lib.Controller.LibvirtProvider.{client_provider}

module _ (sys : System) where
  -- CreateMachine from the session `s`: the connection opens, and createDomain succeeds on it.
  pub record IsMade (cfg : MachineConfig) (s : Session sys) : Type 0 where
    pub conn : sys.lv.Connect
    pub connected_at : Session sys
    pub connected : Gives (connect sys cfg.infra_config) s conn connected_at
    pub made_at : Session sys
    pub made : IsCreated sys conn cfg connected_at made_at
    pub closed : (create_machine sys cfg s).1 ≡ free made_at

  create_machine-IsMade :
      (cfg : MachineConfig) (s : Session sys) → (create_machine sys cfg s).0 ≡ ok tt → IsMade cfg s
  unfolding create_machine
  create_machine-IsMade cfg s succeeded =
      let (conn, connected_at, made_at, connected, (e, at), closed) =
        using-Gives _ _ _ s (create_machine sys cfg s).1 tt (succeeded, refl) in
      record {
        conn = conn;
        connected_at = connected_at;
        connected = connected;
        made_at = made_at;
        made =
            subst (IsCreated sys conn cfg connected_at) at
              (create_domain-IsCreated sys conn cfg connected_at e);
        closed = closed;
      }

  -- With the libvirt client as the provider: a machine without a provider ID whose domain is not there
  -- is ready after the reconcile only when the user data of its Secret was read, a connection opened,
  -- and on it: both pools were found; the root disk was there under its name, or was made over the base
  -- image; the cloud-init disk was there under its name, whatever it holds, or an image with that user
  -- data was built, and uploaded whole to a volume made for it; an address was reserved for the MAC that
  -- the domain gets; and the domain was defined with the paths of these disks, set to start with the host
  -- and started.
  pub reconcile_normal-IsMade :
      (lib : KubeLib) (kube : Kube (Session sys)) (scope : MachineScope)
      (run : Run (Session sys) LibvirtMachine)
      → run.obj.spec.provider_id ≡ none
      → (s : Session sys) → get_machine_state sys scope.machine_config run.world ≡ (ok not_found, s)
      → (reconcile_normal lib kube (client_provider sys) scope run).1.obj.status.ready ≡ true
      → (was : WasCreated lib kube (client_provider sys) scope s) × IsMade
          (record scope.machine_config { user_data = was.user_data })
          was.read_at
  unfolding client_provider
  reconcile_normal-IsMade lib kube scope run fresh s absent ready =
      let was =
        reconcile_normal-WasCreated lib kube (client_provider sys) scope run fresh s absent ready in
      (was, create_machine-IsMade _ was.read_at was.succeeded)
