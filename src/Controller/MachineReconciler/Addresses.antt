-- ===== src/Controller/MachineReconciler/Addresses.antt =====
-- Where the addresses of a machine's status come from.
use cluster_api_provider_lib.Shared.{
  String, ◌≡◌, ◌≢◌, ◌⊎◌, inl, inr, refl, sym, subst, ◌∙◌, true, false, List, [], ◌∷◌, str_eq,
  eq_iff, arith, Bool-cases,
}
use cluster_api_provider_lib.Errors.{Error}
use cluster_api_provider_lib.Errors.Exec.{Result, ok, err, pure, attempt, ◌>>=◌, Result-cases}
use cluster_api_provider_lib.Client.Domains.{DomainState, not_found, running, stopped, unknown}
use cluster_api_provider_lib.Api.{LibvirtMachine, MachineAddress}
use cluster_api_provider_lib.Controller.{Provider, Kube, KubeLib, Run, on_world, modify, reading}
use cluster_api_provider_lib.Controller.Identity.{set_provider_id}
use cluster_api_provider_lib.Controller.MachineStatus.{
  set_ready, set_available, set_addresses, set_finalizers, put_condition, domain_is_running,
  infrastructure_is_ready,
}
use cluster_api_provider_lib.Controller.MachineReconciler.{
  MachineScope, observe_result, create_result, start_result, create_missing, reconcile_state,
  reconcile_normal, get_cloud_init_data,
}

-- The addresses before, or the one that GetMachineAddress gives in the world `w`.
pub data IsSourced {W : Type 0} (p : Provider W) (scope : MachineScope) (w : W)
    (before after : List MachineAddress) : Type 0 where
  kept : after ≡ before → IsSourced p scope w before after
  observed :
      (address : String)
      → (p.get_machine_address scope.machine_config w).0 ≡ ok address
      → address ≢ ""
      → after ≡ (record { type = "InternalIP"; address = address } ∷ [])
      → IsSourced p scope w before after

module _ {W : Type 0} (lib : KubeLib) (kube : Kube W) (p : Provider W) (scope : MachineScope) where
  observe_blank :
      (address : String) (run : Run W LibvirtMachine)
      → str_eq address "" ≡ true
      → (observe_result lib kube p scope (ok address) run).1.obj.status.addresses
        ≡ run.obj.status.addresses
  unfolding observe_result pure
  observe_blank address run blank = rw blank refl

  observe_given :
      (address : String) (run : Run W LibvirtMachine)
      → str_eq address "" ≡ false
      → (observe_result lib kube p scope (ok address) run).1.obj.status.addresses
        ≡ (record { type = "InternalIP"; address = address } ∷ [])
  unfolding observe_result modify set_addresses ◌>>=◌
  observe_given address run given = rw given refl

  observe_result-IsSourced :
      (w : W) (r : Result String) (run : Run W LibvirtMachine)
      → (p.get_machine_address scope.machine_config w).0 ≡ r
      → IsSourced p scope w run.obj.status.addresses
          (observe_result lib kube p scope r run).1.obj.status.addresses
  unfolding observe_result pure
  observe_result-IsSourced w (err e) run x = kept refl
  observe_result-IsSourced w (ok address) run x = elim (Bool-cases (str_eq address "")) [
    | inl e ↦ kept (observe_blank address run e)
    | inr e ↦ observed address x (ground (arith, eq_iff address "")) (observe_given address run e)
  ]

  running-IsSourced :
      (run : Run W LibvirtMachine)
      → IsSourced p scope run.world run.obj.status.addresses
          (reconcile_state lib kube p scope running run).1.obj.status.addresses
  unfolding reconcile_state on_world modify set_available put_condition set_provider_id attempt
      ◌>>=◌
  running-IsSourced run =
      observe_result-IsSourced run.world (p.get_machine_address scope.machine_config run.world).0
        (record {
          world = (p.get_machine_address scope.machine_config run.world).1;
          obj = domain_is_running lib run.obj;
        })
        refl

  state-addresses :
      (state : DomainState) (run : Run W LibvirtMachine)
      → (state ≡ running)
        ⊎ (reconcile_state lib kube p scope state run).1.obj.status.addresses
          ≡ run.obj.status.addresses
        ⊎ (reconcile_state lib kube p scope state run).1.obj.status.addresses ≡ []
  unfolding reconcile_state start_result create_result on_world modify reading set_ready
      set_available put_condition set_provider_id set_addresses create_missing get_cloud_init_data
      ◌>>=◌
  state-addresses not_found run = ground arith
  state-addresses stopped run = ground arith
  state-addresses running run = inl refl
  state-addresses unknown run = ground arith

  normal_by_error :
      (run : Run W LibvirtMachine) (e : Error)
      → (p.get_machine_state scope.machine_config run.world).0 ≡ err e
      → (reconcile_normal lib kube p scope run).1.obj.status.addresses ≡ run.obj.status.addresses
  unfolding reconcile_normal on_world modify reading set_available set_finalizers put_condition
      ◌>>=◌
  normal_by_error run e unread = ground arith

  normal_by_state :
      (run : Run W LibvirtMachine) (state : DomainState) (w : W)
      → p.get_machine_state scope.machine_config run.world ≡ (ok state, w)
      → ((reconcile_normal lib kube p scope run).1.obj.status.addresses ≡ run.obj.status.addresses)
        ⊎ (reconcile_normal lib kube p scope run).1.obj.status.addresses
          ≡ (reconcile_state lib kube p scope state (record {
            world = w;
            obj = infrastructure_is_ready lib run.obj;
          })).1.obj.status.addresses
  unfolding reconcile_normal on_world modify reading set_available set_finalizers put_condition
      ◌>>=◌
  normal_by_state run state w read = ground arith

  -- Of the addresses before and after a reconcile: they are the same, there is none any more, or the
  -- domain was found to be running, and the address was asked for then.
  abbrev pub ComeFrom : Run W LibvirtMachine → List MachineAddress → Type 0
  ComeFrom run after =
      (after ≡ run.obj.status.addresses)
      ⊎ (after ≡ [])
      ⊎ (w : W) × (p.get_machine_state scope.machine_config run.world ≡ (ok running, w))
        × IsSourced p scope w run.obj.status.addresses after

  ComeFrom-running :
      (run : Run W LibvirtMachine) (w : W) (after : List MachineAddress)
      → p.get_machine_state scope.machine_config run.world ≡ (ok running, w)
      → after
        ≡ (reconcile_state lib kube p scope running (record {
          world = w;
          obj = infrastructure_is_ready lib run.obj;
        })).1.obj.status.addresses
      → ComeFrom run after
  unfolding put_condition
  ComeFrom-running run w after read e = inr (
      inr (
        w,
        read,
        subst (IsSourced p scope w run.obj.status.addresses) (sym e)
            (running-IsSourced (record { world = w; obj = infrastructure_is_ready lib run.obj })),
      ))

  ComeFrom-state :
      (run : Run W LibvirtMachine) (state : DomainState) (w : W) (after : List MachineAddress)
      → p.get_machine_state scope.machine_config run.world ≡ (ok state, w)
      → after
        ≡ (reconcile_state lib kube p scope state (record {
          world = w;
          obj = infrastructure_is_ready lib run.obj;
        })).1.obj.status.addresses
      → ComeFrom run after
  unfolding put_condition
  ComeFrom-state run state w after read e =
      elim (state-addresses state
        (record { world = w; obj = infrastructure_is_ready lib run.obj })) [
          | inl x ↦ ComeFrom-running run w after (cc (read, x)) (cc (e, x))
          | inr (inl same) ↦ inl (e ∙ same)
          | inr (inr cleared) ↦ inr (inl (e ∙ cleared))
        ]

  -- The addresses that a reconcile leaves are the ones before, or none, or the one that a
  -- GetMachineAddress call gave after the domain was found to be running.
  pub reconcile_normal-ComeFrom :
      (run : Run W LibvirtMachine)
      → ComeFrom run (reconcile_normal lib kube p scope run).1.obj.status.addresses
  reconcile_normal-ComeFrom run =
      let read = p.get_machine_state scope.machine_config run.world in
      elim (Result-cases read.0) [
        | inr (e, x) ↦ inl (normal_by_error run e x)
        | inl (state, x) ↦ elim (normal_by_state run state read.1 (cc (x))) [
          | inl same ↦ inl same
          | inr after ↦ ComeFrom-state run state read.1 _ (cc (x)) after
        ]
      ]
