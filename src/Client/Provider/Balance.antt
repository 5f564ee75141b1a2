-- ===== src/Client/Provider/Balance.antt =====
-- Which provider operations give back every libvirt handle that they open.
mod Parts
mod Resources
use cluster_api_provider_lib.Shared.{suc, ◌≡◌, refl, ◌∙◌, ap}
use cluster_api_provider_lib.Errors.Exec.{
  Result, ok, err, Exec, ◌>>=◌, continue, wrapping, wrap_result,
}
use cluster_api_provider_lib.Config.{InfraConfig, MachineConfig}
use cluster_api_provider_lib.System.{System, Session, on_host, opening, more_handles}
use cluster_api_provider_lib.System.Handles.{IsBalanced, Leaks-opened, Leaks-bind, balance_rules}
use cluster_api_provider_lib.Client.Provider.{
  ensure_infra, create_machine, start_machine, get_machine_state, delete_resources, delete_machine,
  get_machine_address,
}
use Parts.{
  connect-IsOpener, ensure_network-IsBalanced, ensure_base_pool-IsBalanced,
  ensure_domain_pool-IsBalanced, get_domain_state-IsBalanced,
}
use Resources.{create_domain-IsBalanced, delete_resources-IsBalanced, machine_address-IsBalanced}

module _ (sys : System) where
  get_machine_address-IsBalanced : (cfg : MachineConfig) → IsBalanced (get_machine_address sys cfg)
  unfolding get_machine_address
  get_machine_address-IsBalanced cfg =
      search (balance_rules, connect-IsOpener sys, machine_address-IsBalanced sys) depth 8

  -- EnsureInfra, CreateMachine, GetMachineState, DeleteMachine and GetMachineAddress hold as many
  -- libvirt handles when they return, in success and in failure, as when they were called.
  pub provider-IsBalanced :
      (infra : InfraConfig) (cfg : MachineConfig)
      → IsBalanced (ensure_infra sys infra)
        × IsBalanced (create_machine sys cfg)
        × IsBalanced (get_machine_state sys cfg)
        × IsBalanced (delete_machine sys cfg)
        × IsBalanced (get_machine_address sys cfg)
  unfolding ensure_infra create_machine get_machine_state delete_machine
  provider-IsBalanced infra cfg = (
    search
        (
          balance_rules,
          connect-IsOpener sys,
          ensure_network-IsBalanced sys,
          ensure_base_pool-IsBalanced sys,
          ensure_domain_pool-IsBalanced sys,
        )
        depth 8,
    search (balance_rules, connect-IsOpener sys, create_domain-IsBalanced sys),
    search (balance_rules, connect-IsOpener sys, get_domain_state-IsBalanced sys),
    search (balance_rules, connect-IsOpener sys, delete_resources-IsBalanced sys),
    get_machine_address-IsBalanced cfg,
  )

  -- A StartMachine call that succeeds returns with one libvirt handle more than it began with.
  pub start_machine_leaks :
      (cfg : MachineConfig) (s : Session sys)
      → (start_machine sys cfg s).0 ≡ ok tt
      → (start_machine sys cfg s).1.handles ≡ suc s.handles
  unfolding start_machine
  start_machine_leaks cfg s e =
      (Leaks-opened _ _ _ (connect-IsOpener sys cfg.infra_config)
          (λ conn. Leaks-bind _ _ (search balance_rules) (λ domain. search balance_rules))).at
        s tt e
