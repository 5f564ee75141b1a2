-- ===== src/Controller/MockProvider.antt =====
-- internal/controller/mock_provider.go: the provider of the controllers' own tests, as a state that
-- its setters and calls change, and as the interface `provider`. A nil error is `none`, and a call
-- that returns a value beside an error returns the error. Each method holds the mutex throughout, so
-- that calls are made one after the other. The domain state before SetMachineState is a parameter of
-- the initial state, since the empty string is none of the four states.
pub mod Traces
use cluster_api_provider_lib.Shared.{String, Option, none, some}
use cluster_api_provider_lib.Errors.{Error}
use cluster_api_provider_lib.Errors.Exec.{Result, ok, err, Exec}
use cluster_api_provider_lib.Config.{InfraConfig, MachineConfig}
use cluster_api_provider_lib.Client.Domains.{DomainState}
use cluster_api_provider_lib.Controller.{Provider}

pub record MockProvider : Type 0 where
  pub ensure_infra_err : Option Error
  pub get_machine_state_err : Option Error
  pub create_machine_err : Option Error
  pub start_machine_err : Option Error
  pub delete_machine_err : Option Error
  pub machine_address : String
  pub get_machine_address_err : Option Error
  pub machine_state : DomainState
  pub created_machine_config : Option MachineConfig
  pub ensured_infra_config : Option InfraConfig

-- A value returned beside an error.
abbrev pub returned : {A : Type 0} → A → Option Error → Result A
returned a none = ok a
returned a (some e) = err e

module _ (m : MockProvider) where
  unfoldable pub set_ensure_infra_err : Option Error → MockProvider
  set_ensure_infra_err e = record m { ensure_infra_err = e }

  unfoldable pub set_get_machine_state_err : Option Error → MockProvider
  set_get_machine_state_err e = record m { get_machine_state_err = e }

  unfoldable pub set_machine_state : DomainState → MockProvider
  set_machine_state state = record m { machine_state = state }

  unfoldable pub set_create_machine_err : Option Error → MockProvider
  set_create_machine_err e = record m { create_machine_err = e }

  unfoldable pub set_start_machine_err : Option Error → MockProvider
  set_start_machine_err e = record m { start_machine_err = e }

  unfoldable pub set_delete_machine_err : Option Error → MockProvider
  set_delete_machine_err e = record m { delete_machine_err = e }

  unfoldable pub set_get_machine_address_err : Option Error → MockProvider
  set_get_machine_address_err e = record m { get_machine_address_err = e }

  unfoldable pub set_machine_address : String → MockProvider
  set_machine_address address = record m { machine_address = address }

unfoldable pub get_ensured_infra_config : MockProvider → Option InfraConfig
get_ensured_infra_config m = m.ensured_infra_config

unfoldable pub get_created_machine_config : MockProvider → Option MachineConfig
get_created_machine_config m = m.created_machine_config

-- The calls of the interface. EnsureInfra and CreateMachine record the configuration they are given.
unfoldable pub mock_ensure_infra : InfraConfig → Exec MockProvider (Unit {0})
mock_ensure_infra cfg m =
    (returned tt m.ensure_infra_err, record m { ensured_infra_config = some cfg })

unfoldable pub mock_get_machine_state : MachineConfig → Exec MockProvider DomainState
mock_get_machine_state cfg m = (returned m.machine_state m.get_machine_state_err, m)

unfoldable pub mock_create_machine : MachineConfig → Exec MockProvider (Unit {0})
mock_create_machine cfg m =
    (returned tt m.create_machine_err, record m { created_machine_config = some cfg })

unfoldable pub mock_start_machine : MachineConfig → Exec MockProvider (Unit {0})
mock_start_machine cfg m = (returned tt m.start_machine_err, m)

unfoldable pub mock_delete_machine : MachineConfig → Exec MockProvider (Unit {0})
mock_delete_machine cfg m = (returned tt m.delete_machine_err, m)

unfoldable pub mock_get_machine_address : MachineConfig → Exec MockProvider String
mock_get_machine_address cfg m = (returned m.machine_address m.get_machine_address_err, m)

unfoldable pub mock_provider : Provider MockProvider
mock_provider = record {
  ensure_infra = mock_ensure_infra;
  get_machine_state = mock_get_machine_state;
  create_machine = mock_create_machine;
  start_machine = mock_start_machine;
  delete_machine = mock_delete_machine;
  get_machine_address = mock_get_machine_address;
}
