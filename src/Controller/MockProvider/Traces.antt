-- ===== src/Controller/MockProvider/Traces.antt =====
-- What the mock provider remembers of the calls made on it.
use cluster_api_provider_lib.Shared.{String, ◌≡◌, refl, sym, ap, Option, some, List, [], ◌∷◌, arith}
use cluster_api_provider_lib.Errors.{Error}
use cluster_api_provider_lib.Config.{InfraConfig, MachineConfig}
use cluster_api_provider_lib.Client.Domains.{DomainState}
use cluster_api_provider_lib.Controller.MockProvider.{
  MockProvider, returned, set_ensure_infra_err, set_get_machine_state_err, set_machine_state,
  set_create_machine_err, set_start_machine_err, set_delete_machine_err,
  set_get_machine_address_err, set_machine_address, get_ensured_infra_config,
  get_created_machine_config, mock_ensure_infra, mock_get_machine_state, mock_create_machine,
  mock_start_machine, mock_delete_machine, mock_get_machine_address, mock_provider,
}

-- A method that is called on the mock: a setter, or a call of the interface.
pub data Call : Type 0 where
  infra_err state_err create_err start_err delete_err address_err : Option Error → Call
  state : DomainState → Call
  address : String → Call
  infra_ensured : InfraConfig → Call
  machine_created machine_started machine_deleted state_read address_read : MachineConfig → Call

unfoldable pub perform : Call → MockProvider → MockProvider
unfolding mock_provider
perform (infra_err e) m = set_ensure_infra_err m e
perform (state_err e) m = set_get_machine_state_err m e
perform (create_err e) m = set_create_machine_err m e
perform (start_err e) m = set_start_machine_err m e
perform (delete_err e) m = set_delete_machine_err m e
perform (address_err e) m = set_get_machine_address_err m e
perform (state s) m = set_machine_state m s
perform (address a) m = set_machine_address m a
perform (infra_ensured cfg) m = (mock_provider.ensure_infra cfg m).1
perform (machine_created cfg) m = (mock_provider.create_machine cfg m).1
perform (machine_started cfg) m = (mock_provider.start_machine cfg m).1
perform (machine_deleted cfg) m = (mock_provider.delete_machine cfg m).1
perform (state_read cfg) m = (mock_provider.get_machine_state cfg m).1
perform (address_read cfg) m = (mock_provider.get_machine_address cfg m).1

-- The calls in order, the first one first.
unfoldable pub perform_all : List Call → MockProvider → MockProvider
perform_all [] m = m
perform_all (c ∷ calls) m = perform_all calls (perform c m)

-- What a call says about the configuration that was created last, about the one that was ensured
-- last, about CreateMachine's error and about the domain's state.
abbrev pub created : Call → Option MachineConfig → Option MachineConfig
created (machine_created cfg) before = some cfg
created _ before = before

abbrev pub ensured : Call → Option InfraConfig → Option InfraConfig
ensured (infra_ensured cfg) before = some cfg
ensured _ before = before

abbrev pub create_error : Call → Option Error → Option Error
create_error (create_err e) before = e
create_error _ before = before

abbrev pub state_error : Call → Option Error → Option Error
state_error (state_err e) before = e
state_error _ before = before

abbrev pub state_set : Call → DomainState → DomainState
state_set (state s) before = s
state_set _ before = before

-- The last word of a list of calls.
unfoldable pub last_word : {A : Type 0} → (Call → A → A) → List Call → A → A
last_word says [] a = a
last_word says (c ∷ calls) a = last_word says calls (says c a)

module _ {A : Type 0} (says : Call → A → A) (field : MockProvider → A)
    (step : (c : Call) (m : MockProvider) → field (perform c m) ≡ says c (field m)) where
  -- A field that follows the calls one by one holds their last word.
  perform_all-field :
      (calls : List Call) (m : MockProvider)
      → field (perform_all calls m) ≡ last_word says calls (field m)
  unfolding perform_all last_word
  perform_all-field [] m = refl
  perform_all-field (c ∷ calls) m = rw (sym (step c m)) (perform_all-field calls (perform c m))

-- One call changes what is remembered as it says.
perform_lem :
    (c : Call) (m : MockProvider)
    → let after = perform c m in
      (get_created_machine_config after ≡ created c (get_created_machine_config m))
      × (get_ensured_infra_config after ≡ ensured c (get_ensured_infra_config m))
      × (after.create_machine_err ≡ create_error c m.create_machine_err)
      × (after.get_machine_state_err ≡ state_error c m.get_machine_state_err)
      × (after.machine_state ≡ state_set c m.machine_state)
unfolding perform get_created_machine_config get_ensured_infra_config mock_ensure_infra
    mock_get_machine_state mock_create_machine mock_start_machine mock_delete_machine
    mock_get_machine_address set_ensure_infra_err set_get_machine_state_err set_machine_state
    set_create_machine_err set_start_machine_err set_delete_machine_err set_get_machine_address_err
    set_machine_address mock_provider
perform_lem c m = ground arith

-- After any calls on the mock, in any order, the getters give the configuration of the last
-- CreateMachine and of the last EnsureInfra, also when these failed; CreateMachine returns the error
-- that was set for it last, and GetMachineState the error set for it last or else the state set last.
pub perform_all-last_word :
    (calls : List Call) (m : MockProvider) (cfg : MachineConfig)
    → let after = perform_all calls m in
      (get_created_machine_config after ≡ last_word created calls (get_created_machine_config m))
      × (get_ensured_infra_config after ≡ last_word ensured calls (get_ensured_infra_config m))
      × ((mock_provider.create_machine cfg after).0
          ≡ returned tt (last_word create_error calls m.create_machine_err))
      × ((mock_provider.get_machine_state cfg after).0
          ≡ returned
              (last_word state_set calls m.machine_state)
              (last_word state_error calls m.get_machine_state_err))
unfolding mock_provider mock_create_machine mock_get_machine_state
perform_all-last_word calls m cfg = (
  perform_all-field created get_created_machine_config (λ c n. (perform_lem c n).0) calls m,
  perform_all-field ensured get_ensured_infra_config (λ c n. (perform_lem c n).1) calls m,
  ap (returned tt) (
      perform_all-field create_error (λ n. n.create_machine_err) (λ c n. (perform_lem c n).2) calls
        m),
  rw
      (
        perform_all-field state_set (λ n. n.machine_state) (λ c n. (perform_lem c n).4) calls m,
        perform_all-field state_error (λ n. n.get_machine_state_err) (λ c n. (perform_lem c n).3)
            calls m,
      )
      refl,
)
