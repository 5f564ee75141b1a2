-- ===== src/Tests/Mock.antt =====
-- The mock provider after some calls.
use cluster_api_provider_lib.Shared.{◌≡◌, none, some, [], ◌∷◌}
use cluster_api_provider_lib.Errors.{message}
use cluster_api_provider_lib.Client.Domains.{not_found, running}
use cluster_api_provider_lib.Controller.MockProvider.{
  MockProvider, returned, get_created_machine_config, get_ensured_infra_config, mock_provider,
}
use cluster_api_provider_lib.Controller.MockProvider.Traces.{
  create_err, state, machine_created, last_word, perform_all, perform_all-last_word,
}
use cluster_api_provider_lib.Tests.Host.{toy_config}

abbrev new_mock : MockProvider
new_mock = record {
  ensure_infra_err = none;
  get_machine_state_err = none;
  create_machine_err = none;
  start_machine_err = none;
  delete_machine_err = none;
  machine_address = "";
  get_machine_address_err = none;
  machine_state = not_found;
  created_machine_config = none;
  ensured_infra_config = none;
}

remembered :
    let after =
      perform_all
        (create_err (some (message "full")) ∷ machine_created toy_config ∷ state running ∷ [])
        new_mock in
    (get_created_machine_config after ≡ some toy_config)
    × (get_ensured_infra_config after ≡ none)
    × ((mock_provider.create_machine toy_config after).0 ≡ returned tt (some (message "full")))
    × ((mock_provider.get_machine_state toy_config after).0 ≡ returned running none)
unfolding last_word get_ensured_infra_config get_created_machine_config
remembered =
    perform_all-last_word
      (create_err (some (message "full")) ∷ machine_created toy_config ∷ state running ∷ [])
      new_mock toy_config
