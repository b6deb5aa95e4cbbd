-- ===== src/Nodes/Validation.antt =====
-- nodes/executor.py: `execute_validator`.
use ghostmesh.Prelude.{
  String, Bool, ◌&&◌, Option, none, some, lookup, is_none, if◌then◌else◌, string_eq,
}
use ghostmesh.Python.{is_str, Conversions}
use ghostmesh.Errors.{exit_required}
use ghostmesh.Result.{Result, ok}
use ghostmesh.Exec.{Exec, lift, gets, raise_if, ◌>>=◌, ◌>>◌}
use ghostmesh.Domain.Panel.{validator, NodeDefinition, PatchPanel}
use ghostmesh.Domain.Work.{CardEvent}
use ghostmesh.PanelValidator.{GraphLibrary}
use ghostmesh.Runtime.Cards.{validate_card}
use ghostmesh.Nodes.{
  Nodes, NodeEnv, Models, on_runtime, node_of, ensure_validator_exit, requires_selected_exit,
}
use ghostmesh.Nodes.Handlers.{
  ValidatorExecutionInput, topology_validation_request, participant_onboarding_request,
  validator_accepted,
}

-- `node.config.get("validation_handler") == name`
abbrev pub has_handler : String → NodeDefinition → Bool
has_handler name node = is_str name (lookup "validation_handler" node.config)

abbrev pub checked_exit : PatchPanel → NodeDefinition → Option String → Result Unit
checked_exit panel node none = ok tt
checked_exit panel node (some exit) = ensure_validator_exit panel node exit

module _ (py : Conversions) (nx : GraphLibrary) (models : Models) (env : NodeEnv)
    (panel : PatchPanel) where
  -- The two handlers, one after the other.
  abbrev pub handled : NodeDefinition → ValidatorExecutionInput → Exec Nodes ValidatorExecutionInput
  handled node request = do
    by_topology ← gets (λ s. topology_validation_request py nx models node request s.runtime)
    request' ← lift (if has_handler "patch_panel_topology" node then by_topology else ok request)
    by_onboarding ← gets (λ s. participant_onboarding_request models node request' s.runtime)
    lift (
        if has_handler "participant_onboarding_compliance" node then by_onboarding else ok request')

  -- From the request that the handlers leave on.
  abbrev pub decided : NodeDefinition → ValidatorExecutionInput → Exec Nodes CardEvent
  decided node request = do
    raise_if (is_none request.selected_exit && requires_selected_exit node) (exit_required node.id)
    lift (checked_exit panel node request.selected_exit)
    accepted ← lift (validator_accepted node request)
    on_runtime (
        validate_card env.first_call request.card_id node.id accepted request.reason
          request.selected_exit request.payload request.idempotency_key)

  unfoldable pub execute_validator : ValidatorExecutionInput → Exec Nodes CardEvent
  unfolding node_of
  execute_validator request = do
    node ← lift (node_of panel request.validator_id validator)
    request' ← handled node request
    decided node request'
