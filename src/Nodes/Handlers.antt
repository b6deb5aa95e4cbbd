-- ===== src/Nodes/Handlers.antt =====
-- nodes/executor.py: the two handlers by which a validator decides by itself, and `_validator_accepted`.
use ghostmesh.Prelude.{
  ℕ, String, Bool, true, false, Option, none, some, List, [], ◌∷◌, any, lookup, update, length,
  string_eq, option_eq, is_some, ◌||◌, if◌then◌else◌,
}
use ghostmesh.Python.{
  pos, Json, str, num, arr, Items, nil, cons, texts, items_of, is_str, get_in, text_or,
  text_or_null, optional_text, Payload, Conversions,
}
use ghostmesh.Errors.{panel_invalid, decision_required, accept_exits_required}
use ghostmesh.Result.{Result, ok, err, ◌>>=◌}
use ghostmesh.Domain.Panel.{NodeDefinition, PatchPanel}
use ghostmesh.Domain.Work.{Card}
use ghostmesh.PanelValidator.{GraphLibrary, GraphValidationReport, validate}
use ghostmesh.Runtime.State.{Runtime, get_card}
use ghostmesh.Nodes.{Decoded, decoded, refused, Onboarding, Models, configured_exit}

-- The score is read nowhere, and left out.
pub record ValidatorExecutionInput : Type 0 where
  pub card_id : ℕ
  pub validator_id : String
  pub selected_exit : Option String
  pub accepted : Option Bool
  pub reason : Option String
  pub payload : Payload
  pub idempotency_key : Option String

abbrev pub is_given : ValidatorExecutionInput → Bool
is_given request = is_some request.accepted || is_some request.selected_exit

abbrev pub cycle_items : List (List String) → Items
cycle_items [] = nil
cycle_items (c ∷ cs) = cons (arr (texts c)) (cycle_items cs)

-- `_candidate_id`
unfoldable pub candidate_id : Conversions → Payload → Json
candidate_id py payload =
    text_or_null (optional_text py (get_in "id" (lookup "candidate_definition" payload)))

-- What the `try` block gives: the report on the candidate, or the caught exception, as its message and
-- its list of messages. Any other error leaves the method.
pub data Judgement : Type 0 where
  passes : PatchPanel → GraphValidationReport → Judgement
  fails : String → List String → Judgement

module _ (nx : GraphLibrary) (models : Models) where
  abbrev pub report_on : PatchPanel → Result GraphValidationReport → Result Judgement
  report_on candidate (ok report) = ok (passes candidate report)
  report_on candidate (err (panel_invalid es)) =
      ok (fails (models.text_of (panel_invalid es)) (models.messages (panel_invalid es)))
  report_on candidate (err e) = err e

  abbrev pub judge_decoded : Decoded PatchPanel → Result Judgement
  judge_decoded (refused message) = ok (fails message (message ∷ []))
  judge_decoded (decoded candidate) = report_on candidate (validate nx candidate)

  unfoldable pub judge : Card → Result Judgement
  judge card = judge_decoded (models.read_panel (lookup "candidate_definition" card.payload))

module _ (py : Conversions) (nx : GraphLibrary) (models : Models) where
  abbrev pub topology_answer :
      ValidatorExecutionInput
      → Card
      → (valid_exit invalid_exit : String) → Judgement
      → ValidatorExecutionInput
  topology_answer request card valid_exit invalid_exit (fails message errors) = record request {
    accepted = some false;
    selected_exit = some invalid_exit;
    reason = some message;
    payload = update request.payload (
        ("validation_handler", str "patch_panel_topology")
        ∷ ("candidate_patch_panel_id", candidate_id py card.payload)
        ∷ ("errors", arr (texts errors))
        ∷ []);
  }
  topology_answer request card valid_exit invalid_exit (passes candidate report) = record request {
    accepted = some true;
    selected_exit = some valid_exit;
    reason = some (text_or request.reason "Patch Panel topology validation passed");
    payload = update request.payload (
        ("validation_handler", str "patch_panel_topology")
        ∷ ("candidate_patch_panel_id", str candidate.id)
        ∷ ("node_count", num (pos report.node_count))
        ∷ ("edge_count", num (pos report.edge_count))
        ∷ ("cycles", arr (cycle_items report.cycles))
        ∷ []);
  }

  -- `_topology_validation_request`, for a request that gives neither a decision nor an exit.
  unfoldable pub judged_request :
      NodeDefinition → ValidatorExecutionInput → Runtime → Result ValidatorExecutionInput
  unfolding judge
  judged_request node request rt = do
    card ← get_card request.card_id rt
    valid_exit ← configured_exit node "valid_exit"
    invalid_exit ← configured_exit node "invalid_exit"
    judgement ← judge nx models card
    ok (topology_answer request card valid_exit invalid_exit judgement)

  unfoldable pub topology_validation_request :
      NodeDefinition → ValidatorExecutionInput → Runtime → Result ValidatorExecutionInput
  unfolding judged_request
  topology_validation_request node request rt =
      if is_given request then ok request else judged_request node request rt

module _ (models : Models) where
  abbrev pub onboarding_answer :
      ValidatorExecutionInput
      → (valid_exit invalid_exit : String) → Decoded Onboarding
      → ValidatorExecutionInput
  onboarding_answer request valid_exit invalid_exit (refused message) = record request {
    accepted = some false;
    selected_exit = some invalid_exit;
    reason = some message;
    payload = update request.payload (
        ("validation_handler", str "participant_onboarding_compliance")
        ∷ ("errors", arr (texts (message ∷ [])))
        ∷ []);
  }
  onboarding_answer request valid_exit invalid_exit (decoded o) = record request {
    accepted = some true;
    selected_exit = some valid_exit;
    reason = some (text_or request.reason "Participant onboarding payload is compliant");
    payload = update request.payload (
        ("validation_handler", str "participant_onboarding_compliance")
        ∷ ("participant_id", str o.participant.id)
        ∷ ("role_assignment_count", num (pos (length o.role_assignments)))
        ∷ []);
  }

  unfoldable pub checked_onboarding :
      NodeDefinition → ValidatorExecutionInput → Runtime → Result ValidatorExecutionInput
  checked_onboarding node request rt = do
    card ← get_card request.card_id rt
    valid_exit ← configured_exit node "valid_exit"
    invalid_exit ← configured_exit node "invalid_exit"
    ok (onboarding_answer request valid_exit invalid_exit (models.read_onboarding card.payload))

  -- `_participant_onboarding_request`
  unfoldable pub participant_onboarding_request :
      NodeDefinition → ValidatorExecutionInput → Runtime → Result ValidatorExecutionInput
  unfolding checked_onboarding
  participant_onboarding_request node request rt =
      if is_given request then ok request else checked_onboarding node request rt

-- `isinstance(value, list)`, and the test of membership.
abbrev accepts : NodeDefinition → String → Option Json → Result Bool
accepts node exit (some (arr exits)) = ok (any (λ v. is_str exit (some v)) (items_of exits))
accepts node exit _ = err (accept_exits_required node.id)

abbrev by_exit : NodeDefinition → Option String → Result Bool
by_exit node none = err (decision_required node.id)
by_exit node (some exit) = accepts node exit (lookup "accept_exits" node.config)

abbrev given_or : Option Bool → Result Bool → Result Bool
given_or none r = r
given_or (some b) r = ok b

unfoldable pub validator_accepted : NodeDefinition → ValidatorExecutionInput → Result Bool
unfolding items_of
validator_accepted node request = given_or request.accepted (by_exit node request.selected_exit)
