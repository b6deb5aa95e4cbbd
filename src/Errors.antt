-- ===== src/Errors.antt =====
-- runtime/errors.py and patchpanel/errors.py: one constructor for each place that raises, with the
-- data of its message, and the class that a handler sees.
use ghostmesh.Prelude.{ℕ, String, Bool, true, false, List}
use ghostmesh.Python.{Json}

-- The messages that `PatchPanelValidator` collects.
pub data PanelError : Type 0 where
  bucket_contract_unknown node_contract_unknown : (owner contract : String) → PanelError
  edge_from_unknown edge_to_unknown : (node : String) → PanelError
  exit_undeclared : (node exit : String) → PanelError
  accept_exits_missing : (node : String) → PanelError
  accept_exit_undeclared : (node : String) (exit : Json) → PanelError
  binding_undeclared : (pipe : String) → PanelError
  binding_node_unknown binding_node_differs : (pipe node : String) → PanelError
  binding_direction_differs : (pipe : String) → PanelError
  binding_bucket_unknown : (pipe bucket : String) → PanelError
  binding_missing : (pipe : String) → PanelError
  no_source no_sink : PanelError
  source_has_incoming sink_has_outgoing : (node : String) → PanelError
  unreachable dead_end : (node : String) → PanelError

pub data ErrorClass : Type 0 where
  not_found_error conflict_error invalid_operation_error validation_error value_error lookup_error
        http_error :
      ErrorClass

pub data Error : Type 0 where
  -- NotFoundError
  panel_not_registered : (panel : String) → Error
  card_missing lease_missing link_missing mutation_missing entry_missing intent_missing : ℕ → Error
  nothing_claimable : (bucket : String) → Error
  pipe_unknown_to_panels : (pipe : String) → Error
  pipe_undeclared : (pipe : String) → Error
  node_missing : (node : String) → Error
  pipe_without_node : (pipe : String) → Error
  -- ConflictError
  key_reused : Error
  lease_already_released lease_has_expired : ℕ → Error
  lease_node_differs : (lease_node node : String) → Error
  claimable_in_several : (pipe : String) → Error
  too_many_shadows : ℕ → Error
  mutation_not_validated : Error
  entry_not_draft : Error
  nothing_to_launch : Error
  card_not_at_sink : ℕ → Error
  publication_history_missing provisioning_history_missing : Error
  -- InvalidOperationError
  panel_without_source : Error
  source_without_pipe : (node : String) → Error
  source_pipe_unbound pipe_unbound : (pipe : String) → Error
  pipe_direction_differs : (pipe : String) → Error
  bucket_undeclared : (bucket : String) → Error
  contract_unknown : (bucket contract : String) → Error
  no_artifacts : Error
  artifact_of_other_card : (artifact owner : ℕ) → Error
  storage_ref_missing : Error
  hash_not_sha256 size_invalid : (artifact : ℕ) → Error
  too_few_artifacts : Error
  roles_missing : List String → Error
  shadow_skipped : Error
  node_type_differs : (node : String) → Error
  exit_not_declared exit_not_bound exit_not_output : (node exit : String) → Error
  exit_required : (node : String) → Error
  decision_required accept_exits_required : (node : String) → Error
  config_missing : (node key : String) → Error
  shadow_egress_forbidden registry_missing repository_missing : Error
  nothing_produced worker_pipe_differs nothing_submitted : Error
  boundary_unauthorized boundary_path_missing boundary_target_differs : Error
  -- PatchPanelValidationError
  panel_invalid : List PanelError → Error
  -- ValueError, TypeError and pydantic's ValidationError
  bad_value : Error
  -- IndexError and KeyError
  lookup_failed : Error
  -- HTTPException
  participant_not_given forbidden : Error

unfoldable pub class_of : Error → ErrorClass
class_of (panel_not_registered _) = not_found_error
class_of (card_missing _) = not_found_error
class_of (lease_missing _) = not_found_error
class_of (link_missing _) = not_found_error
class_of (mutation_missing _) = not_found_error
class_of (entry_missing _) = not_found_error
class_of (intent_missing _) = not_found_error
class_of (nothing_claimable _) = not_found_error
class_of (pipe_unknown_to_panels _) = not_found_error
class_of (pipe_undeclared _) = not_found_error
class_of (node_missing _) = not_found_error
class_of (pipe_without_node _) = not_found_error
class_of key_reused = conflict_error
class_of (lease_already_released _) = conflict_error
class_of (lease_has_expired _) = conflict_error
class_of (lease_node_differs _ _) = conflict_error
class_of (claimable_in_several _) = conflict_error
class_of (too_many_shadows _) = conflict_error
class_of mutation_not_validated = conflict_error
class_of entry_not_draft = conflict_error
class_of nothing_to_launch = conflict_error
class_of (card_not_at_sink _) = conflict_error
class_of publication_history_missing = conflict_error
class_of provisioning_history_missing = conflict_error
class_of (panel_invalid _) = validation_error
class_of bad_value = value_error
class_of lookup_failed = lookup_error
class_of participant_not_given = http_error
class_of forbidden = http_error
class_of _ = invalid_operation_error

unfoldable pub is_invalid_operation : Error → Bool
unfolding class_of
is_invalid_operation e = elim (class_of e) [ invalid_operation_error ↦ true | _ ↦ false ]
