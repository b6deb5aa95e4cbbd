-- ===== src/Tests/Running.antt =====
-- The definitions that the tests compute with: one line for each part.
use ghostmesh.Prelude.{lookup, insert, update, ◌+++◌, before_last_colon, has_colon}
use ghostmesh.Errors.{class_of, is_invalid_operation}
use ghostmesh.PanelValidator.{
  validate, validate_contract_references, validate_edges, validate_validator_edges,
  validate_routing_validator_accept_exits, validate_pipe_bindings, validate_boundaries, build_graph,
  validate_reachability, validate_dead_ends,
}
use ghostmesh.PanelValidator.Toy.{toy}
use ghostmesh.Domain.Panel.{workflow_version_id}
use ghostmesh.Artifacts.{validate_artifact_references}
use ghostmesh.Runtime.Service.{
  resolve_initial_bucket, resolve_pipe_bucket, ensure_bucket_exists, ensure_active_lease, new_lease,
  ensure_artifacts_accepted, ensure_artifact_refs_belong_to_card,
}
use ghostmesh.Runtime.State.{
  get_idempotent, store_idempotent, record_in_log, get_card, get_lease, get_patch_panel,
  get_patch_panel_for_card, has_active_lease, keyed,
}
use ghostmesh.Runtime.Cards.{
  register_patch_panel, create_card, move_card, validate_card, record_event, card_history,
}
use ghostmesh.Runtime.Claim.{claim_card}
use ghostmesh.Runtime.Leases.{submit_artifact, renew_lease, release_lease, expire_leases}
use ghostmesh.Runtime.Calls.{perform}
use ghostmesh.Domain.Authority.{
  permission_discrete, scope_type_discrete, is_active_assignment, is_active_grant, audit_action,
  from_decision,
}
use ghostmesh.Auth.Scopes.{scope_matches}
use ghostmesh.Prelude.{before_first_colon}
use ghostmesh.Runtime.Shadow.{
  active_links, create_shadow_card, complete_shadow, propose_mutation, validate_mutation,
  promote_mutation,
}
use ghostmesh.Auth.Repository.{
  get_participant, upsert_participant, add_role_assignment, add_permission_grant,
  list_role_assignments, role_ids, list_permission_grants, record_audit_event,
}
use ghostmesh.Auth.Service.{matched_grants, decide, authorize}
use ghostmesh.Auth.Dependencies.{authorize_request}
use ghostmesh.Auth.Catalog.{
  template_id, template_grants, add_grants, has_matching_grant, add_missing,
  ensure_builtin_role_assignment,
}
use ghostmesh.Registry.{
  entry_matches, entry_with_metadata, register, search, update_metadata, archive, supersede,
}
use mathlib.Core.Bool as Booleans
use ghostmesh.Registry as Entries
use ghostmesh.Genesis as Genesis
use ghostmesh.Genesis.{
  add_candidates, search_all, search_candidates, receive_intent, check_launch, launch,
}
use ghostmesh.Python as Values
use ghostmesh.Exec as Effects
use ghostmesh.Nodes as Executor
use ghostmesh.Nodes.Work.{execute_source, execute_worker}
use ghostmesh.Nodes.Handlers.{
  candidate_id, judge, judged_request, topology_validation_request, checked_onboarding,
  participant_onboarding_request, validator_accepted,
}
use ghostmesh.Nodes.Validation.{execute_validator}
use ghostmesh.Nodes.Sinks.{
  is_elsewhere, is_publication, publication_governed, provisioning_governed, every_entry, entry_for,
  is_held_back, assign_roles, onboard, publish, provision, execute_configured_sink, execute_sink,
}
use ghostmesh.Prelude.Sorting.{text_leb, sorted, place}
use ghostmesh.Runtime.Cards.{list_cards, list_patch_panels}
use ghostmesh.Observability.{
  group_all, cards_by_bucket, bucket_load, active_leases, all_events, histories, worker_activity,
  count_activity, acceptance_rate,
}
use ghostmesh.Observability.Topology.{mermaid}
use ghostmesh.Prelude.Splitting.{split, strip, strip_left, strip_right, join}
use ghostmesh.Boundaries as Borders
use ghostmesh.Boundaries.Ingress as Ingress
use ghostmesh.Boundaries.Egress as Egress
use ghostmesh.Boundaries.Source as Sources
use ghostmesh.Boundaries.Sink as Sinks
use ghostmesh.Bootstrap.{registry_metadata_for, in_runtime, in_registry, install, bootstrap}
use ghostmesh.Domain.Registry.{from_patch_panel}

unfoldable pub validator_runs : Unit {0}
unfolding validate toy validate_contract_references validate_edges validate_validator_edges
    validate_routing_validator_accept_exits validate_pipe_bindings validate_boundaries build_graph
    validate_reachability validate_dead_ends lookup insert
validator_runs = tt

unfoldable pub runtime_runs : Unit {0}
unfolding validator_runs update ◌+++◌ before_last_colon has_colon class_of is_invalid_operation
    workflow_version_id validate_artifact_references resolve_initial_bucket resolve_pipe_bucket
    ensure_bucket_exists ensure_active_lease new_lease ensure_artifacts_accepted
    ensure_artifact_refs_belong_to_card get_idempotent store_idempotent record_in_log get_card
    get_lease get_patch_panel get_patch_panel_for_card has_active_lease keyed register_patch_panel
    create_card move_card validate_card record_event claim_card submit_artifact renew_lease
    release_lease expire_leases perform
runtime_runs = tt

unfoldable pub auth_runs : Unit {0}
unfolding lookup insert ◌+++◌ authorize_request Booleans.decide permission_discrete
    scope_type_discrete is_active_assignment is_active_grant audit_action from_decision
    scope_matches get_participant upsert_participant add_role_assignment add_permission_grant
    list_role_assignments role_ids list_permission_grants record_audit_event matched_grants decide
    authorize template_id template_grants add_grants has_matching_grant add_missing
    ensure_builtin_role_assignment
auth_runs = tt

unfoldable pub genesis_runs : Unit {0}
unfolding runtime_runs entry_matches entry_with_metadata register Entries.get search update_metadata
    archive supersede Genesis.get add_candidates search_all search_candidates receive_intent
    check_launch launch
genesis_runs = tt

unfoldable pub shadow_runs : Unit {0}
unfolding runtime_runs before_first_colon active_links create_shadow_card complete_shadow
    propose_mutation validate_mutation promote_mutation
shadow_runs = tt

unfoldable pub node_runs : Unit {0}
unfolding genesis_runs auth_runs Values.get_field Values.items_of Effects.◌>>=◌ Effects.zoom
    Executor.find_node Executor.node_of Executor.node_for_pipe Executor.ensure_validator_exit
    Executor.requires_selected_exit Executor.configured_exit Executor.accepted_by card_history
    execute_source execute_worker candidate_id judge judged_request topology_validation_request
    checked_onboarding participant_onboarding_request validator_accepted execute_validator
    is_elsewhere is_publication publication_governed provisioning_governed every_entry entry_for
    is_held_back assign_roles onboard publish provision execute_configured_sink execute_sink
node_runs = tt

unfoldable pub view_runs : Unit {0}
unfolding runtime_runs card_history text_leb sorted place list_cards list_patch_panels group_all
    cards_by_bucket bucket_load active_leases all_events histories worker_activity count_activity
    acceptance_rate mermaid
view_runs = tt

unfoldable pub boundary_runs : Unit {0}
unfolding node_runs list_patch_panels split strip strip_left strip_right join
    Borders.ensure_authorized Borders.envelope Borders.follow Borders.extract_path Borders.map_into
    Borders.map_payload Borders.find_panel Ingress.ingress_key Ingress.prepare Sources.receive
    Sources.execute_source Egress.render_template Egress.prepare Egress.egress_key_of Sinks.deliver
    Sinks.execute_sink
boundary_runs = tt

unfoldable pub bootstrap_runs : Unit {0}
unfolding node_runs list_patch_panels from_patch_panel registry_metadata_for in_runtime in_registry
    install bootstrap
bootstrap_runs = tt
