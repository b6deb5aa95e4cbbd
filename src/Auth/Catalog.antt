-- ===== src/Auth/Catalog.antt =====
-- auth/catalog.py: the built-in roles, and the assignment of one to a participant; and from
-- bootstrap.py `ensure_builtin_role_assignment`, which does it once.
pub mod Provisioning
pub mod Extension
use ghostmesh.Prelude.{
  ℕ, String, Bool, true, false, not, ◌&&◌, Option, none, some, List, [], ◌∷◌, ◌++◌, map, first, any,
  ◌==◌, string_eq, option_eq, ◌+++◌, if◌then◌else◌,
}
use ghostmesh.Python.{str, boolean, Payload}
use ghostmesh.Domain.Authority.{
  RoleName, workflow_owner, workflow_designer, worker, validator, routing_validator,
  source_operator, sink_operator, reviewer_approver, shadow_participant, learning_optimizer,
  observer, admin, intent_operator, workflow_architect, PermissionName, patch_panel_create,
  patch_panel_edit_draft, patch_panel_publish_version, patch_panel_archive, patch_panel_discover,
  bucket_create, node_create, edge_create, pipe_binding_create, card_create, card_claim,
  card_submit_artifact, card_release, card_view, validation_submit, mutation_propose,
  mutation_validate, mutation_promote, shadow_create, shadow_complete, sink_execute,
  boundary_source_ingress, boundary_sink_egress, participant_manage, permission_grant, audit_view,
  Scope, RoleAssignment, PermissionGrant, permission_eq, scope_eq, Participant, system_service,
  active, global,
}
use ghostmesh.Auth.Repository.{
  Repository, add_role_assignment, add_permission_grant, list_role_assignments,
  list_permission_grants, upsert_participant,
}

-- `RoleName.value`
abbrev pub role_value : RoleName → String
role_value workflow_owner = "workflow_owner"
role_value workflow_designer = "workflow_designer"
role_value worker = "worker"
role_value validator = "validator"
role_value routing_validator = "routing_validator"
role_value source_operator = "source_operator"
role_value sink_operator = "sink_operator"
role_value reviewer_approver = "reviewer_approver"
role_value shadow_participant = "shadow_participant"
role_value learning_optimizer = "learning_optimizer"
role_value observer = "observer"
role_value admin = "admin"
role_value intent_operator = "intent_operator"
role_value workflow_architect = "workflow_architect"

-- `tuple(PermissionName)`
abbrev pub all_permissions : List PermissionName
all_permissions =
    patch_panel_create ∷ patch_panel_edit_draft ∷ patch_panel_publish_version ∷ patch_panel_archive
    ∷ patch_panel_discover ∷ bucket_create ∷ node_create ∷ edge_create ∷ pipe_binding_create
    ∷ card_create ∷ card_claim ∷ card_submit_artifact ∷ card_release ∷ card_view ∷ validation_submit
    ∷ mutation_propose ∷ mutation_validate ∷ mutation_promote ∷ shadow_create ∷ shadow_complete
    ∷ sink_execute ∷ boundary_source_ingress ∷ boundary_sink_egress ∷ participant_manage
    ∷ permission_grant ∷ audit_view ∷ []

-- `BUILT_IN_ROLE_TEMPLATES`: the permissions of each template.
abbrev pub permissions_of : RoleName → List PermissionName
permissions_of workflow_owner =
    patch_panel_create ∷ patch_panel_edit_draft ∷ patch_panel_publish_version ∷ patch_panel_archive
    ∷ patch_panel_discover ∷ bucket_create ∷ node_create ∷ edge_create ∷ pipe_binding_create
    ∷ mutation_validate ∷ mutation_promote ∷ shadow_create ∷ permission_grant ∷ []
permissions_of workflow_designer =
    patch_panel_create ∷ patch_panel_edit_draft ∷ patch_panel_discover ∷ bucket_create ∷ node_create
    ∷ edge_create ∷ pipe_binding_create ∷ mutation_propose ∷ []
permissions_of worker = card_view ∷ card_claim ∷ card_submit_artifact ∷ card_release ∷ []
permissions_of validator = card_view ∷ validation_submit ∷ []
permissions_of routing_validator = card_view ∷ validation_submit ∷ []
permissions_of source_operator = boundary_source_ingress ∷ card_create ∷ []
permissions_of sink_operator = sink_execute ∷ boundary_sink_egress ∷ []
permissions_of reviewer_approver =
    card_view ∷ validation_submit ∷ mutation_validate ∷ mutation_promote
    ∷ patch_panel_publish_version ∷ []
permissions_of shadow_participant =
    card_view ∷ card_claim ∷ card_submit_artifact ∷ shadow_complete ∷ mutation_propose ∷ []
permissions_of learning_optimizer =
    card_view ∷ patch_panel_discover ∷ mutation_propose ∷ shadow_create ∷ []
permissions_of observer = card_view ∷ patch_panel_discover ∷ audit_view ∷ []
permissions_of admin = all_permissions
permissions_of intent_operator = card_create ∷ patch_panel_discover ∷ []
permissions_of workflow_architect =
    patch_panel_discover ∷ patch_panel_create ∷ patch_panel_edit_draft ∷ bucket_create ∷ node_create
    ∷ edge_create ∷ pipe_binding_create ∷ card_create ∷ mutation_propose ∷ shadow_create ∷ []

-- `RoleTemplate.id`
unfoldable pub template_id : RoleName → String
template_id name = "builtin:" +++ role_value name

-- What a call takes from outside: the clock, when the repository is read and when a record is made,
-- and the new ids.
pub record GrantEnv : Type 0 where
  pub now : ℕ
  pub created_at : ℕ
  pub assignment_id : ℕ
  pub grant_ids : PermissionName → ℕ

abbrev metadata_of : RoleName → Payload
metadata_of name = ("builtin_role", str (role_value name)) ∷ []

module _ (env : GrantEnv) (participant_id : String) (name : RoleName) (scope : Scope)
    (assigned_by : Option String) where
  abbrev pub new_assignment : RoleAssignment
  new_assignment = record {
    id = env.assignment_id;
    participant_id = participant_id;
    role_id = template_id name;
    scope = scope;
    assigned_by = assigned_by;
    expires_at = none;
    created_at = env.created_at;
    revoked_at = none;
    metadata = metadata_of name;
  }

  abbrev pub new_grant : PermissionName → PermissionGrant
  new_grant permission = record {
    id = env.grant_ids permission;
    permission = permission;
    scope = scope;
    participant_id = none;
    role_id = some (template_id name);
    granted_by = assigned_by;
    expires_at = none;
    created_at = env.created_at;
    revoked_at = none;
    metadata = metadata_of name;
  }

  -- `RoleTemplate.permission_grants`
  unfoldable pub template_grants : List PermissionGrant
  template_grants = map new_grant (permissions_of name)

  unfoldable pub add_grants : List PermissionGrant → Repository → Repository
  add_grants [] repo = repo
  add_grants (g ∷ gs) repo = add_grants gs (add_permission_grant g repo)

  unfoldable pub assign_role_to_participant : Repository → RoleAssignment × Repository
  unfolding template_grants add_grants
  assign_role_to_participant repo =
      (new_assignment, add_grants template_grants (add_role_assignment new_assignment repo))

  -- `_has_matching_grant`
  unfoldable pub has_matching_grant : List PermissionGrant → PermissionGrant → Bool
  has_matching_grant gs candidate =
      any
        (λ g.
          g.role_id == candidate.role_id
          && g.participant_id == candidate.participant_id
          && g.permission == candidate.permission
          && g.scope == candidate.scope)
        gs

  -- The loop tests every grant against the grants that were in force before it.
  unfoldable pub add_missing : List PermissionGrant → List PermissionGrant → Repository → Repository
  unfolding has_matching_grant
  add_missing in_force [] repo = repo
  add_missing in_force (g ∷ gs) repo =
      add_missing in_force gs
        (if has_matching_grant in_force g then repo else add_permission_grant g repo)

  abbrev pub found_or_new : Option RoleAssignment → Repository → RoleAssignment × Repository
  found_or_new (some existing) repo = (existing, repo)
  found_or_new none repo = (new_assignment, add_role_assignment new_assignment repo)

  unfoldable pub ensure_builtin_role_assignment : Repository → RoleAssignment × Repository
  unfolding template_grants add_missing
  ensure_builtin_role_assignment repo =
      let existing =
        first (λ a. a.role_id == template_id name && a.scope == scope)
          (list_role_assignments env.now participant_id repo) in
      let (assignment, repo') = found_or_new existing repo in
      (
        assignment,
        add_missing (list_permission_grants env.now participant_id repo') template_grants repo',
      )

abbrev pub root_operator : GrantEnv → String → Participant
root_operator env participant_id = record {
  id = participant_id;
  type = system_service;
  display_name = some "Root Operator";
  status = active;
  trust_level = none;
  auth_method = some "local_bootstrap";
  metadata = ("system_bootstrap", boolean true) ∷ ("root_operator", boolean true) ∷ [];
  created_at = env.created_at;
  archived_at = none;
}

-- `seed_root_operator`
unfoldable pub seed_root_operator : GrantEnv → String → Repository → Repository
seed_root_operator env participant_id repo =
    let root = root_operator env participant_id in
    (ensure_builtin_role_assignment env root.id admin (record { type = global; id = none })
      (some root.id) (upsert_participant root repo)).1
