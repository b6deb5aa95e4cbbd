-- ===== src/Domain/Authority.antt =====
-- domain/authority.py: participants, roles, scopes, grants, and the audit record of a decision.
use ghostmesh.Prelude.{
  ℕ, String, ◌≡◌, ◌↔◌, Bool, true, false, not, ◌&&◌, Option, none, some, List, Eq, ◌==◌,
  eq_of_discrete, arith, is_none, is_some, is_text, ltb, if◌then◌else◌, string_eq, option_eq,
  option_beq_iff,
}
use ghostmesh.Python.{Payload}
use ghostmesh.Errors.{bad_value}
use ghostmesh.Result.{Result, ok, raise_if, ◌>>◌}

pub data ParticipantType : Type 0 where
  human agent script service system_service vendor organization external_integration subworkflow :
      ParticipantType

pub data ParticipantStatus : Type 0 where
  active suspended archived : ParticipantStatus

abbrev pub is_active_status : ParticipantStatus → Bool
is_active_status active = true
is_active_status _ = false

pub data RoleName : Type 0 where
  workflow_owner workflow_designer worker validator routing_validator source_operator sink_operator
        reviewer_approver shadow_participant learning_optimizer observer admin intent_operator
        workflow_architect :
      RoleName

pub data PermissionName : Type 0 where
  patch_panel_create patch_panel_edit_draft patch_panel_publish_version patch_panel_archive
        patch_panel_discover bucket_create node_create edge_create pipe_binding_create card_create
        card_claim card_submit_artifact card_release card_view validation_submit mutation_propose
        mutation_validate mutation_promote shadow_create shadow_complete sink_execute
        boundary_source_ingress boundary_sink_egress participant_manage permission_grant
        audit_view :
      PermissionName

pub data ScopeType : Type 0 where
  global development_global organization_scope workflow patch_panel bucket node card artifact
        version :
      ScopeType

unfoldable pub permission_discrete : Discrete PermissionName
permission_discrete = hlevel

unfoldable pub scope_type_discrete : Discrete ScopeType
scope_type_discrete = hlevel

instance abbrev pub permission_eq : Eq PermissionName
permission_eq = eq_of_discrete permission_discrete

instance abbrev pub scope_type_eq : Eq ScopeType
scope_type_eq = eq_of_discrete scope_type_discrete

pub record Scope : Type 0 where
  pub type : ScopeType
  pub id : Option String

abbrev pub scope_beq : Scope → Scope → Bool
scope_beq a b = a.type == b.type && a.id == b.id

pub scope_beq_iff : (a b : Scope) → (scope_beq a b ≡ true) ↔ (a ≡ b)
scope_beq_iff a b =
    ground (arith, scope_type_eq.beq_iff a.type b.type, option_beq_iff {A = String} a.id b.id)

-- pydantic's `==` compares the fields.
instance abbrev pub scope_eq : Eq Scope
scope_eq = record { beq = scope_beq; beq_iff = scope_beq_iff }

abbrev pub is_global : ScopeType → Bool
is_global global = true
is_global development_global = true
is_global _ = false

abbrev has_text : Option String → Bool
has_text none = false
has_text (some s) = is_text s

-- `Scope.validate_scope_id`, the validator that runs when a scope is made.
unfoldable pub make_scope : ScopeType → Option String → Result Scope
make_scope type id =
    if is_global type
    then (do raise_if (is_some id) bad_value; ok (record { type = type; id = id }))
    else (do raise_if (not (has_text id)) bad_value; ok (record { type = type; id = id }))

pub record Participant : Type 0 where
  pub id : String
  pub type : ParticipantType
  pub display_name : Option String
  pub status : ParticipantStatus
  pub trust_level : Option String
  pub auth_method : Option String
  pub metadata : Payload
  pub created_at : ℕ
  pub archived_at : Option ℕ

pub record RoleAssignment : Type 0 where
  pub id : ℕ
  pub participant_id : String
  pub role_id : String
  pub scope : Scope
  pub assigned_by : Option String
  pub expires_at : Option ℕ
  pub created_at : ℕ
  pub revoked_at : Option ℕ
  pub metadata : Payload

pub record PermissionGrant : Type 0 where
  pub id : ℕ
  pub permission : PermissionName
  pub scope : Scope
  pub participant_id : Option String
  pub role_id : Option String
  pub granted_by : Option String
  pub expires_at : Option ℕ
  pub created_at : ℕ
  pub revoked_at : Option ℕ
  pub metadata : Payload

-- `expires_at is None or expires_at > at`
abbrev not_expired : ℕ → Option ℕ → Bool
not_expired at none = true
not_expired at (some t) = ltb at t

-- `RoleAssignment.is_active` and `PermissionGrant.is_active`
unfoldable pub is_active_assignment : ℕ → RoleAssignment → Bool
is_active_assignment at a = is_none a.revoked_at && not_expired at a.expires_at

unfoldable pub is_active_grant : ℕ → PermissionGrant → Bool
is_active_grant at g = is_none g.revoked_at && not_expired at g.expires_at

pub data Reason : Type 0 where
  participant_not_found : Reason
  participant_inactive : ParticipantStatus → Reason
  matched_grant : Reason
  no_matching_grant : Reason

pub record AuthorizationDecision : Type 0 where
  pub id : ℕ
  pub participant_id : String
  pub permission : PermissionName
  pub scope : Scope
  pub allowed : Bool
  pub reason : Reason
  pub evaluated_at : ℕ
  pub matched_grant_ids : List ℕ
  pub metadata : Payload

pub data AuditAction : Type 0 where
  authorization_allowed authorization_denied : AuditAction

-- `AuthorizationDecision.audit_action`
unfoldable pub audit_action : AuthorizationDecision → AuditAction
audit_action d = if d.allowed then authorization_allowed else authorization_denied

pub record AuthorizationAuditEvent : Type 0 where
  pub id : ℕ
  pub action : AuditAction
  pub participant_id : Option String
  pub permission : Option PermissionName
  pub scope : Option Scope
  pub allowed : Option Bool
  pub reason : Option Reason
  pub request_ref : Option String
  pub target_ref : Option String
  pub metadata : Payload
  pub created_at : ℕ

-- `AuthorizationAuditEvent.from_decision`, with the new id and the reading of the clock.
unfoldable pub from_decision : (id now : ℕ) → AuthorizationDecision → AuthorizationAuditEvent
unfolding audit_action
from_decision id now d = record {
  id = id;
  action = audit_action d;
  participant_id = some d.participant_id;
  permission = some d.permission;
  scope = some d.scope;
  allowed = some d.allowed;
  reason = some d.reason;
  request_ref = none;
  target_ref = none;
  metadata = d.metadata;
  created_at = now;
}
