-- ===== src/Auth/Service.antt =====
-- auth/service.py: `AuthorizationService.authorize`.
pub mod Decisions
use ghostmesh.Prelude.{
  ℕ, String, Bool, true, false, ◌&&◌, Option, none, some, List, [], ◌∷◌, map, keep, ◌==◌, is_empty,
}
use ghostmesh.Python.{Payload}
use ghostmesh.Domain.Authority.{
  Participant, ParticipantStatus, active, PermissionName, PermissionGrant, Scope, Reason,
  participant_not_found, participant_inactive, matched_grant, no_matching_grant,
  AuthorizationDecision, from_decision, permission_eq,
}
use ghostmesh.Auth.Scopes.{scope_matches}
use ghostmesh.Auth.Repository.{
  Repository, get_participant, list_permission_grants, record_audit_event,
}

-- What a call takes from outside: the clock when the grants are listed and when the decision and the
-- audit event are made, and their new ids.
pub record AuthEnv : Type 0 where
  pub now : ℕ
  pub evaluated_at : ℕ
  pub recorded_at : ℕ
  pub decision_id : ℕ
  pub event_id : ℕ

module _ (env : AuthEnv) (participant_id : String) (permission : PermissionName) (scope : Scope)
    (context : Payload) where
  abbrev pub decision : Bool → Reason → List ℕ → AuthorizationDecision
  decision allowed reason ids = record {
    id = env.decision_id;
    participant_id = participant_id;
    permission = permission;
    scope = scope;
    allowed = allowed;
    reason = reason;
    evaluated_at = env.evaluated_at;
    matched_grant_ids = ids;
    metadata = context;
  }

  unfoldable pub matched_grants : Repository → List PermissionGrant
  matched_grants repo =
      keep (λ g. g.permission == permission && scope_matches g.scope scope context)
        (list_permission_grants env.now participant_id repo)

  abbrev pub by_grants : List PermissionGrant → AuthorizationDecision
  by_grants [] = decision false no_matching_grant []
  by_grants (g ∷ gs) = decision true matched_grant (map (λ x. x.id) (g ∷ gs))

  abbrev pub by_status : ParticipantStatus → List PermissionGrant → AuthorizationDecision
  by_status active gs = by_grants gs
  by_status other gs = decision false (participant_inactive other) []

  abbrev pub by_participant : Option Participant → List PermissionGrant → AuthorizationDecision
  by_participant none gs = decision false participant_not_found []
  by_participant (some p) gs = by_status p.status gs

  unfoldable pub decide : Repository → AuthorizationDecision
  unfolding matched_grants
  decide repo = by_participant (get_participant participant_id repo) (matched_grants repo)

  -- `_record` writes the decision to the audit log before it is returned.
  unfoldable pub authorize : Repository → AuthorizationDecision × Repository
  unfolding decide from_decision record_audit_event
  authorize repo =
      let d = decide repo in
      (d, record_audit_event (from_decision env.event_id env.recorded_at d) repo)
