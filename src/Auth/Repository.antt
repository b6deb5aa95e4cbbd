-- ===== src/Auth/Repository.antt =====
-- auth/repositories.py: `InMemoryAuthorizationRepository`.
use ghostmesh.Prelude.{
  ℕ, String, Bool, false, ◌&&◌, ◌||◌, Option, none, some, List, [], ◌∷◌, ◌++◌, map, keep, mem, Dict,
  lookup, insert, values, ◌==◌, string_eq, option_eq,
}
use ghostmesh.Domain.Authority.{
  Participant, RoleAssignment, PermissionGrant, AuthorizationAuditEvent, is_active_assignment,
  is_active_grant,
}

pub record Repository : Type 0 where
  pub participants : Dict String Participant
  pub role_assignments : List RoleAssignment
  pub permission_grants : List PermissionGrant
  pub audit_events : List AuthorizationAuditEvent

abbrev pub empty_repository : Repository
empty_repository = record {
  participants = [];
  role_assignments = [];
  permission_grants = [];
  audit_events = [];
}

unfoldable pub get_participant : String → Repository → Option Participant
get_participant id repo = lookup id repo.participants

unfoldable pub list_participants : Repository → List Participant
list_participants repo = values repo.participants

unfoldable pub upsert_participant : Participant → Repository → Repository
upsert_participant p repo = record repo { participants = insert p.id p repo.participants }

unfoldable pub add_role_assignment : RoleAssignment → Repository → Repository
add_role_assignment a repo = record repo { role_assignments = repo.role_assignments ++ a ∷ [] }

unfoldable pub add_permission_grant : PermissionGrant → Repository → Repository
add_permission_grant g repo = record repo { permission_grants = repo.permission_grants ++ g ∷ [] }

unfoldable pub record_audit_event : AuthorizationAuditEvent → Repository → Repository
record_audit_event e repo = record repo { audit_events = repo.audit_events ++ e ∷ [] }

unfoldable pub list_role_assignments : (now : ℕ) → String → Repository → List RoleAssignment
list_role_assignments now id repo =
    keep (λ a. a.participant_id == id && is_active_assignment now a) repo.role_assignments

-- The roles that the participant holds at the instant.
unfoldable pub role_ids : (now : ℕ) → String → Repository → List String
role_ids now id repo =
    map (λ a. a.role_id)
      (keep (λ a. a.participant_id == id && is_active_assignment now a) repo.role_assignments)

-- `grant.role_id in role_ids`
abbrev pub held : Option String → List String → Bool
held none roles = false
held (some role) roles = mem role roles

unfoldable pub list_permission_grants : (now : ℕ) → String → Repository → List PermissionGrant
unfolding role_ids
list_permission_grants now id repo =
    keep
      (λ g.
        is_active_grant now g
        && (g.participant_id == some id || held g.role_id (role_ids now id repo)))
      repo.permission_grants
