-- ===== src/Tests/AuthTests.antt =====
-- Tests of the authorization service and of the role catalog.
use ghostmesh.Prelude.{
  String, ◌≡◌, ◌↔◌, refl, true, false, Option, none, some, [], ◌∷◌, inl, inr, string_eq,
}
use ghostmesh.Python.{str, Payload}
use ghostmesh.Domain.Authority.{
  Participant, human, active, worker, card_claim, Scope, workflow, bucket, PermissionGrant,
}
use ghostmesh.Auth.Repository.{Repository, get_participant, empty_repository}
use ghostmesh.Auth.Service.{AuthEnv, authorize}
use ghostmesh.Result.{Result, ok}
use ghostmesh.Auth.Dependencies.{authorize_request, authorize_request_passes}
use ghostmesh.Auth.Service.Decisions.{Entitles, directly, authorize_allowed}
use ghostmesh.Auth.Catalog.{GrantEnv, ensure_builtin_role_assignment, new_grant}
use ghostmesh.Auth.Catalog.Provisioning.{ensure_builtin_role_assignment-authorize}
use ghostmesh.Tests.Running.{auth_runs}

abbrev pub ann : Participant
ann = record {
  id = "ann";
  type = human;
  display_name = none;
  status = active;
  trust_level = none;
  auth_method = none;
  metadata = [];
  created_at = 0;
  archived_at = none;
}

abbrev clock : AuthEnv
clock = record { now = 5; evaluated_at = 5; recorded_at = 6; decision_id = 1; event_id = 2 }

abbrev pub grants_at : GrantEnv
grants_at = record { now = 5; created_at = 5; assignment_id = 10; grant_ids = λ p. 11 }

abbrev pub one_workflow : Scope
one_workflow = record { type = workflow; id = some "hello" }

abbrev inner : Scope
inner = record { type = bucket; id = some "todo" }

abbrev in_workflow : Payload
in_workflow = ("workflow_id", str "hello") ∷ []

abbrev own_grant : PermissionGrant
own_grant = record (new_grant grants_at "ann" worker one_workflow none card_claim) {
  participant_id = some "ann";
  role_id = none;
  expires_at = some 9;
}

abbrev granted : Repository
granted = record empty_repository {
  participants = ("ann", ann) ∷ [];
  permission_grants = own_grant ∷ [];
}

-- A grant of a workflow reaches a bucket that the context puts in the workflow.
authorize_allowed_example :
    (authorize clock "ann" card_claim inner in_workflow granted).0.allowed ≡ true
unfolding auth_runs
authorize_allowed_example = (authorize_allowed clock "ann" card_claim inner in_workflow granted).1 (
  (ann, refl, refl),
  (
    own_grant,
    record {
      listed = inl refl;
      in_force = refl;
      given = directly refl;
      same = refl;
      reaches = refl;
    },
  ),
)

-- The grant has expired.
expired_denied :
    (authorize (record clock { now = 9 }) "ann" card_claim inner in_workflow granted).0.allowed
    ≡ false
unfolding auth_runs
expired_denied = refl

abbrev only_ann : Repository
only_ann = record empty_repository { participants = ("ann", ann) ∷ [] }

ensure_builtin_role_assignment-authorize_example :
    (authorize clock "ann" card_claim one_workflow []
      (ensure_builtin_role_assignment grants_at "ann" worker one_workflow none
        only_ann).1).0.allowed
    ≡ true
unfolding auth_runs
ensure_builtin_role_assignment-authorize_example =
    ensure_builtin_role_assignment-authorize grants_at "ann" worker one_workflow none card_claim []
      only_ann clock ann refl refl refl (inr (inl refl))

-- A worker of one workflow gets what the role was granted in another one.
abbrev bob : Participant
bob = record ann { id = "bob" }

abbrev other_workflow : Scope
other_workflow = record { type = workflow; id = some "other" }

abbrev both_workers : Repository
both_workers =
    (ensure_builtin_role_assignment (record grants_at { assignment_id = 12 }) "bob" worker
      other_workflow none
      (ensure_builtin_role_assignment grants_at "ann" worker one_workflow none
        (record only_ann { participants = ("ann", ann) ∷ ("bob", bob) ∷ [] })).1).1

scope_of_assignment_ignored :
    (authorize clock "bob" card_claim one_workflow [] both_workers).0.allowed ≡ true
unfolding auth_runs
scope_of_assignment_ignored = refl

-- The participant in the header asks, not the one in the argument.
abbrev by_header : Result (Option String) × Repository
by_header =
    authorize_request clock card_claim inner in_workflow true (some "ann") (some "bob") granted

authorize_request_passes_example : (by_header.0 ≡ ok (some "ann")) ↔ (
    ((p : Participant) × (get_participant "ann" granted ≡ some p) × (p.status ≡ active))
    × ((g : PermissionGrant) × Entitles 5 "ann" card_claim inner in_workflow granted g))
authorize_request_passes_example =
    authorize_request_passes clock card_claim inner in_workflow (some "ann") (some "bob") "ann"
      granted refl

header_asks : by_header.0 ≡ ok (some "ann")
unfolding auth_runs
header_asks = refl
