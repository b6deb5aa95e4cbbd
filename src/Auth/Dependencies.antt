-- ===== src/Auth/Dependencies.antt =====
-- auth/dependencies.py: `authorize_request`, by which the HTTP front end asks before it acts. An
-- `HTTPException` is an error.
use ghostmesh.Prelude.{
  String, ◌≡◌, ◌↔◌, refl, ap, sym, ◌∙◌, Bool, true, false, Option, none, some, is_text,
  if◌then◌else◌,
}
use ghostmesh.Python.{Payload}
use ghostmesh.Errors.{participant_not_given, forbidden}
use ghostmesh.Result.{Result, ok, err}
use ghostmesh.Exec.{Exec, raise}
use ghostmesh.Domain.Authority.{Participant, active, PermissionName, Scope, AuthorizationDecision}
use ghostmesh.Auth.Repository.{Repository, get_participant}
use ghostmesh.Auth.Service.{AuthEnv, authorize}
use ghostmesh.Auth.Service.Decisions.{Entitles, authorize_allowed}

abbrev or_text : Option String → Option String → Option String
or_text none other = other
or_text (some s) other = if is_text s then some s else other

abbrev full_text : Option String → Option String
full_text none = none
full_text (some s) = if is_text s then some s else none

-- Who asks: the header, or else the argument; no one, where that is empty.
abbrev pub resolved : Option String → Option String → Option String
resolved header participant_id = full_text (or_text header participant_id)

abbrev answer_if : Bool → String → Repository → Result (Option String) × Repository
answer_if true id repo = (ok (some id), repo)
answer_if false id repo = (err forbidden, repo)

abbrev answered : String → AuthorizationDecision × Repository → Result (Option String) × Repository
answered id (d, repo) = answer_if d.allowed id repo

passes_if :
    (b : Bool) (id : String) (repo : Repository)
    → ((answer_if b id repo).0 ≡ ok (some id)) ↔ (b ≡ true)
passes_if true id repo = ((λ h. refl), (λ h. refl))
passes_if false id repo = ((λ h. absurd (cc)), (λ h. absurd (cc)))

module _ (env : AuthEnv) (permission : PermissionName) (scope : Scope) (context : Payload) where
  abbrev pub ask : Option String → Exec Repository (Option String)
  ask none = raise participant_not_given
  ask (some id) = λ repo. answered id (authorize env id permission scope context repo)

  unfoldable pub authorize_request :
      (enabled : Bool) (header participant_id : Option String) → Exec Repository (Option String)
  unfolding authorize
  authorize_request true header participant_id = ask (resolved header participant_id)
  authorize_request false header participant_id = λ repo. (ok participant_id, repo)

  -- Where authorization is enabled and the request names someone, by the header or else by the
  -- argument, the request passes exactly where that participant is registered and active and some
  -- grant in force gives them the permission in a scope that reaches the target.
  pub authorize_request_passes :
      (header participant_id : Option String) (id : String) (repo : Repository)
      → resolved header participant_id ≡ some id
      → ((authorize_request true header participant_id repo).0 ≡ ok (some id)) ↔ (
          ((p : Participant) × (get_participant id repo ≡ some p) × (p.status ≡ active))
          × ((g : _) × Entitles env.now id permission scope context repo g))
  unfolding authorize_request
  authorize_request_passes header participant_id id repo who =
      let allowed = authorize_allowed env id permission scope context repo in
      let outcome = authorize env id permission scope context repo in
      let passes = passes_if outcome.0.allowed id outcome.1 in
      let same = ap (λ r. (ask r repo).0) who in
      ((λ h. allowed.0 (passes.0 (sym same ∙ h))), (λ h. same ∙ passes.1 (allowed.1 h)))
