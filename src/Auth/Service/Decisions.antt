-- ===== src/Auth/Service/Decisions.antt =====
-- What `AuthorizationService.authorize` of auth/service.py decides.
use ghostmesh.Prelude.{
  ℕ, String, ◌≡◌, ◌↔◌, ◌⊎◌, refl, subst, ap, ◌∙◌, Bool, true, ◌&&◌, ◌||◌, Option, none, some, List,
  [], ◌∷◌, ◌++◌, map, keep, In, inl, inr, In-keep, In-map, of_In-map, In-mem, arith, ◌==◌,
  string_eq, option_eq, option_beq_iff,
}
use ghostmesh.Python.{Payload}
use ghostmesh.Domain.Authority.{
  Participant, ParticipantStatus, active, PermissionName, PermissionGrant, RoleAssignment, Scope,
  from_decision, permission_eq, is_active_assignment, is_active_grant, suspended, archived,
}
use ghostmesh.Auth.Scopes.{scope_matches}
use ghostmesh.Auth.Repository.{Repository, get_participant, list_permission_grants, role_ids, held}
use ghostmesh.Auth.Service.{
  AuthEnv, matched_grants, by_grants, by_status, by_participant, authorize,
}

-- The grant is given to the participant, or to a role that an assignment in force gives them.
pub data IsGivenTo (now : ℕ) (id : String) (repo : Repository) (g : PermissionGrant) : Type 0 where
  directly : g.participant_id ≡ some id → IsGivenTo now id repo g
  by_role :
      (a : RoleAssignment)
      → In a repo.role_assignments
      → a.participant_id ≡ id
      → is_active_assignment now a ≡ true
      → g.role_id ≡ some a.role_id
      → IsGivenTo now id repo g

-- A grant in force that gives the permission in a scope that reaches the target.
pub record Entitles (now : ℕ) (id : String) (permission : PermissionName) (scope : Scope)
    (context : Payload) (repo : Repository) (g : PermissionGrant) : Type 0 where
  pub listed : In g repo.permission_grants
  pub in_force : is_active_grant now g ≡ true
  pub given : IsGivenTo now id repo g
  pub same : g.permission ≡ permission
  pub reaches : scope_matches g.scope scope context ≡ true

abbrev status_of : Option Participant → ParticipantStatus
status_of none = suspended
status_of (some p) = p.status

pub both : (a b : Bool) → (a && b) ≡ true → (a ≡ true) × (b ≡ true)
both a b h = ground arith

pub one_of : (a b : Bool) → (a || b) ≡ true → (a ≡ true) ⊎ (b ≡ true)
one_of a b h = ground arith

module _ (now : ℕ) (id : String) (repo : Repository) where
  pub held-IsGivenTo :
      (g : PermissionGrant) (role : Option String)
      → g.role_id ≡ role
      → held role (role_ids now id repo) ≡ true
      → IsGivenTo now id repo g
  held-IsGivenTo g none e h = absurd (cc)
  held-IsGivenTo g (some r) e h =
      unfold role_ids in
      let test = λ (a : RoleAssignment). a.participant_id == id && is_active_assignment now a in
      let (a, m, same) =
        of_In-map (λ (a : RoleAssignment). a.role_id) (keep test repo.role_assignments) r
          ((In-mem r (map (λ a. a.role_id) (keep test repo.role_assignments))).0 h) in
      let (there, passes) = (In-keep test repo.role_assignments a).0 m in
      let (owner, live) = both _ _ passes in
      by_role a there ((string_eq.beq_iff a.participant_id id).0 owner) live
        (subst (λ x. g.role_id ≡ some x) same e)

  pub owned-IsGivenTo :
      (g : PermissionGrant)
      → (g.participant_id == some id || held g.role_id (role_ids now id repo)) ≡ true
      → IsGivenTo now id repo g
  owned-IsGivenTo g owned = elim (one_of _ _ owned) [
    | inl own ↦ directly ((option_beq_iff {A = String} g.participant_id (some id)).0 own)
    | inr role ↦ held-IsGivenTo g g.role_id refl role
  ]

  IsGivenTo-held :
      (g : PermissionGrant)
      → IsGivenTo now id repo g
      → (g.participant_id == some id || held g.role_id (role_ids now id repo)) ≡ true
  IsGivenTo-held g (directly e) =
      ground (arith, option_beq_iff {A = String} g.participant_id (some id))
  IsGivenTo-held g (by_role a m owner live e) =
      unfold role_ids in
      let test = λ (x : RoleAssignment). x.participant_id == id && is_active_assignment now x in
      let kept : In a (keep test repo.role_assignments) =
        (In-keep test repo.role_assignments a).1
          (m, ground (arith, string_eq.beq_iff a.participant_id id)) in
      let there =
        (In-mem a.role_id (map (λ x. x.role_id) (keep test repo.role_assignments))).1
          (In-map (λ (x : RoleAssignment). x.role_id) (keep test repo.role_assignments) a kept) in
      rw e (ground (arith, there))

module _ (env : AuthEnv) (id : String) (permission : PermissionName) (scope : Scope)
    (context : Payload) (repo : Repository) where
  pub matched-Entitles :
      (g : PermissionGrant)
      → In g (matched_grants env id permission scope context repo)
      → Entitles env.now id permission scope context repo g
  unfolding matched_grants list_permission_grants
  matched-Entitles g m =
      let (listed, fits) = (In-keep _ _ g).0 m in
      let (there, valid) = (In-keep _ repo.permission_grants g).0 listed in
      let (live, owned) = both _ _ valid in
      let (same, reach) = both _ _ fits in
      record {
        listed = there;
        in_force = live;
        given = owned-IsGivenTo env.now id repo g owned;
        same = (permission_eq.beq_iff g.permission permission).0 same;
        reaches = reach;
      }

  Entitles-matched_grants :
      (g : PermissionGrant)
      → Entitles env.now id permission scope context repo g
      → In g (matched_grants env id permission scope context repo)
  unfolding matched_grants list_permission_grants
  Entitles-matched_grants g e =
      let owned = IsGivenTo-held env.now id repo g e.given in
      let listed =
        (In-keep
            (λ (x : PermissionGrant).
              is_active_grant env.now x
              && (x.participant_id == some id || held x.role_id (role_ids env.now id repo)))
            repo.permission_grants g).1
          (e.listed, ground (arith, e.in_force, owned)) in
      (In-keep
          (λ (x : PermissionGrant).
            x.permission == permission && scope_matches x.scope scope context)
          _ g).1
        (listed, ground (arith, e.reaches, permission_eq.beq_iff g.permission permission, e.same))

  by_grants_allowed :
      (gs : List PermissionGrant)
      → ((by_grants env id permission scope context gs).allowed ≡ true)
        ↔ ((g : PermissionGrant) × In g gs)
  by_grants_allowed [] = ((λ h. absurd (cc)), (λ (g, m). absurd m))
  by_grants_allowed (g ∷ gs) = ((λ h. (g, inl refl)), (λ h. refl))

  by_status_allowed :
      (s : ParticipantStatus) (gs : List PermissionGrant)
      → ((by_status env id permission scope context s gs).allowed ≡ true)
        ↔ ((s ≡ active) × ((g : PermissionGrant) × In g gs))
  by_status_allowed active gs =
      ((λ h. (refl, (by_grants_allowed gs).0 h)), (λ h. (by_grants_allowed gs).1 h.1))
  by_status_allowed suspended gs = ((λ h. absurd (cc)), (λ h. absurd (let e = h.0 in cc)))
  by_status_allowed archived gs = ((λ h. absurd (cc)), (λ h. absurd (let e = h.0 in cc)))

  by_participant_allowed :
      (o : Option Participant) (gs : List PermissionGrant)
      → ((by_participant env id permission scope context o gs).allowed ≡ true) ↔ (
          ((p : Participant) × (o ≡ some p) × (p.status ≡ active))
          × ((g : PermissionGrant) × In g gs))
  by_participant_allowed none gs = ((λ h. absurd (cc)), (λ h. absurd (let e = h.0.1 in cc)))
  by_participant_allowed (some p) gs = (
    (λ h. let r = (by_status_allowed p.status gs).0 h in ((p, refl, r.0), r.1)),
    (λ ((q, e, s), found).
        (by_status_allowed p.status gs).1
          (ap (λ (o : Option Participant). status_of o) e ∙ s, found)),
  )

  -- The decision allows exactly where the participant is registered and active, and some grant in
  -- force gives them the permission, directly or by a role assignment in force, in a scope that
  -- reaches the target.
  pub authorize_allowed : ((authorize env id permission scope context repo).0.allowed ≡ true) ↔ (
      ((p : Participant) × (get_participant id repo ≡ some p) × (p.status ≡ active))
      × ((g : PermissionGrant) × Entitles env.now id permission scope context repo g))
  unfolding authorize
  authorize_allowed =
      let matched = matched_grants env id permission scope context repo in
      let spec = by_participant_allowed (get_participant id repo) matched in
      (
        (λ h. let (p, (g, m)) = spec.0 h in (p, (g, matched-Entitles g m))),
        (λ (p, (g, e)). spec.1 (p, (g, Entitles-matched_grants g e))),
      )

  -- Every call, allowed or not, appends one audit event that carries the decision, and changes no
  -- participant, assignment or grant.
  pub authorize_audited :
      let (d, repo') = authorize env id permission scope context repo in
      (repo'.audit_events ≡ repo.audit_events ++ from_decision env.event_id env.recorded_at d ∷ [])
      × (repo'.participants ≡ repo.participants)
      × (repo'.role_assignments ≡ repo.role_assignments)
      × (repo'.permission_grants ≡ repo.permission_grants)
  unfolding authorize
  authorize_audited = (refl, refl, refl, refl)
