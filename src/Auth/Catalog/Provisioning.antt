-- ===== src/Auth/Catalog/Provisioning.antt =====
-- What `ensure_builtin_role_assignment` of bootstrap.py gives the participant.
use ghostmesh.Prelude.{
  ℕ, String, ◌≡◌, ◌⊎◌, refl, sym, subst, ap, ◌∙◌, true, ◌&&◌, Option, none, some, List, [], ◌∷◌,
  first, In, inl, inr, In-keep, In-map, In-append, first-In, witness_of_any, arith, lookup, ◌==◌,
  string_eq, option_eq, Bool-cases, if_induction, beq_self, if◌then◌else◌,
}
use ghostmesh.Python.{Payload}
use ghostmesh.Domain.Authority.{
  Participant, active, PermissionName, PermissionGrant, RoleAssignment, RoleName, Scope,
  permission_eq, scope_eq, is_active_assignment, is_active_grant, scope_type_eq,
}
use ghostmesh.Auth.Scopes.{scope_matches}
use ghostmesh.Auth.Repository.{
  Repository, get_participant, list_permission_grants, list_role_assignments, add_role_assignment,
  add_permission_grant,
}
use ghostmesh.Auth.Service.{AuthEnv, authorize}
use ghostmesh.Auth.Service.Decisions.{
  IsGivenTo, directly, by_role, Entitles, authorize_allowed, both, owned-IsGivenTo,
}
use ghostmesh.Auth.Catalog.{
  GrantEnv, template_id, permissions_of, new_assignment, new_grant, template_grants,
  has_matching_grant, add_missing, found_or_new, ensure_builtin_role_assignment,
}

scope_matches_self : (s : Scope) (context : Payload) → scope_matches s s context ≡ true
unfolding scope_matches
scope_matches_self s context = ground (arith, beq_self s.type, beq_self {A = Option String} s.id)

module _ (env : GrantEnv) (id : String) (name : RoleName) (scope : Scope)
    (assigned_by : Option String) where
  abbrev pub after : List PermissionGrant → List PermissionGrant → Repository → Repository
  after in_force gs repo = add_missing env id name scope assigned_by in_force gs repo

  -- Nothing but new grants sets the second repository apart.
  pub record Grown (repo repo' : Repository) : Type 0 where
    pub same_participants : repo'.participants ≡ repo.participants
    pub same_assignments : repo'.role_assignments ≡ repo.role_assignments
    pub grants : (g : PermissionGrant) → In g repo.permission_grants → In g repo'.permission_grants

  Grown-by_one :
      (x : PermissionGrant) (repo repo' : Repository)
      → Grown (add_permission_grant x repo) repo'
      → Grown repo repo'
  unfolding add_permission_grant
  Grown-by_one x repo repo' s = record {
    same_participants = s.same_participants;
    same_assignments = s.same_assignments;
    grants = λ g m. s.grants g ((In-append repo.permission_grants (x ∷ []) g).1 (inl m));
  }

  pub add_missing-Grown :
      (in_force gs : List PermissionGrant) (repo : Repository) → Grown repo (after in_force gs repo)
  unfolding add_missing
  add_missing-Grown in_force [] repo = record {
    same_participants = refl;
    same_assignments = refl;
    grants = λ g m. m;
  }
  add_missing-Grown in_force (x ∷ gs) repo =
      if_induction (λ r. Grown repo (after in_force gs r))
        (has_matching_grant env id name scope assigned_by in_force x) repo
        (add_permission_grant x repo) (add_missing-Grown in_force gs repo)
        (Grown-by_one x repo (after in_force gs (add_permission_grant x repo))
          (add_missing-Grown in_force gs (add_permission_grant x repo)))

  -- A template's grant is matched by one in force, or is there afterwards.
  add_missing_adds :
      (in_force gs : List PermissionGrant) (repo : Repository) (g : PermissionGrant)
      → In g gs
      → (has_matching_grant env id name scope assigned_by in_force g ≡ true)
        ⊎ In g (after in_force gs repo).permission_grants
  unfolding add_missing add_permission_grant
  add_missing_adds in_force [] repo g m = absurd m
  add_missing_adds in_force (x ∷ gs) repo g (inl e) =
      let there : In g (add_permission_grant x repo).permission_grants =
        (In-append repo.permission_grants (x ∷ []) g).1 (inr (inl e)) in
      elim (Bool-cases (has_matching_grant env id name scope assigned_by in_force x)) [
        | inl t ↦ inl (
            subst (λ y. has_matching_grant env id name scope assigned_by in_force y ≡ true) (sym e)
              t)
        | inr f ↦ inr (
            subst
              (λ b.
                In g
                  (after in_force gs
                    (if b then repo else add_permission_grant x repo)).permission_grants)
              (sym f)
              ((add_missing-Grown in_force gs (add_permission_grant x repo)).grants g there))
      ]
  add_missing_adds in_force (x ∷ gs) repo g (inr m) =
      add_missing_adds in_force gs
        (if has_matching_grant env id name scope assigned_by in_force x
          then repo
          else add_permission_grant x repo)
        g m

  -- After the search for an assignment there is one in force that gives the role.
  record Holds (repo repo' : Repository) : Type 0 where
    pub assignment : RoleAssignment
    pub there : In assignment repo'.role_assignments
    pub owner : assignment.participant_id ≡ id
    pub live : is_active_assignment env.now assignment ≡ true
    pub role : assignment.role_id ≡ template_id name
    pub same_participants : repo'.participants ≡ repo.participants

  found_or_new-Holds :
      (repo : Repository) (existing : Option RoleAssignment)
      → first
          (λ a. a.role_id == template_id name && a.scope == scope)
          (list_role_assignments env.now id repo)
        ≡ existing
      → Holds repo (found_or_new env id name scope assigned_by existing repo).1
  unfolding list_role_assignments add_role_assignment is_active_assignment
  found_or_new-Holds repo none h = record {
    assignment = new_assignment env id name scope assigned_by;
    there =
        (In-append repo.role_assignments (new_assignment env id name scope assigned_by ∷ [])
            (new_assignment env id name scope assigned_by)).1
          (inr (inl refl));
    owner = refl;
    live = refl;
    role = refl;
    same_participants = refl;
  }
  found_or_new-Holds repo (some a) h =
      let (listed, fits) = first-In _ _ a h in
      let (there, valid) = (In-keep _ repo.role_assignments a).0 listed in
      let (owner, live) = both _ _ valid in
      record {
        assignment = a;
        there = there;
        owner = (string_eq.beq_iff a.participant_id id).0 owner;
        live = live;
        role = (string_eq.beq_iff a.role_id (template_id name)).0 (both _ _ fits).0;
        same_participants = refl;
      }

  IsGivenTo-grown :
      (repo repo' : Repository) (g : PermissionGrant)
      → repo'.role_assignments ≡ repo.role_assignments
      → IsGivenTo env.now id repo g
      → IsGivenTo env.now id repo' g
  IsGivenTo-grown repo repo' g same (directly e) = directly e
  IsGivenTo-grown repo repo' g same (by_role a m owner live e) =
      by_role a (subst (In a) (sym same) m) owner live e

  module _ (permission : PermissionName) (context : Payload) (auth_now : ℕ)
      (same : auth_now ≡ env.now) where
    -- A grant that was in force before the loop and matches the template's.
    matching-Entitles :
        (repo repo' : Repository)
        → Grown repo repo'
        → has_matching_grant env id name scope assigned_by
            (list_permission_grants env.now id repo)
            (new_grant env id name scope assigned_by permission)
          ≡ true
        → (g : PermissionGrant) × Entitles auth_now id permission scope context repo' g
    unfolding has_matching_grant list_permission_grants
    matching-Entitles repo repo' grown h =
        let (g, listed, fits) = witness_of_any _ (list_permission_grants env.now id repo) h in
        let (there, valid) = (In-keep _ repo.permission_grants g).0 listed in
        let (live, owned) = both _ _ valid in
        let (front, same_scope) = both _ _ fits in
        let s = (scope_eq.beq_iff g.scope scope).0 same_scope in
        (
          g,
          record {
            listed = grown.grants g there;
            in_force = rw same live;
            given = rw same (
                IsGivenTo-grown repo repo' g grown.same_assignments
                  (owned-IsGivenTo env.now id repo g owned));
            same = (permission_eq.beq_iff g.permission permission).0 (both _ _ front).1;
            reaches =
                subst (λ x. scope_matches x scope context ≡ true) (sym s)
                  (scope_matches_self scope context);
          },
        )

    -- The template's own grant, once it is there.
    new-Entitles :
        (repo repo' repo'' : Repository)
        → Holds repo repo'
        → Grown repo' repo''
        → In (new_grant env id name scope assigned_by permission) repo''.permission_grants
        → Entitles auth_now id permission scope context repo''
            (new_grant env id name scope assigned_by permission)
    unfolding is_active_grant
    new-Entitles repo repo' repo'' h grown m = record {
      listed = m;
      in_force = refl;
      given =
          by_role h.assignment (subst (In h.assignment) (sym grown.same_assignments) h.there)
            h.owner (rw same h.live) (ap some (sym h.role));
      same = refl;
      reaches = scope_matches_self scope context;
    }

  module _ (permission : PermissionName) (context : Payload) where
    -- Once a built-in role is ensured for a participant who is registered and active, every
    -- permission of the role's template is allowed to them at that instant in the role's scope.
    pub ensure_builtin_role_assignment-authorize :
        (repo : Repository) (auth : AuthEnv) (p : Participant)
        → auth.now ≡ env.now
        → get_participant id repo ≡ some p
        → p.status ≡ active
        → In permission (permissions_of name)
        → (authorize auth id permission scope context
            (ensure_builtin_role_assignment env id name scope assigned_by repo).1).0.allowed
          ≡ true
    unfolding ensure_builtin_role_assignment template_grants get_participant
    ensure_builtin_role_assignment-authorize repo auth p now registered status listed =
        let existing =
          first (λ (a : RoleAssignment). a.role_id == template_id name && a.scope == scope)
            (list_role_assignments env.now id repo) in
        let repo' = (found_or_new env id name scope assigned_by existing repo).1 in
        let holds : Holds repo repo' = found_or_new-Holds repo existing refl in
        let in_force = list_permission_grants env.now id repo' in
        let gs = template_grants env id name scope assigned_by in
        let grown = add_missing-Grown in_force gs repo' in
        let there = grown.same_participants ∙ holds.same_participants in
        let c = new_grant env id name scope assigned_by permission in
        let m : In c gs =
          In-map (new_grant env id name scope assigned_by) (permissions_of name) permission
            listed in
        let entitled : (g : PermissionGrant) × Entitles auth.now id permission scope context
              (after in_force gs repo') g =
          elim (add_missing_adds in_force gs repo' c m) [
            | inl t ↦
                matching-Entitles permission context auth.now now repo' (after in_force gs repo')
                  grown t
            | inr new ↦ (
              c,
              new-Entitles permission context auth.now now repo repo' (after in_force gs repo')
                  holds grown new,
            )
          ] in
        (authorize_allowed auth id permission scope context (after in_force gs repo')).1
          ((p, subst (λ d. lookup id d ≡ some p) (sym there) registered, status), entitled)
