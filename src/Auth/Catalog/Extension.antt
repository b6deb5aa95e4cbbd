-- ===== src/Auth/Catalog/Extension.antt =====
-- bootstrap.py: `ensure_builtin_role_assignment` only adds, and what it gave before stays given.
use ghostmesh.Prelude.{
  ℕ, String, ◌≡◌, refl, sym, subst, ◌∙◌, Option, none, some, In, In-append, inl, first, ◌==◌, ◌&&◌,
  string_eq, option_eq,
}
use ghostmesh.Python.{Payload}
use ghostmesh.Domain.Authority.{
  PermissionName, PermissionGrant, RoleAssignment, RoleName, Scope, scope_eq,
}
use ghostmesh.Auth.Repository.{
  Repository, list_role_assignments, list_permission_grants, add_role_assignment,
}
use ghostmesh.Auth.Service.Decisions.{IsGivenTo, directly, by_role, Entitles}
use ghostmesh.Auth.Catalog.{
  GrantEnv, template_id, template_grants, found_or_new, ensure_builtin_role_assignment,
}
use ghostmesh.Auth.Catalog.Provisioning.{add_missing-Grown}

-- The second repository has all that the first one has, and the same participants.
pub record Extends (repo repo' : Repository) : Type 0 where
  pub participants : repo'.participants ≡ repo.participants
  pub assignments : (a : RoleAssignment) → In a repo.role_assignments → In a repo'.role_assignments
  pub grants : (g : PermissionGrant) → In g repo.permission_grants → In g repo'.permission_grants

pub Extends-refl : (repo : Repository) → Extends repo repo
Extends-refl repo = record { participants = refl; assignments = λ a m. m; grants = λ g m. m }

pub Extends-trans : (a b c : Repository) → Extends a b → Extends b c → Extends a c
Extends-trans a b c h k = record {
  participants = k.participants ∙ h.participants;
  assignments = λ x m. k.assignments x (h.assignments x m);
  grants = λ x m. k.grants x (h.grants x m);
}

module _ (now : ℕ) (id : String) (repo repo' : Repository) (h : Extends repo repo') where
  IsGivenTo-Extends : (g : PermissionGrant) → IsGivenTo now id repo g → IsGivenTo now id repo' g
  IsGivenTo-Extends g (directly e) = directly e
  IsGivenTo-Extends g (by_role a m owner live e) = by_role a (h.assignments a m) owner live e

  pub Entitles-Extends :
      (permission : PermissionName) (scope : Scope) (context : Payload) (g : PermissionGrant)
      → Entitles now id permission scope context repo g
      → Entitles now id permission scope context repo' g
  Entitles-Extends permission scope context g e = record {
    listed = h.grants g e.listed;
    in_force = e.in_force;
    given = IsGivenTo-Extends g e.given;
    same = e.same;
    reaches = e.reaches;
  }

module _ (env : GrantEnv) (id : String) (name : RoleName) (scope : Scope)
    (assigned_by : Option String) where
  found_or_new-Extends :
      (repo : Repository) (existing : Option RoleAssignment)
      → Extends repo (found_or_new env id name scope assigned_by existing repo).1
  unfolding add_role_assignment
  found_or_new-Extends repo (some a) = Extends-refl repo
  found_or_new-Extends repo none = record {
    participants = refl;
    assignments = λ a m. (In-append repo.role_assignments _ a).1 (inl m);
    grants = λ g m. m;
  }

  pub ensure-Extends :
      (repo : Repository)
      → Extends repo (ensure_builtin_role_assignment env id name scope assigned_by repo).1
  unfolding ensure_builtin_role_assignment
  ensure-Extends repo =
      let existing =
        first (λ (a : RoleAssignment). a.role_id == template_id name && a.scope == scope)
          (list_role_assignments env.now id repo) in
      let repo' = (found_or_new env id name scope assigned_by existing repo).1 in
      let in_force = list_permission_grants env.now id repo' in
      let gs = template_grants env id name scope assigned_by in
      let grown = add_missing-Grown env id name scope assigned_by in_force gs repo' in
      Extends-trans repo repo' _ (found_or_new-Extends repo existing) (record {
        participants = grown.same_participants;
        assignments = λ a m. subst (λ l. In a l) (sym grown.same_assignments) m;
        grants = grown.grants;
      })
