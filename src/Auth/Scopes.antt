-- ===== src/Auth/Scopes.antt =====
-- auth/scopes.py: which grants reach which targets.
use ghostmesh.Prelude.{
  String, Bool, true, false, ◌&&◌, Option, some, ◌==◌, string_eq, option_eq, if◌then◌else◌, lookup,
}
use ghostmesh.Python.{Json, str, Payload}
use ghostmesh.Domain.Authority.{
  Scope, workflow, patch_panel, version, is_global, scope_eq, scope_type_eq,
}

-- `grant_scope.id is not None and grant_scope.id == context.get(key)`
abbrev pub id_in_context : Option String → Option Json → Bool
id_in_context (some id) (some (str s)) = id == s
id_in_context _ _ = false

-- The two branches under PATCH_PANEL return the same test.
unfoldable pub scope_matches : Scope → Scope → Payload → Bool
scope_matches grant target context =
    if is_global grant.type
    then true
    else if grant.type == target.type && grant.id == target.id
    then true
    else if grant.type == workflow
    then id_in_context grant.id (lookup "workflow_id" context)
    else if grant.type == patch_panel
    then (if target.type == version
        then id_in_context grant.id (lookup "patch_panel_id" context)
        else id_in_context grant.id (lookup "patch_panel_id" context))
    else false
