-- ===== src/Runtime/Versions.antt =====
-- runtime/memory.py: `_get_patch_panel_for_card` takes the panel's id out of the card's
-- `workflow_version`, which `create_card` made of the panel's id and version.
use ghostmesh.Prelude.{
  ◌≡◌, ap, ◌∙◌, none, has_colon, before_last_colon, before_last_colon-join, false, string_eq, arith,
  inl, inr,
}
use ghostmesh.Python.{Payload}
use ghostmesh.Result.{ok, Result-cases}
use ghostmesh.Domain.Panel.{PatchPanel, workflow_version_id}
use ghostmesh.Domain.Work.{Card}
use ghostmesh.Runtime.Service.{resolve_initial_bucket}
use ghostmesh.Runtime.State.{
  Runtime, Env, keyed, commit, get_idempotent, store_idempotent, get_patch_panel,
  get_patch_panel_for_card, record_in_log,
}
use ghostmesh.Runtime.Cards.{create_card, check_create, write_create}

panel_of_version :
    (panel : PatchPanel) (c : Card) (rt : Runtime)
    → has_colon panel.version ≡ false
    → c.workflow_version ≡ workflow_version_id panel
    → get_patch_panel_for_card c rt ≡ get_patch_panel panel.id rt
unfolding get_patch_panel_for_card workflow_version_id
panel_of_version panel c rt h e =
    ap (λ s. get_patch_panel s rt)
      (ap before_last_colon e ∙ before_last_colon-join panel.id panel.version h)

-- Where a panel is registered under its own id and its version has no colon, a card that is created
-- from it, without a key, finds that panel again, in that runtime and in every later one that still
-- has the panels of that one.
pub create_card-get_patch_panel_for_card :
    (env : Env) (payload metadata : Payload) (panel : PatchPanel) (rt rt' later : Runtime)
    (c : Card)
    → get_patch_panel panel.id rt ≡ ok panel
    → has_colon panel.version ≡ false
    → create_card env panel.id payload metadata none rt ≡ (ok c, rt')
    → later.patch_panels ≡ rt'.patch_panels
    → get_patch_panel_for_card c later ≡ ok panel
unfolding create_card keyed get_idempotent commit store_idempotent check_create write_create
    record_in_log
create_card-get_patch_panel_for_card env payload metadata panel rt rt' later c found plain made
      kept =
    elim (Result-cases (resolve_initial_bucket panel)) [
      | inr (e, bad) ↦ absurd (ground (arith, found, bad))
      | inl (bucket, good) ↦
          let version : c.workflow_version ≡ workflow_version_id panel =
            ground (arith, found, good, made) in
          let panels : rt'.patch_panels ≡ rt.patch_panels = ground (arith, found, good, made) in
          panel_of_version panel c later plain version
          ∙ unfold get_patch_panel in ground (arith, found, panels, kept)
    ]
