-- ===== src/Runtime/Submission.antt =====
-- What has passed when `submit_artifact` of runtime/memory.py begins to write.
use ghostmesh.Prelude.{
  ℕ, String, ◌≡◌, subst, ap, ◌∙◌, Bool, true, false, not, List, arith, string_eq, eq_of_beq,
}
use ghostmesh.Python.{Conversions}
use ghostmesh.Result.{ok, >>=-eq-ok, raise_if-eq-ok, ok_injective}
use ghostmesh.Domain.Panel.{PatchPanel, output}
use ghostmesh.Domain.Work.{ArtifactReference}
use ghostmesh.Runtime.Service.{
  resolve_pipe_bucket, ensure_active_lease, ensure_artifact_refs_belong_to_card,
  ensure_artifacts_accepted,
}
use ghostmesh.Runtime.State.{Runtime, Env, get_card, get_lease, get_patch_panel_for_card}
use ghostmesh.Runtime.Leases.{Submission, check_submit}

pub record IsAccepted (py : Conversions) (env : Env) (id : ℕ) (pipe : String)
    (refs : List ArtifactReference) (rt : Runtime) (s : Submission) : Type 0 where
  pub panel : PatchPanel
  pub found : get_lease id rt ≡ ok s.lease
  pub active : ensure_active_lease env.now s.lease ≡ ok tt
  pub of_card : get_card s.lease.card_id rt ≡ ok s.card
  pub of_panel : get_patch_panel_for_card s.card rt ≡ ok panel
  pub target : resolve_pipe_bucket panel pipe output ≡ ok (s.destination, s.lease.node_id)
  pub belong : ensure_artifact_refs_belong_to_card s.card.id refs ≡ ok tt
  pub accepted : ensure_artifacts_accepted py panel s.destination refs ≡ ok tt

unnegate : (b : Bool) → not b ≡ false → b ≡ true
unnegate b h = ground arith

-- The checks of a submission, taken apart.
pub check_submit_lem :
    (py : Conversions) (env : Env) (id : ℕ) (pipe : String) (refs : List ArtifactReference)
    (rt : Runtime) (s : Submission)
    → check_submit py env id pipe refs rt ≡ ok s
    → IsAccepted py env id pipe refs rt s
unfolding check_submit
check_submit_lem py env id pipe refs rt s h =
    let (l, e1, h1) = >>=-eq-ok (get_lease id rt) _ h in
    let (_, e2, h2) = >>=-eq-ok (ensure_active_lease env.now l) _ h1 in
    let (c, e3, h3) = >>=-eq-ok (get_card l.card_id rt) _ h2 in
    let (panel, e4, h4) = >>=-eq-ok (get_patch_panel_for_card c rt) _ h3 in
    let (target, e5, h5) = >>=-eq-ok (resolve_pipe_bucket panel pipe output) _ h4 in
    let (_, e6, h6) = >>=-eq-ok (ensure_artifact_refs_belong_to_card c.id refs) _ h5 in
    let (_, e7, h7) = >>=-eq-ok (ensure_artifacts_accepted py panel target.0 refs) _ h6 in
    let (_, e8, h8) = >>=-eq-ok _ _ h7 in
    let same : target.1 ≡ l.node_id = eq_of_beq _ _ (unnegate _ (raise_if-eq-ok _ _ e8)) in
    subst (IsAccepted py env id pipe refs rt) (ok_injective _ s h8) (record {
      panel = panel;
      found = e1;
      active = e2;
      of_card = e3;
      of_panel = e4;
      target = e5 ∙ ap (λ (n : String). ok (target.0, n)) same;
      belong = e6;
      accepted = e7;
    })
