-- ===== src/Nodes/Judging.antt =====
-- nodes/executor.py: what the topology handler's answer to a bare request means.
use ghostmesh.Prelude.{
  String, ◌≡◌, ◌⊎◌, refl, subst, ◌∙◌, inl, inr, Bool, true, false, none, some, List, lookup,
  lookup-update_absent, string_eq,
}
use ghostmesh.Python.{Conversions}
use ghostmesh.Errors.{panel_invalid, PanelError}
use ghostmesh.Result.{Result, ok, err, >>=-eq-ok, ok_injective}
use ghostmesh.Domain.Panel.{NodeDefinition, PatchPanel}
use ghostmesh.Domain.Work.{Card}
use ghostmesh.PanelValidator.{GraphLibrary, GraphLaws, GraphValidationReport, validate}
use ghostmesh.PanelValidator.Meaning.{IsWellFormed}
use ghostmesh.PanelValidator.Soundness.{validate-IsWellFormed}
use ghostmesh.Runtime.State.{Runtime, get_card}
use ghostmesh.Nodes.{Decoded, decoded, refused, Models, configured_exit}
use ghostmesh.Nodes.Handlers.{
  ValidatorExecutionInput, Judgement, passes, fails, judge, topology_answer, judged_request,
  report_on, judge_decoded, judge,
}

-- The reason for which a candidate fails: it does not read, or the validator refuses it.
abbrev pub IsRefused : GraphLibrary → Models → Card → Type 0
IsRefused nx models card =
    ((message : String) × (models.read_panel (lookup "candidate_definition" card.payload)
        ≡ refused message))
    ⊎ ((candidate : PatchPanel) × (es : List PanelError) × (models.read_panel
            (lookup "candidate_definition" card.payload)
          ≡ decoded candidate)
        × (validate nx candidate ≡ err (panel_invalid es)))

-- What an answer of the handler means, and the exit that goes with it.
abbrev pub IsJudged : GraphLibrary → Models → NodeDefinition → Card → Bool → String → Type 0
IsJudged nx models node card true exit =
    (candidate : PatchPanel) × (models.read_panel (lookup "candidate_definition" card.payload)
      ≡ decoded candidate)
    × IsWellFormed candidate
    × (configured_exit node "valid_exit" ≡ ok exit)
IsJudged nx models node card false exit =
    IsRefused nx models card × (configured_exit node "invalid_exit" ≡ ok exit)

-- The handler's answer to a request.
pub record IsAnswered (nx : GraphLibrary) (models : Models) (node : NodeDefinition)
    (request answer : ValidatorExecutionInput) (rt : Runtime) : Type 0 where
  pub card : Card
  pub of_card : get_card request.card_id rt ≡ ok card
  pub verdict : Bool
  pub exit : String
  pub means : IsJudged nx models node card verdict exit
  pub with_verdict : answer.accepted ≡ some verdict
  pub with_exit : answer.selected_exit ≡ some exit
  pub same_card : answer.card_id ≡ request.card_id
  pub same_key : answer.idempotency_key ≡ request.idempotency_key
  pub unsaid : lookup "accepted" request.payload ≡ none → lookup "accepted" answer.payload ≡ none

-- What a judgement says of the card.
abbrev IsGrounds : GraphLibrary → Models → Card → Judgement → Type 0
IsGrounds nx models card (passes candidate report) =
    (models.read_panel (lookup "candidate_definition" card.payload) ≡ decoded candidate)
    × (validate nx candidate ≡ ok report)
IsGrounds nx models card (fails message errors) = IsRefused nx models card

report_on-IsGrounds :
    (nx : GraphLibrary) (models : Models) (card : Card) (candidate : PatchPanel)
    (r : Result GraphValidationReport) (j : Judgement)
    → models.read_panel (lookup "candidate_definition" card.payload) ≡ decoded candidate
    → validate nx candidate ≡ r
    → report_on nx models candidate r ≡ ok j
    → IsGrounds nx models card j
report_on-IsGrounds nx models card candidate (ok report) j read v h =
    subst (IsGrounds nx models card) (ok_injective _ _ h) (read, v)
report_on-IsGrounds nx models card candidate (err (panel_invalid es)) j read v h =
    subst (IsGrounds nx models card) (ok_injective _ _ h) (inr (candidate, es, read, v))
report_on-IsGrounds nx models card candidate (err e) j read v h = absurd (cc)

judge_decoded-IsGrounds :
    (nx : GraphLibrary) (models : Models) (card : Card) (d : Decoded PatchPanel) (j : Judgement)
    → models.read_panel (lookup "candidate_definition" card.payload) ≡ d
    → judge_decoded nx models d ≡ ok j
    → IsGrounds nx models card j
judge_decoded-IsGrounds nx models card (refused m) j read h =
    subst (IsGrounds nx models card) (ok_injective _ _ h) (inl (m, read))
judge_decoded-IsGrounds nx models card (decoded candidate) j read h =
    report_on-IsGrounds nx models card candidate _ j read refl h

module _ (py : Conversions) (nx : GraphLibrary) (laws : GraphLaws nx) (models : Models) where
  answer-IsAnswered :
      (node : NodeDefinition) (request : ValidatorExecutionInput) (rt : Runtime) (card : Card)
      (valid_exit invalid_exit : String) (j : Judgement)
      → get_card request.card_id rt ≡ ok card
      → configured_exit node "valid_exit" ≡ ok valid_exit
      → configured_exit node "invalid_exit" ≡ ok invalid_exit
      → IsGrounds nx models card j
      → IsAnswered nx models node request
          (topology_answer py nx models request card valid_exit invalid_exit j)
          rt
  unfolding lookup
  answer-IsAnswered node request rt card v i (fails m es) c a b grounds = record {
    card = card;
    of_card = c;
    verdict = false;
    exit = i;
    means = (grounds, b);
    with_verdict = refl;
    with_exit = refl;
    same_card = refl;
    same_key = refl;
    unsaid = λ h. lookup-update_absent "accepted" request.payload _ refl ∙ h;
  }
  answer-IsAnswered node request rt card v i (passes candidate report) c a b (read, good) = record {
    card = card;
    of_card = c;
    verdict = true;
    exit = v;
    means = (candidate, read, validate-IsWellFormed nx laws candidate report good, a);
    with_verdict = refl;
    with_exit = refl;
    same_card = refl;
    same_key = refl;
    unsaid = λ h. lookup-update_absent "accepted" request.payload _ refl ∙ h;
  }

  pub judged_request-IsAnswered :
      (node : NodeDefinition) (request answer : ValidatorExecutionInput) (rt : Runtime)
      → judged_request py nx models node request rt ≡ ok answer
      → IsAnswered nx models node request answer rt
  unfolding judged_request judge
  judged_request-IsAnswered node request answer rt h =
      let (card, c, h1) = >>=-eq-ok (get_card request.card_id rt) _ h in
      let (v, a, h2) = >>=-eq-ok (configured_exit node "valid_exit") _ h1 in
      let (i, b, h3) = >>=-eq-ok (configured_exit node "invalid_exit") _ h2 in
      let (j, d, h4) = >>=-eq-ok (judge nx models card) _ h3 in
      subst (λ x. IsAnswered nx models node request x rt) (ok_injective _ _ h4)
        (answer-IsAnswered node request rt card v i j c a b
          (judge_decoded-IsGrounds nx models card _ j refl d))
