-- ===== src/Nodes/Topology.antt =====
-- nodes/executor.py: what has passed when a validator with the topology handler decides by itself.
use ghostmesh.Prelude.{
  String, ◌≡◌, ◌⊎◌, refl, sym, ap, subst, ◌∙◌, inl, inr, Bool, true, false, Option, none, some,
  lookup, arith, string_eq, ◌==◌,
}
use ghostmesh.Python.{Json, str, is_str, Conversions}
use ghostmesh.Errors.{exit_required}
use ghostmesh.Result.{Result, ok, ok_injective}
use ghostmesh.Exec.{lift, ◌>>=◌, >>=-eq-returned, >>=-lift, >>=-raise_if, >>=-gets}
use ghostmesh.Domain.Panel.{validator, NodeDefinition, PatchPanel}
use ghostmesh.Domain.Work.{Card, CardEvent}
use ghostmesh.PanelValidator.{GraphLibrary, GraphLaws}
use ghostmesh.Runtime.State.{Runtime, get_card}
use ghostmesh.Runtime.Cards.{validate_card}
use ghostmesh.Runtime.Outcomes.{IsReplayed}
use ghostmesh.Runtime.Validation.{IsValidated, validate_card-outcome}
use ghostmesh.Nodes.{Nodes, NodeEnv, Models, node_of, ensure_validator_exit}
use ghostmesh.Nodes.Governance.{on_runtime_returned}
use ghostmesh.Nodes.Handlers.{
  ValidatorExecutionInput, is_given, judged_request, topology_validation_request,
  validator_accepted,
}
use ghostmesh.Nodes.Validation.{has_handler, checked_exit, handled, decided, execute_validator}
use ghostmesh.Nodes.Judging.{IsJudged, IsAnswered, judged_request-IsAnswered}

lift_ok :
    {A : Type 0} (r : Result A) (s s' : Nodes) (a : A)
    → lift r s ≡ (ok a, s')
    → (r ≡ ok a) × (s ≡ s')
lift_ok r s s' a h = (ap (λ x. x.0) h, ap (λ x. x.1) h)

other_handler :
    (a b : String) (v : Option Json) → (a == b) ≡ false → is_str a v ≡ true → is_str b v ≡ false
other_handler a b none h k = absurd (cc)
other_handler a b (some (str t)) h k =
    ground (arith, string_eq.beq_iff t a, string_eq.beq_iff t b, string_eq.beq_iff a b)
other_handler a b (some v) h k = ground (arith, h, k)

-- What a validator with the handler for topologies has made of a bare request.
pub record IsDecided (nx : GraphLibrary) (models : Models) (env : NodeEnv) (panel : PatchPanel)
    (node : NodeDefinition) (request : ValidatorExecutionInput) (s s' : Nodes) (e : CardEvent)
    : Type 0 where
  pub card : Card
  pub of_card : get_card request.card_id s.runtime ≡ ok card
  pub verdict : Bool
  pub exit : String
  pub means : IsJudged nx models node card verdict exit
  pub allowed : ensure_validator_exit panel node exit ≡ ok tt
  pub recorded :
      IsReplayed request.idempotency_key e s.runtime s'.runtime
      ⊎ IsValidated request.idempotency_key card node.id exit verdict request.payload e s.runtime
          s'.runtime

module _ (py : Conversions) (nx : GraphLibrary) (laws : GraphLaws nx) (models : Models)
    (env : NodeEnv) (panel : PatchPanel) where
  -- With its handler for topologies, a node answers a bare request by that handler alone.
  handled_topology :
      (node : NodeDefinition) (request answer : ValidatorExecutionInput) (s s' : Nodes)
      → has_handler "patch_panel_topology" node ≡ true
      → is_given request ≡ false
      → handled py nx models env panel node request s ≡ (ok answer, s')
      → (judged_request py nx models node request s.runtime ≡ ok answer) × (s ≡ s')
  unfolding topology_validation_request
  handled_topology node request answer s s' by_topology bare h =
      let h1 = >>=-gets _ _ s h in
      let (r, first, h2) = >>=-lift _ _ s h1 in
      let h3 = >>=-gets _ _ s h2 in
      let (last, same) = lift_ok _ s s' answer h3 in
      let other =
        other_handler "patch_panel_topology" "participant_onboarding_compliance"
          (lookup "validation_handler" node.config) refl by_topology in
      (ground (arith, first, last, other, by_topology, bare), same)

  module _ (node : NodeDefinition) (request : ValidatorExecutionInput) (exit : String)
      (verdict : Bool) where
    decided_answer :
        (s s' : Nodes) (e : CardEvent)
        → request.selected_exit ≡ some exit
        → request.accepted ≡ some verdict
        → decided py nx models env panel node request s ≡ (ok e, s')
        → (ensure_validator_exit panel node exit ≡ ok tt)
          × (validate_card env.first_call request.card_id node.id verdict request.reason
                (some exit)
                request.payload
                request.idempotency_key
                s.runtime
              ≡ (ok e, s'.runtime))
    unfolding validator_accepted
    decided_answer s s' e at by h =
        let (_, h1) = >>=-raise_if _ (exit_required node.id) _ s h in
        let (u, checked, h2) = >>=-lift (checked_exit panel node request.selected_exit) _ s h1 in
        let (b, is_b, h3) = >>=-lift (validator_accepted node request) _ s h2 in
        let same : b ≡ verdict = ground (arith, is_b, by) in
        let (call, _, _) =
          on_runtime_returned
            (validate_card env.first_call request.card_id node.id b request.reason
              request.selected_exit request.payload request.idempotency_key)
            s s' e h3 in
        (
          subst (λ x. checked_exit panel node x ≡ ok tt) at checked,
          subst
              (λ (x : Bool × Option String).
                validate_card env.first_call request.card_id node.id x.0 request.reason x.1
                  request.payload request.idempotency_key s.runtime
                ≡ (ok e, s'.runtime))
              (λ i. (same i, at i)) call,
        )

  -- What the handler's answer has made of the card, by the outcome of the call of the runtime.
  recorded_answer :
      (node : NodeDefinition) (request answer : ValidatorExecutionInput) (rt rt' : Runtime)
      (e : CardEvent) (a : IsAnswered nx models node request answer rt)
      → validate_card env.first_call answer.card_id node.id a.verdict answer.reason
          (some a.exit)
          answer.payload
          answer.idempotency_key
          rt
        ≡ (ok e, rt')
      → IsReplayed request.idempotency_key e rt rt'
        ⊎ IsValidated request.idempotency_key a.card node.id a.exit a.verdict request.payload e rt
            rt'
  recorded_answer node request answer rt rt' e a call =
      elim (validate_card-outcome env.first_call answer.card_id node.id a.verdict answer.reason
        a.exit answer.payload answer.idempotency_key rt rt' e call) [
          | inl old ↦ inl (subst (λ k. IsReplayed k e rt rt') a.same_key old)
          | inr (c, there, new) ↦
              let same : c ≡ a.card =
                ok_injective _ _ (sym there ∙ ap (λ i. get_card i rt) a.same_card ∙ a.of_card) in
              let told =
                subst
                  (λ (x : Option String × Card).
                    IsValidated x.0 x.1 node.id a.exit a.verdict answer.payload e rt rt')
                  (λ j. (a.same_key j, same j)) new in
              inr (record {
                appended = told.appended;
                verdict = λ h. told.verdict (a.unsaid h);
                through = told.through;
                moved = told.moved;
              })
        ]

  -- Over a graph library that obeys its laws: when a validator with the handler for topologies
  -- returns an event for a request that gives neither a decision nor an exit, it has a verdict and an
  -- exit that the validator may take. Either it is to accept, the exit is the configured valid exit,
  -- and the card's candidate reads as a well-formed panel; or it is to reject, the exit is the
  -- configured invalid exit, and the candidate does not read or does not pass the panel validator.
  -- Where the request's idempotency key was used before, the event is the one that is stored under
  -- it and the runtime is unchanged. Else the event is appended to the card's history as a validation
  -- by this node, with the verdict unless the request's payload says its own "accepted", and the other
  -- histories stay; where the exit is not empty, the event names it and the card has moved to the
  -- bucket that the event names.
  pub execute_validator-IsJudged :
      (node : NodeDefinition) (request : ValidatorExecutionInput) (s s' : Nodes) (e : CardEvent)
      → node_of panel request.validator_id validator ≡ ok node
      → has_handler "patch_panel_topology" node ≡ true
      → is_given request ≡ false
      → execute_validator py nx models env panel request s ≡ (ok e, s')
      → IsDecided nx models env panel node request s s' e
  unfolding execute_validator
  execute_validator-IsJudged node request s s' e known by_topology bare h =
      let (n, found, h1) = >>=-lift (node_of panel request.validator_id validator) _ s h in
      let h1' =
        subst
          (λ x.
            (handled py nx models env panel x request >>= decided py nx models env panel x) s
            ≡ (ok e, s'))
          (ok_injective _ _ (sym found ∙ known)) h1 in
      let (answer, s1, answering, h2) =
        >>=-eq-returned (handled py nx models env panel node request)
          (decided py nx models env panel node) s h1' in
      let (judged, same) = handled_topology node request answer s s1 by_topology bare answering in
      let a = judged_request-IsAnswered py nx laws models node request answer s.runtime judged in
      let (allowed, call) =
        decided_answer node answer a.exit a.verdict s s' e a.with_exit a.with_verdict
          (subst (λ x. decided py nx models env panel node answer x ≡ (ok e, s')) (sym same) h2) in
      record {
        card = a.card;
        of_card = a.of_card;
        verdict = a.verdict;
        exit = a.exit;
        means = a.means;
        allowed = allowed;
        recorded = recorded_answer node request answer s.runtime s'.runtime e a call;
      }
