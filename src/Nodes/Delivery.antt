-- ===== src/Nodes/Delivery.antt =====
-- nodes/executor.py: what has passed when `execute_sink` returns.
use ghostmesh.Prelude.{
  ℕ, String, ◌≡◌, ◌⊎◌, refl, sym, ap, subst, ◌∙◌, Bool, true, false, not, ◌&&◌, Option, some, List,
  [], ◌∷◌, In, In-mem, inl, inr, lookup, is_empty, mem, arith, string_eq,
}
use ghostmesh.Python.{Conversions, is_truthy}
use ghostmesh.Errors.{shadow_egress_forbidden, card_not_at_sink}
use ghostmesh.Result.{Result, ok, err, ok_injective}
use ghostmesh.Exec.{>>=-eq-returned, >>=-lift, >>=-raise_if, >>=-gets}
use ghostmesh.Domain.Panel.{sink, NodeDefinition, PatchPanel}
use ghostmesh.Domain.Work.{Card}
use ghostmesh.PanelValidator.{GraphLibrary}
use ghostmesh.Runtime.State.{event, get_card, get_idempotent}
use ghostmesh.Runtime.Cards.{record_event}
use ghostmesh.Runtime.Outcomes.{
  IsAppended, IsAppended-before, get_idempotent_same, record_event-outcome,
}
use ghostmesh.Nodes.{Nodes, NodeEnv, Decoded, decoded, refused, Models, on_runtime, node_of}
use ghostmesh.Nodes.Governance.{on_runtime_returned, record_event-patch_panels}
use ghostmesh.Nodes.Untouched.{Has, configured_leaves}
use ghostmesh.Nodes.Sinks.{
  SinkResult, must_read, input_buckets, is_elsewhere, is_held_back, execute_configured_sink,
  execute_sink, run_sink, sink_payload,
}

pub must_read-decoded : {A : Type 0} (d : Decoded A) (a : A) → must_read d ≡ ok a → d ≡ decoded a
must_read-decoded (decoded x) a h = ground (arith, h)
must_read-decoded (refused m) a h = absurd (cc)

not_held : (a b : Bool) → (a && not b) ≡ false → (a ≡ false) ⊎ (b ≡ true)
not_held false b h = inl refl
not_held true true h = inr refl
not_held true false h = absurd (cc)

returned : SinkResult → Result SinkResult → SinkResult
returned other (ok r) = r
returned other (err e) = other

module _ (nx : GraphLibrary) (py : Conversions) (models : Models) (env : NodeEnv) where
  pub record IsDelivered (panel : PatchPanel) (node : NodeDefinition) (card_id : ℕ)
      (reference key : Option String) (s s' : Nodes) (r : SinkResult) : Type 0 where
    pub card : Card
    pub of_card : get_card card_id s.runtime ≡ ok card
    pub let_out : is_held_back node card ≡ false
    pub at_sink : is_elsewhere panel node card ≡ false
    pub after_action : Nodes
    pub action :
        execute_configured_sink py nx models env node card reference s
        ≡ (ok r.external_reference, after_action)
    pub recorded :
        record_event env.first_call card_id "sink_executed"
          (some node.id)
          (sink_payload py node r.external_reference)
          key
          after_action.runtime
        ≡ (ok r.event, s'.runtime)
    pub same_registry : s'.registry ≡ after_action.registry
    pub same_repository : s'.authorization_repository ≡ after_action.authorization_repository
    pub same_panels : s'.runtime.patch_panels ≡ after_action.runtime.patch_panels

  -- The guards, the action and the event, in this order.
  pub execute_sink-IsDelivered :
      (panel : PatchPanel) (node : NodeDefinition) (card_id : ℕ) (sink_id : String)
      (reference key : Option String) (s s' : Nodes) (r : SinkResult)
      → node_of panel sink_id sink ≡ ok node
      → execute_sink py nx models env panel card_id sink_id reference key s ≡ (ok r, s')
      → IsDelivered panel node card_id reference key s s' r
  unfolding execute_sink returned
  execute_sink-IsDelivered panel node card_id sink_id reference key s s' r known h =
      let (n, same, h1) = >>=-lift (node_of panel sink_id sink) _ s h in
      let the_node : n ≡ node = ok_injective _ _ (sym same ∙ known) in
      let h2 = >>=-gets _ _ s h1 in
      let (card, of_card, h3) = >>=-lift _ _ s h2 in
      let h3' =
        subst (λ x. run_sink py nx models env panel x card_id card reference key s ≡ (ok r, s'))
          the_node h3 in
      let (let_out, h4) = >>=-raise_if _ shadow_egress_forbidden _ s h3' in
      let (at_sink, h5) = >>=-raise_if _ (card_not_at_sink card.id) _ s h4 in
      let (out, s1, action, h6) =
        >>=-eq-returned (execute_configured_sink py nx models env node card reference) _ s h5 in
      let (e, s2, recording, h7) =
        >>=-eq-returned
          (on_runtime (
            record_event env.first_call card_id "sink_executed" (some node.id)
              (sink_payload py node out) key))
          _ s1 h6 in
      let (called, same_registry, same_repository) = on_runtime_returned _ s1 s2 e recording in
      let panels =
        ap (λ x. x.1.patch_panels) (sym called)
        ∙ record_event-patch_panels env.first_call card_id _ _ _ key s1.runtime in
      let delivered : IsDelivered panel node card_id reference key s s2
          (record { event = e; external_reference = out }) =
        record {
          card = card;
          of_card = of_card;
          let_out = let_out;
          at_sink = at_sink;
          after_action = s1;
          action = action;
          recorded = called;
          same_registry = same_registry;
          same_repository = same_repository;
          same_panels = panels;
        } in
      subst (λ (x : SinkResult × Nodes). IsDelivered panel node card_id reference key s x.1 x.0)
        (ap (λ (x : Result SinkResult × Nodes). (returned r x.0, x.1)) h7) delivered

  module _ (panel : PatchPanel) (node : NodeDefinition) (card_id : ℕ) (sink_id : String)
      (reference key : Option String) (s s' : Nodes) (r : SinkResult) where
    abbrev Recorded : Type 0
    Recorded =
        ((get_idempotent key s.runtime ≡ some (event r.event))
          × (s'.runtime.events ≡ s.runtime.events))
        ⊎ (IsAppended key card_id "sink_executed" node.id r.event s.runtime s'.runtime
            × (r.event.payload ≡ sink_payload py node r.external_reference))

    elsewhere-In :
        (current : String) (buckets : List String)
        → (not (is_empty buckets) && not (mem current buckets)) ≡ false
        → (buckets ≡ []) ⊎ In current buckets
    elsewhere-In current [] h = inl refl
    elsewhere-In current (b ∷ bs) h = inr ((In-mem current (b ∷ bs)).0 (ground (arith, h)))

    -- The outcome of the sink's event, seen from the runtime before the action.
    recorded_since :
        (card : Card) (after_action : Nodes)
        → execute_configured_sink py nx models env node card reference s
          ≡ (ok r.external_reference, after_action)
        → record_event env.first_call card_id "sink_executed"
            (some node.id)
            (sink_payload py node r.external_reference)
            key
            after_action.runtime
          ≡ (ok r.event, s'.runtime)
        → Recorded
    recorded_since card after_action action recording =
        let kept =
          subst (λ x. Has s.runtime.events s.runtime.idempotency x.1.runtime) action
            (configured_leaves nx py models env s.runtime.events s.runtime.idempotency node card
              reference s (record { same_events = refl; same_answers = refl })) in
        elim (record_event-outcome env.first_call card_id "sink_executed" node.id
          (sink_payload py node r.external_reference) key after_action.runtime s'.runtime r.event
          recording) [
            | inl old ↦ inl (
              sym (get_idempotent_same key after_action.runtime s.runtime kept.same_answers)
                  ∙ old.stored,
              ap (λ rt. rt.events) old.unchanged ∙ kept.same_events,
            )
            | inr (new, payload) ↦ inr (
              IsAppended-before key card_id "sink_executed" node.id r.event after_action.runtime
                  s.runtime s'.runtime kept.same_events kept.same_answers new,
              payload,
            )
          ]

    -- When a sink returns, its card is no shadow or the sink lets shadows out, and the card stands in
    -- a bucket that an input pipe of the sink is bound to, unless none is bound. Where the
    -- idempotency key was used before, the event that is returned is the one that is stored under it
    -- and no history has changed; else it is appended to the card's history as the execution of this
    -- sink, with the payload of this delivery, and the other histories stay.
    pub execute_sink-guards :
        node_of panel sink_id sink ≡ ok node
        → execute_sink py nx models env panel card_id sink_id reference key s ≡ (ok r, s')
        → (card : Card) × (get_card card_id s.runtime ≡ ok card)
          × ((is_truthy (lookup "shadow" card.metadata) ≡ false)
              ⊎ (is_truthy (lookup "allow_shadow_egress" node.config) ≡ true))
          × ((input_buckets panel node ≡ []) ⊎ In card.current_bucket (input_buckets panel node))
          × (((get_idempotent key s.runtime ≡ some (event r.event))
                × (s'.runtime.events ≡ s.runtime.events))
              ⊎ (IsAppended key card_id "sink_executed" node.id r.event s.runtime s'.runtime
                  × (r.event.payload ≡ sink_payload py node r.external_reference)))
    unfolding is_held_back is_elsewhere
    execute_sink-guards known h =
        let d = execute_sink-IsDelivered panel node card_id sink_id reference key s s' r known h in
        (
          d.card,
          d.of_card,
          not_held (is_truthy (lookup "shadow" d.card.metadata)) _ d.let_out,
          elsewhere-In d.card.current_bucket (input_buckets panel node) d.at_sink,
          recorded_since d.card d.after_action d.action d.recorded,
        )
