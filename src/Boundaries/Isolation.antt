-- ===== src/Boundaries/Isolation.antt =====
-- boundaries.py: the executor of a boundary has neither a registry nor an authorization repository.
use ghostmesh.Prelude.{
  ℕ, String, ◌≡◌, ◌⊎◌, refl, ap, subst, ◌∙◌, true, Option, some, arith, inl, inr, Bool-cases,
  string_eq, ◌==◌,
}
use ghostmesh.Python.{Conversions, text_or}
use ghostmesh.Errors.{
  Error, registry_missing, repository_missing, shadow_egress_forbidden, card_not_at_sink,
}
use ghostmesh.Result.{ok, err, ok_injective, >>=-eq-ok, Result-cases}
use ghostmesh.Exec.{Exec, lift, gets, raise_if, zoom, put_back, ◌>>=◌, >>=-returns, >>=-raises}
use ghostmesh.Domain.Panel.{sink, NodeDefinition, PatchPanel}
use ghostmesh.Domain.Work.{Card}
use ghostmesh.PanelValidator.{GraphLibrary}
use ghostmesh.Runtime.State.{Runtime, get_card}
use ghostmesh.Nodes.{Nodes, NodeEnv, Models, node_of}
use ghostmesh.Nodes.Sinks as Sinks
use ghostmesh.Nodes.Sinks.{
  SinkResult, must_read, publish, provision, execute_configured_sink, run_sink, is_publication,
  is_held_back, is_elsewhere, as_reference,
}
use ghostmesh.Boundaries.{
  BoundarySinkRequest, Adapters, BoundaryEnv, on_executor, find_panel, contract_of,
  ensure_authorized, map_payload,
}
use ghostmesh.Boundaries.Egress.{
  Egress, egress_key_of, prepare, reference_of, sink_envelope, render_template,
}
use ghostmesh.Boundaries.Sink.{deliver, execute_sink}
use ghostmesh.Boundaries.Deduplication.{executor_of, node_of-id}

abbrev Raises : {S A : Type 0} → Exec S A → S → Type 0
Raises m s = (e : Error) × (m s ≡ (err e, s))

-- A sink that acts on the registry or on the repository.
abbrev pub IsSystemSink : NodeDefinition → Type 0
IsSystemSink node = (node.id ≡ "authority_provisioner_sink") ⊎ (is_publication node ≡ true)

module _ (py : Conversions) (nx : GraphLibrary) (models : Models) (env : NodeEnv)
    (rt : Runtime) where
  publish_raises :
      (node : NodeDefinition) (card : Card) (reference : Option String)
      → publish py nx models env node card reference (executor_of rt)
        ≡ (err registry_missing, executor_of rt)
  unfolding publish ◌>>=◌ executor_of
  publish_raises node card reference = refl

  provision_raises :
      (node : NodeDefinition) (card : Card) (reference : Option String)
      → provision py nx models env node card reference (executor_of rt)
        ≡ (err repository_missing, executor_of rt)
  unfolding provision ◌>>=◌ executor_of
  provision_raises node card reference = refl

  configured-Raises :
      (node : NodeDefinition) (card : Card) (reference : Option String)
      → IsSystemSink node
      → Raises (execute_configured_sink py nx models env node card reference) (executor_of rt)
  unfolding execute_configured_sink
  configured-Raises node card reference system =
      elim (Bool-cases (node.id == "authority_provisioner_sink")) [
        | inl same ↦ (
          repository_missing,
          rw same (
              >>=-raises (provision py nx models env node card reference) as_reference
                (executor_of rt) (provision_raises node card reference)),
        )
        | inr other ↦
            let publication : is_publication node ≡ true =
              ground
                (arith, other, system, string_eq.beq_iff node.id "authority_provisioner_sink") in
            (
              registry_missing,
              rw (other, publication)
                  (>>=-raises (publish py nx models env node card reference) as_reference
                    (executor_of rt) (publish_raises node card reference)),
            )
      ]

  run_sink-Raises :
      (panel : PatchPanel) (node : NodeDefinition) (id : ℕ) (card : Card)
      (reference key : Option String)
      → IsSystemSink node
      → Raises (run_sink py nx models env panel node id card reference key) (executor_of rt)
  run_sink-Raises panel node id card reference key system =
      elim (Bool-cases (is_held_back node card)) [
        | inl held ↦ (
          shadow_egress_forbidden,
          >>=-raises (raise_if (is_held_back node card) shadow_egress_forbidden) _ (executor_of rt)
              (rw held refl),
        )
        | inr free ↦ elim (Bool-cases (is_elsewhere panel node card)) [
          | inl away ↦ (
            card_not_at_sink card.id,
            >>=-returns (raise_if (is_held_back node card) shadow_egress_forbidden) _
                  (executor_of rt) (rw free refl)
                ∙ >>=-raises (raise_if (is_elsewhere panel node card) (card_not_at_sink card.id)) _
                    (executor_of rt) (rw away refl),
          )
          | inr here ↦
              let (e, raised) = configured-Raises node card reference system in
              (
                e,
                >>=-returns (raise_if (is_held_back node card) shadow_egress_forbidden) _
                      (executor_of rt) (rw free refl)
                    ∙ >>=-returns
                        (raise_if (is_elsewhere panel node card) (card_not_at_sink card.id)) _
                        (executor_of rt) (rw here refl)
                    ∙ >>=-raises (execute_configured_sink py nx models env node card reference) _
                        (executor_of rt) raised,
              )
        ]
      ]

  sink-Raises :
      (panel : PatchPanel) (node : NodeDefinition) (id : ℕ) (reference key : Option String)
      → node_of panel node.id sink ≡ ok node
      → IsSystemSink node
      → Raises (Sinks.execute_sink py nx models env panel id node.id reference key) (executor_of rt)
  unfolding Sinks.execute_sink executor_of
  sink-Raises panel node id reference key known system = elim (Result-cases (get_card id rt)) [
    | inr (x, missing) ↦ (
      x,
      >>=-returns (lift (node_of panel node.id sink)) _ (executor_of rt)
            (ap (λ r. (r, executor_of rt)) known)
          ∙ >>=-returns (gets (λ s. get_card id s.runtime)) _ (executor_of rt) refl
          ∙ >>=-raises (lift (get_card id rt)) _ (executor_of rt)
              (ap (λ r. (r, executor_of rt)) missing),
    )
    | inl (card, found) ↦
        let (x, raised) = run_sink-Raises panel node id card reference key system in
        (
          x,
          >>=-returns (lift (node_of panel node.id sink)) _ (executor_of rt)
                (ap (λ r. (r, executor_of rt)) known)
              ∙ >>=-returns (gets (λ s. get_card id s.runtime)) _ (executor_of rt) refl
              ∙ >>=-returns (lift (get_card id rt)) _ (executor_of rt)
                  (ap (λ r. (r, executor_of rt)) found)
              ∙ raised,
        )
  ]

module _ (py : Conversions) (adapters : Adapters) where
  prepared_node :
      (request : BoundarySinkRequest) (rt : Runtime) (e : Egress)
      → prepare py adapters request rt ≡ ok e
      → node_of e.panel e.node.id sink ≡ ok e.node
  unfolding prepare
  prepared_node request rt e h =
      let (panel, _, h1) = >>=-eq-ok (find_panel request.patch_panel_id rt) _ h in
      let (node, known, h2) = >>=-eq-ok (node_of panel request.sink_id sink) _ h1 in
      let (contract, _, h3) =
        >>=-eq-ok (must_read (adapters.read_sink (contract_of "egress_contract" node))) _ h2 in
      let (_, _, h4) = >>=-eq-ok (ensure_authorized contract.auth request.actor_token) _ h3 in
      let (card, _, h5) = >>=-eq-ok (get_card request.card_id rt) _ h4 in
      let (_, _, h6) =
        >>=-eq-ok (map_payload (sink_envelope py adapters card request) contract.payload_map) _
          h5 in
      let (reference, _, h7) =
        >>=-eq-ok
          (reference_of py adapters contract request (sink_envelope py adapters card request)) _
          h6 in
      let (_, _, h8) =
        >>=-eq-ok
          (render_template py adapters (text_or contract.idempotency_key "card_id + sink_id") card
            node.id reference)
          _ h7 in
      subst (λ (x : Egress). node_of x.panel x.node.id sink ≡ ok x.node) (ok_injective _ _ h8)
        (node_of-id panel request.sink_id sink node known)

  -- Egress at a sink that publishes panels or takes participants on always raises, and changes
  -- nothing: a boundary cannot act on the registry or on the authority of participants.
  pub execute_sink_isolated :
      (nx : GraphLibrary) (models : Models) (env : BoundaryEnv) (request : BoundarySinkRequest)
      (rt : Runtime) (e : Egress)
      → prepare py adapters request rt ≡ ok e
      → IsSystemSink e.node
      → (x : Error) × (execute_sink py nx models env adapters request rt ≡ (err x, rt))
  unfolding execute_sink deliver zoom executor_of
  execute_sink_isolated nx models env request rt e prepared system =
      let (x, raised) =
        sink-Raises py nx models env.for_node rt e.panel e.node e.card.id e.external_reference
          (some (egress_key_of e)) (prepared_node request rt e prepared) system in
      let closed : on_executor
            (Sinks.execute_sink py nx models env.for_node e.panel e.card.id e.node.id
              e.external_reference (some (egress_key_of e)))
            rt
          ≡ (err x, rt) =
        ap (put_back (λ (s : Nodes) (t : Runtime). s.runtime) rt) raised in
      (
        x,
        >>=-returns (gets (prepare py adapters request)) _ rt refl
            ∙ >>=-returns (lift (prepare py adapters request rt)) (deliver py nx models env) rt
                (ap (λ r. (r, rt)) prepared)
            ∙ >>=-raises
                (on_executor (
                  Sinks.execute_sink py nx models env.for_node e.panel e.card.id e.node.id
                    e.external_reference (some (egress_key_of e))))
                _ rt closed,
      )
