-- ===== src/Nodes/Work.antt =====
-- nodes/executor.py: `execute_source` and `execute_worker`.
use ghostmesh.Prelude.{
  String, not, Option, none, some, List, [], ◌∷◌, lookup, ◌==◌, string_eq, option_eq, is_empty,
}
use ghostmesh.Python.{ℤ, str, suffixed, Payload, Conversions}
use ghostmesh.Errors.{nothing_produced, lookup_failed, worker_pipe_differs, nothing_submitted}
use ghostmesh.Result.{or_raise}
use ghostmesh.Exec.{Exec, lift, pure, raise_if, gets, ◌>>=◌, ◌>>◌}
use ghostmesh.Domain.Panel.{source, worker, PatchPanel}
use ghostmesh.Domain.Work.{ArtifactReference, Card, CardEvent}
use ghostmesh.Runtime.Cards.{create_card, record_event, card_history}
use ghostmesh.Runtime.Claim.{claim_card}
use ghostmesh.Runtime.Leases.{submit_artifact}
use ghostmesh.Nodes.{Nodes, NodeEnv, on_runtime, node_of, node_for_pipe}

pub record WorkerExecutionInput : Type 0 where
  pub input_pipe : String
  pub output_pipe : String
  pub worker_id : String
  pub artifact_refs : List ArtifactReference
  pub lease_seconds : ℤ
  pub idempotency_key : Option String

-- `events[-1]`
abbrev pub last_of : List CardEvent → Option CardEvent
last_of [] = none
last_of (e ∷ []) = some e
last_of (e ∷ f ∷ es) = last_of (f ∷ es)

module _ (py : Conversions) (env : NodeEnv) (panel : PatchPanel) where
  unfoldable pub execute_source :
      (source_id : String) (payload metadata : Payload) (key : Option String) → Exec Nodes Card
  unfolding node_of
  execute_source source_id payload metadata key = do
    node ← lift (node_of panel source_id source)
    card ← on_runtime (create_card env.first_call panel.id payload metadata key)
    on_runtime (
        record_event env.second_call card.id "source_executed" (some node.id)
          (("source_id", str node.id) ∷ []) (suffixed key ":source"))
    pure card

  unfoldable pub execute_worker : WorkerExecutionInput → Exec Nodes (List ArtifactReference)
  unfolding node_for_pipe
  execute_worker request = do
    node ← lift (node_for_pipe panel request.input_pipe worker)
    lease ← on_runtime (
        claim_card py env.first_call request.input_pipe request.worker_id request.lease_seconds
          (suffixed request.idempotency_key ":claim"))
    refs ← on_runtime (
        submit_artifact py env.second_call lease.id request.output_pipe request.artifact_refs
          (suffixed request.idempotency_key ":submit"))
    raise_if (is_empty refs) nothing_produced
    history ← gets (λ s. card_history lease.card_id s.runtime)
    events ← lift history
    event ← lift (or_raise (last_of events) lookup_failed)
    binding ← lift (or_raise (lookup request.output_pipe panel.pipe_bindings) lookup_failed)
    raise_if (not (binding.node == some node.id)) worker_pipe_differs
    raise_if (not (event.event_type == "artifact_submitted")) nothing_submitted
    pure refs
