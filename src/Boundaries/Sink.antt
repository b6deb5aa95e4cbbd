-- ===== src/Boundaries/Sink.antt =====
-- boundaries.py: `execute_sink`.
use ghostmesh.Prelude.{some, [], ◌∷◌, ◌+++◌}
use ghostmesh.Python.{str, obj, Conversions, text_or_null}
use ghostmesh.Exec.{Exec, lift, gets, pure, ◌>>=◌, ◌>>◌}
use ghostmesh.PanelValidator.{GraphLibrary}
use ghostmesh.Runtime.State.{Runtime}
use ghostmesh.Runtime.Cards.{record_event}
use ghostmesh.Nodes.{Models}
use ghostmesh.Nodes.Sinks as Sinks
use ghostmesh.Boundaries.{
  BoundarySinkRequest, SinkBoundaryResult, Adapters, BoundaryEnv, fields_of, on_executor,
}
use ghostmesh.Boundaries.Egress.{Egress, egress_key_of, prepare}

module _ (py : Conversions) (nx : GraphLibrary) (models : Models) (env : BoundaryEnv) where
  -- From the making of the executor on.
  unfoldable pub deliver : Egress → Exec Runtime SinkBoundaryResult
  unfolding egress_key_of Sinks.execute_sink
  deliver e = do
    result ← on_executor (
        Sinks.execute_sink py nx models env.for_node e.panel e.card.id e.node.id
          e.external_reference (some (egress_key_of e)))
    record_event env.for_event e.card.id "boundary_sink_egressed" (some e.node.id)
        (("adapter", str e.adapter)
          ∷ ("sink_id", str e.node.id)
          ∷ ("external_payload", obj (fields_of e.external_payload))
          ∷ ("external_reference", text_or_null result.external_reference)
          ∷ ("egress_idempotency_key", str e.egress_key)
          ∷ [])
        (some (egress_key_of e +++ ":event"))
    pure (record {
      event = result.event;
      external_reference = result.external_reference;
      egress_idempotency_key = e.egress_key;
      adapter = e.adapter;
    })

  unfoldable pub execute_sink : Adapters → BoundarySinkRequest → Exec Runtime SinkBoundaryResult
  unfolding prepare deliver
  execute_sink adapters request = do
    prepared ← gets (prepare py adapters request)
    e ← lift prepared
    deliver e
