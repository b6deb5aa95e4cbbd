-- ===== src/Boundaries/Source.antt =====
-- boundaries.py: `execute_source`.
use ghostmesh.Prelude.{some, [], ◌∷◌}
use ghostmesh.Python.{str, obj, Conversions, suffixed, text_or_null}
use ghostmesh.Exec.{Exec, lift, gets, pure, ◌>>=◌, ◌>>◌}
use ghostmesh.Runtime.State.{Runtime}
use ghostmesh.Runtime.Cards.{record_event}
use ghostmesh.Nodes.Work as Work
use ghostmesh.Boundaries.{
  BoundarySourceRequest, SourceBoundaryResult, Adapters, BoundaryEnv, fields_of, on_executor,
}
use ghostmesh.Boundaries.Ingress.{Ingress, ingress_key, prepare}

module _ (py : Conversions) where
  -- From the making of the executor on.
  unfoldable pub receive : BoundaryEnv → Ingress → Exec Runtime SourceBoundaryResult
  unfolding ingress_key Work.execute_source
  receive env i = do
    card ←
        on_executor (
          Work.execute_source py env.for_node i.panel i.node.id i.payload i.metadata
            (ingress_key i))
    record_event env.for_event card.id "boundary_source_received" (some i.node.id)
        (("adapter", str i.adapter)
          ∷ ("source_id", str i.node.id)
          ∷ ("deduplication_key", text_or_null i.deduplication_key)
          ∷ ("headers", obj (fields_of i.headers))
          ∷ [])
        (suffixed (ingress_key i) ":event")
    pure (record { card = card; deduplication_key = i.deduplication_key; adapter = i.adapter })

module _ (py : Conversions) (adapters : Adapters) where
  unfoldable pub execute_source :
      BoundaryEnv → BoundarySourceRequest → Exec Runtime SourceBoundaryResult
  unfolding prepare receive
  execute_source env request = do
    prepared ← gets (prepare py adapters request)
    i ← lift prepared
    receive py env i
