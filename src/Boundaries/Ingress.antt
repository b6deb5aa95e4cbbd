-- ===== src/Boundaries/Ingress.antt =====
-- boundaries.py: what `execute_source` computes from a request before it changes the runtime.
use ghostmesh.Prelude.{
  String, not, Option, none, some, [], ◌∷◌, insert, update, ◌==◌, string_eq, is_empty, is_text,
  if◌then◌else◌, ◌+++◌,
}
use ghostmesh.Python.{str, Payload, Conversions}
use ghostmesh.Errors.{boundary_target_differs}
use ghostmesh.Result.{Result, ok, raise_if, ◌>>=◌, ◌>>◌}
use ghostmesh.Domain.Panel.{source, NodeDefinition, PatchPanel, workflow_version_id}
use ghostmesh.Runtime.State.{Runtime}
use ghostmesh.Nodes.{node_of}
use ghostmesh.Nodes.Sinks.{must_read}
use ghostmesh.Boundaries.{
  BoundarySourceRequest, Adapters, ensure_authorized, envelope, map_payload, find_panel,
  contract_of, text_at,
}

abbrev or_payload : Payload → Payload → Payload
or_payload mapped other = if is_empty mapped then other else mapped

abbrev pub ensure_target : Option String → PatchPanel → Result Unit
ensure_target none panel = ok tt
ensure_target (some target) panel =
    raise_if (not (target == workflow_version_id panel)) boundary_target_differs

abbrev pub as_key : String → Option String → Option String
as_key prefix none = none
as_key prefix (some s) = if is_text s then some (prefix +++ s) else none

abbrev with_key : Option String → Payload → Payload
with_key none metadata = metadata
with_key (some s) metadata =
    if is_text s then insert "deduplication_key" (str s) metadata else metadata

-- What a request comes to before the runtime is changed.
pub record Ingress : Type 0 where
  pub panel : PatchPanel
  pub node : NodeDefinition
  pub adapter : String
  pub payload : Payload
  pub metadata : Payload
  pub headers : Payload
  pub deduplication_key : Option String

-- The idempotency key, where the deduplication key is not empty.
unfoldable pub ingress_key : Ingress → Option String
ingress_key i =
    as_key ("boundary-source:" +++ i.panel.id +++ ":" +++ i.node.id +++ ":") i.deduplication_key

module _ (py : Conversions) (adapters : Adapters) where
  -- Up to the making of the executor.
  unfoldable pub prepare : BoundarySourceRequest → Runtime → Result Ingress
  unfolding find_panel node_of ensure_authorized map_payload
  prepare request rt = do
    panel ← find_panel request.patch_panel_id rt
    node ← node_of panel request.source_id source
    contract ← must_read (adapters.read_source (contract_of "ingress_contract" node))
    ensure_authorized contract.auth request.actor_token
    ensure_target contract.target_workflow_version panel
    payload ← map_payload (envelope request.external_payload request.headers) contract.payload_map
    metadata ← map_payload (envelope request.external_payload request.headers) contract.metadata_map
    key ← text_at py (envelope request.external_payload request.headers) contract.deduplication_key
    ok (record {
      panel = panel;
      node = node;
      adapter = contract.adapter;
      payload = or_payload payload request.external_payload;
      metadata = with_key key (
          update metadata
            (("boundary_adapter", str contract.adapter) ∷ ("boundary_source", str node.id) ∷ []));
      headers = request.headers;
      deduplication_key = key;
    })
