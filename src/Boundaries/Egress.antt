-- ===== src/Boundaries/Egress.antt =====
-- boundaries.py: what `execute_sink` computes from a request before it changes the runtime.
use ghostmesh.Prelude.{
  String, ◌&&◌, Option, none, some, List, [], ◌∷◌, map, every, length, ltb, lookup, Dict, string_eq,
  is_some, is_text, if◌then◌else◌, ◌+++◌,
}
use ghostmesh.Prelude.Splitting.{split, strip, join}
use ghostmesh.Python.{Json, obj, field, end, Payload, Conversions, text_or, optional_text}
use ghostmesh.Result.{Result, ok, ◌>>=◌, ◌>>◌}
use ghostmesh.Domain.Panel.{sink, NodeDefinition, PatchPanel}
use ghostmesh.Domain.Work.{Card}
use ghostmesh.Runtime.State.{Runtime, get_card}
use ghostmesh.Nodes.{node_of}
use ghostmesh.Nodes.Sinks.{must_read}
use ghostmesh.Boundaries.{
  SinkBoundaryContract, BoundarySinkRequest, Adapters, ensure_authorized, fields_of, map_payload,
  find_panel, contract_of, text_at,
}

-- The values of the keys that a template names, as far as they are there.
abbrev named_values : Dict String String → List String → List String
named_values values [] = []
named_values values (part ∷ parts) = text_or (lookup part values) "" ∷ named_values values parts

-- What a request comes to before the runtime is changed.
pub record Egress : Type 0 where
  pub panel : PatchPanel
  pub node : NodeDefinition
  pub card : Card
  pub adapter : String
  pub external_payload : Payload
  pub external_reference : Option String
  pub egress_key : String

module _ (py : Conversions) (adapters : Adapters) where
  abbrev template_values : Card → String → Option String → Dict String String
  template_values card sink_id external_reference =
      ("card_id", py.uuid_text card.id)
      ∷ ("sink_id", sink_id)
      ∷ ("workflow_version", card.workflow_version)
      ∷ ("external_reference", text_or external_reference "")
      ∷ []

  abbrev render_parts : String → Dict String String → List String → Result String
  render_parts template values parts =
      if ltb 1 (length parts) && every (λ part. is_some (lookup part values)) parts
      then ok (join ":" (named_values values parts))
      else adapters.format template values

  abbrev render_with : String → Dict String String → Option String → Result String
  render_with template values (some value) = ok value
  render_with template values none = render_parts template values (map strip (split b'+' template))

  -- `_render_template`
  unfoldable pub render_template : String → Card → String → Option String → Result String
  unfolding split strip join
  render_template template card sink_id external_reference =
      let values = template_values card sink_id external_reference in
      render_with template values (lookup template values)

  -- The reference at the contract's path, or the one in the response.
  abbrev pub reference_of :
      SinkBoundaryContract → BoundarySinkRequest → Json → Result (Option String)
  reference_of contract request env =
      if is_text (text_or contract.external_reference_path "")
      then text_at py env contract.external_reference_path
      else ok (optional_text py (lookup "external_reference" request.external_response))

  abbrev pub sink_envelope : Card → BoundarySinkRequest → Json
  sink_envelope card request = obj (
      field "card" (adapters.dump_card card)
        (field "external_response" (obj (fields_of request.external_response)) end))

  unfoldable pub prepare : BoundarySinkRequest → Runtime → Result Egress
  unfolding find_panel node_of ensure_authorized map_payload render_template
  prepare request rt = do
    panel ← find_panel request.patch_panel_id rt
    node ← node_of panel request.sink_id sink
    contract ← must_read (adapters.read_sink (contract_of "egress_contract" node))
    ensure_authorized contract.auth request.actor_token
    card ← get_card request.card_id rt
    external_payload ← map_payload (sink_envelope card request) contract.payload_map
    external_reference ← reference_of contract request (sink_envelope card request)
    key ←
        render_template (text_or contract.idempotency_key "card_id + sink_id") card node.id
          external_reference
    ok (record {
      panel = panel;
      node = node;
      card = card;
      adapter = contract.adapter;
      external_payload = external_payload;
      external_reference = external_reference;
      egress_key = key;
    })

-- The idempotency key of the execution.
unfoldable pub egress_key_of : Egress → String
egress_key_of e = "boundary-sink:" +++ e.panel.id +++ ":" +++ e.node.id +++ ":" +++ e.egress_key
