-- ===== src/Boundaries.antt =====
-- boundaries.py: `BoundaryAdapterService`, over the runtime in memory. Each call makes an executor of
-- nodes, with the runtime alone.
pub mod Ingress
pub mod Source
pub mod Egress
pub mod Sink
pub mod Access
pub mod Deduplication
pub mod Isolation
use ghostmesh.Prelude.{
  ℕ, String, Bool, true, false, not, ◌&&◌, ◌||◌, Option, none, some, List, [], ◌∷◌, any, every, map,
  mem, first, length, ltb, lookup, insert, update, Dict, ◌==◌, string_eq, is_some, is_empty,
  is_text, if◌then◌else◌, ◌+++◌,
}
use ghostmesh.Prelude.Splitting.{split, strip, join}
use ghostmesh.Python.{
  Json, null, str, obj, Fields, end, field, get_field, text_or_null, Payload, Conversions,
}
use ghostmesh.Errors.{
  panel_not_registered, boundary_unauthorized, boundary_path_missing, boundary_target_differs,
}
use ghostmesh.Result.{Result, ok, err, or_raise, raise_if, ◌>>=◌, ◌>>◌}
use ghostmesh.Exec as Effects
use ghostmesh.Exec.{Exec, zoom}
use ghostmesh.Domain.Panel.{source, sink, NodeDefinition, PatchPanel, workflow_version_id}
use ghostmesh.Domain.Work.{Card, CardEvent}
use ghostmesh.PanelValidator.{GraphLibrary}
use ghostmesh.Runtime.State.{Runtime, Env, get_card}
use ghostmesh.Runtime.Cards.{list_patch_panels, record_event}
use ghostmesh.Nodes.{Nodes, NodeEnv, Decoded, Models, node_of}
use ghostmesh.Nodes.Work as Work
use ghostmesh.Nodes.Sinks as Sinks
use ghostmesh.Nodes.Sinks.{SinkResult, must_read}

pub record BoundaryAuth : Type 0 where
  pub token : Option String
  pub tokens : List String

pub record SourceBoundaryContract : Type 0 where
  pub adapter : String
  pub auth : Option BoundaryAuth
  pub payload_map : Dict String String
  pub metadata_map : Dict String String
  pub deduplication_key : Option String
  pub target_workflow_version : Option String

pub record SinkBoundaryContract : Type 0 where
  pub adapter : String
  pub auth : Option BoundaryAuth
  pub payload_map : Dict String String
  pub idempotency_key : Option String
  pub external_reference_path : Option String

pub record BoundarySourceRequest : Type 0 where
  pub patch_panel_id : String
  pub source_id : String
  pub external_payload : Payload
  pub headers : Payload
  pub actor_token : Option String

pub record BoundarySinkRequest : Type 0 where
  pub patch_panel_id : String
  pub sink_id : String
  pub card_id : ℕ
  pub external_response : Payload
  pub actor_token : Option String

pub record SourceBoundaryResult : Type 0 where
  pub card : Card
  pub deduplication_key : Option String
  pub adapter : String

pub record SinkBoundaryResult : Type 0 where
  pub event : CardEvent
  pub external_reference : Option String
  pub egress_idempotency_key : String
  pub adapter : String

-- What the module asks of other libraries: pydantic's reading of the two contracts and its dump of a
-- card, and Python's `str.format` with keywords.
pub record Adapters : Type 0 where
  pub read_source : Json → Decoded SourceBoundaryContract
  pub read_sink : Json → Decoded SinkBoundaryContract
  pub dump_card : Card → Json
  pub format : String → Dict String String → Result String

-- The clock and the ids of the executor's calls, and of the call after them.
pub record BoundaryEnv : Type 0 where
  pub for_node : NodeEnv
  pub for_event : Env

abbrev pub given : Option String → List String
given none = []
given (some s) = if is_text s then s ∷ [] else []

abbrev pub is_among : Option String → List String → Bool
is_among none ts = false
is_among (some t) ts = mem t ts

abbrev pub allowed_by : BoundaryAuth → List String → Option String → Result Unit
allowed_by auth extra actor_token =
    raise_if
      (not (is_empty auth.tokens && is_empty extra)
        && not (is_among actor_token auth.tokens || is_among actor_token extra))
      boundary_unauthorized

-- `_ensure_authorized`. The set of the allowed tokens is in two lists.
unfoldable pub ensure_authorized : Option BoundaryAuth → Option String → Result Unit
ensure_authorized none actor_token = ok tt
ensure_authorized (some auth) actor_token = allowed_by auth (given auth.token) actor_token

abbrev pub fields_of : Payload → Fields
fields_of [] = end
fields_of ((k, v) ∷ p) = field k v (fields_of p)

-- `_envelope`
unfoldable pub envelope : Payload → Payload → Json
envelope payload headers =
    obj (field "payload" (obj (fields_of payload)) (field "headers" (obj (fields_of headers)) end))

abbrev step : Json → String → Result Json
step (obj fs) part = or_raise (get_field part fs) boundary_path_missing
step v part = err boundary_path_missing

unfoldable pub follow : Json → List String → Result Json
follow value [] = ok value
follow value (part ∷ parts) = do next ← step value part; follow next parts

-- `_extract_path`
unfoldable pub extract_path : Json → String → Result Json
unfolding follow split
extract_path env path = if is_text path then follow env (split b'.' path) else ok null

unfoldable pub map_into : Json → Dict String String → Payload → Result Payload
unfolding extract_path
map_into env [] mapped = ok mapped
map_into env ((target, path) ∷ mapping) mapped = do
  value ← extract_path env path
  map_into env mapping (insert target value mapped)

-- `_map_payload`
unfoldable pub map_payload : Json → Dict String String → Result Payload
unfolding map_into
map_payload env mapping = map_into env mapping []

-- `_patch_panel`
unfoldable pub find_panel : String → Runtime → Result PatchPanel
find_panel id rt =
    or_raise (first (λ (p : PatchPanel). p.id == id) (list_patch_panels rt))
      (panel_not_registered id)

abbrev or_else : Option Json → Json → Json
or_else none v = v
or_else (some v) w = v

-- `node.config.get("boundary_contract", node.config.get(key, {}))`
abbrev pub contract_of : String → NodeDefinition → Json
contract_of key node =
    or_else (lookup "boundary_contract" node.config) (or_else (lookup key node.config) (obj end))

-- `str(value)` of what stands at a path, where there is one that is not empty.
abbrev pub text_at : Conversions → Json → Option String → Result (Option String)
text_at py env none = ok none
text_at py env (some path) =
    if is_text path
    then (do value ← extract_path env path; ok (some (py.str_of value)))
    else ok none

abbrev pub on_executor : {A : Type 0} → Exec Nodes A → Exec Runtime A
on_executor =
    zoom (λ rt. record { runtime = rt; registry = none; authorization_repository = none })
      (λ (s : Nodes) rt. s.runtime)
