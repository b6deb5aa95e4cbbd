-- ===== src/Tests/Samples.antt =====
-- A panel in the shape of examples/patchpanels: a source, a worker and a sink.
use ghostmesh.Prelude.{ℕ, String, false, Option, none, some, List, [], ◌∷◌}
use ghostmesh.Python.{Json, ℤ, pos, num, Conversions, str}
use ghostmesh.Domain.Panel.{
  NodeType, source, worker, sink, BucketDefinition, NodeDefinition, EdgeDefinition, PipeBinding,
  Direction, input, output, PatchPanel,
}
use ghostmesh.Domain.Work.{ArtifactReference}
use ghostmesh.Runtime.State.{Env}

abbrev pub text_of : Json → String
text_of (str s) = s
text_of _ = ""

abbrev pub int_of : Json → Option ℤ
int_of (num n) = some n
int_of _ = none

abbrev pub py : Conversions
py = record { str_of = text_of; int_of = int_of; uuid_text = λ n. "uuid"; isoformat = λ t. "time" }

abbrev pub bucket : String → BucketDefinition
bucket id = record {
  id = id;
  description = none;
  input_requirements = [];
  output_requirements = [];
  acceptance_contract = none;
  shadow_eligible = false;
}

abbrev pub node : String → NodeType → List String → List String → NodeDefinition
node id type ins outs = record {
  id = id;
  type = type;
  validator_kind = none;
  description = none;
  input_pipes = ins;
  output_pipes = outs;
  acceptance_contract = none;
  config = [];
}

abbrev pub edge : String → String → EdgeDefinition
edge a b = record { from_node = a; to_node = b; on = "done"; condition = none }

abbrev pub binding : String → String → Direction → PipeBinding
binding b n d = record { bucket = b; node = some n; direction = some d }

abbrev pub panel : PatchPanel
panel = record {
  id = "hello";
  version = "1.0";
  description = none;
  buckets = bucket "todo" ∷ bucket "done" ∷ [];
  nodes =
      node "intake" source [] ("new_work" ∷ [])
      ∷ node "writer" worker ("write_in" ∷ []) ("write_out" ∷ [])
      ∷ node "deliver" sink ("deliver_in" ∷ []) []
      ∷ [];
  edges = edge "intake" "writer" ∷ edge "writer" "deliver" ∷ [];
  pipe_bindings =
      ("new_work", binding "todo" "intake" output)
      ∷ ("write_in", binding "todo" "writer" input)
      ∷ ("write_out", binding "done" "writer" output)
      ∷ ("deliver_in", binding "done" "deliver" input)
      ∷ [];
  acceptance_contracts = [];
  metadata = [];
}

-- A call at the instant `t`, with fresh identifiers from `n` on.
abbrev pub env : ℕ → ℕ → Env
env t n = record {
  now = t;
  written_at = t;
  stamped_at = t;
  occurred_at = t;
  new_id = n;
  event_id = n;
}

abbrev pub reference : ℕ → ℕ → ArtifactReference
reference id card_id = record {
  id = id;
  card_id = card_id;
  event_id = none;
  storage_ref = "file:draft";
  content_hash = "sha256:00";
  content_type = "text/plain";
  size_bytes = pos 5;
  metadata = [];
  created_at = 0;
}
