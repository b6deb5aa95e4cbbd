-- ===== src/Observability/Topology.antt =====
-- observability.py: `topology` with the diagram of the panel, and `dashboard`.
use ghostmesh.Prelude.{
  ℕ, String, Option, List, [], ◌∷◌, ◌++◌, map, Dict, ◌==◌, string_eq, first, ◌+++◌,
}
use ghostmesh.Python.{Json, Payload, Conversions}
use ghostmesh.Errors.{panel_not_registered}
use ghostmesh.Result.{Result, ok, or_raise, ◌>>=◌}
use ghostmesh.Domain.Panel.{
  NodeType, source, worker, validator, sink, learning, subworkflow, BucketDefinition,
  NodeDefinition, EdgeDefinition, PatchPanel,
}
use ghostmesh.Domain.Work.{CardEvent}
use ghostmesh.Runtime.State.{Runtime}
use ghostmesh.Runtime.Cards.{list_patch_panels}
use ghostmesh.Observability.{
  ActiveLease, Activity, Decision, Metrics, bucket_load, active_leases, worker_activity,
  validator_decisions, failed_movements, metrics,
}

abbrev type_value : NodeType → String
type_value source = "source"
type_value worker = "worker"
type_value validator = "validator"
type_value sink = "sink"
type_value learning = "learning"
type_value subworkflow = "subworkflow"

abbrev node_label : String → NodeType → String
node_label node_id type = node_id +++ "\\n" +++ type_value type

-- `_node_shape`
abbrev pub node_shape : String → NodeType → String
node_shape node_id source = "([\"" +++ node_label node_id source +++ "\"])"
node_shape node_id sink = "([\"" +++ node_label node_id sink +++ "\"])"
node_shape node_id type = "[\"" +++ node_label node_id type +++ "\"]"

abbrev pub join_lines : List String → String
join_lines [] = ""
join_lines (l ∷ []) = l
join_lines (l ∷ m ∷ ls) = l +++ "\n" +++ join_lines (m ∷ ls)

-- `_mermaid`
unfoldable pub mermaid : PatchPanel → String
mermaid panel = join_lines (
    "flowchart LR"
      ∷ map (λ (n : NodeDefinition). "  " +++ n.id +++ node_shape n.id n.type) panel.nodes
    ++ map
        (λ (e : EdgeDefinition). "  " +++ e.from_node +++ " -- " +++ e.on +++ " --> " +++ e.to_node)
        panel.edges)

pub record NodeSummary : Type 0 where
  pub id : String
  pub type : NodeType
  pub validator_kind : Option String
  pub input_pipes : List String
  pub output_pipes : List String

pub record EdgeSummary : Type 0 where
  pub from_node : String
  pub to_node : String
  pub on : String
  pub condition : Option Payload

pub record Topology : Type 0 where
  pub patch_panel_id : String
  pub version : String
  pub nodes : List NodeSummary
  pub edges : List EdgeSummary
  pub buckets : List Json
  pub diagram : String

pub record Dashboard : Type 0 where
  pub panel : Topology
  pub load : Dict String ℕ
  pub leases : List ActiveLease
  pub activity : Activity
  pub decisions : List Decision
  pub failed : List CardEvent
  pub measured : Metrics

-- `_patch_panel`
unfoldable pub panel_of : String → Runtime → Result PatchPanel
panel_of id rt =
    or_raise (first (λ (p : PatchPanel). p.id == id) (list_patch_panels rt))
      (panel_not_registered id)

-- The parameter is pydantic's `model_dump` of a bucket.
module _ (dump_bucket : BucketDefinition → Json) (py : Conversions) where
  unfoldable pub topology : String → Runtime → Result Topology
  unfolding panel_of mermaid
  topology id rt = do
    panel ← panel_of id rt
    ok (record {
      patch_panel_id = panel.id;
      version = panel.version;
      nodes =
          map
            (λ (n : NodeDefinition). record {
              id = n.id;
              type = n.type;
              validator_kind = n.validator_kind;
              input_pipes = n.input_pipes;
              output_pipes = n.output_pipes;
            })
            panel.nodes;
      edges =
          map
            (λ (e : EdgeDefinition). record {
              from_node = e.from_node;
              to_node = e.to_node;
              on = e.on;
              condition = e.condition;
            })
            panel.edges;
      buckets = map dump_bucket panel.buckets;
      diagram = mermaid panel;
    })

  -- The clock is read for the leases, and again for the metrics.
  unfoldable pub dashboard : (first_now second_now : ℕ) → String → Runtime → Result Dashboard
  unfolding topology
  dashboard first_now second_now id rt = do
    panel ← topology id rt
    activity ← worker_activity py rt
    decisions ← validator_decisions py rt
    failed ← failed_movements py rt
    measured ← metrics py second_now rt
    ok (record {
      panel = panel;
      load = bucket_load rt;
      leases = active_leases first_now rt;
      activity = activity;
      decisions = decisions;
      failed = failed;
      measured = measured;
    })
