-- ===== src/Domain/Panel.antt =====
-- domain/models.py: the immutable topology, `PatchPanel` and its parts.
use ghostmesh.Prelude.{String, ◌≡◌, ◌↔◌, Bool, true, false, Option, List, Dict, Eq, arith, ◌+++◌}
use ghostmesh.Python.{Payload}

pub data NodeType : Type 0 where
  source worker validator learning sink subworkflow : NodeType

abbrev pub type_beq : NodeType → NodeType → Bool
type_beq source source = true
type_beq worker worker = true
type_beq validator validator = true
type_beq learning learning = true
type_beq sink sink = true
type_beq subworkflow subworkflow = true
type_beq _ _ = false

pub type_beq_iff : (a b : NodeType) → (type_beq a b ≡ true) ↔ (a ≡ b)
type_beq_iff a b = ground arith

instance abbrev pub type_eq : Eq NodeType
type_eq = record { beq = type_beq; beq_iff = type_beq_iff }

pub record AcceptanceContract : Type 0 where
  pub id : String
  pub description : String
  pub schema_ref : Option String
  pub rules : List Payload

pub record BucketDefinition : Type 0 where
  pub id : String
  pub description : Option String
  pub input_requirements : List String
  pub output_requirements : List String
  pub acceptance_contract : Option String
  pub shadow_eligible : Bool

pub record NodeDefinition : Type 0 where
  pub id : String
  pub type : NodeType
  pub validator_kind : Option String
  pub description : Option String
  pub input_pipes : List String
  pub output_pipes : List String
  pub acceptance_contract : Option String
  pub config : Payload

pub record EdgeDefinition : Type 0 where
  pub from_node : String
  pub to_node : String
  pub on : String
  pub condition : Option Payload

-- The pattern "^(input|output)$".
pub data Direction : Type 0 where
  input output : Direction

abbrev pub direction_beq : Direction → Direction → Bool
direction_beq input input = true
direction_beq output output = true
direction_beq _ _ = false

pub direction_beq_iff : (a b : Direction) → (direction_beq a b ≡ true) ↔ (a ≡ b)
direction_beq_iff a b = ground arith

instance abbrev pub direction_eq : Eq Direction
direction_eq = record { beq = direction_beq; beq_iff = direction_beq_iff }

pub record PipeBinding : Type 0 where
  pub bucket : String
  pub node : Option String
  pub direction : Option Direction

pub record PatchPanel : Type 0 where
  pub id : String
  pub version : String
  pub description : Option String
  pub buckets : List BucketDefinition
  pub nodes : List NodeDefinition
  pub edges : List EdgeDefinition
  pub pipe_bindings : Dict String PipeBinding
  pub acceptance_contracts : List AcceptanceContract
  pub metadata : Payload

-- `f"{patch_panel.id}:{patch_panel.version}"`
unfoldable pub workflow_version_id : PatchPanel → String
workflow_version_id p = p.id +++ ":" +++ p.version
