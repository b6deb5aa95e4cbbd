-- ===== src/Domain/Registry.antt =====
-- domain/models.py: the registry of panels, and the intents of genesis.
use ghostmesh.Prelude.{ℕ, String, ◌≡◌, ◌↔◌, Bool, true, false, Option, none, List, Eq, arith}
use ghostmesh.Python.{Payload}
use ghostmesh.Domain.Authority.{PermissionName}
use ghostmesh.Domain.Panel.{PatchPanel}

pub data PatchPanelRegistryStatus : Type 0 where
  draft review approved published archived superseded : PatchPanelRegistryStatus

abbrev pub status_beq : PatchPanelRegistryStatus → PatchPanelRegistryStatus → Bool
status_beq draft draft = true
status_beq review review = true
status_beq approved approved = true
status_beq published published = true
status_beq archived archived = true
status_beq superseded superseded = true
status_beq _ _ = false

pub status_beq_iff : (a b : PatchPanelRegistryStatus) → (status_beq a b ≡ true) ↔ (a ≡ b)
status_beq_iff a b = ground arith

instance abbrev pub status_eq : Eq PatchPanelRegistryStatus
status_eq = record { beq = status_beq; beq_iff = status_beq_iff }

pub record PatchPanelRegistryMetadata : Type 0 where
  pub name : String
  pub description : Option String
  pub tags : List String
  pub input_types : List String
  pub output_types : List String
  pub required_tools : List String
  pub required_permissions : List PermissionName
  pub risk_level : Option String
  pub estimated_cost : Option String
  pub estimated_latency : Option String
  pub owner_participant_id : Option String
  pub status : PatchPanelRegistryStatus

pub record PatchPanelRegistryEntry : Type 0 where
  pub id : ℕ
  pub patch_panel_id : String
  pub version : String
  pub name : String
  pub description : Option String
  pub tags : List String
  pub input_types : List String
  pub output_types : List String
  pub required_tools : List String
  pub required_permissions : List PermissionName
  pub risk_level : Option String
  pub estimated_cost : Option String
  pub estimated_latency : Option String
  pub owner_participant_id : Option String
  pub status : PatchPanelRegistryStatus
  pub supersedes_entry_id : Option ℕ
  pub metadata : Payload
  pub created_at : ℕ
  pub updated_at : ℕ
  pub archived_at : Option ℕ

-- `PatchPanelRegistryEntry.from_patch_panel`, with the new id and the two readings of the clock.
unfoldable pub from_patch_panel :
    (id created_at updated_at : ℕ)
    → PatchPanel
    → PatchPanelRegistryMetadata
    → Option ℕ
    → Payload
    → PatchPanelRegistryEntry
from_patch_panel id created_at updated_at panel m supersedes metadata = record {
  id = id;
  patch_panel_id = panel.id;
  version = panel.version;
  name = m.name;
  description = m.description;
  tags = m.tags;
  input_types = m.input_types;
  output_types = m.output_types;
  required_tools = m.required_tools;
  required_permissions = m.required_permissions;
  risk_level = m.risk_level;
  estimated_cost = m.estimated_cost;
  estimated_latency = m.estimated_latency;
  owner_participant_id = m.owner_participant_id;
  status = m.status;
  supersedes_entry_id = supersedes;
  metadata = metadata;
  created_at = created_at;
  updated_at = updated_at;
  archived_at = none;
}

pub record GenesisIntentConstraints : Type 0 where
  pub risk_level : Option String
  pub max_latency : Option String
  pub requires_human_approval : Bool
  pub metadata : Payload

pub data GenesisIntentStatus : Type 0 where
  received launched design_required proposed : GenesisIntentStatus

pub record GenesisIntent : Type 0 where
  pub id : ℕ
  pub requested_by : String
  pub deduplication_key : String
  pub goal : String
  pub input_type : String
  pub desired_outputs : List String
  pub tags : List String
  pub constraints : GenesisIntentConstraints
  pub launch_if_existing : Bool
  pub propose_if_missing : Bool
  pub status : GenesisIntentStatus
  pub candidate_registry_entry_ids : List ℕ
  pub selected_registry_entry_id : Option ℕ
  pub launched_card_id : Option ℕ
  pub proposal_card_id : Option ℕ
  pub created_at : ℕ
  pub updated_at : ℕ
  pub metadata : Payload
