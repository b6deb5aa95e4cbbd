-- ===== src/Bootstrap.antt =====
-- defaults/bootstrap.py: `SystemWorkflowBootstrapper`, over the runtime and the registry in memory.
pub mod Settled
use ghostmesh.Prelude.{
  ℕ, suc, String, Bool, true, false, not, ◌&&◌, Option, none, some, List, [], ◌∷◌, any, lookup,
  ◌==◌, string_eq, if◌then◌else◌, values,
}
use ghostmesh.Python.{Json, boolean, str, obj, Fields, end, field, get_field}
use ghostmesh.Result.{Result, ok, err}
use ghostmesh.Exec.{Exec, lift, gets, pure, modify, zoom, ◌>>=◌, ◌>>◌}
use ghostmesh.Domain.Panel.{PatchPanel}
use ghostmesh.Domain.Registry.{
  PatchPanelRegistryEntry, PatchPanelRegistryMetadata, published, from_patch_panel,
}
use ghostmesh.PanelValidator.{GraphLibrary}
use ghostmesh.Registry.{Registry, register, search}
use ghostmesh.Runtime.State.{Runtime}
use ghostmesh.Runtime.Cards.{list_patch_panels, register_patch_panel}
use ghostmesh.Nodes.{Decoded}
use ghostmesh.Nodes.Sinks.{must_read, every_entry}

pub record System : Type 0 where
  pub runtime : Runtime
  pub registry : Registry

pub record BootstrapResult : Type 0 where
  pub patch_panel_id : String
  pub version : String
  pub registered_runtime : Bool
  pub registered_registry : Bool

-- The id and the two times of a new entry.
pub record EntryEnv : Type 0 where
  pub id : ℕ
  pub created_at : ℕ
  pub updated_at : ℕ

-- The file of a configured path: the panel that is loaded from it, and the path as it was resolved.
-- And pydantic's reading of the metadata.
pub record Files : Type 0 where
  pub load : String → Result PatchPanel
  pub resolve : String → String
  pub read_metadata : Json → Decoded PatchPanelRegistryMetadata

abbrev or_published : Option Json → Json
or_published none = str "published"
or_published (some v) = v

abbrev without : String → Fields → Fields
without key end = end
without key (field k v fs) = if key == k then without key fs else field k v (without key fs)

abbrev standard : PatchPanelRegistryMetadata
standard = record {
  name = "System Patch Panel Approval";
  description = some "System workflow for Patch Panel proposal validation and governance.";
  tags = "system" ∷ "governance" ∷ "patch-panel-approval" ∷ [];
  input_types = "patch_panel_proposal" ∷ [];
  output_types = "patch_panel_registry_entry" ∷ [];
  required_tools = [];
  required_permissions = [];
  risk_level = some "medium";
  estimated_cost = none;
  estimated_latency = none;
  owner_participant_id = none;
  status = published;
}

-- `_registry_metadata_for`: the status is "published" where the dictionary has none.
unfoldable pub registry_metadata_for : Files → Option Json → Result PatchPanelRegistryMetadata
registry_metadata_for files (some (obj fs)) = must_read (
    files.read_metadata
      (obj (field "status" (or_published (get_field "status" fs)) (without "status" fs))))
registry_metadata_for files raw = ok standard

unfoldable pub in_runtime : PatchPanel → Runtime → Bool
in_runtime panel rt =
    any (λ (p : PatchPanel). p.id == panel.id && p.version == panel.version) (list_patch_panels rt)

unfoldable pub in_registry : PatchPanel → Registry → Bool
in_registry panel reg =
    any (λ e. e.patch_panel_id == panel.id && e.version == panel.version) (search every_entry reg)

abbrev pub nothing : Exec System Unit
nothing = pure tt

abbrev pub unless : Bool → Exec System Unit → Exec System Unit
unless b m = if b then nothing else m

abbrev pub register_in_runtime : GraphLibrary → PatchPanel → Exec System PatchPanel
register_in_runtime nx panel =
    zoom (λ s. s.runtime) (λ rt s. record s { runtime = rt }) (register_patch_panel nx panel)

module _ (files : Files) where
  abbrev pub new_entry :
      EntryEnv → String → PatchPanel → PatchPanelRegistryMetadata → PatchPanelRegistryEntry
  new_entry env path panel m =
      from_patch_panel env.id env.created_at env.updated_at panel m none
        (("system_workflow", boolean true) ∷ ("source_path", str (files.resolve path)) ∷ [])

  abbrev pub register_entry : EntryEnv → String → PatchPanel → Exec System Unit
  register_entry env path panel = do
    m ← lift (registry_metadata_for files (lookup "registry" panel.metadata))
    modify (λ s. record s { registry = register (new_entry env path panel m) s.registry })

module _ (nx : GraphLibrary) (files : Files) where
  -- The body of the loop.
  unfoldable pub install : EntryEnv → String → Exec System BootstrapResult
  unfolding in_runtime in_registry
  install env path = do
    panel ← lift (files.load path)
    runtime_registered ← gets (λ s. in_runtime panel s.runtime)
    unless runtime_registered (register_in_runtime nx panel >> nothing)
    registry_registered ← gets (λ s. in_registry panel s.registry)
    unless registry_registered (register_entry files env path panel)
    pure (record {
      patch_panel_id = panel.id;
      version = panel.version;
      registered_runtime = not runtime_registered;
      registered_registry = not registry_registered;
    })

  -- The `n`-th new entry takes the `n`-th id.
  unfoldable pub bootstrap : (ℕ → EntryEnv) → ℕ → List String → Exec System (List BootstrapResult)
  unfolding install
  bootstrap env n [] = pure []
  bootstrap env n (path ∷ paths) = do
    result ← install (env n) path
    results ← bootstrap env (suc n) paths
    pure (result ∷ results)
