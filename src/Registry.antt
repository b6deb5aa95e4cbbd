-- ===== src/Registry.antt =====
-- registry/service.py: `InMemoryPatchPanelRegistry`.
pub mod Archiving
use ghostmesh.Prelude.{
  ℕ, String, ◌≡◌, Bool, true, false, not, ◌&&◌, ◌||◌, Option, none, some, List, [], ◌∷◌, mem, keep,
  Dict, lookup, insert, values, ◌==◌, nat_eq, string_eq, option_eq, is_text, if◌then◌else◌,
}
use ghostmesh.Errors.{entry_missing, entry_not_draft}
use ghostmesh.Result.{Result, ok, err, or_raise, raise_if, ◌>>=◌, ◌>>◌}
use ghostmesh.Exec.{Exec}
use ghostmesh.Domain.Registry.{
  PatchPanelRegistryEntry, PatchPanelRegistryMetadata, draft, archived, superseded, status_eq,
}

pub record PatchPanelRegistrySearch : Type 0 where
  pub tag : Option String
  pub input_type : Option String
  pub output_type : Option String
  pub required_tool : Option String
  pub risk_level : Option String
  pub owner_participant_id : Option String
  pub include_archived : Bool
  pub include_superseded : Bool

abbrev pub no_filter : PatchPanelRegistrySearch
no_filter = record {
  tag = none;
  input_type = none;
  output_type = none;
  required_tool = none;
  risk_level = none;
  owner_participant_id = none;
  include_archived = false;
  include_superseded = false;
}

-- `filters.x and ...`: an absent or empty filter asks for nothing.
abbrev pub asks : Option String → (String → Bool) → Bool
asks none test = true
asks (some s) test = if is_text s then test s else true

-- `_entry_matches`
unfoldable pub entry_matches : PatchPanelRegistryEntry → PatchPanelRegistrySearch → Bool
entry_matches entry filters =
    (filters.include_archived || not (entry.status == archived))
    && (filters.include_superseded || not (entry.status == superseded))
    && asks filters.tag (λ s. mem s entry.tags)
    && asks filters.input_type (λ s. mem s entry.input_types)
    && asks filters.output_type (λ s. mem s entry.output_types)
    && asks filters.required_tool (λ s. mem s entry.required_tools)
    && asks filters.risk_level (λ s. some s == entry.risk_level)
    && asks filters.owner_participant_id (λ s. some s == entry.owner_participant_id)

-- `_entry_with_metadata`, at the instant `now`.
unfoldable pub entry_with_metadata :
    (now : ℕ) → PatchPanelRegistryEntry → PatchPanelRegistryMetadata → PatchPanelRegistryEntry
entry_with_metadata now entry m = record entry {
  name = m.name;
  description = m.description;
  tags = m.tags;
  input_types = m.input_types;
  output_types = m.output_types;
  required_tools = m.required_tools;
  required_permissions = m.required_permissions;
  risk_level = m.risk_level;
  estimated_cost = m.estimated_cost;
  estimated_latency = m.estimated_latency;
  owner_participant_id = m.owner_participant_id;
  status = m.status;
  updated_at = now;
}

abbrev pub Registry : Type 0
Registry = Dict ℕ PatchPanelRegistryEntry

unfoldable pub register : PatchPanelRegistryEntry → Registry → Registry
register entry reg = insert entry.id entry reg

unfoldable pub get : ℕ → Registry → Result PatchPanelRegistryEntry
get id reg = or_raise (lookup id reg) (entry_missing id)

unfoldable pub search : PatchPanelRegistrySearch → Registry → List PatchPanelRegistryEntry
search filters reg = keep (λ e. entry_matches e filters) (values reg)

-- What the last three operations share: the entry that was computed is stored under its own id.
abbrev pub stored : Result PatchPanelRegistryEntry → Exec Registry PatchPanelRegistryEntry
stored (ok e) reg = (ok e, insert e.id e reg)
stored (err x) reg = (err x, reg)

unfoldable pub update_metadata :
    (now id : ℕ) → PatchPanelRegistryMetadata → Exec Registry PatchPanelRegistryEntry
unfolding get entry_with_metadata
update_metadata now id m reg =
    stored
      (do
        entry ← get id reg
        raise_if (not (entry.status == draft)) entry_not_draft
        ok (entry_with_metadata now entry m))
      reg

-- The two readings of the clock in `archive` are two arguments.
unfoldable pub archive : (archived_at updated_at id : ℕ) → Exec Registry PatchPanelRegistryEntry
unfolding get
archive archived_at updated_at id reg =
    stored
      (do
        entry ← get id reg
        ok (record entry {
          status = archived;
          archived_at = some archived_at;
          updated_at = updated_at;
        }))
      reg

unfoldable pub supersede : (now id by : ℕ) → Exec Registry PatchPanelRegistryEntry
unfolding get
supersede now id by reg =
    stored
      (do
        entry ← get id reg
        ok (record entry { status = superseded; supersedes_entry_id = some by; updated_at = now }))
      reg
