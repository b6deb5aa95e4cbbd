-- ===== src/Nodes.antt =====
-- nodes/executor.py: `NodeExecutor`, over the runtime, the registry and the authorization repository
-- in memory. Its own methods that only look things up are here; what a node does is in the children.
pub mod Work
pub mod Handlers
pub mod Validation
pub mod Sinks
pub mod Untouched
pub mod Judging
pub mod Topology
pub mod Governance
pub mod Publication
pub mod Provisioning
pub mod Delivery
pub mod Replay
use ghostmesh.Prelude.{
  ℕ, String, Bool, true, false, not, ◌&&◌, ◌||◌, Option, none, some, List, [], ◌∷◌, any, first, mem,
  length, ltb, lookup, ◌==◌, nat_eq, string_eq, option_eq, is_none, if◌then◌else◌,
}
use ghostmesh.Python.{Json, str, arr, items_of, is_str, is_true, Payload}
use ghostmesh.Errors.{
  node_missing, node_type_differs, pipe_without_node, exit_not_declared, exit_not_bound,
  exit_not_output, config_missing,
}
use ghostmesh.Result.{Result, ok, err, or_raise, raise_if, ◌>>=◌, ◌>>◌}
use ghostmesh.Exec.{Exec, zoom}
use ghostmesh.Domain.Panel.{
  NodeType, NodeDefinition, PipeBinding, output, PatchPanel, type_eq, direction_eq,
}
use ghostmesh.Domain.Authority.{Participant, RoleName, Scope}
use ghostmesh.Domain.Registry.{PatchPanelRegistryMetadata}
use ghostmesh.Domain.Work.{CardEvent}
use ghostmesh.Errors.{Error}
use ghostmesh.Registry.{Registry}
use ghostmesh.Auth.Repository.{Repository}
use ghostmesh.Auth.Catalog.{GrantEnv}
use ghostmesh.Runtime.State.{Runtime, Env}

-- The executor's panel is immutable, and an argument of its methods.
pub record Nodes : Type 0 where
  pub runtime : Runtime
  pub registry : Option Registry
  pub authorization_repository : Option Repository

-- What a call takes from outside: the clock and the ids of its calls of the runtime, in their order,
-- those of a new registry entry, and those of the role assignments, by their place in the list.
pub record NodeEnv : Type 0 where
  pub first_call : Env
  pub second_call : Env
  pub entry_id : ℕ
  pub entry_created_at : ℕ
  pub entry_updated_at : ℕ
  pub grants : ℕ → GrantEnv

-- A reading of a value as a model, by pydantic: the model, or the text of its `ValidationError`.
pub data Decoded (A : Type 0) : Type 0 where
  decoded : A → Decoded A
  refused : String → Decoded A

pub record RoleRequest : Type 0 where
  pub role_name : RoleName
  pub scope : Scope
  pub assigned_by : Option String

-- `ParticipantOnboardingPayload`
pub record Onboarding : Type 0 where
  pub participant : Participant
  pub role_assignments : List RoleRequest

-- pydantic's `model_validate` of three models, and the texts of the validator's messages.
pub record Models : Type 0 where
  pub read_panel : Option Json → Decoded PatchPanel
  pub read_metadata : Option Json → Decoded PatchPanelRegistryMetadata
  pub read_onboarding : Payload → Decoded Onboarding
  pub messages : Error → List String
  pub text_of : Error → String

-- `self.runtime.<method>(...)`
abbrev pub on_runtime : {A : Type 0} → Exec Runtime A → Exec Nodes A
on_runtime = zoom (λ s. s.runtime) (λ rt s. record s { runtime = rt })

unfoldable pub find_node : List NodeDefinition → String → NodeType → Result NodeDefinition
find_node [] node_id expected = err (node_missing node_id)
find_node (n ∷ ns) node_id expected =
    if n.id == node_id
    then (if n.type == expected then ok n else err (node_type_differs node_id))
    else find_node ns node_id expected

-- `_node`
unfoldable pub node_of : PatchPanel → String → NodeType → Result NodeDefinition
unfolding find_node
node_of panel node_id expected = find_node panel.nodes node_id expected

abbrev node_bound : String → Option PipeBinding → Result String
node_bound pipe none = err (pipe_without_node pipe)
node_bound pipe (some b) = or_raise b.node (pipe_without_node pipe)

-- `_node_for_pipe`
unfoldable pub node_for_pipe : PatchPanel → String → NodeType → Result NodeDefinition
unfolding node_of
node_for_pipe panel pipe expected = do
  node_id ← node_bound pipe (lookup pipe panel.pipe_bindings)
  node_of panel node_id expected

-- `_ensure_validator_exit`
unfoldable pub ensure_validator_exit : PatchPanel → NodeDefinition → String → Result Unit
ensure_validator_exit panel node selected_exit = do
  raise_if (not (mem selected_exit node.output_pipes)) (exit_not_declared node.id selected_exit)
  binding ←
      or_raise (lookup selected_exit panel.pipe_bindings) (exit_not_bound node.id selected_exit)
  raise_if (not (binding.node == some node.id) || not (binding.direction == some output))
      (exit_not_output node.id selected_exit)

-- `_requires_selected_exit`
unfoldable pub requires_selected_exit : NodeDefinition → Bool
requires_selected_exit node =
    node.validator_kind == some "routing" || ltb 1 (length node.output_pipes)

abbrev as_text : Option Json → Option String
as_text (some (str s)) = some s
as_text _ = none

-- `_configured_exit`
unfoldable pub configured_exit : NodeDefinition → String → Result String
configured_exit node key = or_raise (as_text (lookup key node.config)) (config_missing node.id key)

-- One validator's acceptance, at one exit, stands in the history.
unfoldable pub accepted_by : (validator_id exit : String) → List CardEvent → Bool
accepted_by validator_id exit history =
    any
      (λ e.
        e.event_type == "card_validated"
        && e.actor_id == some validator_id
        && is_true (lookup "accepted" e.payload)
        && is_str exit (lookup "output_pipe" e.payload))
      history
