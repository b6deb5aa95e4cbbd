-- ===== src/PanelValidator/Meaning.antt =====
-- What a validated panel is, stated on the panel alone: no graph library, no dictionary of pipes.
use ghostmesh.Prelude.{
  String, ◌≡◌, ◌≢◌, ◌⊎◌, Option, none, some, List, In, All, is_some, is_text, lookup, true,
  string_eq,
}
use ghostmesh.Domain.Panel.{source, sink, NodeDefinition, EdgeDefinition, PatchPanel}
use ghostmesh.PanelValidator.Checks.{node_ids, bucket_ids, contract_ids}

-- A name that is given and not empty is among the known ones.
abbrev pub IsKnown : Option String → List String → Type 0
IsKnown none known = Unit
IsKnown (some name) known = is_text name ≡ true → In name known

-- The nodes that the edges lead to, from a node of type source, in zero steps or more.
pub data Reached (panel : PatchPanel) : String → Type 0 where
  at_source : (n : NodeDefinition) → In n panel.nodes → n.type ≡ source → Reached panel n.id
  along :
      (e : EdgeDefinition) → In e panel.edges → Reached panel e.from_node → Reached panel e.to_node

pub record IsWellFormed (panel : PatchPanel) : Type 0 where
  pub bucket_contracts : All (λ b. IsKnown b.acceptance_contract (contract_ids panel)) panel.buckets
  pub node_contracts : All (λ n. IsKnown n.acceptance_contract (contract_ids panel)) panel.nodes
  pub edge_ends :
      All (λ e. In e.from_node (node_ids panel) × In e.to_node (node_ids panel)) panel.edges
  pub inputs_bound :
      All (λ n. All (λ p. is_some (lookup p panel.pipe_bindings) ≡ true) n.input_pipes) panel.nodes
  pub outputs_bound :
      All (λ n. All (λ p. is_some (lookup p panel.pipe_bindings) ≡ true) n.output_pipes) panel.nodes
  pub binding_buckets : All (λ b. In b.1.bucket (bucket_ids panel)) panel.pipe_bindings
  pub some_source : (n : NodeDefinition) × In n panel.nodes × (n.type ≡ source)
  pub some_sink : (n : NodeDefinition) × In n panel.nodes × (n.type ≡ sink)
  pub nothing_into_sources :
      (n : NodeDefinition) (e : EdgeDefinition)
      → In n panel.nodes
      → n.type ≡ source
      → In e panel.edges
      → e.to_node ≢ n.id
  pub nothing_out_of_sinks :
      (n : NodeDefinition) (e : EdgeDefinition)
      → In n panel.nodes
      → n.type ≡ sink
      → In e panel.edges
      → e.from_node ≢ n.id
  pub all_reached : (n : NodeDefinition) → In n panel.nodes → Reached panel n.id
  pub no_dead_end :
      (n : NodeDefinition)
      → In n panel.nodes
      → ((m : NodeDefinition) × In m panel.nodes × (m.type ≡ sink) × (m.id ≡ n.id))
        ⊎ ((e : EdgeDefinition) × In e panel.edges × (e.from_node ≡ n.id))
