-- ===== src/PanelValidator/Checks.antt =====
-- patchpanel/validator.py: each `_validate_*` method as the list of the messages that it appends.
use ghostmesh.Prelude.{
  ℕ, String, Bool, true, false, not, ◌&&◌, ◌||◌, Option, none, some, List, [], ◌∷◌, ◌++◌, map, ltb,
  if◌then◌else◌, ◌==◌, string_eq, option_eq, length, keep, collect, any, mem, is_none, is_text,
  lookup, insert, Dict, is_empty,
}
use ghostmesh.Python.{Json, str, arr, obj, items_of}
use ghostmesh.Errors.{
  PanelError, bucket_contract_unknown, node_contract_unknown, edge_from_unknown, edge_to_unknown,
  exit_undeclared, accept_exits_missing, accept_exit_undeclared, binding_undeclared,
  binding_node_unknown, binding_node_differs, binding_direction_differs, binding_bucket_unknown,
  binding_missing, no_source, no_sink, source_has_incoming, sink_has_outgoing, unreachable,
  dead_end, panel_invalid, bad_value,
}
use ghostmesh.Result.{Result, ok, ◌>>◌, raise_if}
use ghostmesh.Domain.Panel.{
  NodeType, source, validator, sink, NodeDefinition, EdgeDefinition, PipeBinding, Direction, input,
  output, PatchPanel, type_eq, direction_eq,
}
use ghostmesh.PanelValidator.Library.{GraphLibrary}

-- `[e] if test else []`
abbrev pub when : Bool → PanelError → List PanelError
when test e = if test then e ∷ [] else []

abbrev pub node_ids : PatchPanel → List String
node_ids panel = map (λ n. n.id) panel.nodes

abbrev pub bucket_ids : PatchPanel → List String
bucket_ids panel = map (λ b. b.id) panel.buckets

abbrev pub contract_ids : PatchPanel → List String
contract_ids panel = map (λ c. c.id) panel.acceptance_contracts

-- `name and name not in known`, with the name for the message.
abbrev pub unknown : Option String → List String → (String → PanelError) → List PanelError
unknown none known e = []
unknown (some name) known e = when (is_text name && not (mem name known)) (e name)

unfoldable pub validate_contract_references : PatchPanel → List PanelError
validate_contract_references panel =
    collect (λ b. unknown b.acceptance_contract (contract_ids panel) (bucket_contract_unknown b.id))
      panel.buckets
    ++ collect
        (λ n. unknown n.acceptance_contract (contract_ids panel) (node_contract_unknown n.id))
        panel.nodes

unfoldable pub validate_edges : PatchPanel → List PanelError
validate_edges panel =
    collect
      (λ e.
        when (not (mem e.from_node (node_ids panel))) (edge_from_unknown e.from_node)
        ++ when (not (mem e.to_node (node_ids panel))) (edge_to_unknown e.to_node))
      panel.edges

-- The dictionary of the validators' exits; a later node of the same id replaces an earlier one.
unfoldable pub add_validators :
    List NodeDefinition → Dict String (List String) → Dict String (List String)
add_validators [] d = d
add_validators (n ∷ ns) d =
    add_validators ns (if n.type == validator then insert n.id n.output_pipes d else d)

abbrev pub exit_error : EdgeDefinition → Option (List String) → List PanelError
exit_error e none = []
exit_error e (some pipes) = when (not (mem e.on pipes)) (exit_undeclared e.from_node e.on)

unfoldable pub validate_validator_edges : PatchPanel → List PanelError
unfolding add_validators
validate_validator_edges panel =
    collect (λ e. exit_error e (lookup e.from_node (add_validators panel.nodes []))) panel.edges

abbrev pub is_routing_validator : NodeDefinition → Bool
is_routing_validator n = n.validator_kind == some "routing" || ltb 1 (length n.output_pipes)

-- `exit in output_pipes`, for an exit that can be hashed.
abbrev pub exit_in : Json → List String → Bool
exit_in (str s) pipes = mem s pipes
exit_in _ pipes = false

unfoldable pub accept_exit_errors : NodeDefinition → Option Json → List PanelError
accept_exit_errors n (some (arr exits)) =
    collect (λ x. when (not (exit_in x n.output_pipes)) (accept_exit_undeclared n.id x))
      (items_of exits)
accept_exit_errors n _ = accept_exits_missing n.id ∷ []

unfoldable pub validate_routing_validator_accept_exits : PatchPanel → List PanelError
unfolding accept_exit_errors
validate_routing_validator_accept_exits panel =
    collect
      (λ n.
        if n.type == validator && is_routing_validator n
        then accept_exit_errors n (lookup "accept_exits" n.config)
        else [])
      panel.nodes

-- A list or a dictionary among the exits cannot be looked for in a set: a `TypeError`.
abbrev pub unhashable : Json → Bool
unhashable (arr _) = true
unhashable (obj _) = true
unhashable _ = false

abbrev pub unhashable_item : Option Json → Bool
unhashable_item (some (arr exits)) = any unhashable (items_of exits)
unhashable_item _ = false

unfoldable pub unhashable_exit : PatchPanel → Bool
unfolding items_of
unhashable_exit panel =
    any
      (λ n.
        n.type == validator
        && is_routing_validator n
        && unhashable_item (lookup "accept_exits" n.config))
      panel.nodes

abbrev pub Declared : Type 0
Declared = Dict String (String × Direction)

unfoldable pub declare_pipes : List String → String × Direction → Declared → Declared
declare_pipes [] at d = d
declare_pipes (pipe ∷ pipes) at d = declare_pipes pipes at (insert pipe at d)

unfoldable pub declared_pipes : List NodeDefinition → Declared → Declared
unfolding declare_pipes
declared_pipes [] d = d
declared_pipes (n ∷ ns) d =
    declared_pipes ns
      (declare_pipes n.output_pipes (n.id, output) (declare_pipes n.input_pipes (n.id, input) d))

abbrev pub node_errors : PatchPanel → String → Option String → String → List PanelError
node_errors panel pipe none declared = []
node_errors panel pipe (some node) declared =
    when (is_text node && not (mem node (node_ids panel))) (binding_node_unknown pipe node)
    ++ when (is_text node && not (node == declared)) (binding_node_differs pipe node)

abbrev pub direction_errors : String → Option Direction → Direction → List PanelError
direction_errors pipe none declared = []
direction_errors pipe (some d) declared =
    when (not (d == declared)) (binding_direction_differs pipe)

abbrev pub binding_errors :
    PatchPanel → String → PipeBinding → Option (String × Direction) → List PanelError
binding_errors panel pipe binding none = binding_undeclared pipe ∷ []
binding_errors panel pipe binding (some (node, direction)) =
    node_errors panel pipe binding.node node
    ++ direction_errors pipe binding.direction direction
    ++ when (not (mem binding.bucket (bucket_ids panel)))
        (binding_bucket_unknown pipe binding.bucket)

unfoldable pub validate_pipe_bindings : PatchPanel → List PanelError
unfolding declared_pipes
validate_pipe_bindings panel =
    let declared = declared_pipes panel.nodes [] in
    collect (λ (pipe, binding). binding_errors panel pipe binding (lookup pipe declared))
      panel.pipe_bindings
    ++ collect
        (λ (pipe, _). when (is_none (lookup pipe panel.pipe_bindings)) (binding_missing pipe))
        declared

abbrev pub of_type : NodeType → PatchPanel → List NodeDefinition
of_type t panel = keep (λ n. n.type == t) panel.nodes

module _ (nx : GraphLibrary) where
  unfoldable pub add_nodes : List NodeDefinition → nx.DiGraph → nx.DiGraph
  add_nodes [] g = g
  add_nodes (n ∷ ns) g = add_nodes ns (nx.add_node g n.id)

  unfoldable pub add_edges : List EdgeDefinition → nx.DiGraph → nx.DiGraph
  add_edges [] g = g
  add_edges (e ∷ es) g = add_edges es (nx.add_edge g e.from_node e.to_node)

  unfoldable pub build_graph : PatchPanel → nx.DiGraph
  unfolding add_nodes add_edges
  build_graph panel = add_edges panel.edges (add_nodes panel.nodes nx.empty)

  unfoldable pub validate_boundaries : PatchPanel → nx.DiGraph → List PanelError
  validate_boundaries panel graph =
      when (is_empty (of_type source panel)) no_source
      ++ when (is_empty (of_type sink panel)) no_sink
      ++ collect (λ n. when (ltb 0 (nx.in_degree graph n.id)) (source_has_incoming n.id))
          (of_type source panel)
      ++ collect (λ n. when (ltb 0 (nx.out_degree graph n.id)) (sink_has_outgoing n.id))
          (of_type sink panel)

  abbrev pub reachable : PatchPanel → nx.DiGraph → List String
  reachable panel graph =
      let source_ids = map (λ n. n.id) (of_type source panel) in
      source_ids ++ collect (λ s. nx.descendants graph s) source_ids

  unfoldable pub validate_reachability : PatchPanel → nx.DiGraph → List PanelError
  validate_reachability panel graph =
      if is_empty (of_type source panel)
      then []
      else collect (λ n. when (not (mem n.id (reachable panel graph))) (unreachable n.id))
          panel.nodes

  unfoldable pub validate_dead_ends : PatchPanel → nx.DiGraph → List PanelError
  validate_dead_ends panel graph =
      let sink_ids = map (λ n. n.id) (of_type sink panel) in
      collect
        (λ n.
          when (not (mem n.id sink_ids) && not (ltb 0 (nx.out_degree graph n.id))) (dead_end n.id))
        panel.nodes

  unfoldable pub panel_errors : PatchPanel → List PanelError
  panel_errors panel =
      let graph = build_graph panel in
      validate_contract_references panel
      ++ validate_edges panel
      ++ validate_validator_edges panel
      ++ validate_routing_validator_accept_exits panel
      ++ validate_pipe_bindings panel
      ++ validate_boundaries panel graph
      ++ validate_reachability panel graph
      ++ validate_dead_ends panel graph

pub record GraphValidationReport : Type 0 where
  pub node_count : ℕ
  pub edge_count : ℕ
  pub cycles : List (List String)

unfoldable pub validate : GraphLibrary → PatchPanel → Result GraphValidationReport
unfolding unhashable_exit panel_errors
validate nx panel = do
  raise_if (unhashable_exit panel) bad_value
  let errors = panel_errors nx panel
  raise_if (not (is_empty errors)) (panel_invalid errors)
  let graph = build_graph nx panel
  ok (record {
    node_count = nx.number_of_nodes graph;
    edge_count = nx.number_of_edges graph;
    cycles = nx.simple_cycles graph;
  })
