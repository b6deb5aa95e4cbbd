-- ===== src/PanelValidator/Soundness.antt =====
-- `PatchPanelValidator.validate` accepts well-formed panels only, over a graph library that does what
-- `networkx` documents.
use ghostmesh.Prelude.{
  String, ◌≡◌, sym, subst, true, false, not, ◌&&◌, [], map, arith, In, inl, inr, ◌⊎◌, ◌==◌,
  string_eq, All_apply, All-intro, mem, any, In-mem, In-append, In-collect, of_In-map,
  witness_of_any, refuted_by_any, append_nil, is_empty, ltb, eq_of_beq, Bool-cases,
}
use ghostmesh.Errors.{unreachable, dead_end, panel_invalid, bad_value}
use ghostmesh.Result.{ok, raise_if, >>=-eq-ok, raise_if-eq-ok}
use ghostmesh.Domain.Panel.{source, sink, NodeDefinition, EdgeDefinition, PatchPanel, type_eq}
use ghostmesh.PanelValidator.Library.{GraphLibrary, GraphLaws, Descends, edge, then_edge}
use ghostmesh.PanelValidator.Checks.{
  of_type, reachable, validate_reachability, validate_dead_ends, panel_errors, unhashable_exit,
  GraphValidationReport, validate,
}
use ghostmesh.PanelValidator.Meaning.{Reached, at_source, along, IsWellFormed}
use ghostmesh.PanelValidator.Graph.{edge_of_graph}
use ghostmesh.PanelValidator.Lists.{passed, contracts-IsKnown, ends_known}
use ghostmesh.PanelValidator.Pipes.{buckets_known, pipes_bound}
use ghostmesh.PanelValidator.Boundaries.{
  of_type-In, unnegate, either, nil_of_empty, beq_contradiction, graph, sources_listed, sources,
  sinks, into_sources, out_of_sinks,
}

module _ (nx : GraphLibrary) (laws : GraphLaws nx) (panel : PatchPanel) where
  open laws use {Edge, out_degree_zero, descendants_sound}

  descends-Reached :
      (s v : String) → Reached panel s → Descends (Edge (graph nx laws panel)) s v → Reached panel v
  descends-Reached s v r (edge step) =
      let (e, m, p, q) = edge_of_graph nx laws panel s _ step in
      subst (Reached panel) (sym q) (along e m (subst (Reached panel) p r))
  descends-Reached s v r (then_edge {u = u} before step) =
      let (e, m, p, q) = edge_of_graph nx laws panel u _ step in
      subst (Reached panel) (sym q)
        (along e m (subst (Reached panel) p (descends-Reached s u r before)))

  source-Reached : (s : String) → In s (map (λ n. n.id) (of_type source panel)) → Reached panel s
  source-Reached s m =
      let (n, i, e) = of_In-map (λ (n : NodeDefinition). n.id) (of_type source panel) s m in
      let (there, t) = of_type-In source panel n i in
      subst (Reached panel) (sym e) (at_source n there t)

  listed-Reached : (v : String) → In v (reachable nx panel (graph nx laws panel)) → Reached panel v
  listed-Reached v m = elim ((In-append (map (λ n. n.id) (of_type source panel)) _ v).0 m) [
    | inl at ↦ source-Reached v at
    | inr below ↦
        let (s, i, j) =
          In-collect (nx.descendants (graph nx laws panel)) (map (λ n. n.id) (of_type source panel))
            v below in
        descends-Reached s v (source-Reached s i) (descendants_sound (graph nx laws panel) s v j)
  ]

  all_listed :
      is_empty (of_type source panel) ≡ false
      → validate_reachability nx panel (graph nx laws panel) ≡ []
      → (n : NodeDefinition) → In n panel.nodes
      → Reached panel n.id
  unfolding validate_reachability
  all_listed some_source h n m =
      let checked =
        passed (λ (x : NodeDefinition). not (mem x.id (reachable nx panel (graph nx laws panel))))
          (λ x. unreachable x.id) panel.nodes (rw some_source at h) in
      let listed =
        All_apply
          (λ (x : NodeDefinition).
            not (mem x.id (reachable nx panel (graph nx laws panel))) ≡ false)
          n panel.nodes checked m in
      listed-Reached n.id
        ((In-mem n.id (reachable nx panel (graph nx laws panel))).0 (unnegate _ listed))

  -- An edge out of a node is found by going through the edges.
  edge_out :
      (u : String)
      → ltb 0 (nx.out_degree (graph nx laws panel) u) ≡ true
      → (e : EdgeDefinition) × In e panel.edges × (e.from_node ≡ u)
  edge_out u positive = elim (Bool-cases (any (λ e. e.from_node == u) panel.edges)) [
    | inl found ↦
        let (e, m, t) =
          witness_of_any (λ (e : EdgeDefinition). e.from_node == u) panel.edges found in
        (e, m, eq_of_beq e.from_node u t)
    | inr missing ↦
        let zero_out = (out_degree_zero (graph nx laws panel) u).1 (λ v step.
          let (e, m, p, q) = edge_of_graph nx laws panel u v step in
          beq_contradiction e.from_node u (sym p)
            (refuted_by_any (λ (x : EdgeDefinition). x.from_node == u) panel.edges e missing m)) in
        absurd (ground arith)
  ]

  live_nodes :
      validate_dead_ends nx panel (graph nx laws panel) ≡ []
      → (n : NodeDefinition) → In n panel.nodes
      → ((m : NodeDefinition) × In m panel.nodes × (m.type ≡ sink) × (m.id ≡ n.id))
        ⊎ ((e : EdgeDefinition) × In e panel.edges × (e.from_node ≡ n.id))
  unfolding validate_dead_ends
  live_nodes h n m =
      let sink_ids = map (λ (x : NodeDefinition). x.id) (of_type sink panel) in
      let checked =
        All_apply
          (λ (x : NodeDefinition).
            (not (mem x.id sink_ids) && not (ltb 0 (nx.out_degree (graph nx laws panel) x.id)))
            ≡ false)
          n panel.nodes (passed _ (λ x. dead_end x.id) panel.nodes h) m in
      elim (either _ _ checked) [
        | inl at_sink ↦
            let (s, i, e) =
              of_In-map (λ (x : NodeDefinition). x.id) (of_type sink panel) n.id
                ((In-mem n.id sink_ids).0 at_sink) in
            let (there, t) = of_type-In sink panel s i in inl (s, there, t, sym e)
        | inr positive ↦ inr (edge_out n.id positive)
      ]

  errors-IsWellFormed : panel_errors nx panel ≡ [] → IsWellFormed panel
  unfolding panel_errors
  errors-IsWellFormed h =
      let (h7, dead) = append_nil _ _ h in
      let (h6, reach) = append_nil _ _ h7 in
      let (h5, bounds) = append_nil _ _ h6 in
      let (h4, pipes) = append_nil _ _ h5 in
      let (h3, routing) = append_nil _ _ h4 in
      let (h2, exits) = append_nil _ _ h3 in
      let (contracts, edges) = append_nil _ _ h2 in
      let known = contracts-IsKnown panel contracts in
      record {
        bucket_contracts = known.0;
        node_contracts = known.1;
        edge_ends = ends_known panel edges;
        inputs_bound = All-intro panel.nodes (λ n m. (pipes_bound panel pipes n m).0);
        outputs_bound = All-intro panel.nodes (λ n m. (pipes_bound panel pipes n m).1);
        binding_buckets = buckets_known panel pipes;
        some_source = sources nx laws panel bounds;
        some_sink = sinks nx laws panel bounds;
        nothing_into_sources = into_sources nx laws panel bounds;
        nothing_out_of_sinks = out_of_sinks nx laws panel bounds;
        all_reached = all_listed (sources_listed nx laws panel bounds) reach;
        no_dead_end = live_nodes dead;
      }

  -- Over a graph library that obeys its laws, a panel that the validator accepts is well formed: the
  -- contracts and the ends of the edges are
  -- declared, each declared pipe has a binding and each binding a declared bucket, there is a source
  -- and a sink, no edge enters a source or leaves a sink, each node is reached from a source along
  -- the edges, and each node without an outgoing edge has the id of a sink.
  pub validate-IsWellFormed :
      (report : GraphValidationReport) → validate nx panel ≡ ok report → IsWellFormed panel
  unfolding validate
  validate-IsWellFormed report h =
      let (_, _, h1) = >>=-eq-ok (raise_if (unhashable_exit panel) bad_value) _ h in
      let errors = panel_errors nx panel in
      let (_, clean, _) =
        >>=-eq-ok (raise_if (not (is_empty errors)) (panel_invalid errors)) _ h1 in
      errors-IsWellFormed (nil_of_empty errors (unnegate _ (raise_if-eq-ok _ _ clean)))
