-- ===== src/PanelValidator/Graph.antt =====
-- The graph that `_build_graph` of patchpanel/validator.py makes has the edges of the panel.
use ghostmesh.Prelude.{String, ◌≡◌, refl, ap, List, [], ◌∷◌, In, inl, inr, ◌⊎◌}
use ghostmesh.Domain.Panel.{NodeDefinition, EdgeDefinition, PatchPanel}
use ghostmesh.PanelValidator.Library.{GraphLibrary, GraphLaws}
use ghostmesh.PanelValidator.Checks.{add_nodes, add_edges, build_graph}

module _ (nx : GraphLibrary) (laws : GraphLaws nx) where
  open laws use {Edge, edge_of_empty, edge_of_add_node, edge_of_add_edge, out_degree_zero}

  no_edge_of_nodes :
      (ns : List NodeDefinition) (g : nx.DiGraph) (u v : String)
      → ¬ (Edge g u v)
      → ¬ (Edge (add_nodes nx ns g) u v)
  unfolding add_nodes
  no_edge_of_nodes [] g u v h = h
  no_edge_of_nodes (n ∷ ns) g u v h =
      no_edge_of_nodes ns (nx.add_node g n.id) u v (λ e. h ((edge_of_add_node g n.id u v).0 e))

  edges_of :
      (es : List EdgeDefinition) (g : nx.DiGraph) (u v : String)
      → Edge (add_edges nx es g) u v
      → Edge g u v ⊎ ((e : EdgeDefinition) × In e es × (u ≡ e.from_node) × (v ≡ e.to_node))
  unfolding add_edges
  edges_of [] g u v h = inl h
  edges_of (e ∷ es) g u v h = elim (edges_of es (nx.add_edge g e.from_node e.to_node) u v h) [
    | inr (e', i, p, q) ↦ inr (e', inr i, p, q)
    | inl old ↦ elim ((edge_of_add_edge g e.from_node e.to_node u v).0 old) [
      | inl older ↦ inl older
      | inr new ↦ inr (e, inl refl, new.0, new.1)
    ]
  ]

  kept_edge :
      (es : List EdgeDefinition) (g : nx.DiGraph) (u v : String)
      → Edge g u v
      → Edge (add_edges nx es g) u v
  unfolding add_edges
  kept_edge [] g u v h = h
  kept_edge (e ∷ es) g u v h =
      kept_edge es (nx.add_edge g e.from_node e.to_node) u v
        ((edge_of_add_edge g e.from_node e.to_node u v).1 (inl h))

  added_edge :
      (es : List EdgeDefinition) (g : nx.DiGraph) (e : EdgeDefinition)
      → In e es
      → Edge (add_edges nx es g) e.from_node e.to_node
  unfolding add_edges
  added_edge [] g e m = absurd m
  added_edge (x ∷ es) g e (inl p) =
      kept_edge es (nx.add_edge g x.from_node x.to_node) e.from_node e.to_node (
        (edge_of_add_edge g x.from_node x.to_node e.from_node e.to_node).1 (
          inr
            (ap (λ (y : EdgeDefinition). y.from_node) p, ap (λ (y : EdgeDefinition). y.to_node) p)))
  added_edge (x ∷ es) g e (inr m) = added_edge es (nx.add_edge g x.from_node x.to_node) e m

  module _ (panel : PatchPanel) where
    pub edge_of_graph :
        (u v : String)
        → Edge (build_graph nx panel) u v
        → (e : EdgeDefinition) × In e panel.edges × (u ≡ e.from_node) × (v ≡ e.to_node)
    unfolding build_graph
    edge_of_graph u v h = elim (edges_of panel.edges (add_nodes nx panel.nodes nx.empty) u v h) [
      | inl old ↦ absurd (no_edge_of_nodes panel.nodes nx.empty u v (edge_of_empty u v) old)
      | inr found ↦ found
    ]

    pub graph_has_edge :
        (e : EdgeDefinition) → In e panel.edges → Edge (build_graph nx panel) e.from_node e.to_node
    unfolding build_graph
    graph_has_edge e m = added_edge panel.edges (add_nodes nx panel.nodes nx.empty) e m
