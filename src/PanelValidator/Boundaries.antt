-- ===== src/PanelValidator/Boundaries.antt =====
-- The sources and the sinks of a panel that `_validate_boundaries` of patchpanel/validator.py accepts.
use ghostmesh.Prelude.{
  ℕ, String, ◌≡◌, ◌≢◌, refl, subst, Bool, true, false, not, ◌&&◌, List, [], ◌∷◌, arith, In, ◌⊎◌,
  ◌==◌, string_eq, All_apply, In-keep, not_empty, append_nil, is_empty, ltb,
}
use text.Mathlib.TextEquality.{eq_iff}
use ghostmesh.Errors.{PanelError, source_has_incoming, sink_has_outgoing}
use ghostmesh.Domain.Panel.{
  NodeType, source, sink, NodeDefinition, EdgeDefinition, PatchPanel, type_eq, type_beq_iff,
}
use ghostmesh.PanelValidator.Library.{GraphLibrary, GraphLaws}
use ghostmesh.PanelValidator.Checks.{of_type, build_graph, validate_boundaries}
use ghostmesh.PanelValidator.Graph.{graph_has_edge}
use ghostmesh.PanelValidator.Lists.{when_nil, passed}

-- The nodes that a filter on the type keeps.
pub of_type-In :
    (t : NodeType) (panel : PatchPanel) (n : NodeDefinition)
    → In n (of_type t panel)
    → In n panel.nodes × (n.type ≡ t)
of_type-In t panel n m =
    let kept = (In-keep (λ x. x.type == t) panel.nodes n).0 m in
    (kept.0, (type_beq_iff n.type t).0 kept.1)

pub In-of_type :
    (t : NodeType) (panel : PatchPanel) (n : NodeDefinition)
    → In n panel.nodes
    → n.type ≡ t
    → In n (of_type t panel)
In-of_type t panel n m e =
    (In-keep (λ x. x.type == t) panel.nodes n).1 (m, (type_beq_iff n.type t).1 e)

pub unnegate : (b : Bool) → not b ≡ false → b ≡ true
unnegate b h = ground arith

pub beq_contradiction : (a b : String) → a ≡ b → (a == b) ≡ false → ⊥
beq_contradiction a b e h = ground (arith, eq_iff a b)

pub either : (a b : Bool) → (not a && not b) ≡ false → (a ≡ true) ⊎ (b ≡ true)
either a b h = ground arith

pub nil_of_empty : (xs : List PanelError) → is_empty xs ≡ true → xs ≡ []
nil_of_empty [] h = refl
nil_of_empty (x ∷ xs) h = absurd (cc)

zero_of_ltb : (n : ℕ) → ltb 0 n ≡ false → n ≡ 0
zero_of_ltb n h = ground arith

module _ (nx : GraphLibrary) (laws : GraphLaws nx) (panel : PatchPanel) where
  open laws use {Edge, in_degree_zero, out_degree_zero, descendants_sound}

  abbrev pub graph : nx.DiGraph
  graph = build_graph nx panel

  module _ (h : validate_boundaries nx panel graph ≡ []) where
    pub sources_listed : is_empty (of_type source panel) ≡ false
    unfolding validate_boundaries
    sources_listed = when_nil _ _ (append_nil _ _ (append_nil _ _ (append_nil _ _ h).0).0).0

    pub sources : (n : NodeDefinition) × In n panel.nodes × (n.type ≡ source)
    sources =
        let (n, m) = not_empty (of_type source panel) sources_listed in
        let (i, e) = of_type-In source panel n m in (n, i, e)

    pub sinks : (n : NodeDefinition) × In n panel.nodes × (n.type ≡ sink)
    unfolding validate_boundaries
    sinks =
        let none_missing =
          when_nil _ _ (append_nil _ _ (append_nil _ _ (append_nil _ _ h).0).0).1 in
        let (n, m) = not_empty (of_type sink panel) none_missing in
        let (i, e) = of_type-In sink panel n m in (n, i, e)

    pub into_sources :
        (n : NodeDefinition) (e : EdgeDefinition)
        → In n panel.nodes
        → n.type ≡ source
        → In e panel.edges
        → e.to_node ≢ n.id
    unfolding validate_boundaries
    into_sources n e m t i same =
        let clear =
          All_apply (λ (x : NodeDefinition). ltb 0 (nx.in_degree graph x.id) ≡ false) n
            (of_type source panel)
            (passed _ (λ x. source_has_incoming x.id) (of_type source panel)
              (append_nil _ _ (append_nil _ _ h).0).1)
            (In-of_type source panel n m t) in
        (in_degree_zero graph n.id).0 (zero_of_ltb _ clear) e.from_node
          (subst (Edge graph e.from_node) same (graph_has_edge nx laws panel e i))

    pub out_of_sinks :
        (n : NodeDefinition) (e : EdgeDefinition)
        → In n panel.nodes
        → n.type ≡ sink
        → In e panel.edges
        → e.from_node ≢ n.id
    unfolding validate_boundaries
    out_of_sinks n e m t i same =
        let clear =
          All_apply (λ (x : NodeDefinition). ltb 0 (nx.out_degree graph x.id) ≡ false) n
            (of_type sink panel)
            (passed _ (λ x. sink_has_outgoing x.id) (of_type sink panel) (append_nil _ _ h).1)
            (In-of_type sink panel n m t) in
        (out_degree_zero graph n.id).0 (zero_of_ltb _ clear) e.to_node
          (subst (λ u. Edge graph u e.to_node) same (graph_has_edge nx laws panel e i))
