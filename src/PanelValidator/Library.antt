-- ===== src/PanelValidator/Library.antt =====
-- The calls of `networkx` that patchpanel/validator.py makes, and what they are documented to do.
use ghostmesh.Prelude.{ℕ, String, ◌≡◌, ◌↔◌, ◌⊎◌, List, In}

pub record GraphLibrary : Type 1 where
  pub DiGraph : Type 0
  pub empty : DiGraph
  pub add_node : DiGraph → String → DiGraph
  pub add_edge : DiGraph → String → String → DiGraph
  pub number_of_nodes : DiGraph → ℕ
  pub number_of_edges : DiGraph → ℕ
  pub in_degree : DiGraph → String → ℕ
  pub out_degree : DiGraph → String → ℕ
  pub descendants : DiGraph → String → List String
  pub simple_cycles : DiGraph → List (List String)

-- One step or more along the edges of a relation.
pub data Descends (E : String → String → Type 0) (s : String) : String → Type 0 where
  edge : {v : String} → E s v → Descends E s v
  then_edge : {u v : String} → Descends E s u → E u v → Descends E s v

pub record GraphLaws (nx : GraphLibrary) : Type 1 where
  pub Edge : nx.DiGraph → String → String → Type 0
  pub edge_of_empty : (u v : String) → ¬ (Edge nx.empty u v)
  pub edge_of_add_node : (g : nx.DiGraph) (n u v : String) → Edge (nx.add_node g n) u v ↔ Edge g u v
  pub edge_of_add_edge :
      (g : nx.DiGraph) (a b u v : String)
      → Edge (nx.add_edge g a b) u v ↔ (Edge g u v ⊎ (u ≡ a) × (v ≡ b))
  pub in_degree_zero :
      (g : nx.DiGraph) (v : String) → (nx.in_degree g v ≡ 0) ↔ ((u : String) → ¬ (Edge g u v))
  pub out_degree_zero :
      (g : nx.DiGraph) (u : String) → (nx.out_degree g u ≡ 0) ↔ ((v : String) → ¬ (Edge g u v))
  pub descendants_sound :
      (g : nx.DiGraph) (s v : String) → In v (nx.descendants g s) → Descends (Edge g) s v
