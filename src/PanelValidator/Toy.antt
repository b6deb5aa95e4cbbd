-- ===== src/PanelValidator/Toy.antt =====
-- A graph library that meets the laws: a list of edges, searched to a bounded depth.
use ghostmesh.Prelude.{
  ℕ, zero, suc, String, ◌≡◌, ◌↔◌, ◌⊎◌, inl, inr, List, [], ◌∷◌, ◌++◌, length, collect, In,
  In-append, ◌==◌, string_eq, eq_of_beq, if◌then◌else◌, arith, refl, subst, Bool-cases, In-collect,
}
use ghostmesh.PanelValidator.Boundaries.{beq_contradiction}
use ghostmesh.PanelValidator.Library.{GraphLibrary, GraphLaws, Descends, edge, then_edge}

abbrev Edges : Type 0
Edges = List (String × String)

-- The vertices at the end of an edge from `u`, and the number of edges into `v`.
successors : Edges → String → List String
successors [] u = []
successors ((a, b) ∷ es) u = if u == a then b ∷ successors es u else successors es u

entering : Edges → String → ℕ
entering [] v = 0
entering ((a, b) ∷ es) v = if v == b then suc (entering es v) else entering es v

-- The vertices at most `fuel` edges behind those of the list.
onwards : ℕ → Edges → List String → List String
onwards zero es us = []
onwards (suc fuel) es us = let next = collect (successors es) us in next ++ onwards fuel es next

abbrev HasEdge : Edges → String → String → Type 0
HasEdge [] u v = ⊥
HasEdge ((a, b) ∷ es) u v = HasEdge es u v ⊎ (u ≡ a) × (v ≡ b)

unfoldable pub toy : GraphLibrary
unfolding onwards successors entering
toy = record {
  DiGraph = List String × Edges;
  empty = ([], []);
  add_node = λ (ns, es) n. (n ∷ ns, es);
  add_edge = λ (ns, es) a b. (ns, (a, b) ∷ es);
  number_of_nodes = λ (ns, es). length ns;
  number_of_edges = λ (ns, es). length es;
  in_degree = λ (ns, es) v. entering es v;
  out_degree = λ (ns, es) u. length (successors es u);
  descendants = λ (ns, es) s. onwards (length es) es (s ∷ []);
  simple_cycles = λ (ns, es). [];
}

entering_zero :
    (es : Edges) (v : String) → (entering es v ≡ 0) ↔ ((u : String) → ¬ (HasEdge es u v))
unfolding entering
entering_zero [] v = ((λ h u e. e), (λ h. refl))
entering_zero ((a, b) ∷ es) v = elim (Bool-cases (v == b)) [
  | inl same ↦
      rw same ((λ h. absurd (omega arith)), (λ h. absurd (h a (inr (refl, eq_of_beq v b same)))))
  | inr other ↦ rw other (
    (λ h u e. elim e [
      | inl old ↦ (entering_zero es v).0 h u old
      | inr new ↦ beq_contradiction v b new.1 other
    ]),
    (λ h. (entering_zero es v).1 (λ u e. h u (inl e))),
  )
]

successor-HasEdge : (es : Edges) (u v : String) → In v (successors es u) ↔ HasEdge es u v
unfolding successors
successor-HasEdge [] u v = ((λ m. m), (λ m. m))
successor-HasEdge ((a, b) ∷ es) u v = elim (Bool-cases (u == a)) [
  | inl same ↦ rw same (
    (λ m. elim m [
      | inl e ↦ inr (eq_of_beq u a same, e)
      | inr m ↦ inl ((successor-HasEdge es u v).0 m)
    ]),
    (λ e. elim e [ inl old ↦ inr ((successor-HasEdge es u v).1 old) | inr new ↦ inl new.1 ]),
  )
  | inr other ↦ rw other (
    (λ m. inl ((successor-HasEdge es u v).0 m)),
    (λ e. elim e [
      | inl old ↦ (successor-HasEdge es u v).1 old
      | inr new ↦ absurd (beq_contradiction u a new.0 other)
    ]),
  )
]

leaving_zero :
    (es : Edges) (u : String) → (length (successors es u) ≡ 0) ↔ ((v : String) → ¬ (HasEdge es u v))
leaving_zero es u = (
  (λ h v e. no_member (successors es u) h v ((successor-HasEdge es u v).1 e)),
  (λ h. no_length (successors es u) (λ v m. h v ((successor-HasEdge es u v).0 m))),
)
  where
    no_member : (vs : List String) → length vs ≡ 0 → (v : String) → ¬ (In v vs)
    no_member [] h v m = m
    no_member (w ∷ vs) h v m = absurd (omega arith)

    no_length : (vs : List String) → ((v : String) → ¬ (In v vs)) → length vs ≡ 0
    no_length [] h = refl
    no_length (w ∷ vs) h = absurd (h w (inl refl))

before : (E : String → String → Type 0) (s u v : String) → E s u → Descends E u v → Descends E s v
before E s u v e (edge step) = then_edge (edge e) step
before E s u v e (then_edge d step) = then_edge (before E s u _ e d) step

onwards_sound :
    (fuel : ℕ) (es : Edges) (us : List String) (v : String)
    → In v (onwards fuel es us)
    → (u : String) × In u us × Descends (HasEdge es) u v
unfolding onwards
onwards_sound zero es us v m = absurd m
onwards_sound (suc fuel) es us v m = elim ((In-append (collect (successors es) us) _ v).0 m) [
  | inl at ↦
      let (u, i, j) = In-collect (successors es) us v at in
      (u, i, edge ((successor-HasEdge es u v).0 j))
  | inr on ↦
      let (w, i, d) = onwards_sound fuel es (collect (successors es) us) v on in
      let (u, k, j) = In-collect (successors es) us w i in
      (u, k, before (HasEdge es) u w v ((successor-HasEdge es u w).0 j) d)
]

toy_descends :
    (es : Edges) (s v : String) → In v (onwards (length es) es (s ∷ [])) → Descends (HasEdge es) s v
toy_descends es s v m =
    let (u, i, d) = onwards_sound (length es) es (s ∷ []) v m in
    elim i [ inl e ↦ subst (λ w. Descends (HasEdge es) w v) e d | inr nowhere ↦ absurd nowhere ]

pub toy_laws : GraphLaws toy
unfolding toy
toy_laws = record {
  Edge = λ g u v. HasEdge g.1 u v;
  edge_of_empty = λ u v e. e;
  edge_of_add_node = λ g n u v. ((λ e. e), (λ e. e));
  edge_of_add_edge = λ g a b u v. ((λ e. e), (λ e. e));
  in_degree_zero = λ g v. entering_zero g.1 v;
  out_degree_zero = λ g u. leaving_zero g.1 u;
  descendants_sound = λ g s v m. toy_descends g.1 s v m;
}
