-- ===== src/PanelValidator/Pipes.antt =====
-- The dictionary of declared pipes of patchpanel/validator.py, and the bindings.
use ghostmesh.Prelude.{
  String, ◌≡◌, refl, true, false, Option, none, some, List, [], ◌∷◌, arith, In, inl, inr, All,
  All-intro, All_apply, All-mono, All-collect_nil, append_nil, is_some, is_none, ap, subst, sym,
  ◌⊎◌, lookup, insert, string_eq, if_induction, ◌==◌, eq_of_beq, Bool-cases,
}
use ghostmesh.Errors.{binding_missing}
use ghostmesh.Domain.Panel.{NodeDefinition, PipeBinding, Direction, input, output, PatchPanel}
use ghostmesh.PanelValidator.Checks.{
  Declared, declare_pipes, declared_pipes, binding_errors, bucket_ids, validate_pipe_bindings,
}
use ghostmesh.PanelValidator.Lists.{member_nil, passed}

abbrev HasKey : String → Declared → Type 0
HasKey pipe d = (at : String × Direction) × In (pipe, at) d

insert_key :
    (pipe : String) (at : String × Direction) (d : Declared) → HasKey pipe (insert pipe at d)
unfolding insert
insert_key pipe at [] = (at, inl refl)
insert_key pipe at ((j, w) ∷ d) = elim (Bool-cases (pipe == j)) [
  | inl same ↦ rw same (at, inl (ap (λ (k : String). (k, at)) (eq_of_beq pipe j same)))
  | inr other ↦ rw other (let (x, i) = insert_key pipe at d in (x, inr i))
]

keep_key :
    (pipe k : String) (at : String × Direction) (d : Declared)
    → HasKey pipe d
    → HasKey pipe (insert k at d)
unfolding insert
keep_key pipe k at [] (x, m) = absurd m
keep_key pipe k at ((j, w) ∷ d) (x, inr m) =
    if_induction (HasKey pipe) (k == j) _ _ (x, inr m)
      (let (y, i) = keep_key pipe k at d (x, m) in (y, inr i))
keep_key pipe k at ((j, w) ∷ d) (x, inl e) =
    if_induction (HasKey pipe) (k == j) _ _
      (at, inl (ap (λ (p : String × (String × Direction)). (p.0, at)) e)) (x, inl e)

keep_pipes :
    (pipe : String) (at : String × Direction) (pipes : List String) (d : Declared)
    → HasKey pipe d
    → HasKey pipe (declare_pipes pipes at d)
unfolding declare_pipes
keep_pipes pipe at [] d h = h
keep_pipes pipe at (p ∷ pipes) d h =
    keep_pipes pipe at pipes (insert p at d) (keep_key pipe p at d h)

add_pipes :
    (pipe : String) (at : String × Direction) (pipes : List String) (d : Declared)
    → In pipe pipes
    → HasKey pipe (declare_pipes pipes at d)
unfolding declare_pipes
add_pipes pipe at [] d m = absurd m
add_pipes pipe at (p ∷ pipes) d (inl e) =
    keep_pipes pipe at pipes (insert p at d)
      (subst (λ k. HasKey k (insert p at d)) (sym e) (insert_key p at d))
add_pipes pipe at (p ∷ pipes) d (inr m) = add_pipes pipe at pipes (insert p at d) m

keep_nodes :
    (pipe : String) (ns : List NodeDefinition) (d : Declared)
    → HasKey pipe d
    → HasKey pipe (declared_pipes ns d)
unfolding declared_pipes
keep_nodes pipe [] d h = h
keep_nodes pipe (n ∷ ns) d h = keep_nodes pipe ns _ (
    keep_pipes pipe (n.id, output) n.output_pipes _
      (keep_pipes pipe (n.id, input) n.input_pipes d h))

-- A pipe that a node declares is a key of the dictionary.
declared_key :
    (pipe : String) (n : NodeDefinition) (ns : List NodeDefinition) (d : Declared)
    → In n ns
    → In pipe n.input_pipes ⊎ In pipe n.output_pipes
    → HasKey pipe (declared_pipes ns d)
unfolding declared_pipes
declared_key pipe n [] d m p = absurd m
declared_key pipe n (x ∷ ns) d (inr m) p = declared_key pipe n ns _ m p
declared_key pipe n (x ∷ ns) d (inl e) (inl i) = keep_nodes pipe ns _ (
    keep_pipes pipe (x.id, output) x.output_pipes _
      (add_pipes pipe (x.id, input) x.input_pipes d
        (subst (λ (y : NodeDefinition). In pipe y.input_pipes) e i)))
declared_key pipe n (x ∷ ns) d (inl e) (inr o) = keep_nodes pipe ns _ (
    add_pipes pipe (x.id, output) x.output_pipes _
      (subst (λ (y : NodeDefinition). In pipe y.output_pipes) e o))

binding_nil :
    (panel : PatchPanel) (pipe : String) (b : PipeBinding) (at : Option (String × Direction))
    → binding_errors panel pipe b at ≡ []
    → In b.bucket (bucket_ids panel)
binding_nil panel pipe b none h = absurd (cc)
binding_nil panel pipe b (some (n, d)) h =
    member_nil b.bucket (bucket_ids panel) _ (append_nil _ _ h).1

module _ (panel : PatchPanel) (h : validate_pipe_bindings panel ≡ []) where
  -- Every binding leads to a bucket of the panel.
  pub buckets_known : All (λ b. In b.1.bucket (bucket_ids panel)) panel.pipe_bindings
  unfolding validate_pipe_bindings
  buckets_known =
      All-mono _ _ panel.pipe_bindings
        (λ b. binding_nil panel b.0 b.1 (lookup b.0 (declared_pipes panel.nodes [])))
        ((All-collect_nil _ panel.pipe_bindings).0 (append_nil _ _ h).0)

  bound :
      (pipe : String)
      → HasKey pipe (declared_pipes panel.nodes [])
      → is_some (lookup pipe panel.pipe_bindings) ≡ true
  unfolding validate_pipe_bindings
  bound pipe (at, m) =
      let checked =
        All_apply
          (λ (p : String × (String × Direction)). is_none (lookup p.0 panel.pipe_bindings) ≡ false)
          (pipe, at) (declared_pipes panel.nodes [])
          (passed (λ (p : String × (String × Direction)). is_none (lookup p.0 panel.pipe_bindings))
            (λ p. binding_missing p.0) (declared_pipes panel.nodes []) (append_nil _ _ h).1)
          m in
      ground arith

  -- Every pipe that a node declares is bound.
  pub pipes_bound :
      (n : NodeDefinition)
      → In n panel.nodes
      → All (λ p. is_some (lookup p panel.pipe_bindings) ≡ true) n.input_pipes
        × All (λ p. is_some (lookup p panel.pipe_bindings) ≡ true) n.output_pipes
  pipes_bound n m = (
    All-intro n.input_pipes (λ p i. bound p (declared_key p n panel.nodes [] m (inl i))),
    All-intro n.output_pipes (λ p o. bound p (declared_key p n panel.nodes [] m (inr o))),
  )
