-- ===== src/PanelValidator/Lists.antt =====
-- What the absence of messages means, for the checks of patchpanel/validator.py on lists.
use ghostmesh.Prelude.{
  String, ◌≡◌, refl, Bool, true, false, not, ◌&&◌, Option, none, some, List, [], arith, In, All,
  mem, In-mem, append_nil, All-collect_nil, All-mono, is_text, string_eq, collect,
}
use ghostmesh.Errors.{PanelError}
use ghostmesh.Domain.Panel.{PatchPanel}
use ghostmesh.PanelValidator.Checks.{
  when, unknown, contract_ids, node_ids, validate_contract_references, validate_edges,
}
use ghostmesh.PanelValidator.Meaning.{IsKnown}

pub when_nil : (b : Bool) (e : PanelError) → when b e ≡ [] → b ≡ false
when_nil true e h = absurd (cc)
when_nil false e h = refl

unknown_nil :
    (o : Option String) (known : List String) (e : String → PanelError)
    → unknown o known e ≡ []
    → IsKnown o known
unknown_nil none known e h = tt
unknown_nil (some name) known e h = λ t.
    (In-mem name known).0
      (ground (arith, when_nil (is_text name && not (mem name known)) (e name) h))

pub member_nil :
    (name : String) (known : List String) (e : PanelError)
    → when (not (mem name known)) e ≡ []
    → In name known
member_nil name known e h =
    (In-mem name known).0 (ground (arith, when_nil (not (mem name known)) e h))

-- An absent message is a passed test.
pub passed :
    {A : Type 0} (test : A → Bool) (message : A → PanelError) (xs : List A)
    → collect (λ x. when (test x) (message x)) xs ≡ []
    → All (λ x. test x ≡ false) xs
passed test message xs h =
    All-mono _ (λ x. test x ≡ false) xs (λ x. when_nil (test x) (message x))
      ((All-collect_nil (λ x. when (test x) (message x)) xs).0 h)

module _ (panel : PatchPanel) where
  pub contracts-IsKnown :
      validate_contract_references panel ≡ []
      → All (λ b. IsKnown b.acceptance_contract (contract_ids panel)) panel.buckets
        × All (λ n. IsKnown n.acceptance_contract (contract_ids panel)) panel.nodes
  unfolding validate_contract_references
  contracts-IsKnown h =
      let parts = append_nil _ _ h in
      (
        All-mono _ _ panel.buckets (λ b. unknown_nil b.acceptance_contract (contract_ids panel) _)
            ((All-collect_nil _ panel.buckets).0 parts.0),
        All-mono _ _ panel.nodes (λ n. unknown_nil n.acceptance_contract (contract_ids panel) _)
            ((All-collect_nil _ panel.nodes).0 parts.1),
      )

  pub ends_known :
      validate_edges panel ≡ []
      → All (λ e. In e.from_node (node_ids panel) × In e.to_node (node_ids panel)) panel.edges
  unfolding validate_edges
  ends_known h =
      All-mono _ _ panel.edges
        (λ e q.
          let parts = append_nil _ _ q in
          (
            member_nil e.from_node (node_ids panel) _ parts.0,
            member_nil e.to_node (node_ids panel) _ parts.1,
          ))
        ((All-collect_nil _ panel.edges).0 h)
