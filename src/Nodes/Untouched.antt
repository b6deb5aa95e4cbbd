-- ===== src/Nodes/Untouched.antt =====
-- nodes/executor.py: what the action of a sink leaves alone: the histories of the cards and the answers
-- that stand under idempotency keys.
use ghostmesh.Prelude.{ℕ, String, ◌≡◌, Option, List, Dict, arith, string_eq, nat_eq}
use ghostmesh.Python.{Conversions}
use ghostmesh.Exec.Moves.{
  Moves, Moves-pure, Moves-lift, Moves-gets, Moves-raise_if, Moves-modify, Moves-then, Moves-if,
  Moves-zoom,
}
use ghostmesh.Domain.Panel.{NodeDefinition, PatchPanel}
use ghostmesh.Domain.Work.{Card, CardEvent}
use ghostmesh.PanelValidator.{GraphLibrary}
use ghostmesh.Runtime.State.{Runtime, Stored}
use ghostmesh.Runtime.Cards.{register_patch_panel}
use ghostmesh.Nodes.{Nodes, NodeEnv, Models, on_runtime}
use ghostmesh.Nodes.Sinks.{execute_configured_sink, publish, provision}

-- The runtime has these histories and these answers.
pub record Has (events : Dict ℕ (List CardEvent)) (answers : Dict String Stored) (rt : Runtime)
    : Type 0 where
  pub same_events : rt.events ≡ events
  pub same_answers : rt.idempotency ≡ answers

module _ (nx : GraphLibrary) (py : Conversions) (models : Models) (env : NodeEnv)
    (events : Dict ℕ (List CardEvent)) (answers : Dict String Stored) where
  abbrev Kept : Nodes → Type 0
  Kept s = Has events answers s.runtime

  register-Kept :
      (panel : PatchPanel) → Moves Kept Kept (on_runtime (register_patch_panel nx panel))
  unfolding register_patch_panel
  register-Kept panel =
      Moves-zoom {Q = Has events answers} (λ s. s.runtime) (λ rt s. record s { runtime = rt }) _
        (λ s h. record {
          same_events = ground (arith, h.same_events);
          same_answers = ground (arith, h.same_answers);
        })
        (λ s rt h. h)

  provision-Kept :
      (node : NodeDefinition) (c : Card) (reference : Option String)
      → Moves Kept Kept (provision py nx models env node c reference)
  unfolding provision
  provision-Kept node c reference = Moves-then _ _ (Moves-gets _) (λ known.
      Moves-then _ _ (Moves-lift _) (λ repo. Moves-then _ _ (Moves-gets _) (λ log.
        Moves-then _ _ (Moves-lift _) (λ history. Moves-then _ _ (Moves-raise_if _ _) (λ _.
          Moves-then _ _ (Moves-lift _)
            (λ o. Moves-then _ _ (Moves-modify {Q = Kept} _ (λ s h. h)) (λ _. Moves-pure _)))))))

  publish-Kept :
      (node : NodeDefinition) (c : Card) (reference : Option String)
      → Moves Kept Kept (publish py nx models env node c reference)
  unfolding publish
  publish-Kept node c reference = Moves-then _ _ (Moves-gets _) (λ known.
      Moves-then _ _ (Moves-lift _) (λ _. Moves-then _ _ (Moves-gets _) (λ log.
        Moves-then _ _ (Moves-lift _) (λ history. Moves-then _ _ (Moves-raise_if _ _) (λ _.
          Moves-then _ _ (Moves-lift _) (λ candidate. Moves-then _ _ (Moves-lift _) (λ m.
            Moves-then _ _ (register-Kept candidate) (λ _. Moves-then _ _ (Moves-gets _) (λ found.
              Moves-then _ _ (Moves-lift _)
                (λ reg. Moves-then _ _ (record { at = λ s h. h }) (λ entry. Moves-pure _)))))))))))

  pub configured-Kept :
      (node : NodeDefinition) (c : Card) (reference : Option String)
      → Moves Kept Kept (execute_configured_sink py nx models env node c reference)
  unfolding execute_configured_sink
  configured-Kept node c reference =
      Moves-if _ _ _ (Moves-then _ _ (provision-Kept node c reference) (λ x. Moves-pure _)) (
        Moves-if _ _ _ (Moves-then _ _ (publish-Kept node c reference) (λ x. Moves-pure _))
          (Moves-pure _))

  pub configured_leaves :
      (node : NodeDefinition) (c : Card) (reference : Option String) (s : Nodes)
      → Kept s
      → Kept (execute_configured_sink py nx models env node c reference s).1
  configured_leaves node c reference s h = (configured-Kept node c reference).at s h
