-- ===== src/Runtime/Claim.antt =====
-- runtime/memory.py: `claim_card`, with `_claim_target`.
use ghostmesh.Prelude.{
  ℕ, String, Bool, not, ◌&&◌, Option, none, some, List, [], ◌∷◌, if◌then◌else◌, keep, first,
  is_some, insert, values, ◌==◌, nat_eq, string_eq,
}
use ghostmesh.Python.{ℤ, str, Conversions}
use ghostmesh.Errors.{
  is_invalid_operation, nothing_claimable, pipe_unknown_to_panels, claimable_in_several,
}
use ghostmesh.Result.{Result, ok, err, ◌>>=◌, or_raise}
use ghostmesh.Exec.{Exec}
use ghostmesh.Domain.Panel.{PatchPanel, input, workflow_version_id}
use ghostmesh.Domain.Work.{Card, Lease}
use ghostmesh.Runtime.Service.{resolve_pipe_bucket, new_lease}
use ghostmesh.Runtime.State.{
  Runtime, Env, lease, typed_lease, record_in_log, has_active_lease, keyed,
}
use ghostmesh.Runtime.Cards.{new_event}

pub record Match : Type 0 where
  pub panel : PatchPanel
  pub bucket : String
  pub node_id : String
  pub card : Option Card

module _ (now : ℕ) (rt : Runtime) where
  abbrev pub is_claimable : PatchPanel → String → Card → Bool
  is_claimable panel bucket c =
      c.workflow_version == workflow_version_id panel
      && c.current_bucket == bucket
      && not (has_active_lease now rt c.id)

  unfoldable pub match_in : PatchPanel → String × String → Match
  match_in panel (bucket, node_id) = record {
    panel = panel;
    bucket = bucket;
    node_id = node_id;
    card = first (is_claimable panel bucket) (values rt.cards);
  }

  -- What the loop adds for one panel: `except InvalidOperationError: continue`, and any other error
  -- leaves the loop.
  abbrev pub add_match :
      PatchPanel → Result (String × String) → Result (List Match) → Result (List Match)
  add_match panel (ok target) rest = do ms ← rest; ok (match_in panel target ∷ ms)
  add_match panel (err e) rest = if is_invalid_operation e then rest else err e

  unfoldable pub matches : String → List PatchPanel → Result (List Match)
  unfolding match_in is_invalid_operation
  matches pipe [] = ok []
  matches pipe (panel ∷ panels) =
      add_match panel (resolve_pipe_bucket panel pipe input) (matches pipe panels)

abbrev pub with_cards : List Match → List Match
with_cards ms = keep (λ m. is_some m.card) ms

abbrev pub pick : String → List Match → List Match → Result Match
pick pipe [] _ = err (pipe_unknown_to_panels pipe)
pick pipe _ (m ∷ []) = ok m
pick pipe (m ∷ []) _ = ok m
pick pipe (m ∷ _ ∷ _) [] = ok (record m { card = none })
pick pipe (m ∷ _ ∷ _) (_ ∷ _ ∷ _) = err (claimable_in_several pipe)

unfoldable pub claim_target : ℕ → String → Runtime → Result Match
unfolding matches
claim_target now pipe rt = do
  ms ← matches now rt pipe (values rt.patch_panels)
  pick pipe ms (with_cards ms)

unfoldable pub check_claim : ℕ → String → Runtime → Result (String × Card)
unfolding claim_target
check_claim now pipe rt = do
  m ← claim_target now pipe rt
  c ← or_raise m.card (nothing_claimable m.bucket)
  ok (m.node_id, c)

module _ (py : Conversions) (env : Env) where
  unfoldable pub write_claim :
      (pipe worker_id : String) (seconds : ℤ) → String × Card → Runtime → Lease × Runtime
  unfolding new_lease
  write_claim pipe worker_id seconds (node_id, c) rt =
      let l = new_lease env.new_id env.stamped_at env.written_at c node_id worker_id pipe seconds in
      (
        l,
        record_in_log
            (new_event env c.id "card_claimed" (some worker_id)
              (("lease_id", str (py.uuid_text l.id)) ∷ ("input_pipe", str pipe) ∷ []))
            (record rt { leases = insert l.id l rt.leases }),
      )

  unfoldable pub claim_card :
      (input_pipe worker_id : String) (seconds : ℤ) (key : Option String) → Exec Runtime Lease
  unfolding check_claim write_claim
  claim_card input_pipe worker_id seconds key =
      keyed key lease typed_lease (check_claim env.now input_pipe)
        (write_claim input_pipe worker_id seconds)
