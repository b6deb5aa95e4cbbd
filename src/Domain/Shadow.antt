-- ===== src/Domain/Shadow.antt =====
-- domain/models.py: the link of a card to its shadow, and a proposed mutation.
use ghostmesh.Prelude.{ℕ, String, Bool, true, false, Option}
use ghostmesh.Python.{Payload}

-- The pattern "^(active|completed|cancelled)$".
pub data LinkStatus : Type 0 where
  active completed cancelled : LinkStatus

abbrev pub is_active_link : LinkStatus → Bool
is_active_link active = true
is_active_link _ = false

pub record ShadowCardLink : Type 0 where
  pub id : ℕ
  pub production_card_id : ℕ
  pub shadow_card_id : ℕ
  pub candidate_id : String
  pub status : LinkStatus
  pub metrics : Payload
  pub created_at : ℕ

pub data MutationStatus : Type 0 where
  proposed shadowing validated rejected promoted : MutationStatus

abbrev pub is_validated : MutationStatus → Bool
is_validated validated = true
is_validated _ = false

pub record ProposedMutation : Type 0 where
  pub id : ℕ
  pub mutation_type : String
  pub proposed_by : String
  pub payload : Payload
  pub status : MutationStatus
  pub created_at : ℕ
  pub validated_at : Option ℕ
  pub promoted_at : Option ℕ
