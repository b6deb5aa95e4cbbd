-- ===== src/Domain/Work.antt =====
-- domain/models.py: the work that moves through a panel, and its evidence.
use ghostmesh.Prelude.{ℕ, String, Option}
use ghostmesh.Python.{ℤ, Payload}

pub record ArtifactReference : Type 0 where
  pub id : ℕ
  pub card_id : ℕ
  pub event_id : Option ℕ
  pub storage_ref : String
  pub content_hash : String
  pub content_type : String
  pub size_bytes : ℤ
  pub metadata : Payload
  pub created_at : ℕ

pub record Lease : Type 0 where
  pub id : ℕ
  pub card_id : ℕ
  pub node_id : String
  pub worker_id : String
  pub input_pipe : String
  pub claimed_at : ℕ
  pub expires_at : ℕ
  pub released_at : Option ℕ

pub record CardEvent : Type 0 where
  pub id : ℕ
  pub card_id : ℕ
  pub event_type : String
  pub actor_id : Option String
  pub payload : Payload
  pub occurred_at : ℕ

pub record Card : Type 0 where
  pub id : ℕ
  pub workflow_version : String
  pub current_bucket : String
  pub payload : Payload
  pub metadata : Payload
  pub created_at : ℕ
