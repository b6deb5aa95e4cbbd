-- ===== src/Runtime/Calls.antt =====
-- runtime/memory.py: a client's call as a value, for statements about every operation and about
-- sequences of calls.
use ghostmesh.Prelude.{ℕ, String, Bool, Option, List, ◌≤◌}
use ghostmesh.Python.{ℤ, Payload, Conversions}
use ghostmesh.Result.{Result, ok, err}
use ghostmesh.Exec.{Exec}
use ghostmesh.Domain.Panel.{PatchPanel}
use ghostmesh.Domain.Work.{ArtifactReference}
use ghostmesh.PanelValidator.{GraphLibrary}
use ghostmesh.Runtime.State.{Runtime, Env, Stored, card, lease, artifacts, event, empty_runtime}
use ghostmesh.Runtime.Cards.{
  register_patch_panel, create_card, move_card, validate_card, record_event,
}
use ghostmesh.Runtime.Claim.{claim_card}
use ghostmesh.Runtime.Leases.{Turn, submit_artifact, renew_lease, release_lease, expire_leases}

-- The calls that take an idempotency key.
pub data KeyedCall : Type 0 where
  create : (panel_id : String) (payload metadata : Payload) → KeyedCall
  claim : (input_pipe worker_id : String) (seconds : ℤ) → KeyedCall
  submit : (lease_id : ℕ) (output_pipe : String) (refs : List ArtifactReference) → KeyedCall
  renew : (lease_id : ℕ) (seconds : ℤ) → KeyedCall
  release : (lease_id : ℕ) (actor_id : Option String) → KeyedCall
  validate :
      (card_id : ℕ) (validator_id : String) (accepted : Bool) (reason output_pipe : Option String)
      (payload : Payload)
      → KeyedCall
  move : (card_id : ℕ) (to_bucket : String) (actor_id reason : Option String) → KeyedCall
  record_in_history :
      (card_id : ℕ) (event_type : String) (actor_id : Option String) (payload : Payload) → KeyedCall

abbrev pub replied : {A : Type 0} → (A → Stored) → Result A × Runtime → Result Stored × Runtime
replied wrap (ok a, rt) = (ok (wrap a), rt)
replied wrap (err e, rt) = (err e, rt)

module _ (py : Conversions) (env : Env) where
  unfoldable pub perform : KeyedCall → Option String → Exec Runtime Stored
  perform (create panel_id payload metadata) key rt =
      replied card (create_card env panel_id payload metadata key rt)
  perform (claim input_pipe worker_id seconds) key rt =
      replied lease (claim_card py env input_pipe worker_id seconds key rt)
  perform (submit lease_id output_pipe refs) key rt =
      replied artifacts (submit_artifact py env lease_id output_pipe refs key rt)
  perform (renew lease_id seconds) key rt =
      replied lease (renew_lease py env lease_id seconds key rt)
  perform (release lease_id actor_id) key rt =
      replied lease (release_lease py env lease_id actor_id key rt)
  perform (validate card_id validator_id accepted reason output_pipe payload) key rt =
      replied event
        (validate_card env card_id validator_id accepted reason output_pipe payload key rt)
  perform (move card_id to_bucket actor_id reason) key rt =
      replied card (move_card env card_id to_bucket actor_id reason key rt)
  perform (record_in_history card_id event_type actor_id payload) key rt =
      replied event (record_event env card_id event_type actor_id payload key rt)

-- A history of calls. The clock does not run backwards: no call reads it below what an earlier call
-- read. The index is the last reading.
module _ (nx : GraphLibrary) (py : Conversions) where
  pub data Run : ℕ → Runtime → Type 0 where
    start : {t : ℕ} → Run t empty_runtime
    registering :
        {t : ℕ} {rt : Runtime}
        → Run t rt
        → (panel : PatchPanel) → Run t (register_patch_panel nx panel rt).1
    calling :
        {t : ℕ} {rt : Runtime}
        → Run t rt
        → (env : Env) (call : KeyedCall) (key : Option String) → t ≤ env.now
        → Run env.now (perform py env call key rt).1
    expiring :
        {t : ℕ} {rt : Runtime}
        → Run t rt
        → (env : Env) (turns : ℕ → Turn) → t ≤ env.now
        → Run env.now (expire_leases py env turns rt).1
