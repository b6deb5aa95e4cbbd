-- ===== src/Runtime/Remembered.antt =====
-- The idempotency table of runtime/memory.py: what one call leaves under its key, and under others.
use ghostmesh.Prelude.{
  ℕ, String, ◌≡◌, true, false, Option, some, arith, is_text, inl, inr, Option-cases, lookup-insert,
  string_eq, ◌==◌,
}
use ghostmesh.Python.{Payload}
use ghostmesh.Result.{Result, ok, Result-cases}
use ghostmesh.Runtime.State.{
  Runtime, Env, Stored, event, truth, get_idempotent, store_idempotent, keyed, typed_event,
  record_in_log,
}
use ghostmesh.Runtime.Cards.{record_event, check_event, write_event}
use ghostmesh.Runtime.Keyed.{keyed_induction}
use ghostmesh.Runtime.Replay.{get-store}

module _ {A B : Type 0} (k : String) (wrap : B → Stored) (typed : Stored → Result B)
    (check : Runtime → Result A) (write : A → Runtime → B × Runtime) where
  -- A call under a key leaves an answer under the key.
  pub keyed_stored :
      (rt rt' : Runtime) (b : B)
      → is_text k ≡ true
      → ((x : B) → typed (wrap x) ≡ ok x)
      → ((x : B) → truth (wrap x) ≡ true)
      → keyed (some k) wrap typed check write rt ≡ (ok b, rt')
      → (v : Stored) × (get_idempotent (some k) rt' ≡ some v) × (typed v ≡ ok b)
  keyed_stored rt rt' b t round true_value h = elim (Option-cases (get_idempotent (some k) rt)) [
    | inr (v, cached) ↦ unfold keyed in (v, ground (arith, cached, h), ground (arith, cached, h))
    | inl fresh ↦ elim (Result-cases (check rt)) [
      | inr (e, bad) ↦ absurd (unfold keyed in ground (arith, fresh, bad, h))
      | inl (a, good) ↦
          unfold keyed in
          (
            wrap b,
            ground (
              arith,
              fresh,
              good,
              h,
              true_value b,
              true_value (write a rt).0,
              get-store k (wrap (write a rt).0) (write a rt).1 t,
            ),
            round b,
          )
    ]
  ]

  -- And a call that finds one gives it, and changes nothing.
  pub keyed_found :
      (rt : Runtime) (v : Stored) (b : B)
      → get_idempotent (some k) rt ≡ some v
      → typed v ≡ ok b
      → keyed (some k) wrap typed check write rt ≡ (ok b, rt)
  unfolding keyed
  keyed_found rt v b found t = ground (arith, found, t)

-- What stands under another key stays there when an event is recorded.
pub record_event-get_idempotent :
    (env : Env) (id : ℕ) (type : String) (actor : Option String) (p : Payload) (key other : String)
    (rt : Runtime) (v : Stored)
    → (other == key) ≡ false
    → get_idempotent (some other) rt ≡ some v
    → get_idempotent (some other) (record_event env id type actor p (some key) rt).1 ≡ some v
unfolding record_event write_event record_in_log get_idempotent
record_event-get_idempotent env id type actor p key other rt v differs h =
    keyed_induction (some key) event typed_event (check_event env id) (write_event env type actor p)
      (λ s. get_idempotent (some other) s ≡ some v) rt
      (λ x s k.
        unfold store_idempotent in
        ground (arith, k, differs, lookup-insert key other x s.idempotency))
      (λ i _. h) h
