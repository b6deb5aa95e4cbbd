-- ===== src/Runtime/Keyed.antt =====
-- The keyed operations of runtime/memory.py: a call that raises changes nothing, and a key that was
-- answered once answers so again.
use ghostmesh.Prelude.{
  ℕ, String, ◌≡◌, Option, none, arith, string_eq, ◌⊎◌, inl, inr, Option-cases, sym, subst,
}
use ghostmesh.Python.{Conversions}
use ghostmesh.Errors.{Error}
use ghostmesh.Result.{Result, ok, err, Result-cases}
use ghostmesh.Runtime.State.{
  Runtime, Env, Stored, card, lease, artifacts, event, get_idempotent, store_idempotent, commit,
  keyed,
}
use ghostmesh.Runtime.Cards.{create_card, move_card, validate_card, record_event}
use ghostmesh.Runtime.Claim.{claim_card}
use ghostmesh.Runtime.Leases.{submit_artifact, renew_lease, release_lease}
use ghostmesh.Runtime.Calls.{
  KeyedCall, create, claim, submit, renew, release, validate, move, record_in_history, perform,
  replied,
}

module _ {A B : Type 0} (key : Option String) (wrap : B → Stored) (typed : Stored → Result B)
    (check : Runtime → Result A) (write : A → Runtime → B × Runtime) where
  keyed_atomic :
      (rt rt' : Runtime) (e : Error) → keyed key wrap typed check write rt ≡ (err e, rt') → rt' ≡ rt
  unfolding keyed
  keyed_atomic rt rt' e h = ground arith

  -- A key that gives no answer leaves the call to the checks and the writes.
  keyed_fresh :
      (rt : Runtime)
      → get_idempotent key rt ≡ none
      → keyed key wrap typed check write rt ≡ commit key wrap write (check rt) rt
  unfolding keyed
  keyed_fresh rt h = ground arith

module _ {A B : Type 0} (key : Option String) (wrap : B → Stored) (typed : Stored → Result B)
    (check : Runtime → Result A) (write : A → Runtime → B × Runtime) where
  -- The runtime behind a keyed operation: as it was, or written by the writes after the checks.
  pub keyed_cases :
      (rt : Runtime)
      → ((keyed key wrap typed check write rt).1 ≡ rt)
        ⊎ ((a : A) × (check rt ≡ ok a)
            × ((keyed key wrap typed check write rt).1
                ≡ store_idempotent key (wrap (write a rt).0) (write a rt).1))
  keyed_cases rt = elim (Option-cases (get_idempotent key rt)) [
    | inr (v, cached) ↦ inl (unfold keyed in ground (arith, cached))
    | inl fresh ↦ elim (Result-cases (check rt)) [
      | inr (e, bad) ↦ inl (unfold keyed in ground (arith, fresh, bad))
      | inl (a, good) ↦ inr (a, good, unfold keyed in ground (arith, fresh, good))
    ]
  ]

  pub keyed_induction :
      (P : Runtime → Type 0) (rt : Runtime)
      → ((v : Stored) (s : Runtime) → P s → P (store_idempotent key v s))
      → ((a : A) → check rt ≡ ok a → P (write a rt).1)
      → P rt
      → P (keyed key wrap typed check write rt).1
  keyed_induction P rt stable keep h = elim (keyed_cases rt) [
    | inl same ↦ subst P (sym same) h
    | inr (a, good, written) ↦ subst P (sym written) (stable _ _ (keep a good))
  ]

replied_err :
    {A : Type 0} (wrap : A → Stored) (r : Result A × Runtime) (e : Error) (rt' : Runtime)
    → replied wrap r ≡ (err e, rt')
    → r ≡ (err e, rt')
replied_err wrap (ok a, rt) e rt' h = absurd (cc)
replied_err wrap (err e', rt) e rt' h = ground arith

release_atomic :
    (py : Conversions) (env : Env) (id : ℕ) (actor key : Option String) (rt rt' : Runtime)
    (e : Error)
    → release_lease py env id actor key rt ≡ (err e, rt')
    → rt' ≡ rt
unfolding release_lease
release_atomic py env id actor key rt rt' e h = ground arith

-- A keyed call that raises leaves the runtime exactly as it was, whichever call it is.
pub perform_atomic :
    (py : Conversions) (env : Env) (call : KeyedCall) (key : Option String) (rt rt' : Runtime)
    (e : Error)
    → perform py env call key rt ≡ (err e, rt')
    → rt' ≡ rt
unfolding perform create_card move_card validate_card record_event claim_card submit_artifact
    renew_lease
perform_atomic py env (create p a b) key rt rt' e h =
    keyed_atomic key _ _ _ _ rt rt' e (replied_err card _ e rt' h)
perform_atomic py env (claim p w s) key rt rt' e h =
    keyed_atomic key _ _ _ _ rt rt' e (replied_err lease _ e rt' h)
perform_atomic py env (submit l p refs) key rt rt' e h =
    keyed_atomic key _ _ _ _ rt rt' e (replied_err artifacts _ e rt' h)
perform_atomic py env (renew l s) key rt rt' e h =
    keyed_atomic key _ _ _ _ rt rt' e (replied_err lease _ e rt' h)
perform_atomic py env (release l a) key rt rt' e h =
    release_atomic py env l a key rt rt' e (replied_err lease _ e rt' h)
perform_atomic py env (validate c v a r o p) key rt rt' e h =
    keyed_atomic key _ _ _ _ rt rt' e (replied_err event _ e rt' h)
perform_atomic py env (move c b a r) key rt rt' e h =
    keyed_atomic key _ _ _ _ rt rt' e (replied_err card _ e rt' h)
perform_atomic py env (record_in_history c t a p) key rt rt' e h =
    keyed_atomic key _ _ _ _ rt rt' e (replied_err event _ e rt' h)
