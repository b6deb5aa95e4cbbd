-- ===== src/Runtime/Replay.antt =====
-- The idempotency table of runtime/memory.py: a retry under the same key gives the first answer and
-- changes nothing.
use ghostmesh.Prelude.{
  ℕ, String, ◌≡◌, refl, ap, true, Option, some, List, [], ◌∷◌, arith, is_text, inl, inr,
  Option-cases, lookup-insert_self, string_eq,
}
use ghostmesh.Python.{Conversions}
use ghostmesh.Result.{Result, ok, err, Result-cases}
use ghostmesh.Domain.Work.{ArtifactReference, Lease}
use ghostmesh.Runtime.Service.{ensure_artifact_refs_belong_to_card}
use ghostmesh.Runtime.State.{
  Runtime, Env, Stored, card, lease, artifacts, event, truth, get_idempotent, store_idempotent,
  keyed, typed_card, typed_lease, typed_event, typed_artifacts, get_lease,
}
use ghostmesh.Runtime.Cards.{create_card, move_card, validate_card, record_event}
use ghostmesh.Runtime.Claim.{claim_card}
use ghostmesh.Runtime.Leases.{
  Submission, submit_artifact, renew_lease, release_lease, check_submit, write_submit,
  write_release,
}
use ghostmesh.Runtime.Calls.{
  KeyedCall, create, claim, submit, renew, release, validate, move, record_in_history, perform,
  replied,
}

pub get-store :
    (key : String) (v : Stored) (rt : Runtime)
    → is_text key ≡ true
    → truth v ≡ true
    → get_idempotent (some key) (store_idempotent (some key) v rt) ≡ some v
unfolding get_idempotent store_idempotent
get-store key v rt h t = ground (arith, lookup-insert_self key v rt.idempotency)

module _ {A B : Type 0} (k : String) (wrap : B → Stored) (typed : Stored → Result B)
    (check check' : Runtime → Result A) (write write' : A → Runtime → B × Runtime) where
  pub keyed_replay :
      (rt rt' : Runtime) (b : B)
      → is_text k ≡ true
      → typed (wrap b) ≡ ok b
      → ((a : A) → check rt ≡ ok a → truth (wrap (write a rt).0) ≡ true)
      → keyed (some k) wrap typed check write rt ≡ (ok b, rt')
      → keyed (some k) wrap typed check' write' rt' ≡ (ok b, rt')
  keyed_replay rt rt' b t round true_value h = elim (Option-cases (get_idempotent (some k) rt)) [
    | inr (v, cached) ↦ unfold keyed in ground (arith, cached)
    | inl fresh ↦ elim (Result-cases (check rt)) [
      | inr (e, bad) ↦ unfold keyed in ground (arith, fresh, bad)
      | inl (a, good) ↦
          unfold keyed in
          ground (
            arith,
            fresh,
            good,
            true_value a good,
            get-store k (wrap (write a rt).0) (write a rt).1 t,
          )
    ]
  ]

replied_ok :
    {A : Type 0} (wrap : A → Stored) (r : Result A × Runtime) (v : Stored) (rt' : Runtime)
    → replied wrap r ≡ (ok v, rt')
    → (a : A) × (r ≡ (ok a, rt')) × (wrap a ≡ v)
replied_ok wrap (ok a, rt) v rt' h = (a, ground arith, ground arith)
replied_ok wrap (err e, rt) v rt' h = absurd (cc)

-- The same call, made again through `replied`.
module _ {A B : Type 0} (k : String) (wrap : B → Stored) (typed : Stored → Result B)
    (round : (b : B) → typed (wrap b) ≡ ok b) (check check' : Runtime → Result A)
    (write write' : A → Runtime → B × Runtime) where
  replied_replay :
      (rt rt' : Runtime) (v : Stored)
      → is_text k ≡ true
      → ((a : A) → check rt ≡ ok a → truth (wrap (write a rt).0) ≡ true)
      → replied wrap (keyed (some k) wrap typed check write rt) ≡ (ok v, rt')
      → replied wrap (keyed (some k) wrap typed check' write' rt') ≡ (ok v, rt')
  replied_replay rt rt' v t true_value h =
      let (b, first, e) = replied_ok wrap _ v rt' h in
      rw (keyed_replay k wrap typed check check' write write' rt rt' b t (round b) true_value first)
        (ap (λ x. (ok x, rt')) e)

release_replay :
    (py : Conversions) (env env' : Env) (id : ℕ) (actor : Option String) (k : String)
    (rt rt' : Runtime) (l : Lease)
    → is_text k ≡ true
    → release_lease py env id actor (some k) rt ≡ (ok l, rt')
    → release_lease py env' id actor (some k) rt' ≡ (ok l, rt')
release_replay py env env' id actor k rt rt' l t h =
    elim (Option-cases (get_idempotent (some k) rt)) [
      | inr (v, cached) ↦ unfold release_lease in ground (arith, cached)
      | inl fresh ↦ elim (Result-cases (get_lease id rt)) [
        | inr (e, bad) ↦ unfold release_lease in ground (arith, fresh, bad)
        | inl (found, good) ↦ elim (Option-cases found.released_at) [
          | inr (at, gone) ↦ unfold release_lease in ground (arith, fresh, good, gone)
          | inl active ↦
              unfold release_lease in
              ground (
                arith,
                fresh,
                good,
                active,
                get-store k (lease (write_release py env actor found rt).0)
                    (write_release py env actor found rt).1 t,
              )
        ]
      ]
    ]

submission_truth :
    (py : Conversions) (env : Env) (id : ℕ) (pipe : String) (refs : List ArtifactReference)
    (rt : Runtime) (s : Submission)
    → check_submit py env id pipe refs rt ≡ ok s
    → truth (artifacts (write_submit py env pipe refs s rt).0) ≡ true
unfolding check_submit write_submit ensure_artifact_refs_belong_to_card
submission_truth py env id pipe [] rt s h = ground arith
submission_truth py env id pipe (r ∷ refs) rt s h = refl

-- After a call under a key that is not empty has returned a value, the same call under the same key,
-- made at once but with any clock and any new identifiers, returns that value and changes nothing.
pub perform_replay :
    (py : Conversions) (env env' : Env) (call : KeyedCall) (k : String) (rt rt' : Runtime)
    (v : Stored)
    → is_text k ≡ true
    → perform py env call (some k) rt ≡ (ok v, rt')
    → perform py env' call (some k) rt' ≡ (ok v, rt')
unfolding perform create_card move_card validate_card record_event claim_card submit_artifact
    renew_lease
perform_replay py env env' (create p a b) k rt rt' v t h =
    replied_replay k card typed_card (λ _. refl) _ _ _ _ rt rt' v t (λ _ _. refl) h
perform_replay py env env' (claim p w s) k rt rt' v t h =
    replied_replay k lease typed_lease (λ _. refl) _ _ _ _ rt rt' v t (λ _ _. refl) h
perform_replay py env env' (submit l p refs) k rt rt' v t h =
    replied_replay k artifacts typed_artifacts (λ _. refl) _ _ _ _ rt rt' v t
      (λ s. submission_truth py env l p refs rt s) h
perform_replay py env env' (renew l s) k rt rt' v t h =
    replied_replay k lease typed_lease (λ _. refl) _ _ _ _ rt rt' v t (λ _ _. refl) h
perform_replay py env env' (release l a) k rt rt' v t h =
    let (b, first, e) = replied_ok lease _ v rt' h in
    rw (release_replay py env env' l a k rt rt' b t first) (ap (λ x. (ok x, rt')) e)
perform_replay py env env' (validate c w a r o p) k rt rt' v t h =
    replied_replay k event typed_event (λ _. refl) _ _ _ _ rt rt' v t (λ _ _. refl) h
perform_replay py env env' (move c b a r) k rt rt' v t h =
    replied_replay k card typed_card (λ _. refl) _ _ _ _ rt rt' v t (λ _ _. refl) h
perform_replay py env env' (record_in_history c w a p) k rt rt' v t h =
    replied_replay k event typed_event (λ _. refl) _ _ _ _ rt rt' v t (λ _ _. refl) h
