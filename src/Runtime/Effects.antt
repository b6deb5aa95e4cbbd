-- ===== src/Runtime/Effects.antt =====
-- What `submit_artifact` of runtime/memory.py leaves behind.
use ghostmesh.Prelude.{
  ℕ, String, ◌≡◌, ◌≢◌, refl, ap, subst, ◌∙◌, none, some, List, [], ◌∷◌, ◌++◌, map, lookup, insert,
  lookup-insert_self, lookup-insert_ne, nat_eq, arith, inl, inr,
}
use ghostmesh.Python.{Conversions}
use ghostmesh.Errors.{lease_already_released}
use ghostmesh.Result.{ok, err, Result-cases}
use ghostmesh.Domain.Work.{ArtifactReference, CardEvent, Lease}
use ghostmesh.Runtime.Service.{ensure_active_lease}
use ghostmesh.Runtime.State.{
  Runtime, Env, keyed, commit, get_idempotent, store_idempotent, record_in_log, events_of,
  events_of-record_in_log, get_lease,
}
use ghostmesh.Runtime.Leases.{
  Submission, submit_artifact, check_submit, write_submit, store_refs, submitted_event, attach,
  released,
}
use ghostmesh.Runtime.Consistency.{IsConsistent}
use ghostmesh.Runtime.Submission.{IsAccepted, check_submit_lem}

events_of_same :
    (i : ℕ) (rt rt' : Runtime) → rt'.events ≡ rt.events → events_of i rt' ≡ events_of i rt
unfolding events_of
events_of_same i rt rt' h = rw h refl

got_lease :
    (id : ℕ) (rt : Runtime) (l : Lease) → get_lease id rt ≡ ok l → lookup id rt.leases ≡ some l
unfolding get_lease
got_lease id rt l h = ground arith

pub events_of-log_self :
    (e : CardEvent) (rt : Runtime)
    → events_of e.card_id (record_in_log e rt) ≡ events_of e.card_id rt ++ e ∷ []
events_of-log_self e rt =
    ground (arith, events_of-record_in_log e.card_id e rt, nat_eq.beq_iff e.card_id e.card_id)

pub events_of-log_other :
    (i : ℕ) (e : CardEvent) (rt : Runtime)
    → i ≢ e.card_id
    → events_of i (record_in_log e rt) ≡ events_of i rt
events_of-log_other i e rt ne =
    ground (arith, events_of-record_in_log i e rt, nat_eq.beq_iff i e.card_id)

module _ (py : Conversions) (env : Env) where
  store_refs_keeps :
      (refs : List ArtifactReference) (rt : Runtime)
      → let rt' = store_refs py env refs rt in
        (rt'.cards ≡ rt.cards) × (rt'.leases ≡ rt.leases) × (rt'.events ≡ rt.events)
  unfolding store_refs
  store_refs_keeps [] rt = (refl, refl, refl)
  store_refs_keeps (r ∷ refs) rt =
      store_refs_keeps refs (record rt { artifact_refs = insert r.id r rt.artifact_refs })

  -- What a submission that was accepted does to the tables.
  pub record IsSubmitted (id : ℕ) (pipe : String) (refs stored : List ArtifactReference)
      (rt rt' : Runtime) : Type 0 where
    pub submission : Submission
    pub accepted : IsAccepted py env id pipe refs rt submission
    pub moved :
        lookup submission.card.id rt'.cards
        ≡ some (record submission.card { current_bucket = submission.destination })
    pub other_cards : (i : ℕ) → i ≢ submission.card.id → lookup i rt'.cards ≡ lookup i rt.cards
    pub let_go :
        lookup submission.lease.id rt'.leases ≡ some (released env.written_at submission.lease)
    pub other_leases : (i : ℕ) → i ≢ submission.lease.id → lookup i rt'.leases ≡ lookup i rt.leases
    pub told :
        events_of submission.card.id rt'
        ≡ events_of submission.card.id rt ++ submitted_event py env submission pipe refs ∷ []
    pub other_histories : (i : ℕ) → i ≢ submission.card.id → events_of i rt' ≡ events_of i rt
    pub linked : stored ≡ map (attach py env submission.card.id env.event_id) refs

  submit-IsSubmitted :
      (id : ℕ) (pipe : String) (refs : List ArtifactReference) (rt : Runtime) (s : Submission)
      → check_submit py env id pipe refs rt ≡ ok s
      → IsSubmitted id pipe refs
          (write_submit py env pipe refs s rt).0
          rt
          (write_submit py env pipe refs s rt).1
  unfolding write_submit submitted_event
  submit-IsSubmitted id pipe refs rt s h =
      let stored = map (attach py env s.card.id env.event_id) refs in
      let moved = record s.card { current_bucket = s.destination } in
      let gone = released env.written_at s.lease in
      let e = submitted_event py env s pipe refs in
      let base = record rt {
        cards = insert s.card.id moved rt.cards;
        leases = insert s.lease.id gone rt.leases;
      } in
      let (cards, leases, events) = store_refs_keeps stored base in
      let full = store_refs py env stored base in
      unfold record_in_log in
      record {
        submission = s;
        accepted = check_submit_lem py env id pipe refs rt s h;
        moved = ap (λ d. lookup s.card.id d) cards ∙ lookup-insert_self s.card.id moved rt.cards;
        other_cards =
            λ i ne. ap (λ d. lookup i d) cards ∙ lookup-insert_ne s.card.id i moved rt.cards ne;
        let_go =
            ap (λ d. lookup s.lease.id d) leases ∙ lookup-insert_self s.lease.id gone rt.leases;
        other_leases =
            λ i ne. ap (λ d. lookup i d) leases ∙ lookup-insert_ne s.lease.id i gone rt.leases ne;
        told =
            subst (λ x. events_of s.card.id (record_in_log e full) ≡ x ++ e ∷ [])
              (events_of_same s.card.id rt full events) (events_of-log_self e full);
        other_histories = λ i ne. events_of-log_other i e full ne ∙ events_of_same i rt full events;
        linked = refl;
      }

  checked :
      (id : ℕ) (pipe : String) (refs stored : List ArtifactReference) (rt rt' : Runtime)
      → submit_artifact py env id pipe refs none rt ≡ (ok stored, rt')
      → (s : Submission) × (check_submit py env id pipe refs rt ≡ ok s)
        × (write_submit py env pipe refs s rt ≡ (stored, rt'))
  unfolding submit_artifact keyed get_idempotent commit store_idempotent
  checked id pipe refs stored rt rt' h = elim (Result-cases (check_submit py env id pipe refs rt)) [
    | inr (e, bad) ↦ absurd (ground (arith, bad))
    | inl (s, good) ↦ (s, good, ground (arith, good))
  ]

  -- A submission without a key that returns has passed every check, and it moves the lease's card to
  -- the bucket behind the output pipe, releases the lease, appends one event to the card's history
  -- and returns the references bound to the card and to that event; every other card, lease and
  -- history stays as it was.
  pub submit_artifact-IsSubmitted :
      (id : ℕ) (pipe : String) (refs stored : List ArtifactReference) (rt rt' : Runtime)
      → submit_artifact py env id pipe refs none rt ≡ (ok stored, rt')
      → IsSubmitted id pipe refs stored rt rt'
  submit_artifact-IsSubmitted id pipe refs stored rt rt' h =
      let (s, good, made) = checked id pipe refs stored rt rt' h in
      subst (λ (r : List ArtifactReference × Runtime). IsSubmitted id pipe refs r.0 rt r.1) made
        (submit-IsSubmitted id pipe refs rt s good)

module _ (py : Conversions) (env env' : Env) where
  -- In a runtime whose tables agree, a lease that a submission without a key has used takes no further
  -- submission without a key: it raises that the lease was released, and changes nothing.
  pub submit_artifact_twice :
      (id : ℕ) (pipe pipe' : String) (refs refs' stored : List ArtifactReference) (rt rt' : Runtime)
      → IsConsistent rt
      → submit_artifact py env id pipe refs none rt ≡ (ok stored, rt')
      → submit_artifact py env' id pipe' refs' none rt' ≡ (err (lease_already_released id), rt')
  unfolding submit_artifact keyed get_idempotent commit check_submit get_lease ensure_active_lease
  submit_artifact_twice id pipe pipe' refs refs' stored rt rt' h made =
      let done = submit_artifact-IsSubmitted py env id pipe refs stored rt rt' made in
      let found : lookup id rt.leases ≡ some done.submission.lease =
        got_lease id rt _ done.accepted.found in
      let own : done.submission.lease.id ≡ id = h.lease_key id done.submission.lease found in
      let now : lookup id rt'.leases ≡ some (released env.written_at done.submission.lease) =
        subst (λ i. lookup i rt'.leases ≡ some (released env.written_at done.submission.lease)) own
          done.let_go in
      ground (arith, now, own)
