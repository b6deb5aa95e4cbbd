-- ===== src/Runtime/Operations.antt =====
-- Each operation of `InMemoryCardRuntime` keeps its tables consistent.
use ghostmesh.Prelude.{
  ℕ, String, ◌≡◌, refl, Bool, true, Option, none, some, arith, is_some, lookup, All_apply, inl, inr,
  Option-cases, nat_eq, string_eq, values, sym, subst,
}
use ghostmesh.Python.{ℤ, Payload, Conversions}
use ghostmesh.Result.{Result, ok, err}
use ghostmesh.Domain.Work.{Card, Lease}
use ghostmesh.Runtime.State.{
  Runtime, Env, Stored, card, lease, event, get_idempotent, get_lease, typed_card, typed_lease,
  typed_event,
}
use ghostmesh.Runtime.Cards.{create_card, move_card, validate_card, record_event, write_validate}
use ghostmesh.Runtime.Claim.{claim_card}
use ghostmesh.Runtime.Claimable.{check_claim_lem}
use ghostmesh.Runtime.Leases.{renew_lease, release_lease, check_renew, write_release, release_found}
use ghostmesh.Runtime.Calls.{replied}
use ghostmesh.Runtime.Keyed.{keyed_induction}
use ghostmesh.Runtime.Consistency.{
  IsConsistent, store-IsConsistent, log-IsConsistent, set_card-IsConsistent, set_lease-IsConsistent,
  found_lease,
}

-- `replied` hands the runtime on.
pub replied_runtime :
    {A : Type 0} (wrap : A → Stored) (r : Result A × Runtime) → (replied wrap r).1 ≡ r.1
replied_runtime wrap (ok a, rt) = refl
replied_runtime wrap (err e, rt) = refl

renewed_lease :
    (py : Conversions) (env : Env) (id : ℕ) (rt : Runtime) (l : Lease)
    → check_renew py env id rt ≡ ok l
    → get_lease id rt ≡ ok l
unfolding check_renew
renewed_lease py env id rt l h = ground arith

module _ (py : Conversions) (env : Env) (rt : Runtime) (h : IsConsistent rt) where
  pub create-IsConsistent :
      (panel_id : String) (payload metadata : Payload) (key : Option String)
      → IsConsistent (create_card env panel_id payload metadata key rt).1
  unfolding create_card
  create-IsConsistent panel_id payload metadata key =
      keyed_induction key card typed_card _ _ IsConsistent rt (store-IsConsistent key)
        (λ (panel, bucket) _. log-IsConsistent _ _ (set_card-IsConsistent _ rt h)) h

  pub move-IsConsistent :
      (id : ℕ) (to : String) (actor reason key : Option String)
      → IsConsistent (move_card env id to actor reason key rt).1
  unfolding move_card
  move-IsConsistent id to actor reason key =
      keyed_induction key card typed_card _ _ IsConsistent rt (store-IsConsistent key)
        (λ c _.
          log-IsConsistent _ _ (set_card-IsConsistent (record c { current_bucket = to }) rt h))
        h

  pub validate-IsConsistent :
      (id : ℕ) (by : String) (accepted : Bool) (reason exit : Option String) (payload : Payload)
      (key : Option String)
      → IsConsistent (validate_card env id by accepted reason exit payload key rt).1
  unfolding validate_card
  validate-IsConsistent id by accepted reason exit payload key =
      keyed_induction key event typed_event _ _ IsConsistent rt (store-IsConsistent key)
        (λ (c, e) _. validated c e) h
    where
      validated :
          (c : Card) (e : Option (String × String))
          → IsConsistent (write_validate env by accepted reason payload (c, e) rt).1
      validated c none = log-IsConsistent _ _ h
      validated c (some (pipe, bucket)) =
          log-IsConsistent _ _ (set_card-IsConsistent (record c { current_bucket = bucket }) rt h)

  pub record-IsConsistent :
      (id : ℕ) (type : String) (actor : Option String) (payload : Payload) (key : Option String)
      → IsConsistent (record_event env id type actor payload key rt).1
  unfolding record_event
  record-IsConsistent id type actor payload key =
      keyed_induction key event typed_event _ _ IsConsistent rt (store-IsConsistent key)
        (λ i _. log-IsConsistent _ _ h) h

  pub claim-IsConsistent :
      (pipe worker : String) (seconds : ℤ) (key : Option String)
      → IsConsistent (claim_card py env pipe worker seconds key rt).1
  unfolding claim_card
  claim-IsConsistent pipe worker seconds key =
      keyed_induction key lease typed_lease _ _ IsConsistent rt (store-IsConsistent key)
        (λ (node, c) e.
          let (m, has, _, good) = check_claim_lem env.now rt pipe node c e in
          log-IsConsistent _ _ (
            set_lease-IsConsistent _ rt
              (All_apply (λ x. is_some (lookup x.id rt.cards) ≡ true) c (values rt.cards)
                h.card_listed (good c has).0)
              h))
        h

  pub renew-IsConsistent :
      (id : ℕ) (seconds : ℤ) (key : Option String)
      → IsConsistent (renew_lease py env id seconds key rt).1
  unfolding renew_lease
  renew-IsConsistent id seconds key =
      keyed_induction key lease typed_lease _ _ IsConsistent rt (store-IsConsistent key)
        (λ l e.
          log-IsConsistent _ _ (
            set_lease-IsConsistent _ rt (found_lease rt h id l (renewed_lease py env id rt l e)) h))
        h

  release_found-IsConsistent :
      (id : ℕ) (actor key : Option String) (r : Result Lease)
      → get_lease id rt ≡ r
      → IsConsistent (release_found py env actor key r rt).1
  release_found-IsConsistent id actor key (err e) found = h
  release_found-IsConsistent id actor key (ok l) found = elim (Option-cases l.released_at) [
    | inr (at, gone) ↦ rw (gone, release_found) h
    | inl active ↦
        rw (active, release_found)
          (store-IsConsistent key _ _ (
            unfold write_release in
            log-IsConsistent _ _ (set_lease-IsConsistent _ rt (found_lease rt h id l found) h)))
  ]

  pub release-IsConsistent :
      (id : ℕ) (actor key : Option String) → IsConsistent (release_lease py env id actor key rt).1
  release-IsConsistent id actor key = elim (Option-cases (get_idempotent key rt)) [
    | inr (v, cached) ↦
        let e : (release_lease py env id actor key rt).1 ≡ rt =
          unfold release_lease in ground (arith, cached) in
        subst IsConsistent (sym e) h
    | inl fresh ↦
        let e : release_lease py env id actor key rt
            ≡ release_found py env actor key (get_lease id rt) rt =
          unfold release_lease in ground (arith, fresh) in
        subst (λ x. IsConsistent x.1) (sym e)
          (release_found-IsConsistent id actor key (get_lease id rt) refl)
  ]
