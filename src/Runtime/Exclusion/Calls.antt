-- ===== src/Runtime/Exclusion/Calls.antt =====
-- The table of leases under each operation, and along a history of calls.
use ghostmesh.Prelude.{
  ℕ, String, ◌≡◌, refl, true, false, Option, none, some, List, [], ◌∷◌, arith, lookup, insert,
  nat_eq, string_eq, ◌==◌, values, sym, subst, ◌∙◌, if_induction, inl, inr, Option-cases, In-values,
  refuted_by_any, ◌&&◌, map,
}
use ghostmesh.Python.{ℤ, Conversions}
use ghostmesh.Result.{Result, ok, err}
use ghostmesh.Domain.Panel.{PatchPanel}
use ghostmesh.Domain.Work.{ArtifactReference, Card, Lease}
use ghostmesh.Runtime.Service.{ensure_active_lease}
use ghostmesh.Runtime.State.{
  Runtime, Env, Stored, lease, artifacts, store_idempotent, record_in_log, get_lease, typed_lease,
  typed_artifacts, has_active_lease, is_active_at, get_idempotent,
}
use ghostmesh.Runtime.Claim.{claim_card, is_claimable}
use ghostmesh.Runtime.Claimable.{check_claim_lem}
use ghostmesh.Runtime.Leases.{
  submit_artifact, renew_lease, release_lease, check_renew, write_release, release_found,
  store_refs, released, attach,
}
use ghostmesh.Runtime.Keyed.{keyed_induction}
use ghostmesh.Runtime.Consistency.{IsConsistent}
use ghostmesh.Runtime.Exclusion.Leases.{IsExclusive, insert-IsExclusive, released-IsExclusive}

-- The invariant as a predicate on the runtime.
abbrev pub Excludes : ℕ → Runtime → Type 0
Excludes t rt = IsExclusive t rt.leases

pub store-Excludes :
    (t : ℕ) (key : Option String) (v : Stored) (rt : Runtime)
    → Excludes t rt
    → Excludes t (store_idempotent key v rt)
unfolding store_idempotent
store-Excludes t none v rt h = h
store-Excludes t (some key) v rt h = if_induction (Excludes t) _ _ rt h h

leases-store_refs :
    (py : Conversions) (env : Env) (refs : List ArtifactReference) (rt : Runtime)
    → (store_refs py env refs rt).leases ≡ rt.leases
unfolding store_refs
leases-store_refs py env [] rt = refl
leases-store_refs py env (ref ∷ refs) rt =
    leases-store_refs py env refs (record rt { artifact_refs = insert ref.id ref rt.artifact_refs })

-- The clauses of the tests that the claim and the renewal rest on.
not_claimed :
    (now : ℕ) (rt : Runtime) (panel : PatchPanel) (bucket : String) (c : Card)
    → is_claimable now rt panel bucket c ≡ true
    → has_active_lease now rt c.id ≡ false
not_claimed now rt panel bucket c h = ground arith

unclaimed_inactive :
    (now : ℕ) (rt : Runtime) (id : ℕ) (l : Lease)
    → has_active_lease now rt id ≡ false
    → (j : ℕ) → lookup j rt.leases ≡ some l
    → is_active_at now l ≡ true
    → l.card_id ≡ id
    → ⊥
unfolding has_active_lease
unclaimed_inactive now rt id l none_active j found active same = ground (
  arith,
  refuted_by_any (λ x. x.card_id == id && is_active_at now x) (values rt.leases) l none_active
      (In-values j l rt.leases found),
)

checked_renew :
    (py : Conversions) (env : Env) (id : ℕ) (rt : Runtime) (l : Lease)
    → check_renew py env id rt ≡ ok l
    → (lookup id rt.leases ≡ some l) × (is_active_at env.now l ≡ true)
unfolding check_renew get_lease ensure_active_lease
checked_renew py env id rt l h = ground arith

module _ (py : Conversions) (env : Env) (rt : Runtime) (h : Excludes env.now rt) where
  pub claim-Excludes :
      (pipe worker : String) (seconds : ℤ) (key : Option String)
      → Excludes env.now (claim_card py env pipe worker seconds key rt).1
  unfolding claim_card record_in_log
  claim-Excludes pipe worker seconds key =
      keyed_induction key lease typed_lease _ _ (Excludes env.now) rt (store-Excludes env.now key)
        (λ (node, c) e.
          let (m, has, _, good) = check_claim_lem env.now rt pipe node c e in
          let free = not_claimed env.now rt m.panel m.bucket c (good c has).1 in
          insert-IsExclusive env.now env.new_id _ rt.leases h (λ j l found active same.
            absurd (unclaimed_inactive env.now rt c.id l free j found active same)))
        h

  pub renew-Excludes :
      (id : ℕ) (seconds : ℤ) (key : Option String)
      → IsConsistent rt
      → Excludes env.now (renew_lease py env id seconds key rt).1
  unfolding renew_lease record_in_log
  renew-Excludes id seconds key tables =
      keyed_induction key lease typed_lease _ _ (Excludes env.now) rt (store-Excludes env.now key)
        (λ l e.
          let (found, active) = checked_renew py env id rt l e in
          insert-IsExclusive env.now l.id _ rt.leases h (λ j m there live same.
            h.at_most_one j id m l there found live active same
            ∙ sym (tables.lease_key id l found)))
        h

  pub submit-Excludes :
      (id : ℕ) (pipe : String) (refs : List ArtifactReference) (key : Option String)
      → Excludes env.now (submit_artifact py env id pipe refs key rt).1
  unfolding submit_artifact record_in_log
  submit-Excludes id pipe refs key =
      keyed_induction key artifacts typed_artifacts _ _ (Excludes env.now) rt
        (store-Excludes env.now key)
        (λ s e.
          subst (IsExclusive env.now)
            (sym (leases-store_refs py env (map (attach py env s.card.id env.event_id) refs) _))
            (released-IsExclusive env.now s.lease.id (released env.written_at s.lease) rt.leases
              refl h))
        h

  release_found-Excludes :
      (actor key : Option String) (r : Result Lease)
      → Excludes env.now (release_found py env actor key r rt).1
  release_found-Excludes actor key (err e) = h
  release_found-Excludes actor key (ok l) = elim (Option-cases l.released_at) [
    | inr (at, gone) ↦ rw (gone, release_found) h
    | inl active ↦
        rw (active, release_found)
          (store-Excludes env.now key _ _ (
            unfold write_release record_in_log in
            released-IsExclusive env.now l.id (released env.written_at l) rt.leases refl h))
  ]

  pub release-Excludes :
      (id : ℕ) (actor key : Option String)
      → Excludes env.now (release_lease py env id actor key rt).1
  release-Excludes id actor key = elim (Option-cases (get_idempotent key rt)) [
    | inr (v, cached) ↦
        let e : (release_lease py env id actor key rt).1 ≡ rt =
          unfold release_lease in ground (arith, cached) in
        subst (Excludes env.now) (sym e) h
    | inl fresh ↦
        let e : release_lease py env id actor key rt
            ≡ release_found py env actor key (get_lease id rt) rt =
          unfold release_lease in ground (arith, fresh) in
        subst (λ x. Excludes env.now x.1) (sym e)
          (release_found-Excludes actor key (get_lease id rt))
  ]
