-- ===== src/Runtime/History.antt =====
-- The tables of `InMemoryCardRuntime` stay consistent along every history of calls.
use ghostmesh.Prelude.{
  ℕ, String, ◌≡◌, true, Option, List, [], ◌∷◌, map, arith, is_some, lookup, insert, lookup-insert,
  All, nat_eq, string_eq, values, sym, subst, if_induction,
}
use ghostmesh.Python.{Conversions}
use ghostmesh.Result.{Result, ok, err}
use ghostmesh.Domain.Panel.{PatchPanel}
use ghostmesh.Domain.Work.{ArtifactReference, Lease}
use ghostmesh.PanelValidator.{GraphLibrary}
use ghostmesh.Runtime.State.{
  Runtime, Env, artifacts, typed_artifacts, events_of, record_in_log, empty_runtime,
}
use ghostmesh.Runtime.Cards.{register_patch_panel, after_validation}
use ghostmesh.Runtime.Leases.{
  Turn, submit_artifact, expire_leases, expire_each, expire_one, is_expired, attach, released,
}
use ghostmesh.Runtime.Calls.{
  KeyedCall, create, claim, submit, renew, release, validate, move, record_in_history, perform, Run,
  start, registering, calling, expiring,
}
use ghostmesh.Runtime.Keyed.{keyed_induction}
use ghostmesh.Runtime.Consistency.{
  IsConsistent, store-IsConsistent, log-IsConsistent, set_card-IsConsistent, set_lease-IsConsistent,
  store_refs-IsConsistent, found_lease,
}
use ghostmesh.Runtime.Operations.{
  replied_runtime, create-IsConsistent, move-IsConsistent, validate-IsConsistent,
  record-IsConsistent, claim-IsConsistent, renew-IsConsistent, release-IsConsistent,
}
use ghostmesh.Runtime.Submission.{check_submit_lem}

module _ (py : Conversions) (env : Env) where
  -- Writing the card first or the lease first makes no difference to the two tables.
  submit-IsConsistent :
      (rt : Runtime) (id : ℕ) (pipe : String) (refs : List ArtifactReference) (key : Option String)
      → IsConsistent rt
      → IsConsistent (submit_artifact py env id pipe refs key rt).1
  unfolding submit_artifact
  submit-IsConsistent rt id pipe refs key h =
      keyed_induction key artifacts typed_artifacts _ _ IsConsistent rt (store-IsConsistent key)
        (λ s e.
          let a = check_submit_lem py env id pipe refs rt s e in
          let moved = record s.card { current_bucket = s.destination } in
          let with_card = set_card-IsConsistent moved rt h in
          let there : is_some (lookup s.lease.card_id (insert moved.id moved rt.cards)) ≡ true =
            ground (
              arith,
              lookup-insert moved.id s.lease.card_id moved rt.cards,
              found_lease rt h id s.lease a.found,
            ) in
          log-IsConsistent _ _ (
            store_refs-IsConsistent py env (map (attach py env s.card.id env.event_id) refs) _
              (set_lease-IsConsistent (released env.written_at s.lease) _ there with_card)))
        h

  expire_one-IsConsistent :
      (turns : ℕ → Turn) (l : Lease) (rt : Runtime)
      → is_some (lookup l.card_id rt.cards) ≡ true
      → IsConsistent rt
      → IsConsistent (expire_one py env turns l rt)
  unfolding expire_one
  expire_one-IsConsistent turns l rt there h =
      if_induction IsConsistent (is_expired py env l) _ rt
        (log-IsConsistent _ _ (set_lease-IsConsistent (released env.now l) rt there h)) h

  cards-expire_one :
      (turns : ℕ → Turn) (l : Lease) (rt : Runtime)
      → (expire_one py env turns l rt).cards ≡ rt.cards
  unfolding expire_one record_in_log
  cards-expire_one turns l rt = ground arith

  expire_each-IsConsistent :
      (turns : ℕ → Turn) (ls : List Lease) (rt : Runtime)
      → All (λ l. is_some (lookup l.card_id rt.cards) ≡ true) ls
      → IsConsistent rt
      → IsConsistent (expire_each py env turns ls rt).1
  unfolding expire_each
  expire_each-IsConsistent turns [] rt there h = h
  expire_each-IsConsistent turns (l ∷ ls) rt there h =
      expire_each-IsConsistent turns ls (expire_one py env turns l rt)
        (subst (λ d. All (λ (x : Lease). is_some (lookup x.card_id d) ≡ true) ls)
          (sym (cards-expire_one turns l rt)) there.1)
        (expire_one-IsConsistent turns l rt there.0 h)

  pub expire-IsConsistent :
      (turns : ℕ → Turn) (rt : Runtime)
      → IsConsistent rt
      → IsConsistent (expire_leases py env turns rt).1
  unfolding expire_leases
  expire-IsConsistent turns rt h =
      expire_each-IsConsistent turns (values rt.leases) rt h.lease_card h

  pub perform-IsConsistent :
      (call : KeyedCall) (key : Option String) (rt : Runtime)
      → IsConsistent rt
      → IsConsistent (perform py env call key rt).1
  unfolding perform
  perform-IsConsistent (create p a b) key rt h =
      subst IsConsistent (sym (replied_runtime _ _)) (create-IsConsistent py env rt h p a b key)
  perform-IsConsistent (claim p w s) key rt h =
      subst IsConsistent (sym (replied_runtime _ _)) (claim-IsConsistent py env rt h p w s key)
  perform-IsConsistent (submit l p refs) key rt h =
      subst IsConsistent (sym (replied_runtime _ _)) (submit-IsConsistent rt l p refs key h)
  perform-IsConsistent (renew l s) key rt h =
      subst IsConsistent (sym (replied_runtime _ _)) (renew-IsConsistent py env rt h l s key)
  perform-IsConsistent (release l a) key rt h =
      subst IsConsistent (sym (replied_runtime _ _)) (release-IsConsistent py env rt h l a key)
  perform-IsConsistent (validate c w a r o p) key rt h =
      subst IsConsistent (sym (replied_runtime _ _))
        (validate-IsConsistent py env rt h c w a r o p key)
  perform-IsConsistent (move c b a r) key rt h =
      subst IsConsistent (sym (replied_runtime _ _)) (move-IsConsistent py env rt h c b a r key)
  perform-IsConsistent (record_in_history c w a p) key rt h =
      subst IsConsistent (sym (replied_runtime _ _)) (record-IsConsistent py env rt h c w a p key)

pub register-IsConsistent :
    (nx : GraphLibrary) (panel : PatchPanel) (rt : Runtime)
    → IsConsistent rt
    → IsConsistent (register_patch_panel nx panel rt).1
unfolding register_patch_panel
register-IsConsistent nx panel rt h = registered _
  where
    registered : (r : Result Unit) → IsConsistent (after_validation panel r rt).1
    registered (err e) = h
    registered (ok u) =
        unfold events_of in
        record {
          card_key = h.card_key;
          card_listed = h.card_listed;
          lease_key = h.lease_key;
          lease_card = h.lease_card;
          event_key = h.event_key;
        }

empty-IsConsistent : IsConsistent empty_runtime
unfolding events_of lookup
empty-IsConsistent = record {
  card_key = λ i c e. cc;
  card_listed = tt;
  lease_key = λ i l e. cc;
  lease_card = tt;
  event_key = λ i. tt;
}

-- After any history of calls, failing ones included: each card and lease stands under its own id,
-- each lease names a card that is there, and each event stands in the history of its own card.
pub Run-IsConsistent :
    (nx : GraphLibrary) (py : Conversions) {t : ℕ} {rt : Runtime} → Run nx py t rt → IsConsistent rt
Run-IsConsistent nx py start = empty-IsConsistent
Run-IsConsistent nx py (registering r panel) =
    register-IsConsistent nx panel _ (Run-IsConsistent nx py r)
Run-IsConsistent nx py (calling r env call key later) =
    perform-IsConsistent py env call key _ (Run-IsConsistent nx py r)
Run-IsConsistent nx py (expiring r env turns later) =
    expire-IsConsistent py env turns _ (Run-IsConsistent nx py r)
