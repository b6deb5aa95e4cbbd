-- ===== src/Runtime/Exclusion/Runs.antt =====
-- Mutual exclusion along a history of calls of runtime/memory.py.
use ghostmesh.Prelude.{
  ℕ, String, ◌≤◌, refl, Bool, Option, none, some, List, [], ◌∷◌, lookup, nat_eq, sym, subst,
  if_induction, values,
}
use ghostmesh.Python.{Payload, Conversions}
use ghostmesh.Result.{Result, ok, err}
use ghostmesh.Domain.Panel.{PatchPanel}
use ghostmesh.Domain.Work.{Lease, Card}
use ghostmesh.PanelValidator.{GraphLibrary}
use ghostmesh.Runtime.State.{
  Runtime, Env, card, event, typed_card, typed_event, record_in_log, empty_runtime,
}
use ghostmesh.Runtime.Cards.{
  register_patch_panel, after_validation, create_card, move_card, validate_card, record_event,
  write_validate,
}
use ghostmesh.Runtime.Leases.{Turn, expire_leases, expire_each, expire_one, is_expired, released}
use ghostmesh.Runtime.Calls.{
  KeyedCall, create, claim, submit, renew, release, validate, move, record_in_history, perform, Run,
  start, registering, calling, expiring,
}
use ghostmesh.Runtime.Keyed.{keyed_induction}
use ghostmesh.Runtime.Consistency.{IsConsistent}
use ghostmesh.Runtime.History.{Run-IsConsistent}
use ghostmesh.Runtime.Operations.{replied_runtime}
use ghostmesh.Runtime.Exclusion.Leases.{IsExclusive, later-IsExclusive, released-IsExclusive}
use ghostmesh.Runtime.Exclusion.Calls.{
  Excludes, store-Excludes, claim-Excludes, renew-Excludes, submit-Excludes, release-Excludes,
}

-- The operations that write no lease.
module _ (t : ℕ) (env : Env) (rt : Runtime) (h : Excludes t rt) where
  create-Excludes :
      (panel_id : String) (payload metadata : Payload) (key : Option String)
      → Excludes t (create_card env panel_id payload metadata key rt).1
  unfolding create_card record_in_log
  create-Excludes panel_id payload metadata key =
      keyed_induction key card typed_card _ _ (Excludes t) rt (store-Excludes t key) (λ (p, b) _. h)
        h

  move-Excludes :
      (id : ℕ) (to : String) (actor reason key : Option String)
      → Excludes t (move_card env id to actor reason key rt).1
  unfolding move_card record_in_log
  move-Excludes id to actor reason key =
      keyed_induction key card typed_card _ _ (Excludes t) rt (store-Excludes t key) (λ c _. h) h

  validate-Excludes :
      (id : ℕ) (by : String) (accepted : Bool) (reason exit : Option String) (payload : Payload)
      (key : Option String)
      → Excludes t (validate_card env id by accepted reason exit payload key rt).1
  unfolding validate_card record_in_log
  validate-Excludes id by accepted reason exit payload key =
      keyed_induction key event typed_event _ _ (Excludes t) rt (store-Excludes t key)
        (λ (c, e) _. followed c e) h
    where
      followed :
          (c : Card) (e : Option (String × String))
          → Excludes t (write_validate env by accepted reason payload (c, e) rt).1
      followed c none = h
      followed c (some (pipe, bucket)) = h

  record-Excludes :
      (id : ℕ) (type : String) (actor : Option String) (payload : Payload) (key : Option String)
      → Excludes t (record_event env id type actor payload key rt).1
  unfolding record_event record_in_log
  record-Excludes id type actor payload key =
      keyed_induction key event typed_event _ _ (Excludes t) rt (store-Excludes t key) (λ i _. h) h

module _ (py : Conversions) (env : Env) where
  expire_each-Excludes :
      (turns : ℕ → Turn) (ls : List Lease) (rt : Runtime)
      → Excludes env.now rt
      → Excludes env.now (expire_each py env turns ls rt).1
  unfolding expire_each record_in_log
  expire_each-Excludes turns [] rt h = h
  expire_each-Excludes turns (l ∷ ls) rt h =
      expire_each-Excludes turns ls (expire_one py env turns l rt) (
        if_induction (Excludes env.now) (is_expired py env l) _ rt
          (released-IsExclusive env.now l.id (released env.now l) rt.leases refl h) h)

  perform-Excludes :
      (call : KeyedCall) (key : Option String) (rt : Runtime)
      → IsConsistent rt
      → Excludes env.now rt
      → Excludes env.now (perform py env call key rt).1
  unfolding perform
  perform-Excludes (create p a b) key rt c h =
      subst (Excludes _) (sym (replied_runtime _ _)) (create-Excludes env.now env rt h p a b key)
  perform-Excludes (claim p w s) key rt c h =
      subst (Excludes _) (sym (replied_runtime _ _)) (claim-Excludes py env rt h p w s key)
  perform-Excludes (submit l p refs) key rt c h =
      subst (Excludes _) (sym (replied_runtime _ _)) (submit-Excludes py env rt h l p refs key)
  perform-Excludes (renew l s) key rt c h =
      subst (Excludes _) (sym (replied_runtime _ _)) (renew-Excludes py env rt h l s key c)
  perform-Excludes (release l a) key rt c h =
      subst (Excludes _) (sym (replied_runtime _ _)) (release-Excludes py env rt h l a key)
  perform-Excludes (validate i w a r o p) key rt c h =
      subst (Excludes _) (sym (replied_runtime _ _))
        (validate-Excludes env.now env rt h i w a r o p key)
  perform-Excludes (move i b a r) key rt c h =
      subst (Excludes _) (sym (replied_runtime _ _)) (move-Excludes env.now env rt h i b a r key)
  perform-Excludes (record_in_history i w a p) key rt c h =
      subst (Excludes _) (sym (replied_runtime _ _)) (record-Excludes env.now env rt h i w a p key)

registered-Excludes :
    (t : ℕ) (panel : PatchPanel) (rt : Runtime) (r : Result Unit)
    → Excludes t rt
    → Excludes t (after_validation panel r rt).1
registered-Excludes t panel rt (ok u) h = h
registered-Excludes t panel rt (err e) h = h

empty-Excludes : (t : ℕ) → Excludes t empty_runtime
unfolding lookup
empty-Excludes t = record { at_most_one = λ i j l m li lj al am same. absurd (cc) }

-- After any history of calls whose clock does not run backwards, at the last reading of the clock and
-- so at any later instant, two leases under different keys that are neither released nor expired
-- name different cards.
pub Run-IsExclusive :
    (nx : GraphLibrary) (py : Conversions) {t : ℕ} {rt : Runtime}
    → Run nx py t rt
    → (at : ℕ) → t ≤ at
    → IsExclusive at rt.leases
unfolding register_patch_panel expire_leases
Run-IsExclusive nx py start at h = empty-Excludes at
Run-IsExclusive nx py (registering r panel) at h =
    registered-Excludes at panel _ _ (Run-IsExclusive nx py r at h)
Run-IsExclusive nx py (calling r env call key later) at h = later-IsExclusive env.now at _ h (
    perform-Excludes py env call key _ (Run-IsConsistent nx py r)
      (Run-IsExclusive nx py r env.now later))
Run-IsExclusive nx py (expiring {rt = s} r env turns later) at h =
    later-IsExclusive env.now at _ h (
      expire_each-Excludes py env turns (values s.leases) s (Run-IsExclusive nx py r env.now later))
