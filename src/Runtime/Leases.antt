-- ===== src/Runtime/Leases.antt =====
-- runtime/memory.py: the operations on a lease: submit, renew, release and expire.
use ghostmesh.Prelude.{
  ℕ, String, Bool, not, ◌&&◌, Option, none, some, List, [], ◌∷◌, map, leb, is_none, if◌then◌else◌,
  insert, values, ◌==◌, nat_eq, string_eq, is_text,
}
use ghostmesh.Python.{ℤ, Json, str, num, arr, obj, Items, nil, cons, Fields, end, field, Payload}
use ghostmesh.Python.{Conversions}
use ghostmesh.Errors.{lease_node_differs}
use ghostmesh.Result.{Result, ok, err, ◌>>=◌, ◌>>◌, raise_if}
use ghostmesh.Exec.{Exec}
use ghostmesh.Domain.Panel.{output}
use ghostmesh.Domain.Work.{ArtifactReference, Card, CardEvent, Lease}
use ghostmesh.Runtime.Service.{
  resolve_pipe_bucket, ensure_active_lease, ensure_artifact_refs_belong_to_card,
  ensure_artifacts_accepted, add_seconds,
}
use ghostmesh.Runtime.State.{
  Runtime, Env, lease, artifacts, typed_lease, typed_artifacts, record_in_log, get_card, get_lease,
  get_patch_panel_for_card, get_idempotent, store_idempotent, keyed,
}
use ghostmesh.Runtime.Cards.{new_event}

-- `datetime.now` in the checks is `env.now`, and in the release `env.written_at`.
abbrev pub released : ℕ → Lease → Lease
released t l = record l { released_at = some t }

-- What a lease's turn in the loop of `expire_leases` takes from outside: the id and the time of its
-- event.
pub record Turn : Type 0 where
  pub event_id : ℕ
  pub occurred_at : ℕ

-- The lease, its card, and the bucket behind the output pipe.
pub record Submission : Type 0 where
  pub lease : Lease
  pub card : Card
  pub destination : String

unfoldable pub items : List Json → Items
items [] = nil
items (v ∷ vs) = cons v (items vs)

unfoldable pub fields : Payload → Fields
fields [] = end
fields ((k, v) ∷ d) = field k v (fields d)

module _ (py : Conversions) (env : Env) where
  unfoldable pub check_submit : ℕ → String → List ArtifactReference → Runtime → Result Submission
  check_submit lease_id output_pipe refs rt = do
    l ← get_lease lease_id rt
    ensure_active_lease env.now l
    c ← get_card l.card_id rt
    panel ← get_patch_panel_for_card c rt
    target ← resolve_pipe_bucket panel output_pipe output
    ensure_artifact_refs_belong_to_card c.id refs
    ensure_artifacts_accepted py panel target.0 refs
    raise_if (not (target.1 == l.node_id)) (lease_node_differs l.node_id target.1)
    ok (record { lease = l; card = c; destination = target.0 })

  unfoldable pub describe_ref : ArtifactReference → Json
  unfolding fields
  describe_ref ref = obj (
      fields (
        ("id", str (py.uuid_text ref.id))
        ∷ ("storage_ref", str ref.storage_ref)
        ∷ ("content_hash", str ref.content_hash)
        ∷ ("content_type", str ref.content_type)
        ∷ ("size_bytes", num ref.size_bytes)
        ∷ ("metadata", obj (fields ref.metadata))
        ∷ []))

  unfoldable pub submitted_event : Submission → String → List ArtifactReference → CardEvent
  unfolding describe_ref items
  submitted_event s output_pipe refs =
      new_event env s.card.id "artifact_submitted" (some s.lease.worker_id) (
        ("artifact_ids", arr (items (map (λ r. str (py.uuid_text r.id)) refs)))
        ∷ ("artifact_refs", arr (items (map describe_ref refs)))
        ∷ ("lease_id", str (py.uuid_text s.lease.id))
        ∷ ("output_pipe", str output_pipe)
        ∷ ("destination_bucket", str s.destination)
        ∷ [])

  abbrev pub attach : ℕ → ℕ → ArtifactReference → ArtifactReference
  attach card_id event_id ref = record ref { card_id = card_id; event_id = some event_id }

  unfoldable pub store_refs : List ArtifactReference → Runtime → Runtime
  store_refs [] rt = rt
  store_refs (ref ∷ refs) rt =
      store_refs refs (record rt { artifact_refs = insert ref.id ref rt.artifact_refs })

  unfoldable pub write_submit :
      String → List ArtifactReference → Submission → Runtime → List ArtifactReference × Runtime
  unfolding submitted_event store_refs
  write_submit output_pipe refs s rt =
      let e = submitted_event s output_pipe refs in
      let stored = map (attach s.card.id e.id) refs in
      let moved = record s.card { current_bucket = s.destination } in
      (
        stored,
        record_in_log e (
            store_refs stored (record rt {
              cards = insert s.card.id moved rt.cards;
              leases = insert s.lease.id (released env.written_at s.lease) rt.leases;
            })),
      )

  unfoldable pub submit_artifact :
      ℕ
      → (output_pipe : String) (refs : List ArtifactReference) (key : Option String)
      → Exec Runtime (List ArtifactReference)
  unfolding check_submit write_submit
  submit_artifact lease_id output_pipe refs key =
      keyed key artifacts typed_artifacts (check_submit lease_id output_pipe refs)
        (write_submit output_pipe refs)

  unfoldable pub check_renew : ℕ → Runtime → Result Lease
  check_renew lease_id rt = do l ← get_lease lease_id rt; ensure_active_lease env.now l; ok l

  unfoldable pub write_renew : (seconds : ℤ) → Lease → Runtime → Lease × Runtime
  write_renew seconds l rt =
      let renewed = record l { expires_at = add_seconds env.written_at seconds } in
      (
        renewed,
        record_in_log
            (new_event env l.card_id "lease_renewed" (some l.worker_id) (
              ("lease_id", str (py.uuid_text l.id))
              ∷ ("expires_at", str (py.isoformat renewed.expires_at))
              ∷ []))
            (record rt { leases = insert l.id renewed rt.leases }),
      )

  unfoldable pub renew_lease : ℕ → (seconds : ℤ) (key : Option String) → Exec Runtime Lease
  unfolding check_renew write_renew
  renew_lease lease_id seconds key =
      keyed key lease typed_lease (check_renew lease_id) (write_renew seconds)

  -- `actor_id or lease.worker_id`
  abbrev actor_or : Option String → String → String
  actor_or none worker = worker
  actor_or (some actor) worker = if is_text actor then actor else worker

  unfoldable pub write_release : Option String → Lease → Runtime → Lease × Runtime
  write_release actor_id l rt =
      let l' = released env.written_at l in
      (
        l',
        record_in_log
            (new_event env l.card_id "lease_released" (some (actor_or actor_id l.worker_id))
              (("lease_id", str (py.uuid_text l.id)) ∷ []))
            (record rt { leases = insert l.id l' rt.leases }),
      )

  -- A lease that was released is returned as it is, and nothing is remembered.
  abbrev pub release_found : Option String → Option String → Result Lease → Exec Runtime Lease
  release_found actor_id key (err e) rt = (err e, rt)
  release_found actor_id key (ok l) rt = elim l.released_at [
    | some _ ↦ (ok l, rt)
    | none ↦
        let (l', rt') = write_release actor_id l rt in (ok l', store_idempotent key (lease l') rt')
  ]

  unfoldable pub release_lease : ℕ → (actor_id key : Option String) → Exec Runtime Lease
  unfolding write_release
  release_lease lease_id actor_id key rt = elim (get_idempotent key rt) [
    | some cached ↦ (typed_lease cached, rt)
    | none ↦ release_found actor_id key (get_lease lease_id rt) rt
  ]

  abbrev pub is_expired : Lease → Bool
  is_expired l = is_none l.released_at && leb l.expires_at env.now

  abbrev pub expired_event : (ℕ → Turn) → Lease → CardEvent
  expired_event turns l =
      record (new_event env l.card_id "lease_expired" (some l.worker_id)
        (("lease_id", str (py.uuid_text l.id)) ∷ [])) {
          id = (turns l.id).event_id;
          occurred_at = (turns l.id).occurred_at;
        }

  unfoldable pub expire_one : (ℕ → Turn) → Lease → Runtime → Runtime
  expire_one turns l rt =
      if is_expired l
      then record_in_log (expired_event turns l)
          (record rt { leases = insert l.id (released env.now l) rt.leases })
      else rt

  unfoldable pub expire_each : (ℕ → Turn) → List Lease → Runtime → List Lease × Runtime
  unfolding expire_one
  expire_each turns [] rt = ([], rt)
  expire_each turns (l ∷ ls) rt =
      let (expired, rt') = expire_each turns ls (expire_one turns l rt) in
      (if is_expired l then released env.now l ∷ expired else expired, rt')

  unfoldable pub expire_leases : (ℕ → Turn) → Runtime → List Lease × Runtime
  unfolding expire_each
  expire_leases turns rt = expire_each turns (values rt.leases) rt
