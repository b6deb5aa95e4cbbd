-- ===== src/Runtime/Outcomes.antt =====
-- runtime/memory.py: what has passed when a call like `record_event` returns an event: it is the one
-- that stands under the call's key, and nothing changes, or it is new in the history of its card.
use ghostmesh.Prelude.{
  ℕ, String, ◌≡◌, ◌≢◌, ◌⊎◌, refl, sym, ap, subst, ◌∙◌, inl, inr, Option, none, some, Option-cases,
  [], ◌∷◌, ◌++◌, arith, string_eq, nat_eq,
}
use ghostmesh.Python.{Payload}
use ghostmesh.Result.{Result, ok, Result-cases}
use ghostmesh.Domain.Work.{CardEvent}
use ghostmesh.Runtime.State.{
  Runtime, Env, Stored, event, card, lease, artifacts, typed_event, get_idempotent,
  store_idempotent, keyed, events_of, record_in_log,
}
use ghostmesh.Runtime.Cards.{record_event, check_event, write_event}
use ghostmesh.Runtime.Effects.{events_of-log_self, events_of-log_other}

module _ {A B : Type 0} (key : Option String) (wrap : B → Stored) (typed : Stored → Result B)
    (check : Runtime → Result A) (write : A → Runtime → B × Runtime) where
  -- A keyed call that returns: what was stored is given back, or checked, written and stored.
  pub keyed_returned :
      (rt rt' : Runtime) (b : B)
      → keyed key wrap typed check write rt ≡ (ok b, rt')
      → ((v : Stored) × (get_idempotent key rt ≡ some v) × (typed v ≡ ok b) × (rt' ≡ rt))
        ⊎ ((a : A) × (get_idempotent key rt ≡ none)
            × (check rt ≡ ok a)
            × ((write a rt).0 ≡ b)
            × (rt' ≡ store_idempotent key (wrap (write a rt).0) (write a rt).1))
  unfolding keyed
  keyed_returned rt rt' b h = elim (Option-cases (get_idempotent key rt)) [
    | inr (v, cached) ↦ inl (v, cached, ground (arith, cached, h), ground (arith, cached, h))
    | inl fresh ↦ elim (Result-cases (check rt)) [
      | inr (e, bad) ↦ absurd (ground (arith, fresh, bad, h))
      | inl (a, good) ↦
          inr (a, fresh, good, ground (arith, fresh, good, h), ground (arith, fresh, good, h))
    ]
  ]

-- The event is the one that stands under the key, and the runtime is as it was.
pub record IsReplayed (key : Option String) (e : CardEvent) (rt rt' : Runtime) : Type 0 where
  pub stored : get_idempotent key rt ≡ some (event e)
  pub unchanged : rt' ≡ rt

-- The key was not used, and the event, of this type and by this actor, is the last one in the history
-- of the card; the other histories are as they were.
pub record IsAppended (key : Option String) (card_id : ℕ) (type actor : String) (e : CardEvent)
    (rt rt' : Runtime) : Type 0 where
  pub unused : get_idempotent key rt ≡ none
  pub of_type : e.event_type ≡ type
  pub by_actor : e.actor_id ≡ some actor
  pub last : events_of card_id rt' ≡ events_of card_id rt ++ e ∷ []
  pub others : (i : ℕ) → i ≢ card_id → events_of i rt' ≡ events_of i rt

pub stored_event : (v : Stored) (e : CardEvent) → typed_event v ≡ ok e → v ≡ event e
stored_event (event x) e h = ground arith
stored_event (card x) e h = absurd (cc)
stored_event (lease x) e h = absurd (cc)
stored_event (artifacts x) e h = absurd (cc)

pub store_idempotent_keeps :
    (key : Option String) (v : Stored) (rt : Runtime)
    → let rt' = store_idempotent key v rt in (rt'.events ≡ rt.events) × (rt'.cards ≡ rt.cards)
unfolding store_idempotent
store_idempotent_keeps none v rt = (refl, refl)
store_idempotent_keeps (some k) v rt = ground arith

events_of_store :
    (key : Option String) (v : Stored) (rt : Runtime) (i : ℕ)
    → events_of i (store_idempotent key v rt) ≡ events_of i rt
unfolding events_of
events_of_store key v rt i = let (same, _) = store_idempotent_keeps key v rt in rw same refl

-- An event that is logged over a runtime with the same histories, and stored, is appended.
pub logged-IsAppended :
    (key : Option String) (type actor : String) (e : CardEvent) (rt base : Runtime)
    → get_idempotent key rt ≡ none
    → e.event_type ≡ type
    → e.actor_id ≡ some actor
    → ((i : ℕ) → events_of i base ≡ events_of i rt)
    → IsAppended key e.card_id type actor e rt
        (store_idempotent key (event e) (record_in_log e base))
logged-IsAppended key type actor e rt base unused a b same = record {
  unused = unused;
  of_type = a;
  by_actor = b;
  last =
      events_of_store key (event e) (record_in_log e base) e.card_id
      ∙ events_of-log_self e base
      ∙ ap (λ l. l ++ e ∷ []) (same e.card_id);
  others = λ i ne.
      events_of_store key (event e) (record_in_log e base) i
      ∙ events_of-log_other i e base ne
      ∙ same i;
}

pub get_idempotent_same :
    (key : Option String) (rt rt' : Runtime)
    → rt.idempotency ≡ rt'.idempotency
    → get_idempotent key rt ≡ get_idempotent key rt'
unfolding get_idempotent
get_idempotent_same none rt rt' h = refl
get_idempotent_same (some k) rt rt' h = rw h refl

-- What counts before is the histories and the answers alone.
pub IsAppended-before :
    (key : Option String) (card_id : ℕ) (type actor : String) (e : CardEvent)
    (rt before rt' : Runtime)
    → rt.events ≡ before.events
    → rt.idempotency ≡ before.idempotency
    → IsAppended key card_id type actor e rt rt'
    → IsAppended key card_id type actor e before rt'
unfolding events_of
IsAppended-before key card_id type actor e rt before rt' same_events same_answers h = record {
  unused = sym (get_idempotent_same key rt before same_answers) ∙ h.unused;
  of_type = h.of_type;
  by_actor = h.by_actor;
  last = h.last ∙ rw same_events refl;
  others = λ i ne. h.others i ne ∙ rw same_events refl;
}

module _ (env : Env) where
  record_event-IsAppended :
      (id : ℕ) (type actor : String) (p : Payload) (key : Option String) (rt : Runtime)
      → get_idempotent key rt ≡ none
      → let (e, rt') = write_event env type (some actor) p id rt in
        IsAppended key id type actor e rt (store_idempotent key (event e) rt') × (e.payload ≡ p)
  unfolding write_event
  record_event-IsAppended id type actor p key rt fresh =
      (logged-IsAppended key type actor _ rt rt fresh refl refl (λ i. refl), refl)

  pub record_event-outcome :
      (id : ℕ) (type actor : String) (p : Payload) (key : Option String) (rt rt' : Runtime)
      (e : CardEvent)
      → record_event env id type (some actor) p key rt ≡ (ok e, rt')
      → IsReplayed key e rt rt' ⊎ (IsAppended key id type actor e rt rt' × (e.payload ≡ p))
  unfolding record_event check_event
  record_event-outcome id type actor p key rt rt' e h =
      elim (keyed_returned key event typed_event (check_event env id)
        (write_event env type (some actor) p) rt rt' e h) [
          | inl (v, cached, is_e, same) ↦
              inl (record { stored = cached ∙ ap some (stored_event v e is_e); unchanged = same })
          | inr (i, fresh, good, is_e, now) ↦
              let same : i ≡ id = ground arith in
              inr (
                subst
                  (λ (x : CardEvent × Runtime).
                    IsAppended key id type actor x.0 rt x.1 × (x.0.payload ≡ p))
                  (λ j. (is_e j, sym now j))
                  (subst
                    (λ n.
                      let (x, r) = write_event env type (some actor) p i rt in
                      IsAppended key n type actor x rt (store_idempotent key (event x) r)
                      × (x.payload ≡ p))
                    same (record_event-IsAppended i type actor p key rt fresh)))
        ]
