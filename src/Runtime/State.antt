-- ===== src/Runtime/State.antt =====
-- runtime/memory.py: the fields of `InMemoryCardRuntime`, its private helpers, and the shape that its
-- keyed operations share: answer from the idempotency table, or check, write and remember.
use ghostmesh.Prelude.{
  ℕ, String, Bool, true, false, Option, none, some, List, [], ◌∷◌, ◌++◌, any, ltb, is_none, ◌&&◌,
  if◌then◌else◌, is_text, Dict, lookup, insert, values, ◌==◌, nat_eq, string_eq, ◌≡◌, arith,
  lookup-insert,
}
use ghostmesh.Errors.{key_reused, card_missing, lease_missing, panel_not_registered}
use ghostmesh.Result.{Result, ok, err, or_raise}
use ghostmesh.Exec.{Exec}
use ghostmesh.Domain.Panel.{PatchPanel}
use ghostmesh.Domain.Work.{ArtifactReference, Card, CardEvent, Lease}
use ghostmesh.Prelude.{before_last_colon}

-- What the idempotency table holds: the object that an operation returned.
pub data Stored : Type 0 where
  card : Card → Stored
  lease : Lease → Stored
  artifacts : List ArtifactReference → Stored
  event : CardEvent → Stored

pub record Runtime : Type 0 where
  pub patch_panels : Dict String PatchPanel
  pub cards : Dict ℕ Card
  pub leases : Dict ℕ Lease
  pub artifact_refs : Dict ℕ ArtifactReference
  pub events : Dict ℕ (List CardEvent)
  pub idempotency : Dict String Stored

abbrev pub empty_runtime : Runtime
empty_runtime = record {
  patch_panels = [];
  cards = [];
  leases = [];
  artifact_refs = [];
  events = [];
  idempotency = [];
}

-- What one call takes from outside, in the order of the calls: the readings of `datetime.now`, and
-- the values of `uuid4`. `now` is read by the checks, `written_at` by the fields that are written,
-- `stamped_at` by a new card or lease, and `occurred_at` by the event.
pub record Env : Type 0 where
  pub now : ℕ
  pub written_at : ℕ
  pub stamped_at : ℕ
  pub occurred_at : ℕ
  pub new_id : ℕ
  pub event_id : ℕ

-- `bool(value)`: of the stored values only the empty list is false.
abbrev pub truth : Stored → Bool
truth (artifacts []) = false
truth _ = true

abbrev if_true : Option Stored → Option Stored
if_true none = none
if_true (some v) = if truth v then some v else none

-- `if cached := self._get_idempotent(key)`
unfoldable pub get_idempotent : Option String → Runtime → Option Stored
get_idempotent none rt = none
get_idempotent (some key) rt = if is_text key then if_true (lookup key rt.idempotency) else none

unfoldable pub store_idempotent : Option String → Stored → Runtime → Runtime
store_idempotent none value rt = rt
store_idempotent (some key) value rt =
    if is_text key then record rt { idempotency = insert key value rt.idempotency } else rt

-- `_typed(value, T)` and `_typed_artifacts`, for the four types.
abbrev pub typed_card : Stored → Result Card
typed_card (card c) = ok c
typed_card _ = err key_reused

abbrev pub typed_lease : Stored → Result Lease
typed_lease (lease l) = ok l
typed_lease _ = err key_reused

abbrev pub typed_event : Stored → Result CardEvent
typed_event (event e) = ok e
typed_event _ = err key_reused

abbrev pub typed_artifacts : Stored → Result (List ArtifactReference)
typed_artifacts (artifacts refs) = ok refs
typed_artifacts _ = err key_reused

abbrev events_or_new : Option (List CardEvent) → List CardEvent
events_or_new none = []
events_or_new (some es) = es

-- `self._events.get(card_id, [])`
unfoldable pub events_of : ℕ → Runtime → List CardEvent
events_of card_id rt = events_or_new (lookup card_id rt.events)

unfoldable pub record_in_log : CardEvent → Runtime → Runtime
unfolding events_of
record_in_log e rt = record rt {
  events = insert e.card_id (events_of e.card_id rt ++ e ∷ []) rt.events;
}

-- What an event adds, for every card.
pub events_of-record_in_log :
    (i : ℕ) (e : CardEvent) (rt : Runtime)
    → events_of i (record_in_log e rt)
      ≡ (if i == e.card_id then events_of e.card_id rt ++ e ∷ [] else events_of i rt)
unfolding record_in_log
events_of-record_in_log i e rt =
    ground (arith, lookup-insert e.card_id i (events_of e.card_id rt ++ e ∷ []) rt.events)

unfoldable pub get_card : ℕ → Runtime → Result Card
get_card card_id rt = or_raise (lookup card_id rt.cards) (card_missing card_id)

unfoldable pub get_lease : ℕ → Runtime → Result Lease
get_lease lease_id rt = or_raise (lookup lease_id rt.leases) (lease_missing lease_id)

unfoldable pub get_patch_panel : String → Runtime → Result PatchPanel
get_patch_panel id rt = or_raise (lookup id rt.patch_panels) (panel_not_registered id)

unfoldable pub get_patch_panel_for_card : Card → Runtime → Result PatchPanel
unfolding get_patch_panel
get_patch_panel_for_card c rt = get_patch_panel (before_last_colon c.workflow_version) rt

abbrev pub is_active_at : ℕ → Lease → Bool
is_active_at now l = is_none l.released_at && ltb now l.expires_at

unfoldable pub has_active_lease : ℕ → Runtime → ℕ → Bool
has_active_lease now rt card_id =
    any (λ l. l.card_id == card_id && is_active_at now l) (values rt.leases)

-- The checks read the runtime, and may raise; the writes make the result and the new runtime.
abbrev remember : {B : Type 0} → Option String → (B → Stored) → B × Runtime → Result B × Runtime
remember key wrap (b, rt) = (ok b, store_idempotent key (wrap b) rt)

module _ {A B : Type 0} (key : Option String) (wrap : B → Stored) where
  unfoldable pub commit : (A → Runtime → B × Runtime) → Result A → Exec Runtime B
  commit write (ok a) rt = remember key wrap (write a rt)
  commit write (err e) rt = (err e, rt)

  unfoldable pub keyed :
      (Stored → Result B) → (Runtime → Result A) → (A → Runtime → B × Runtime) → Exec Runtime B
  unfolding commit
  keyed typed check write rt = elim (get_idempotent key rt) [
    | some cached ↦ (typed cached, rt)
    | none ↦ commit write (check rt) rt
  ]
