-- ===== src/Observability.antt =====
-- observability.py: `ObservabilityService`, which reads the runtime in memory and changes nothing.
pub mod Topology
pub mod Events
pub mod Loads
pub mod Activity
pub mod Leases
use ghostmesh.Prelude.{
  ℕ, zero, suc, String, Bool, true, false, ◌&&◌, ◌||◌, Option, none, some, List, [], ◌∷◌, ◌++◌, map,
  keep, length, Dict, lookup, insert, values, ◌==◌, string_eq, option_eq, is_text, is_none, ltb,
  leb, if◌then◌else◌, ◌+++◌, ◌-◌,
}
use Prim.Native.Nat.{◌/◌}
use ghostmesh.Prelude.Sorting.{sorted, text_leb}
use ghostmesh.Python.{ℤ, pos, negsuc, Json, is_true, Payload, Conversions}
use ghostmesh.Result.{Result, ok, err, ◌>>=◌, ◌>>◌}
use ghostmesh.Domain.Panel.{PatchPanel, workflow_version_id}
use ghostmesh.Domain.Work.{Card, CardEvent, Lease}
use ghostmesh.Runtime.State.{Runtime}
use ghostmesh.Runtime.Cards.{list_cards, list_patch_panels, card_history}

abbrev pub or_default : {A : Type 0} → A → Option A → A
or_default a none = a
or_default a (some b) = b

-- `grouped[card.current_bucket].append(card)`
abbrev pub group : Card → Dict String (List Card) → Dict String (List Card)
group c grouped =
    insert c.current_bucket (or_default [] (lookup c.current_bucket grouped) ++ c ∷ []) grouped

unfoldable pub group_all : List Card → Dict String (List Card) → Dict String (List Card)
group_all [] grouped = grouped
group_all (c ∷ cs) grouped = group_all cs (group c grouped)

unfoldable pub cards_by_bucket : Runtime → Dict String (List Card)
unfolding group_all
cards_by_bucket rt = group_all (list_cards rt) []

-- The order of the items by their keys.
abbrev pub by_key : {V : Type 0} → String × V → String × V → Bool
by_key a b = text_leb a.0 b.0

abbrev pub lengths : Dict String (List Card) → Dict String ℕ
lengths [] = []
lengths ((b, cs) ∷ d) = (b, length cs) ∷ lengths d

unfoldable pub bucket_load : Runtime → Dict String ℕ
unfolding cards_by_bucket
bucket_load rt = lengths (sorted by_key (cards_by_bucket rt))

abbrev minus : ℕ → ℤ
minus zero = pos 0
minus (suc n) = negsuc n

-- `int((a - b).total_seconds())`, which drops the part of a second on either side of zero.
abbrev pub whole_seconds : ℕ → ℕ → ℤ
whole_seconds a b = if leb b a then pos ((a - b) / 1_000_000) else minus ((b - a) / 1_000_000)

pub record ActiveLease : Type 0 where
  pub lease : Lease
  pub age_seconds : ℤ
  pub expires_in_seconds : ℤ

abbrev pub aged : ℕ → Lease → ActiveLease
aged now l = record {
  lease = l;
  age_seconds = whole_seconds now l.claimed_at;
  expires_in_seconds = whole_seconds l.expires_at now;
}

-- The view's own test of a lease: not released, and its expiry later than now.
abbrev pub is_current : ℕ → Lease → Bool
is_current now l = is_none l.released_at && ltb now l.expires_at

-- Instants have their time zone, so `_aware` gives back its argument. `list_leases` lists the table.
unfoldable pub active_leases : ℕ → Runtime → List ActiveLease
active_leases now rt = map (aged now) (keep (is_current now) (values rt.leases))

module _ (py : Conversions) where
  -- The order of `(event.occurred_at, str(event.id))`.
  abbrev pub by_time : CardEvent → CardEvent → Bool
  by_time a b =
      ltb a.occurred_at b.occurred_at
      || (leb a.occurred_at b.occurred_at && text_leb (py.uuid_text a.id) (py.uuid_text b.id))

  -- The histories of the cards, one after the other.
  unfoldable pub histories : List Card → Runtime → Result (List CardEvent)
  histories [] rt = ok []
  histories (c ∷ cs) rt = do
    history ← card_history c.id rt
    rest ← histories cs rt
    ok (history ++ rest)

  -- `_all_events`
  unfoldable pub all_events : Runtime → Result (List CardEvent)
  unfolding histories
  all_events rt = do events ← histories (list_cards rt) rt; ok (sorted by_time events)

abbrev pub increment : String → Dict String ℕ → Dict String ℕ
increment key counts = insert key (suc (or_default 0 (lookup key counts))) counts

abbrev pub is_activity : CardEvent → Bool
is_activity e =
    e.event_type == "card_claimed"
    || e.event_type == "artifact_submitted"
    || e.event_type == "lease_renewed"
    || e.event_type == "lease_released"
    || e.event_type == "lease_expired"

abbrev named : String → String
named s = if is_text s then s else "unknown"

-- `event.actor_id or "unknown"`
abbrev pub worker_of : Option String → String
worker_of none = "unknown"
worker_of (some s) = named s

abbrev pub Activity : Type 0
Activity = Dict String (Dict String ℕ)

abbrev pub note : CardEvent → Activity → Activity
note e activity =
    let worker = worker_of e.actor_id in
    insert worker (increment e.event_type (or_default [] (lookup worker activity))) activity

unfoldable pub count_activity : List CardEvent → Activity → Activity
count_activity [] activity = activity
count_activity (e ∷ es) activity =
    count_activity es (if is_activity e then note e activity else activity)

unfoldable pub count_types : List CardEvent → Dict String ℕ → Dict String ℕ
count_types [] counts = counts
count_types (e ∷ es) counts = count_types es (increment e.event_type counts)

pub record Decision : Type 0 where
  pub card_id : ℕ
  pub validator_id : Option String
  pub accepted : Option Json
  pub reason : Option Json
  pub occurred_at : ℕ

abbrev pub is_validation : CardEvent → Bool
is_validation e = e.event_type == "card_validated"

abbrev pub decision_of : CardEvent → Decision
decision_of e = record {
  card_id = e.card_id;
  validator_id = e.actor_id;
  accepted = lookup "accepted" e.payload;
  reason = lookup "reason" e.payload;
  occurred_at = e.occurred_at;
}

abbrev pub is_failed_movement : CardEvent → Bool
is_failed_movement e =
    e.event_type == "card_move_failed"
    || e.event_type == "failed_dropoff"
    || e.event_type == "sink_failed"

abbrev pub is_retry : CardEvent → Bool
is_retry e =
    e.event_type == "lease_expired"
    || e.event_type == "card_move_failed"
    || e.event_type == "failed_dropoff"

-- A quotient of two numbers, as the numbers; none where the second is 0.
pub record Rate : Type 0 where
  pub of : ℕ
  pub among : ℕ

abbrev pub rate : ℕ → ℕ → Option Rate
rate n zero = none
rate n (suc m) = some (record { of = n; among = suc m })

-- `_retry_rate`
unfoldable pub retry_rate : List CardEvent → Option Rate
retry_rate events =
    rate (length (keep is_retry events))
      (length (keep (λ e. e.event_type == "card_claimed") events))

-- The rate of the validations that accepted.
unfoldable pub acceptance_rate : List CardEvent → Option Rate
acceptance_rate events =
    let validations = keep is_validation events in
    rate (length (keep (λ e. is_true (lookup "accepted" e.payload)) validations))
      (length validations)

abbrev int_leb : ℤ → ℤ → Bool
int_leb (pos a) (pos b) = leb a b
int_leb (pos a) (negsuc b) = false
int_leb (negsuc a) (pos b) = true
int_leb (negsuc a) (negsuc b) = leb b a

abbrev oldest : ℤ → List ActiveLease → ℤ
oldest age [] = age
oldest age (l ∷ ls) = oldest (if int_leb l.age_seconds age then age else l.age_seconds) ls

-- `max(..., default=0)`
abbrev pub oldest_age : List ActiveLease → ℤ
oldest_age [] = pos 0
oldest_age (l ∷ ls) = oldest l.age_seconds ls

pub record WorkflowVersion : Type 0 where
  pub id : String
  pub patch_panel_id : String
  pub version : String
  pub active : Bool

unfoldable pub workflow_versions : Runtime → List WorkflowVersion
workflow_versions rt =
    map
      (λ (panel : PatchPanel). record {
        id = workflow_version_id panel;
        patch_panel_id = panel.id;
        version = panel.version;
        active = true;
      })
      (list_patch_panels rt)

pub record Metrics : Type 0 where
  pub card_count : ℕ
  pub load : Dict String ℕ
  pub active_lease_count : ℕ
  pub activity : Activity
  pub event_counts : Dict String ℕ
  pub accepting : Option Rate
  pub retrying : Option Rate
  pub failed_movement_count : ℕ
  pub oldest_active_lease_age_seconds : ℤ

module _ (py : Conversions) where
  unfoldable pub worker_activity : Runtime → Result Activity
  unfolding all_events count_activity
  worker_activity rt = do events ← all_events py rt; ok (count_activity events [])

  unfoldable pub validator_decisions : Runtime → Result (List Decision)
  unfolding all_events
  validator_decisions rt = do
    events ← all_events py rt
    ok (map decision_of (keep is_validation events))

  unfoldable pub failed_movements : Runtime → Result (List CardEvent)
  unfolding all_events
  failed_movements rt = do events ← all_events py rt; ok (keep is_failed_movement events)

  -- With the one reading of the clock that `active_leases` takes.
  unfoldable pub metrics : ℕ → Runtime → Result Metrics
  unfolding all_events active_leases worker_activity failed_movements count_types
  metrics now rt = do
    events ← all_events py rt
    activity ← worker_activity rt
    failed ← failed_movements rt
    ok (record {
      card_count = length (list_cards rt);
      load = bucket_load rt;
      active_lease_count = length (active_leases now rt);
      activity = activity;
      event_counts = count_types events [];
      accepting = acceptance_rate events;
      retrying = retry_rate events;
      failed_movement_count = length failed;
      oldest_active_lease_age_seconds = oldest_age (active_leases now rt);
    })
