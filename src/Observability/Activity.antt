-- ===== src/Observability/Activity.antt =====
-- observability.py: what `worker_activity` counts.
use ghostmesh.Prelude.{
  ℕ, suc, String, ◌≡◌, refl, ◌∙◌, Bool, ◌&&◌, List, [], ◌∷◌, arith, keep, length, lookup, ◌+◌, ◌==◌,
  string_eq, lookup-insert, if◌then◌else◌,
}
use ghostmesh.Python.{Conversions}
use ghostmesh.Result.{ok}
use ghostmesh.Domain.Work.{CardEvent}
use ghostmesh.Runtime.State.{Runtime}
use ghostmesh.Runtime.Consistency.{IsConsistent}
use ghostmesh.Observability.{
  or_default, increment, note, Activity, is_activity, worker_of, count_activity, worker_activity,
}
use ghostmesh.Observability.Events.{IsTimeline, all_events-IsTimeline}

-- What stands for a worker and a type of event: 0 where nothing does.
abbrev pub tally : String → String → Activity → ℕ
tally worker type activity = or_default 0 (lookup type (or_default [] (lookup worker activity)))

abbrev pub is_of : String → String → CardEvent → Bool
is_of worker type e = is_activity e && worker == worker_of e.actor_id && type == e.event_type

-- One event more.
tally-note :
    (worker type : String) (e : CardEvent) (a : Activity)
    → tally worker type (note e a) ≡ (
        if worker == worker_of e.actor_id && type == e.event_type
        then suc (tally worker type a)
        else tally worker type a)
unfolding lookup
tally-note worker type e a = ground (
  arith,
  lookup-insert (worker_of e.actor_id) worker
      (increment e.event_type (or_default [] (lookup (worker_of e.actor_id) a))) a,
  lookup-insert e.event_type type
      (suc (or_default 0 (lookup e.event_type (or_default [] (lookup (worker_of e.actor_id) a)))))
      (or_default [] (lookup (worker_of e.actor_id) a)),
  string_eq.beq_iff worker (worker_of e.actor_id),
  string_eq.beq_iff type e.event_type,
)

tally-count_activity :
    (worker type : String) (es : List CardEvent) (a : Activity)
    → tally worker type (count_activity es a)
      ≡ length (keep (is_of worker type) es) + tally worker type a
unfolding count_activity
tally-count_activity worker type [] a = omega arith
tally-count_activity worker type (e ∷ es) a =
    tally-count_activity worker type es (if is_activity e then note e a else a)
    ∙ ground (arith, tally-note worker type e a)

-- Where the runtime's tables agree, the activity can be read, and it has for each worker and each
-- type of event the number of the events of that type, among the five that count as activity, that
-- name the worker, an event without an actor being that of the worker "unknown".
pub worker_activity-counts :
    (py : Conversions) (rt : Runtime)
    → IsConsistent rt
    → (es : List CardEvent) × (activity : Activity) × IsTimeline py rt es
      × (worker_activity py rt ≡ ok activity)
      × ((worker type : String) → tally worker type activity ≡ length (keep (is_of worker type) es))
unfolding worker_activity lookup
worker_activity-counts py rt h =
    let (es, timeline) = all_events-IsTimeline py rt h in
    (
      es,
      count_activity es [],
      timeline,
      rw timeline.read refl,
      λ worker type. tally-count_activity worker type es [] ∙ omega arith,
    )
