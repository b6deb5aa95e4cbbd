-- ===== src/Tests/ObservabilityTests.antt =====
-- Tests of the operator's views.
use ghostmesh.Prelude.{
  ℕ, String, ◌≡◌, ◌↔◌, refl, Bool, true, false, none, some, values, In, ◌==◌, List, [], ◌∷◌, keep,
  length, lookup, string_eq, nat_eq,
}
use ghostmesh.Python.{pos, boolean}
use ghostmesh.Result.{ok}
use ghostmesh.Domain.Work.{CardEvent}
use ghostmesh.PanelValidator.Toy.{toy}
use ghostmesh.Runtime.History.{Run-IsConsistent}
use ghostmesh.Observability.{
  ActiveLease, Activity, bucket_load, worker_activity, active_leases, whole_seconds,
  acceptance_rate,
}
use ghostmesh.Observability.Topology.{mermaid}
use ghostmesh.Observability.Events.{IsTimeline, all_events-IsTimeline}
use ghostmesh.Observability.Loads.{total, positive, bucket_load-counts}
use ghostmesh.Observability.Activity.{tally, is_of, worker_activity-counts}
use ghostmesh.Runtime.Cards.{list_cards}
use ghostmesh.Runtime.State.{has_active_lease}
use ghostmesh.Observability.Leases.{active_leases-has_active_lease}
use ghostmesh.Tests.Samples.{py, panel}
use ghostmesh.Tests.RuntimeTests.{after_claim, claimed-Run}
use ghostmesh.Tests.Running.{view_runs}

load : bucket_load after_claim ≡ ("todo", 1) ∷ []
unfolding view_runs
load = refl

-- The claim of five minutes, twelve and a half seconds after it was made.
ages : whole_seconds 12_500_020 20 ≡ pos 12
ages = refl

diagram :
    mermaid panel
    ≡ "flowchart LR\n  intake([\"intake\\nsource\"])\n  writer[\"writer\\nworker\"]\n  deliver([\"deliver\\nsink\"])\n  intake -- done --> writer\n  writer -- done --> deliver"
unfolding view_runs
diagram = refl

all_events-IsTimeline_example : (es : List CardEvent) × IsTimeline py after_claim es
all_events-IsTimeline_example =
    all_events-IsTimeline py after_claim (Run-IsConsistent toy py claimed-Run)

bucket_load-counts_example :
    ((b : String)
      → lookup b (bucket_load after_claim)
        ≡ positive (length (keep (λ c. b == c.current_bucket) (list_cards after_claim))))
    × (total (values (bucket_load after_claim)) ≡ length (list_cards after_claim))
bucket_load-counts_example = bucket_load-counts after_claim

worker_activity-counts_example :
    (es : List CardEvent) × (activity : Activity) × IsTimeline py after_claim es
    × (worker_activity py after_claim ≡ ok activity)
    × ((worker type : String) → tally worker type activity ≡ length (keep (is_of worker type) es))
worker_activity-counts_example =
    worker_activity-counts py after_claim (Run-IsConsistent toy py claimed-Run)

active_leases-has_active_lease_example :
    ((a : ActiveLease) × In a (active_leases 30 after_claim) × (a.lease.card_id ≡ 1))
    ↔ (has_active_lease 30 after_claim 1 ≡ true)
active_leases-has_active_lease_example = active_leases-has_active_lease 30 after_claim 1

abbrev decision : ℕ → Bool → CardEvent
decision id b = record {
  id = id;
  card_id = 1;
  event_type = "card_validated";
  actor_id = none;
  payload = ("accepted", boolean b) ∷ [];
  occurred_at = id;
}

-- One of two validations accepts.
half :
    acceptance_rate (decision 1 true ∷ decision 2 false ∷ []) ≡ some (record { of = 1; among = 2 })
unfolding view_runs
half = refl
