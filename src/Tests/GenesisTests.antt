-- ===== src/Tests/GenesisTests.antt =====
-- Tests of the registry and of the genesis service.
use ghostmesh.Prelude.{
  String, ◌≡◌, ◌≢◌, refl, ℕ, true, false, none, some, [], ◌∷◌, inl, string_eq, nat_eq, In,
}
use ghostmesh.Python.{null}
use ghostmesh.Result.{ok}
use ghostmesh.Domain.Work.{Card}
use ghostmesh.Domain.Registry.{
  PatchPanelRegistryMetadata, PatchPanelRegistryEntry, published, archived, GenesisIntent,
}
use ghostmesh.Registry.{Registry, no_filter, archive, update_metadata}
use ghostmesh.Registry.Archiving.{Edits-search, unchanged, updated}
use ghostmesh.Genesis.{
  Genesis, GenesisEnv, Request, Dumps, receive_intent, launch, search_candidates, new_intent,
  launch_payload, launch_metadata,
}
use ghostmesh.Genesis.Candidates.{search_candidates_exact, Distinct, ids}
use ghostmesh.Genesis.Wanted.{IsWanted}
use ghostmesh.Genesis.Deduplication.{receive_intent_again}
use ghostmesh.Genesis.Launching.{launch_again}
use ghostmesh.PanelValidator.Toy.{toy}
use ghostmesh.Runtime.State.{empty_runtime}
use ghostmesh.Runtime.Cards.{register_patch_panel}
use ghostmesh.Tests.Samples.{py, panel, env}
use ghostmesh.Tests.Running.{genesis_runs}

abbrev described : PatchPanelRegistryMetadata
described = record {
  name = "Hello";
  description = none;
  tags = "demo" ∷ [];
  input_types = "text" ∷ [];
  output_types = "text" ∷ [];
  required_tools = [];
  required_permissions = [];
  risk_level = some "low";
  estimated_cost = none;
  estimated_latency = none;
  owner_participant_id = none;
  status = published;
}

abbrev entry : ℕ → String → PatchPanelRegistryEntry
entry id tag = record {
  id = id;
  patch_panel_id = "hello";
  version = "1.0";
  name = "Hello";
  description = none;
  tags = tag ∷ [];
  input_types = "text" ∷ [];
  output_types = "text" ∷ [];
  required_tools = [];
  required_permissions = [];
  risk_level = some "low";
  estimated_cost = none;
  estimated_latency = none;
  owner_participant_id = none;
  status = published;
  supersedes_entry_id = none;
  metadata = [];
  created_at = 0;
  updated_at = 0;
  archived_at = none;
}

abbrev two_entries : Registry
two_entries = (1, entry 1 "demo") ∷ (2, entry 2 "other") ∷ []

abbrev with_archived : Registry
with_archived =
    (1, record (entry 1 "demo") { status = archived; archived_at = some 3; updated_at = 4 })
    ∷ (2, entry 2 "other")
    ∷ []

archiving : archive 3 4 1 two_entries ≡ (
  ok (record (entry 1 "demo") { status = archived; archived_at = some 3; updated_at = 4 }),
  with_archived,
)
unfolding genesis_runs
archiving = refl

-- The entry that is left is listed, and it is not the archived one.
Edits-search_example : (entry 2 "other").id ≢ 1
unfolding genesis_runs
Edits-search_example =
    Edits-search 1 with_archived (update_metadata 5 1 described with_archived).1 no_filter
      (entry 2 "other") (refl, refl, (refl, refl, tt))
      (
        record (entry 1 "demo") { status = archived; archived_at = some 3; updated_at = 4 },
        refl,
        inl refl,
      )
      (updated unchanged 5 1 described) refl refl (inl refl)

abbrev asked : Request
asked = record {
  requested_by = "ann";
  deduplication_key = "k";
  goal = "greet";
  input_type = "text";
  desired_outputs = "text" ∷ [];
  tags = "other" ∷ [];
  constraints = record {
    risk_level = some "low";
    max_latency = none;
    requires_human_approval = false;
    metadata = [];
  };
  launch_if_existing = true;
  propose_if_missing = true;
  metadata = [];
}

abbrev clock : GenesisEnv
clock = record {
  intent_id = 7;
  created_at = 1;
  stamped_at = 1;
  updated_at = 2;
  runtime = env 3 100;
}

abbrev later : GenesisEnv
later = record {
  intent_id = 8;
  created_at = 11;
  stamped_at = 11;
  updated_at = 12;
  runtime = env 13 200;
}

abbrev dumps : Dumps
dumps = record { dump_constraints = λ c. null; dump_panel = λ p. null; dump_metadata = λ m. null }

abbrev ready : Genesis
ready = record {
  runtime = (register_patch_panel toy panel empty_runtime).1;
  registry = two_entries;
  intents = [];
  deduplication_index = [];
}

abbrev intent : GenesisIntent
intent = record (new_intent clock asked) { candidate_registry_entry_ids = 1 ∷ 2 ∷ [] }

abbrev after_intent : Genesis
after_intent = record ready { intents = (7, intent) ∷ []; deduplication_index = ("k", 7) ∷ [] }

first_request : receive_intent clock asked ready ≡ (ok intent, after_intent)
unfolding genesis_runs
first_request = refl

receive_intent_again_example :
    receive_intent later (record asked { goal = "else" }) after_intent ≡ (ok intent, after_intent)
receive_intent_again_example =
    receive_intent_again clock later asked (record asked { goal = "else" }) ready after_intent
      intent refl first_request

search_candidates_exact_example :
    Distinct (ids (search_candidates intent two_entries))
    × ((e : PatchPanelRegistryEntry)
        → In e (search_candidates intent two_entries)
        → IsWanted intent two_entries e)
    × ((e : PatchPanelRegistryEntry)
        → IsWanted intent two_entries e
        → In e.id (ids (search_candidates intent two_entries)))
search_candidates_exact_example = search_candidates_exact intent two_entries

abbrev launched_state : Genesis
launched_state = (launch py dumps clock 7 none after_intent).1

abbrev greeting : Card
greeting = record {
  id = 100;
  workflow_version = "hello:1.0";
  current_bucket = "todo";
  payload = launch_payload py dumps clock intent;
  metadata = launch_metadata py dumps clock intent (entry 1 "demo");
  created_at = 3;
}

first_launch : launch py dumps clock 7 none after_intent ≡ (ok greeting, launched_state)
unfolding genesis_runs
first_launch = refl

launch_again_example :
    let again = launch py dumps later 7 none launched_state in
    (again.0 ≡ ok greeting)
    × (again.1.runtime ≡ launched_state.runtime)
    × (again.1.registry ≡ launched_state.registry)
launch_again_example =
    launch_again py dumps clock later 7 none after_intent launched_state greeting first_launch
