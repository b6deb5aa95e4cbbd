-- ===== src/Tests/BoundaryTests.antt =====
-- Tests of the boundaries.
use ghostmesh.Prelude.{
  ℕ, suc, String, ◌≡◌, ◌↔◌, refl, true, none, some, [], ◌∷◌, inl, inr, string_eq, ◌∙◌, ap,
}
use ghostmesh.Python.{str, null, Payload}
use ghostmesh.Errors.{Error, boundary_unauthorized, boundary_path_missing}
use ghostmesh.Result.{Result, ok, err}
use ghostmesh.Domain.Panel.{source as Source, sink, NodeDefinition}
use ghostmesh.Domain.Work.{Card}
use ghostmesh.PanelValidator.Toy.{toy}
use ghostmesh.Runtime.State.{Runtime}
use ghostmesh.Nodes.{Nodes, decoded, node_of}
use ghostmesh.Nodes.Work as Work
use ghostmesh.Nodes.Replay.{execute_source_again}
use ghostmesh.Boundaries.{
  BoundaryAuth, BoundarySourceRequest, BoundarySinkRequest, SourceBoundaryContract,
  SinkBoundaryContract, SourceBoundaryResult, Adapters, BoundaryEnv, ensure_authorized,
  extract_path, envelope, find_panel,
}
use ghostmesh.Boundaries.Ingress.{Ingress, prepare}
use ghostmesh.Boundaries.Egress.{Egress, prepare as prepare_sink, render_template}
use ghostmesh.Boundaries.Isolation.{execute_sink_isolated}
use ghostmesh.Nodes.Sinks.{is_publication}
use ghostmesh.Boundaries.Source.{execute_source}
use ghostmesh.Boundaries.Sink.{execute_sink}
use ghostmesh.Boundaries.Access.{
  IsToken, IsAllowed, ensure_authorized-IsAllowed, execute_source_refused, execute_sink_refused,
}
use ghostmesh.Boundaries.Deduplication.{execute_source_deduplicated}
use ghostmesh.Tests.Samples.{py, panel, node, env}
use ghostmesh.Tests.RuntimeTests.{registered}
use ghostmesh.Tests.NodeTests.{at, models, approved}
use ghostmesh.Tests.Running.{boundary_runs}

abbrev guard : BoundaryAuth
guard = record { token = some "secret"; tokens = [] }

abbrev webhook : SourceBoundaryContract
webhook = record {
  adapter = "webhook";
  auth = some guard;
  payload_map = ("ticket", "payload.id") ∷ [];
  metadata_map = [];
  deduplication_key = some "payload.id";
  target_workflow_version = none;
}

abbrev outbox : SinkBoundaryContract
outbox = record {
  adapter = "webhook";
  auth = some guard;
  payload_map = [];
  idempotency_key = none;
  external_reference_path = none;
}

abbrev adapters : Adapters
adapters = record {
  read_source = λ v. decoded webhook;
  read_sink = λ v. decoded outbox;
  dump_card = λ c. null;
  format = λ t values. ok t;
}

abbrev clock : ℕ → BoundaryEnv
clock t = record { for_node = at t; for_event = env (suc (suc t)) (suc (suc t)) }

abbrev incoming : Payload → BoundarySourceRequest
incoming extra = record {
  patch_panel_id = "hello";
  source_id = "intake";
  external_payload = ("id", str "7") ∷ extra;
  headers = [];
  actor_token = some "secret";
}

abbrev first_time : BoundarySourceRequest
first_time = incoming []

abbrev second_time : BoundarySourceRequest
second_time = incoming (("retried", str "yes") ∷ [])

abbrev after_receipt : Runtime
after_receipt = (execute_source py adapters (clock 10) first_time registered).1

abbrev blank : Card
blank = record {
  id = 0;
  workflow_version = "";
  current_bucket = "";
  payload = [];
  metadata = [];
  created_at = 0;
}

abbrev received_of : Result SourceBoundaryResult × Runtime → SourceBoundaryResult
received_of (ok r, rt) = r
received_of (err e, rt) = record { card = blank; deduplication_key = none; adapter = "" }

abbrev receipt : SourceBoundaryResult
receipt = received_of (execute_source py adapters (clock 10) first_time registered)

receives : execute_source py adapters (clock 10) first_time registered ≡ (ok receipt, after_receipt)
unfolding boundary_runs
receives = refl

abbrev intake : NodeDefinition
intake = node "intake" Source [] ("new_work" ∷ [])

abbrev ingress_of : Result Ingress → Ingress
ingress_of (ok i) = i
ingress_of (err e) = record {
  panel = panel;
  node = intake;
  adapter = "";
  payload = [];
  metadata = [];
  headers = [];
  deduplication_key = none;
}

abbrev first_ingress : Ingress
first_ingress = ingress_of (prepare py adapters first_time registered)

abbrev second_ingress : Ingress
second_ingress = ingress_of (prepare py adapters second_time after_receipt)

first_prepared : prepare py adapters first_time registered ≡ ok first_ingress
unfolding boundary_runs
first_prepared = refl

second_prepared : prepare py adapters second_time after_receipt ≡ ok second_ingress
unfolding boundary_runs
second_prepared = refl

first_key : first_ingress.deduplication_key ≡ some "7"
unfolding boundary_runs
first_key = refl

second_key : second_ingress.deduplication_key ≡ some "7"
unfolding boundary_runs
second_key = refl

same_panel : second_ingress.panel.id ≡ first_ingress.panel.id
unfolding boundary_runs
same_panel = refl

same_node : second_ingress.node.id ≡ first_ingress.node.id
unfolding boundary_runs
same_node = refl

execute_source_deduplicated_example :
    (r : SourceBoundaryResult) × (execute_source py adapters (clock 20) second_time after_receipt
      ≡ (ok r, after_receipt))
    × (r.card ≡ receipt.card)
execute_source_deduplicated_example =
    execute_source_deduplicated py adapters (clock 10) (clock 20) first_time second_time
      first_ingress second_ingress "7" registered after_receipt receipt refl first_prepared
      first_key receives second_prepared same_panel same_node second_key

ensure_authorized-IsAllowed_example :
    (ensure_authorized (some guard) (some "secret") ≡ ok tt)
    ↔ IsAllowed (some guard) (some "secret")
ensure_authorized-IsAllowed_example = ensure_authorized-IsAllowed (some guard) (some "secret")

only_secret : (t : String) → IsToken guard t → t ≡ "secret"
only_secret t (inl m) = absurd m
only_secret t (inr (e, h)) = cc

outsider : ¬ IsAllowed (some guard) (some "guess")
outsider (inl free) = free "secret" (inr (refl, refl))
outsider (inr (t, e, is)) = let guess = e ∙ ap some (only_secret t is) in absurd (cc)

panel_found : find_panel "hello" registered ≡ ok panel
unfolding boundary_runs
panel_found = refl

source_found : node_of panel "intake" Source ≡ ok intake
unfolding boundary_runs
source_found = refl

sink_found : node_of panel "deliver" sink ≡ ok (node "deliver" sink ("deliver_in" ∷ []) [])
unfolding boundary_runs
sink_found = refl

execute_source_refused_example :
    execute_source py adapters
      (clock 10)
      (record first_time { actor_token = some "guess" })
      registered
    ≡ (err boundary_unauthorized, registered)
execute_source_refused_example =
    execute_source_refused py adapters (clock 10) panel intake
      (record first_time { actor_token = some "guess" }) registered webhook panel_found source_found
      refl outsider

abbrev outgoing : BoundarySinkRequest
outgoing = record {
  patch_panel_id = "hello";
  sink_id = "deliver";
  card_id = 5;
  external_response = [];
  actor_token = some "guess";
}

execute_sink_refused_example :
    execute_sink py toy models (clock 10) adapters outgoing registered
    ≡ (err boundary_unauthorized, registered)
execute_sink_refused_example =
    execute_sink_refused py adapters (clock 10) panel (node "deliver" sink ("deliver_in" ∷ []) [])
      toy models outgoing registered outbox panel_found sink_found refl outsider

-- The default key of egress, with its spaces.
egress_key :
    render_template py adapters " card_id+ sink_id" (record blank { id = 5 }) "deliver" none
    ≡ ok "uuid:deliver"
unfolding boundary_runs
egress_key = refl

-- A path through a value that is no dictionary.
no_path :
    extract_path (envelope (("id", str "7") ∷ []) []) "payload.id.x" ≡ err boundary_path_missing
unfolding boundary_runs
no_path = refl

abbrev start : Nodes
start = record { runtime = registered; registry = none; authorization_repository = none }

abbrev taken_in : Nodes
taken_in = (Work.execute_source py (at 10) panel "intake" [] [] (some "k") start).1

abbrev card_of : Result Card × Nodes → Card
card_of (ok c, s) = c
card_of (err e, s) = blank

abbrev taken : Card
taken = card_of (Work.execute_source py (at 10) panel "intake" [] [] (some "k") start)

takes_in :
    Work.execute_source py (at 10) panel "intake" [] [] (some "k") start ≡ (ok taken, taken_in)
unfolding boundary_runs
takes_in = refl

execute_source_again_example :
    Work.execute_source py (at 20) panel "intake" (("a", null) ∷ []) [] (some "k") taken_in
    ≡ (ok taken, taken_in)
execute_source_again_example =
    execute_source_again py (at 10) (at 20) panel intake "intake" "k" source_found refl []
      (("a", null) ∷ []) [] [] start taken_in taken takes_in

-- A proposal that is approved, and a request to the sink that would publish it.
abbrev publishing : BoundarySinkRequest
publishing = record {
  patch_panel_id = "proposals";
  sink_id = "publisher";
  card_id = 10;
  external_response = [];
  actor_token = some "secret";
}

abbrev egress_of : Result Egress → Egress
egress_of (ok e) = e
egress_of (err x) = record {
  panel = panel;
  node = intake;
  card = blank;
  adapter = "";
  external_payload = [];
  external_reference = none;
  egress_key = "";
}

abbrev egress : Egress
egress = egress_of (prepare_sink py adapters publishing approved.runtime)

egress_prepared : prepare_sink py adapters publishing approved.runtime ≡ ok egress
unfolding boundary_runs
egress_prepared = refl

at_publisher : is_publication egress.node ≡ true
unfolding boundary_runs
at_publisher = refl

execute_sink_isolated_example :
    (x : Error) × (execute_sink py toy models (clock 40) adapters publishing approved.runtime
      ≡ (err x, approved.runtime))
execute_sink_isolated_example =
    execute_sink_isolated py adapters toy models (clock 40) publishing approved.runtime egress
      egress_prepared (inr at_publisher)
