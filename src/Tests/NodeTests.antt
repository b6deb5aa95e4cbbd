-- ===== src/Tests/NodeTests.antt =====
-- Tests of the node executor: a proposal that is read, checked, approved and published, and a
-- participant who is taken on.
use ghostmesh.Prelude.{
  ℕ, suc, String, ◌≡◌, ◌≢◌, ◌⊎◌, refl, true, false, Option, none, some, [], ◌∷◌, lookup, In, nat_eq,
  string_eq,
}
use ghostmesh.Python.{str, obj, field, end, boolean, Json, is_truthy}
use ghostmesh.Errors.{Error, publication_history_missing}
use ghostmesh.Result.{Result, ok, err}
use ghostmesh.Domain.Panel.{
  source as Source, validator, sink, input, output, NodeDefinition, PatchPanel,
}
use ghostmesh.Domain.Authority.{worker}
use ghostmesh.Domain.Registry.{PatchPanelRegistryMetadata, draft}
use ghostmesh.Domain.Work.{Card, CardEvent}
use ghostmesh.PanelValidator.Toy.{toy, toy_laws}
use ghostmesh.Auth.Repository.{empty_repository}
use ghostmesh.Runtime.State.{event, empty_runtime, get_card, get_idempotent}
use ghostmesh.Nodes.{Nodes, NodeEnv, Models, decoded, refused, Decoded, node_of}
use ghostmesh.Nodes.Work.{execute_source}
use ghostmesh.Nodes.Handlers.{ValidatorExecutionInput}
use ghostmesh.Nodes.Validation.{execute_validator, has_handler}
use ghostmesh.Nodes.Sinks.{SinkResult, execute_sink, input_buckets, sink_payload, is_publication}
use ghostmesh.Nodes.Topology.{IsDecided, execute_validator-IsJudged}
use ghostmesh.Nodes.Publication.{IsPublished, execute_sink-IsPublished}
use ghostmesh.Nodes.Provisioning.{IsAdmitted, execute_sink-IsAdmitted}
use ghostmesh.Runtime.Outcomes.{IsAppended}
use ghostmesh.Nodes.Delivery.{execute_sink-guards}
use ghostmesh.Tests.Samples.{py, panel, node, bucket, binding, env}
use ghostmesh.Tests.AuthTests.{ann, grants_at, one_workflow}
use ghostmesh.Tests.Running.{node_runs}

abbrev pub proposals : PatchPanel
proposals = record panel {
  id = "proposals";
  buckets = bucket "proposed" ∷ bucket "checked" ∷ bucket "approved" ∷ bucket "refused" ∷ [];
  nodes =
      node "intake" Source [] ("in" ∷ [])
      ∷ record (node "topological_validator" validator ("check" ∷ [])
          ("topology_valid" ∷ "topology_invalid" ∷ [])) {
            config =
                ("validation_handler", str "patch_panel_topology")
                ∷ ("valid_exit", str "topology_valid")
                ∷ ("invalid_exit", str "topology_invalid")
                ∷ [];
          }
      ∷ node "governance_reviewer" validator ("review" ∷ []) ("proposal_approved" ∷ [])
      ∷ record (node "publisher" sink ("publish" ∷ []) []) {
        config = ("egress_contract", obj (field "type" (str "registry_publication") end)) ∷ [];
      }
      ∷ [];
  pipe_bindings =
      ("in", binding "proposed" "intake" output)
      ∷ ("topology_valid", binding "checked" "topological_validator" output)
      ∷ ("topology_invalid", binding "refused" "topological_validator" output)
      ∷ ("proposal_approved", binding "approved" "governance_reviewer" output)
      ∷ ("publish", binding "approved" "publisher" input)
      ∷ [];
}

abbrev listing : PatchPanelRegistryMetadata
listing = record {
  name = "hello";
  description = none;
  tags = [];
  input_types = [];
  output_types = [];
  required_tools = [];
  required_permissions = [];
  risk_level = none;
  estimated_cost = none;
  estimated_latency = none;
  owner_participant_id = none;
  status = draft;
}

abbrev read_panel : Option Json → Decoded PatchPanel
read_panel none = refused "missing"
read_panel (some v) = decoded panel

abbrev pub models : Models
models = record {
  read_panel = read_panel;
  read_metadata = λ v. decoded listing;
  read_onboarding = λ p. decoded (record {
    participant = ann;
    role_assignments = record { role_name = worker; scope = one_workflow; assigned_by = none } ∷ [];
  });
  messages = λ e. [];
  text_of = λ e. "invalid";
}

abbrev pub at : ℕ → NodeEnv
at t = record {
  first_call = env t t;
  second_call = env (suc t) (suc t);
  entry_id = 77;
  entry_created_at = t;
  entry_updated_at = t;
  grants = λ n. grants_at;
}

-- The panel with the sink at the bucket of new proposals.
abbrev early : PatchPanel
early = record proposals { pipe_bindings = ("publish", binding "proposed" "publisher" input) ∷ [] }

abbrev result_error : {A : Type 0} → Result A × Nodes → Option Error
result_error (ok a, s) = none
result_error (err e, s) = some e

abbrev start : Nodes
start = record {
  runtime = record empty_runtime { patch_panels = ("proposals", proposals) ∷ [] };
  registry = some [];
  authorization_repository = none;
}

abbrev bare : String → ValidatorExecutionInput
bare validator_id = record {
  card_id = 10;
  validator_id = validator_id;
  selected_exit = none;
  accepted = none;
  reason = none;
  payload = [];
  idempotency_key = none;
}

abbrev approval : ValidatorExecutionInput
approval = record (bare "governance_reviewer") {
  accepted = some true;
  selected_exit = some "proposal_approved";
}

abbrev proposed : Nodes
proposed =
    (execute_source py (at 10) proposals "intake" (("candidate_definition", str "…") ∷ []) [] none
      start).1

abbrev checked : Nodes
checked =
    (execute_validator py toy models (at 20) proposals (bare "topological_validator") proposed).1

abbrev pub approved : Nodes
approved = (execute_validator py toy models (at 30) proposals approval checked).1

abbrev done : Nodes
done = (execute_sink py toy models (at 40) proposals 10 "publisher" none none approved).1

abbrev topology_node : NodeDefinition
topology_node =
    record (node "topological_validator" validator ("check" ∷ [])
      ("topology_valid" ∷ "topology_invalid" ∷ [])) {
        config =
            ("validation_handler", str "patch_panel_topology")
            ∷ ("valid_exit", str "topology_valid")
            ∷ ("invalid_exit", str "topology_invalid")
            ∷ [];
      }

abbrev pub publisher : NodeDefinition
publisher = record (node "publisher" sink ("publish" ∷ []) []) {
  config = ("egress_contract", obj (field "type" (str "registry_publication") end)) ∷ [];
}

abbrev blank : CardEvent
blank = record {
  id = 0;
  card_id = 0;
  event_type = "";
  actor_id = none;
  payload = [];
  occurred_at = 0;
}

abbrev event_of : Result CardEvent × Nodes → CardEvent
event_of (ok e, s) = e
event_of (err e, s) = blank

not_provisioner : publisher.id ≢ "authority_provisioner_sink"
not_provisioner h =
    let same = (string_eq.beq_iff publisher.id "authority_provisioner_sink").1 h in absurd (cc)

abbrev result_of : Result SinkResult × Nodes → SinkResult
result_of (ok r, s) = r
result_of (err e, s) = record { event = blank; external_reference = none }

abbrev verdict : CardEvent
verdict =
    event_of
      (execute_validator py toy models (at 20) proposals (bare "topological_validator") proposed)

topology_checked :
    execute_validator py toy models (at 20) proposals (bare "topological_validator") proposed
    ≡ (ok verdict, checked)
unfolding node_runs
topology_checked = refl

by_topology : has_handler "patch_panel_topology" topology_node ≡ true
unfolding node_runs
by_topology = refl

topology_found : node_of proposals "topological_validator" validator ≡ ok topology_node
unfolding node_runs
topology_found = refl

execute_validator-IsJudged_example :
    IsDecided toy models
      (at 20)
      proposals
      topology_node
      (bare "topological_validator")
      proposed
      checked
      verdict
execute_validator-IsJudged_example =
    execute_validator-IsJudged py toy toy_laws models (at 20) proposals topology_node
      (bare "topological_validator") proposed checked verdict topology_found by_topology refl
      topology_checked

abbrev publication : SinkResult
publication =
    result_of (execute_sink py toy models (at 40) proposals 10 "publisher" none none approved)

published :
    execute_sink py toy models (at 40) proposals 10 "publisher" none none approved
    ≡ (ok publication, done)
unfolding node_runs
published = refl

publisher_found : node_of proposals "publisher" sink ≡ ok publisher
unfolding node_runs
publisher_found = refl

publishes : is_publication publisher ≡ true
unfolding node_runs
publishes = refl

execute_sink-IsPublished_example :
    (card : Card) × (get_card 10 approved.runtime ≡ ok card) × IsPublished models card approved done
execute_sink-IsPublished_example =
    execute_sink-IsPublished toy toy_laws py models (at 40) proposals publisher 10 "publisher" none
      none approved done publication publisher_found not_provisioner publishes published

execute_sink-guards_example :
    (card : Card) × (get_card 10 approved.runtime ≡ ok card)
    × ((is_truthy (lookup "shadow" card.metadata) ≡ false)
        ⊎ (is_truthy (lookup "allow_shadow_egress" publisher.config) ≡ true))
    × ((input_buckets proposals publisher ≡ [])
        ⊎ In card.current_bucket (input_buckets proposals publisher))
    × (((get_idempotent none approved.runtime ≡ some (event publication.event))
          × (done.runtime.events ≡ approved.runtime.events))
        ⊎ (IsAppended none 10 "sink_executed" "publisher" publication.event approved.runtime
              done.runtime
            × (publication.event.payload
                ≡ sink_payload py publisher publication.external_reference)))
execute_sink-guards_example =
    execute_sink-guards toy py models (at 40) proposals publisher 10 "publisher" none none approved
      done publication publisher_found published

-- A panel at which a participant is taken on: the card's two checks are in its history.
abbrev provisioner : NodeDefinition
provisioner = node "authority_provisioner_sink" sink [] []

abbrev admission : PatchPanel
admission = record proposals { nodes = provisioner ∷ [] }

abbrev acceptance : (id : ℕ) (validator_id exit : String) → CardEvent
acceptance id validator_id exit = record {
  id = id;
  card_id = 10;
  event_type = "card_validated";
  actor_id = some validator_id;
  payload = ("accepted", boolean true) ∷ ("output_pipe", str exit) ∷ [];
  occurred_at = id;
}

abbrev vetted : Nodes
vetted = record {
  runtime = record proposed.runtime {
    events =
        (
          10,
          acceptance 41 "registration_compliance_validator" "registration_compliant"
              ∷ acceptance 42 "registration_admin_reviewer" "registration_approved"
              ∷ [],
        )
        ∷ [];
  };
  registry = none;
  authorization_repository = some empty_repository;
}

abbrev admitted : Nodes
admitted =
    (execute_sink py toy models (at 50) admission 10 "authority_provisioner_sink" none none
      vetted).1

abbrev onboarding : SinkResult
onboarding =
    result_of (
      execute_sink py toy models (at 50) admission 10 "authority_provisioner_sink" none none vetted)

onboards :
    execute_sink py toy models (at 50) admission 10 "authority_provisioner_sink" none none vetted
    ≡ (ok onboarding, admitted)
unfolding node_runs
onboards = refl

provisioner_found : node_of admission "authority_provisioner_sink" sink ≡ ok provisioner
unfolding node_runs
provisioner_found = refl

execute_sink-IsAdmitted_example :
    (card : Card) × (get_card 10 vetted.runtime ≡ ok card)
    × IsAdmitted models (at 50) card vetted admitted
execute_sink-IsAdmitted_example =
    execute_sink-IsAdmitted toy py models (at 50) admission provisioner 10
      "authority_provisioner_sink" none none vetted admitted onboarding provisioner_found refl
      onboards

-- A proposal that has not been checked is not published.
unchecked :
    result_error (execute_sink py toy models (at 40) early 10 "publisher" none none proposed)
    ≡ some publication_history_missing
unfolding node_runs
unchecked = refl
