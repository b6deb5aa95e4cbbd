-- ===== src/Genesis.antt =====
-- genesis/service.py: `GenesisService`, over the registry and the runtime in memory.
pub mod Candidates
pub mod Wanted
pub mod Deduplication
pub mod Launching
use ghostmesh.Prelude.{
  ℕ, String, Bool, true, false, not, ◌&&◌, Option, none, some, List, [], ◌∷◌, ◌++◌, map, mem, Dict,
  lookup, insert, ◌==◌, nat_eq, string_eq, is_text, is_empty, if◌then◌else◌, ◌+++◌,
}
use ghostmesh.Python.{
  text_or_null, texts, Json, null, str, arr, Items, nil, cons, Conversions, Payload,
}
use ghostmesh.Errors.{intent_missing, nothing_to_launch, bad_value}
use ghostmesh.Result.{Result, ok, err, or_raise, ◌>>=◌}
use ghostmesh.Exec.{Exec}
use ghostmesh.Domain.Panel.{PatchPanel}
use ghostmesh.Domain.Work.{Card}
use ghostmesh.Domain.Registry.{
  GenesisIntent, GenesisIntentConstraints, received, launched, design_required, proposed,
  PatchPanelRegistryEntry, PatchPanelRegistryMetadata,
}
use ghostmesh.Registry.{Registry, PatchPanelRegistrySearch, no_filter, search}
use ghostmesh.Registry as Entries
use ghostmesh.Runtime.State.{Runtime, Env}
use ghostmesh.Runtime.Cards.{create_card}

pub record Genesis : Type 0 where
  pub runtime : Runtime
  pub registry : Registry
  pub intents : Dict ℕ GenesisIntent
  pub deduplication_index : Dict String ℕ

-- The arguments of `receive_intent`.
pub record Request : Type 0 where
  pub requested_by : String
  pub deduplication_key : String
  pub goal : String
  pub input_type : String
  pub desired_outputs : List String
  pub tags : List String
  pub constraints : GenesisIntentConstraints
  pub launch_if_existing : Bool
  pub propose_if_missing : Bool
  pub metadata : Payload

-- What a call takes from outside: a new intent's id, the readings of the clock, and the runtime's.
pub record GenesisEnv : Type 0 where
  pub intent_id : ℕ
  pub created_at : ℕ
  pub stamped_at : ℕ
  pub updated_at : ℕ
  pub runtime : Env

-- pydantic's `model_dump(mode="json")` of three models.
pub record Dumps : Type 0 where
  pub dump_constraints : GenesisIntentConstraints → Json
  pub dump_panel : PatchPanel → Json
  pub dump_metadata : PatchPanelRegistryMetadata → Json

unfoldable pub get : ℕ → Genesis → Result GenesisIntent
get id g = or_raise (lookup id g.intents) (intent_missing id)

abbrev pub filters_of : GenesisIntent → List PatchPanelRegistrySearch
filters_of i =
    record no_filter { input_type = some i.input_type }
      ∷ map (λ o. record no_filter { output_type = some o }) i.desired_outputs
    ++ map (λ t. record no_filter { tag = some t }) i.tags
    ++ (elim i.constraints.risk_level [
      | none ↦ []
      | some r ↦ if is_text r then record no_filter { risk_level = some r } ∷ [] else []
    ])

-- The inner loop: an entry whose id was seen is passed over.
unfoldable pub add_candidates :
    List PatchPanelRegistryEntry
    → List ℕ × List PatchPanelRegistryEntry
    → List ℕ × List PatchPanelRegistryEntry
add_candidates [] s = s
add_candidates (e ∷ es) (seen, candidates) =
    add_candidates es
      (if mem e.id seen then (seen, candidates) else (e.id ∷ seen, candidates ++ e ∷ []))

unfoldable pub search_all :
    Registry
    → List PatchPanelRegistrySearch
    → List ℕ × List PatchPanelRegistryEntry
    → List ℕ × List PatchPanelRegistryEntry
unfolding add_candidates
search_all reg [] s = s
search_all reg (f ∷ fs) s = search_all reg fs (add_candidates (search f reg) s)

unfoldable pub search_candidates : GenesisIntent → Registry → List PatchPanelRegistryEntry
unfolding search_all
search_candidates i reg = (search_all reg (filters_of i) ([], [])).1

module _ (env : GenesisEnv) where
  abbrev pub new_intent : Request → GenesisIntent
  new_intent r = record {
    id = env.intent_id;
    requested_by = r.requested_by;
    deduplication_key = r.deduplication_key;
    goal = r.goal;
    input_type = r.input_type;
    desired_outputs = r.desired_outputs;
    tags = r.tags;
    constraints = r.constraints;
    launch_if_existing = r.launch_if_existing;
    propose_if_missing = r.propose_if_missing;
    status = received;
    candidate_registry_entry_ids = [];
    selected_registry_entry_id = none;
    launched_card_id = none;
    proposal_card_id = none;
    created_at = env.created_at;
    updated_at = env.stamped_at;
    metadata = r.metadata;
  }

  abbrev pub with_candidates : Request → Registry → GenesisIntent
  with_candidates r reg =
      let candidates = search_candidates (new_intent r) reg in
      let intent = record (new_intent r) {
        candidate_registry_entry_ids = map (λ (e : PatchPanelRegistryEntry). e.id) candidates;
      } in
      if is_empty candidates && r.propose_if_missing
      then record intent { status = design_required; updated_at = env.updated_at }
      else intent

  -- The test of the two texts is the models' `min_length=1`.
  abbrev pub receive_new : Request → Exec Genesis GenesisIntent
  receive_new r g =
      if is_text r.deduplication_key && is_text r.goal
      then (let intent = with_candidates r g.registry in
          (
            ok intent,
            record g {
              intents = insert intent.id intent g.intents;
              deduplication_index = insert r.deduplication_key intent.id g.deduplication_index;
            },
          ))
      else (err bad_value, g)

  unfoldable pub receive_intent : Request → Exec Genesis GenesisIntent
  unfolding get
  receive_intent r g = elim (lookup r.deduplication_key g.deduplication_index) [
    | some id ↦ (get id g, g)
    | none ↦ receive_new r g
  ]

abbrev first_of : List ℕ → Option ℕ
first_of [] = none
first_of (id ∷ ids) = some id

-- `registry_entry_id or (candidate_ids[0] if candidate_ids else None)`
abbrev pub selected_id : Option ℕ → GenesisIntent → Option ℕ
selected_id (some id) i = some id
selected_id none i = first_of i.candidate_registry_entry_ids

abbrev pub launch_key : Conversions → GenesisIntent → PatchPanelRegistryEntry → String
launch_key py i e = "genesis:launch:" +++ i.deduplication_key +++ ":" +++ py.uuid_text e.id

-- What `launch` and `propose` do with the runtime's answer: the intent is stored once the card is there.
abbrev pub linked : (Card → GenesisIntent) → Genesis → Result Card × Runtime → Result Card × Genesis
linked update g (ok c, rt) =
    (ok c, record g { runtime = rt; intents = insert (update c).id (update c) g.intents })
linked update g (err e, rt) = (err e, record g { runtime = rt })

module _ (py : Conversions) (dumps : Dumps) (env : GenesisEnv) where
  abbrev pub launch_payload : GenesisIntent → Payload
  launch_payload i =
      ("goal", str i.goal)
      ∷ ("input_type", str i.input_type)
      ∷ ("desired_outputs", arr (texts i.desired_outputs))
      ∷ ("tags", arr (texts i.tags))
      ∷ ("constraints", dumps.dump_constraints i.constraints)
      ∷ []

  abbrev pub launch_metadata : GenesisIntent → PatchPanelRegistryEntry → Payload
  launch_metadata i e =
      ("genesis_intent_id", str (py.uuid_text i.id))
      ∷ ("registry_entry_id", str (py.uuid_text e.id))
      ∷ ("requested_by", str i.requested_by)
      ∷ []

  abbrev pub after_launch : GenesisIntent → PatchPanelRegistryEntry → Card → GenesisIntent
  after_launch i e c = record i {
    status = launched;
    selected_registry_entry_id = some e.id;
    launched_card_id = some c.id;
    updated_at = env.updated_at;
  }

  unfoldable pub check_launch :
      ℕ → Option ℕ → Genesis → Result (GenesisIntent × PatchPanelRegistryEntry)
  unfolding get
  check_launch intent_id registry_entry_id g = do
    i ← get intent_id g
    id ← or_raise (selected_id registry_entry_id i) nothing_to_launch
    e ← Entries.get id g.registry
    ok (i, e)

  abbrev pub create_launched : GenesisIntent × PatchPanelRegistryEntry → Exec Genesis Card
  create_launched (i, e) g = linked (after_launch i e) g (
      create_card env.runtime e.patch_panel_id (launch_payload i) (launch_metadata i e)
        (some (launch_key py i e)) g.runtime)

  abbrev pub after_check : Result (GenesisIntent × PatchPanelRegistryEntry) → Exec Genesis Card
  after_check (ok found) g = create_launched found g
  after_check (err x) g = (err x, g)

  unfoldable pub launch : ℕ → Option ℕ → Exec Genesis Card
  unfolding check_launch
  launch intent_id registry_entry_id g = after_check (check_launch intent_id registry_entry_id g) g

  abbrev pub propose_for :
      (proposed_by : String)
      → PatchPanel
      → PatchPanelRegistryMetadata
      → (base_id base_version : Option String) → Result GenesisIntent
      → Exec Genesis Card
  propose_for proposed_by panel m base_id base_version (err x) g = (err x, g)
  propose_for proposed_by panel m base_id base_version (ok i) g =
      linked
        (λ c. record i {
          status = proposed;
          proposal_card_id = some c.id;
          updated_at = env.updated_at;
        })
        g
        (create_card env.runtime "system_pp_approval"
          (("kind", str "patch_panel_proposal")
            ∷ ("proposal_type", str "create")
            ∷ ("genesis_intent_id", str (py.uuid_text i.id))
            ∷ ("proposed_by", str proposed_by)
            ∷ ("candidate_definition", dumps.dump_panel panel)
            ∷ ("registry_metadata", dumps.dump_metadata m)
            ∷ ("base_patch_panel_id", text_or_null base_id)
            ∷ ("base_version", text_or_null base_version)
            ∷ [])
          (("genesis_intent_id", str (py.uuid_text i.id))
            ∷ ("proposed_by", str proposed_by)
            ∷ ("candidate_patch_panel_id", str panel.id)
            ∷ [])
          (some (
            "genesis:propose:"
            +++ py.uuid_text i.id
            +++ ":"
            +++ panel.id
            +++ ":"
            +++ panel.version))
          g.runtime)

  unfoldable pub propose :
      ℕ
      → String
      → PatchPanel
      → PatchPanelRegistryMetadata
      → (base_id base_version : Option String) → Exec Genesis Card
  unfolding get
  propose intent_id proposed_by panel m base_id base_version g =
      propose_for proposed_by panel m base_id base_version (get intent_id g) g
