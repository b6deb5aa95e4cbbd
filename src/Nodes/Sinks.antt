-- ===== src/Nodes/Sinks.antt =====
-- nodes/executor.py: `execute_sink`, with the two sinks that act on the registry and on the
-- authorization repository.
use ghostmesh.Prelude.{
  ℕ, suc, String, Bool, true, not, ◌&&◌, Option, none, some, List, [], ◌∷◌, first, collect, mem,
  lookup, ◌==◌, string_eq, option_eq, is_empty, if◌then◌else◌,
}
use ghostmesh.Python.{
  null, str, is_str, is_truthy, get_in, or_null, text_or_null, text_or, optional_text, Payload,
  Conversions,
}
use ghostmesh.Errors.{
  shadow_egress_forbidden, card_not_at_sink, registry_missing, repository_missing,
  publication_history_missing, provisioning_history_missing, bad_value,
}
use ghostmesh.Result.{Result, ok, err, or_raise}
use ghostmesh.Exec.{Exec, lift, pure, gets, modify, raise_if, ◌>>=◌, ◌>>◌}
use ghostmesh.Domain.Panel.{sink, NodeDefinition, PipeBinding, PatchPanel}
use ghostmesh.Domain.Work.{Card, CardEvent}
use ghostmesh.Domain.Registry.{
  PatchPanelRegistryEntry, PatchPanelRegistryMetadata, published, from_patch_panel,
}
use ghostmesh.Auth.Repository.{Repository, upsert_participant}
use ghostmesh.Auth.Catalog.{ensure_builtin_role_assignment}
use ghostmesh.PanelValidator.{GraphLibrary}
use ghostmesh.Registry.{Registry, PatchPanelRegistrySearch, no_filter, register, search}
use ghostmesh.Runtime.State.{get_card}
use ghostmesh.Runtime.Cards.{register_patch_panel, record_event, card_history}
use ghostmesh.Nodes.{
  Nodes, NodeEnv, Decoded, decoded, refused, Onboarding, RoleRequest, Models, on_runtime, node_of,
  accepted_by,
}

pub record SinkResult : Type 0 where
  pub event : CardEvent
  pub external_reference : Option String

-- A model that is read where nothing catches pydantic's error.
abbrev pub must_read : {A : Type 0} → Decoded A → Result A
must_read (decoded a) = ok a
must_read (refused message) = err bad_value

abbrev bucket_of : Option PipeBinding → List String
bucket_of none = []
bucket_of (some b) = b.bucket ∷ []

abbrev pub input_buckets : PatchPanel → NodeDefinition → List String
input_buckets panel node = collect (λ p. bucket_of (lookup p panel.pipe_bindings)) node.input_pipes

-- The test of `_ensure_card_at_sink`
unfoldable pub is_elsewhere : PatchPanel → NodeDefinition → Card → Bool
is_elsewhere panel node card =
    let buckets = input_buckets panel node in
    not (is_empty buckets) && not (mem card.current_bucket buckets)

-- `contract.get("type") == "registry_publication"` where the contract is a dictionary.
unfoldable pub is_publication : NodeDefinition → Bool
is_publication node =
    is_str "registry_publication" (get_in "type" (lookup "egress_contract" node.config))

-- The tests of `_ensure_registry_publication_history` and `_ensure_authority_provisioning_history`
unfoldable pub publication_governed : List CardEvent → Bool
publication_governed history =
    accepted_by "topological_validator" "topology_valid" history
    && accepted_by "governance_reviewer" "proposal_approved" history

unfoldable pub provisioning_governed : List CardEvent → Bool
provisioning_governed history =
    accepted_by "registration_compliance_validator" "registration_compliant" history
    && accepted_by "registration_admin_reviewer" "registration_approved" history

unfoldable pub every_entry : PatchPanelRegistrySearch
every_entry = record no_filter { include_archived = true; include_superseded = true }

unfoldable pub entry_for : PatchPanel → Registry → Option PatchPanelRegistryEntry
entry_for panel reg =
    first (λ e. e.patch_panel_id == panel.id && e.version == panel.version) (search every_entry reg)

-- `existing`, or the entry that is registered.
abbrev pub published_entry :
    PatchPanelRegistryEntry
    → Option PatchPanelRegistryEntry
    → Registry
    → PatchPanelRegistryEntry × Registry
published_entry new none reg = (new, register new reg)
published_entry new (some existing) reg = (existing, reg)

abbrev pub publish_entry :
    PatchPanelRegistryEntry → PatchPanel → Registry → Exec Nodes PatchPanelRegistryEntry
publish_entry new panel reg s =
    let (entry, reg') = published_entry new (entry_for panel reg) reg in
    (ok entry, record s { registry = some reg' })

-- `_egress_contract_type`
abbrev pub egress_contract_type : Conversions → NodeDefinition → Option String
egress_contract_type py node =
    optional_text py (get_in "type" (lookup "egress_contract" node.config))

abbrev pub sink_payload : Conversions → NodeDefinition → Option String → Payload
sink_payload py node external_reference =
    ("sink_id", str node.id)
    ∷ ("external_reference", text_or_null external_reference)
    ∷ (
      "registry_entry_id",
      if egress_contract_type py node == some "registry_publication"
          then text_or_null external_reference
          else null,
    )
    ∷ ("egress_contract", or_null (lookup "egress_contract" node.config))
    ∷ ("egress_idempotency", or_null (lookup "egress_idempotency" node.config))
    ∷ []

-- A card that is a shadow, at a sink that does not let shadows out.
unfoldable pub is_held_back : NodeDefinition → Card → Bool
is_held_back node card =
    is_truthy (lookup "shadow" card.metadata)
    && not (is_truthy (lookup "allow_shadow_egress" node.config))

abbrev pub as_reference : String → Exec Nodes (Option String)
as_reference s = pure (some s)

module _ (env : NodeEnv) where
  -- The loop over the assignments; `n` is the number of those done.
  unfoldable pub assign_roles : String → ℕ → List RoleRequest → Repository → Repository
  unfolding ensure_builtin_role_assignment
  assign_roles participant_id n [] repo = repo
  assign_roles participant_id n (r ∷ rs) repo =
      assign_roles participant_id (suc n) rs
        (ensure_builtin_role_assignment (env.grants n) participant_id r.role_name r.scope
          r.assigned_by repo).1

  unfoldable pub onboard : Onboarding → Repository → Repository
  unfolding assign_roles
  onboard o repo =
      assign_roles o.participant.id 0 o.role_assignments (upsert_participant o.participant repo)

module _ (py : Conversions) (nx : GraphLibrary) (models : Models) (env : NodeEnv) where
  abbrev pub new_entry :
      NodeDefinition → Card → PatchPanel → PatchPanelRegistryMetadata → PatchPanelRegistryEntry
  new_entry node card panel m =
      from_patch_panel env.entry_id env.entry_created_at env.entry_updated_at panel
        (record m { status = published }) none
        (("proposal_card_id", str (py.uuid_text card.id))
          ∷ ("published_by_sink", str node.id)
          ∷ ("genesis_intent_id", or_null (lookup "genesis_intent_id" card.payload))
          ∷ [])

  -- From the check of the registry on.
  unfoldable pub publish : NodeDefinition → Card → Option String → Exec Nodes String
  unfolding publication_governed
  publish node card external_reference = do
    known ← gets (λ s. or_raise s.registry registry_missing)
    lift known
    events ← gets (λ s. card_history card.id s.runtime)
    history ← lift events
    raise_if (not (publication_governed history)) publication_history_missing
    candidate ← lift (must_read (models.read_panel (lookup "candidate_definition" card.payload)))
    m ← lift (must_read (models.read_metadata (lookup "registry_metadata" card.payload)))
    on_runtime (register_patch_panel nx candidate)
    found ← gets (λ s. or_raise s.registry registry_missing)
    reg ← lift found
    entry ← publish_entry (new_entry node card candidate m) candidate reg
    pure (text_or external_reference (py.uuid_text entry.id))

  -- `_execute_authority_provisioning_sink`
  unfoldable pub provision : NodeDefinition → Card → Option String → Exec Nodes String
  unfolding provisioning_governed onboard
  provision node card external_reference = do
    known ← gets (λ s. or_raise s.authorization_repository repository_missing)
    repo ← lift known
    events ← gets (λ s. card_history card.id s.runtime)
    history ← lift events
    raise_if (not (provisioning_governed history)) provisioning_history_missing
    o ← lift (must_read (models.read_onboarding card.payload))
    modify (λ s. record s { authorization_repository = some (onboard env o repo) })
    pure (text_or external_reference o.participant.id)

  -- `_execute_configured_sink`
  unfoldable pub execute_configured_sink :
      NodeDefinition → Card → Option String → Exec Nodes (Option String)
  unfolding is_publication publish provision
  execute_configured_sink node card external_reference =
      if node.id == "authority_provisioner_sink"
      then (provision node card external_reference >>= as_reference)
      else if is_publication node
      then (publish node card external_reference >>= as_reference)
      else pure external_reference

  -- From the guards on.
  abbrev pub run_sink :
      PatchPanel
      → NodeDefinition
      → ℕ
      → Card
      → (external_reference key : Option String) → Exec Nodes SinkResult
  run_sink panel node card_id card external_reference key = do
    raise_if (is_held_back node card) shadow_egress_forbidden
    raise_if (is_elsewhere panel node card) (card_not_at_sink card.id)
    reference ← execute_configured_sink node card external_reference
    event ← on_runtime (
        record_event env.first_call card_id "sink_executed" (some node.id)
          (sink_payload py node reference) key)
    pure (record { event = event; external_reference = reference })

  unfoldable pub execute_sink :
      PatchPanel
      → (card_id : ℕ) (sink_id : String) (external_reference key : Option String)
      → Exec Nodes SinkResult
  unfolding node_of is_held_back is_elsewhere execute_configured_sink
  execute_sink panel card_id sink_id external_reference key = do
    node ← lift (node_of panel sink_id sink)
    found ← gets (λ s. get_card card_id s.runtime)
    card ← lift found
    run_sink panel node card_id card external_reference key
