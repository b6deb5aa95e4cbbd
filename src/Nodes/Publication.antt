-- ===== src/Nodes/Publication.antt =====
-- nodes/executor.py: what has happened when a registry publication sink returns.
use ghostmesh.Prelude.{
  ℕ, String, ◌≡◌, ◌≢◌, ◌==◌, refl, sym, ap, subst, ◌∙◌, Bool, true, ◌&&◌, Option, none, some, List,
  In, inl, inr, first-In, In-keep, keep, values, lookup, insert, first-none, ◌⊎◌,
  lookup-insert_self, In-values, string_eq, nat_eq, arith, beq_false,
}
use ghostmesh.Python.{Conversions}
use ghostmesh.Errors.{Error, publication_history_missing, registry_missing}
use ghostmesh.Result.{or_raise, ok, Result-cases, ok_injective}
use ghostmesh.Exec.{◌>>=◌, >>=-eq-returned, >>=-lift, >>=-raise_if, >>=-gets}
use ghostmesh.Domain.Panel.{sink, NodeDefinition, PatchPanel}
use ghostmesh.Domain.Work.{Card, CardEvent}
use ghostmesh.Domain.Registry.{published, PatchPanelRegistryEntry, from_patch_panel}
use ghostmesh.PanelValidator.{GraphLibrary, GraphLaws, validate}
use ghostmesh.PanelValidator.Meaning.{IsWellFormed}
use ghostmesh.PanelValidator.Soundness.{validate-IsWellFormed}
use ghostmesh.Registry.{entry_matches, Registry, register, search}
use ghostmesh.Runtime.State.{Runtime, get_card}
use ghostmesh.Runtime.Cards.{register_patch_panel, card_history}
use ghostmesh.Nodes.{Nodes, NodeEnv, decoded, Models, on_runtime, node_of}
use ghostmesh.Nodes.Governance.{
  IsAcceptedBy, publication_governed-IsAcceptedBy, on_runtime_returned,
}
use ghostmesh.Nodes.Delivery.{must_read-decoded, execute_sink-IsDelivered}
use ghostmesh.Nodes.Sinks.{
  SinkResult, every_entry, is_publication, entry_for, new_entry, published_entry, publish_entry,
  publish, execute_configured_sink, execute_sink, as_reference,
}

-- How the entry came into the registry: it was listed before, whatever its status, and the registry is
-- as it was; or no entry was listed for the panel and version, and this one was added as published.
abbrev pub IsEntered : PatchPanel → Registry → PatchPanelRegistryEntry → Registry → Type 0
IsEntered panel known entry registry =
    (In entry (values known) × (registry ≡ known))
    ⊎ (((x : PatchPanelRegistryEntry)
          → In x (values known)
          → x.patch_panel_id ≡ panel.id
          → x.version ≡ panel.version
          → ⊥)
        × (entry.status ≡ published)
        × (registry ≡ insert entry.id entry known))

-- A panel that was accepted twice and is now in use: registered in the runtime, and listed.
pub record IsPublished (models : Models) (card : Card) (s s' : Nodes) : Type 0 where
  pub history : List CardEvent
  pub of_card : card_history card.id s.runtime ≡ ok history
  pub validated : IsAcceptedBy "topological_validator" "topology_valid" history
  pub approved : IsAcceptedBy "governance_reviewer" "proposal_approved" history
  pub candidate : PatchPanel
  pub read : models.read_panel (lookup "candidate_definition" card.payload) ≡ decoded candidate
  pub well_formed : IsWellFormed candidate
  pub in_runtime : lookup candidate.id s'.runtime.patch_panels ≡ some candidate
  pub known : Registry
  pub of_known : s.registry ≡ some known
  pub registry : Registry
  pub of_registry : s'.registry ≡ some registry
  pub entry : PatchPanelRegistryEntry
  pub listed : In entry (values registry)
  pub for_panel : entry.patch_panel_id ≡ candidate.id
  pub for_version : entry.version ≡ candidate.version
  pub entered : IsEntered candidate known entry registry

pub registered :
    (nx : GraphLibrary) (panel : PatchPanel) (rt rt' : Runtime) (p : PatchPanel)
    → register_patch_panel nx panel rt ≡ (ok p, rt')
    → ((report : _) × (validate nx panel ≡ ok report))
      × (lookup panel.id rt'.patch_panels ≡ some panel)
unfolding register_patch_panel
registered nx panel rt rt' p h = elim (Result-cases (validate nx panel)) [
  | inr (e, bad) ↦ absurd (ground (arith, bad, h))
  | inl (report, good) ↦
      ((report, good), ground (arith, good, h, lookup-insert_self panel.id panel rt.patch_panels))
]

both : (a b : Bool) → (a && b) ≡ true → (a ≡ true) × (b ≡ true)
both a b h = ground arith

-- The entry that stands for the panel afterwards, found or new.
record IsListed (panel : PatchPanel) (known : Registry) (e : PatchPanelRegistryEntry)
    (reg : Registry) : Type 0 where
  pub listed : In e (values reg)
  pub for_panel : e.patch_panel_id ≡ panel.id
  pub for_version : e.version ≡ panel.version
  pub entered : IsEntered panel known e reg

or_raised :
    (o : Option Registry) (e : Error) (reg : Registry) → or_raise o e ≡ ok reg → o ≡ some reg
or_raised (some x) e reg h = ground arith
or_raised none e reg h = absurd (cc)

module _ (panel : PatchPanel) (new : PatchPanelRegistryEntry) (reg : Registry)
    (of_panel : new.patch_panel_id ≡ panel.id) (of_version : new.version ≡ panel.version)
    (of_status : new.status ≡ published) where
  abbrev of_the_panel : PatchPanelRegistryEntry → Bool
  of_the_panel e = e.patch_panel_id == panel.id && e.version == panel.version

  abbrev any_entry : PatchPanelRegistryEntry → Bool
  any_entry e = entry_matches e every_entry

  published_entry-IsListed :
      (found : Option PatchPanelRegistryEntry)
      → entry_for panel reg ≡ found
      → let (e, reg') = published_entry new found reg in IsListed panel reg e reg'
  unfolding entry_for register search entry_matches every_entry
  published_entry-IsListed none h = record {
    listed = In-values new.id new _ (lookup-insert_self new.id new reg);
    for_panel = of_panel;
    for_version = of_version;
    entered = inr (
      (λ x m a b. absurd (
          ground (
            arith,
            first-none of_the_panel (keep any_entry (values reg)) x h
                ((In-keep any_entry (values reg) x).1 (m, refl)),
            (string_eq.beq_iff x.patch_panel_id panel.id).1 a,
            (string_eq.beq_iff x.version panel.version).1 b,
          ))),
      of_status,
      refl,
    );
  }
  published_entry-IsListed (some e) h =
      let (m, t) = first-In of_the_panel (keep any_entry (values reg)) e h in
      let (same_panel, same_version) = both _ _ t in
      record {
        listed = ((In-keep any_entry (values reg) e).0 m).0;
        for_panel = (string_eq.beq_iff e.patch_panel_id panel.id).0 same_panel;
        for_version = (string_eq.beq_iff e.version panel.version).0 same_version;
        entered = inl (((In-keep any_entry (values reg) e).0 m).0, refl);
      }

module _ (nx : GraphLibrary) (laws : GraphLaws nx) (py : Conversions) (models : Models)
    (env : NodeEnv) where
  entered :
      (new : PatchPanelRegistryEntry) (panel : PatchPanel) (reg : Registry) (s s' : Nodes)
      (e : PatchPanelRegistryEntry)
      → new.patch_panel_id ≡ panel.id
      → new.version ≡ panel.version
      → new.status ≡ published
      → publish_entry new panel reg s ≡ (ok e, s')
      → (reg' : Registry) × (s'.registry ≡ some reg')
        × IsListed panel reg e reg'
        × (s'.runtime ≡ s.runtime)
  entered new panel reg s s' e a b c h =
      let known = published_entry new (entry_for panel reg) reg in
      let is_listed = published_entry-IsListed panel new reg a b c (entry_for panel reg) refl in
      (
        known.1,
        ap (λ x. x.1.registry) (sym h),
        subst (λ x. IsListed panel reg x known.1) (ok_injective _ _ (ap (λ x. x.0) h)) is_listed,
        ap (λ x. x.1.runtime) (sym h),
      )

  publish-IsPublished :
      (node : NodeDefinition) (card : Card) (reference : Option String) (s s' : Nodes)
      (out : String)
      → publish py nx models env node card reference s ≡ (ok out, s')
      → IsPublished models card s s'
  unfolding publish from_patch_panel
  publish-IsPublished node card reference s s' out h =
      let h1 = >>=-gets _ _ s h in
      let (_, known, h2) = >>=-lift _ _ s h1 in
      let h3 = >>=-gets _ _ s h2 in
      let (history, of_card, h4) = >>=-lift _ _ s h3 in
      let (governed, h5) = >>=-raise_if _ publication_history_missing _ s h4 in
      let (candidate, read, h6) = >>=-lift _ _ s h5 in
      let (m, _, h7) = >>=-lift _ _ s h6 in
      let (p, s1, registering_it, h8) =
        >>=-eq-returned (on_runtime (register_patch_panel nx candidate)) _ s h7 in
      let (called, same_registry, _) = on_runtime_returned _ s s1 p registering_it in
      let ((report, good), in_runtime) = registered nx candidate s.runtime s1.runtime p called in
      let h9 = >>=-gets _ _ s1 h8 in
      let (reg, found, h10) = >>=-lift _ _ s1 h9 in
      let (e, s2, entering, h11) =
        >>=-eq-returned
          (publish_entry (new_entry py nx models env node card candidate m) candidate reg) _ s1
          h10 in
      let (reg', of_registry, is_listed, same_runtime) =
        entered _ candidate reg s1 s2 e refl refl refl entering in
      let last : s2 ≡ s' = ap (λ x. x.1) h11 in
      let (validated, approved) = publication_governed-IsAcceptedBy history governed in
      subst (IsPublished models card s) last (record {
        history = history;
        of_card = of_card;
        validated = validated;
        approved = approved;
        candidate = candidate;
        read = must_read-decoded _ candidate read;
        well_formed = validate-IsWellFormed nx laws candidate report good;
        in_runtime =
            subst (λ rt. lookup candidate.id rt.patch_panels ≡ some candidate) (sym same_runtime)
              in_runtime;
        known = reg;
        of_known = sym same_registry ∙ or_raised s1.registry registry_missing reg found;
        registry = reg';
        of_registry = of_registry;
        entry = e;
        listed = is_listed.listed;
        for_panel = is_listed.for_panel;
        for_version = is_listed.for_version;
        entered = is_listed.entered;
      })

  -- What the sink's event leaves: the registry and the panels of the runtime.
  kept-IsPublished :
      (card : Card) (s s1 s' : Nodes)
      → s'.registry ≡ s1.registry
      → s'.runtime.patch_panels ≡ s1.runtime.patch_panels
      → IsPublished models card s s1
      → IsPublished models card s s'
  kept-IsPublished card s s1 s' same_registry same_panels h = record {
    history = h.history;
    of_card = h.of_card;
    validated = h.validated;
    approved = h.approved;
    candidate = h.candidate;
    read = h.read;
    well_formed = h.well_formed;
    in_runtime = ap (λ d. lookup h.candidate.id d) same_panels ∙ h.in_runtime;
    known = h.known;
    of_known = h.of_known;
    registry = h.registry;
    of_registry = same_registry ∙ h.of_registry;
    entry = h.entry;
    listed = h.listed;
    for_panel = h.for_panel;
    for_version = h.for_version;
    entered = h.entered;
  }

  configured_publication :
      (node : NodeDefinition) (card : Card) (reference : Option String)
      → node.id ≢ "authority_provisioner_sink"
      → is_publication node ≡ true
      → execute_configured_sink py nx models env node card reference
        ≡ (publish py nx models env node card reference >>= as_reference)
  unfolding execute_configured_sink
  configured_publication node card reference other publication =
      rw (beq_false node.id "authority_provisioner_sink" other, publication) refl

  -- Over a graph library that obeys its laws: when a registry publication sink returns, whose id is
  -- not authority_provisioner_sink, the card's history has an accepted validation by
  -- topological_validator at the exit topology_valid and one by governance_reviewer at
  -- proposal_approved, the card's candidate reads as a well-formed panel, the runtime has that panel
  -- under its id, and the registry lists an entry for its id and version: either it was listed
  -- before, whatever its status, and the registry is as it was, or none was listed for that id and
  -- version, and the registry has this one, published, in addition.
  pub execute_sink-IsPublished :
      (panel : PatchPanel) (node : NodeDefinition) (card_id : ℕ) (sink_id : String)
      (reference key : Option String) (s s' : Nodes) (r : SinkResult)
      → node_of panel sink_id sink ≡ ok node
      → node.id ≢ "authority_provisioner_sink"
      → is_publication node ≡ true
      → execute_sink py nx models env panel card_id sink_id reference key s ≡ (ok r, s')
      → (card : Card) × (get_card card_id s.runtime ≡ ok card) × IsPublished models card s s'
  execute_sink-IsPublished panel node card_id sink_id reference key s s' r found other publication
        h =
      let d =
        execute_sink-IsDelivered nx py models env panel node card_id sink_id reference key s s' r
          found h in
      let published =
        subst (λ m. m s ≡ (ok r.external_reference, d.after_action))
          (configured_publication node d.card reference other publication) d.action in
      let (text, s2, publishing, ending) =
        >>=-eq-returned (publish py nx models env node d.card reference) as_reference s published in
      (
        d.card,
        d.of_card,
        kept-IsPublished d.card s d.after_action s' d.same_registry d.same_panels (
            subst (IsPublished models d.card s) (ap (λ x. x.1) ending)
              (publish-IsPublished node d.card reference s s2 text publishing)),
      )
