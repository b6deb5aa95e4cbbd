-- ===== src/Nodes/Provisioning.antt =====
-- nodes/executor.py: what has happened when the authority provisioning sink returns.
use ghostmesh.Prelude.{
  ℕ, suc, String, ◌≡◌, refl, sym, ap, subst, ◌∙◌, true, Option, some, List, [], ◌∷◌, In, inl, inr,
  lookup, lookup-insert_self, string_eq,
}
use ghostmesh.Python.{Payload, Conversions}
use ghostmesh.Errors.{provisioning_history_missing}
use ghostmesh.Result.{ok}
use ghostmesh.Exec.{modify, ◌>>=◌, >>=-eq-returned, >>=-lift, >>=-raise_if, >>=-gets}
use ghostmesh.Domain.Panel.{sink, NodeDefinition, PatchPanel}
use ghostmesh.Domain.Work.{Card, CardEvent}
use ghostmesh.Domain.Authority.{Participant, active, PermissionName}
use ghostmesh.Auth.Repository.{Repository, get_participant, upsert_participant}
use ghostmesh.Auth.Service.{AuthEnv, authorize}
use ghostmesh.Auth.Service.Decisions.{authorize_allowed}
use ghostmesh.Auth.Catalog.{permissions_of, ensure_builtin_role_assignment}
use ghostmesh.Auth.Catalog.Provisioning.{ensure_builtin_role_assignment-authorize}
use ghostmesh.Auth.Catalog.Extension.{
  Extends, Extends-refl, Extends-trans, ensure-Extends, Entitles-Extends,
}
use ghostmesh.PanelValidator.{GraphLibrary}
use ghostmesh.Runtime.State.{get_card}
use ghostmesh.Runtime.Cards.{card_history}
use ghostmesh.Nodes.{Nodes, NodeEnv, decoded, Onboarding, RoleRequest, Models, node_of}
use ghostmesh.Nodes.Governance.{IsAcceptedBy, provisioning_governed-IsAcceptedBy}
use ghostmesh.Nodes.Delivery.{must_read-decoded, execute_sink-IsDelivered}
use ghostmesh.Nodes.Sinks.{
  SinkResult, assign_roles, onboard, provision, execute_configured_sink, execute_sink, as_reference,
}

module _ (env : NodeEnv) where
  assign_roles-Extends :
      (id : String) (n : ℕ) (rs : List RoleRequest) (repo : Repository)
      → Extends repo (assign_roles env id n rs repo)
  unfolding assign_roles
  assign_roles-Extends id n [] repo = Extends-refl repo
  assign_roles-Extends id n (r ∷ rs) repo =
      let repo' =
        (ensure_builtin_role_assignment (env.grants n) id r.role_name r.scope r.assigned_by
          repo).1 in
      Extends-trans repo repo' _
        (ensure-Extends (env.grants n) id r.role_name r.scope r.assigned_by repo)
        (assign_roles-Extends id (suc n) rs repo')

  module _ (auth : AuthEnv) (context : Payload)
      (same_instant : (n : ℕ) → auth.now ≡ (env.grants n).now) (p : Participant)
      (is_active : p.status ≡ active) (id : String) (permission : PermissionName)
      (r : RoleRequest) where
    allowed_still :
        (repo repo' : Repository)
        → Extends repo repo'
        → (authorize auth id permission r.scope context repo).0.allowed ≡ true
        → (authorize auth id permission r.scope context repo').0.allowed ≡ true
    unfolding get_participant
    allowed_still repo repo' h allowed =
        let ((q, found, active_now), (g, e)) =
          (authorize_allowed auth id permission r.scope context repo).0 allowed in
        (authorize_allowed auth id permission r.scope context repo').1 (
          (q, ap (λ d. lookup id d) h.participants ∙ found, active_now),
          (g, Entitles-Extends auth.now id repo repo' h permission r.scope context g e),
        )

    assign_roles-authorize :
        (n : ℕ) (rs : List RoleRequest) (repo : Repository)
        → get_participant id repo ≡ some p
        → In r rs
        → In permission (permissions_of r.role_name)
        → (authorize auth id permission r.scope context (assign_roles env id n rs repo)).0.allowed
          ≡ true
    unfolding assign_roles get_participant
    assign_roles-authorize n [] repo found m listed = absurd m
    assign_roles-authorize n (x ∷ rs) repo found (inl same) listed =
        let repo' =
          (ensure_builtin_role_assignment (env.grants n) id x.role_name x.scope x.assigned_by
            repo).1 in
        allowed_still repo' (assign_roles env id (suc n) rs repo')
          (assign_roles-Extends id (suc n) rs repo')
          (subst
            (λ (y : RoleRequest).
              (authorize auth id permission r.scope context
                (ensure_builtin_role_assignment (env.grants n) id y.role_name y.scope y.assigned_by
                  repo).1).0.allowed
              ≡ true)
            same
            (ensure_builtin_role_assignment-authorize (env.grants n) id r.role_name r.scope
              r.assigned_by permission context repo auth p (same_instant n) found is_active listed))
    assign_roles-authorize n (x ∷ rs) repo found (inr m) listed =
        let e = ensure-Extends (env.grants n) id x.role_name x.scope x.assigned_by repo in
        assign_roles-authorize (suc n) rs _ (ap (λ d. lookup id d) e.participants ∙ found) m listed

-- A participant whose admission was accepted twice, and who may now do what the roles say.
pub record IsAdmitted (models : Models) (env : NodeEnv) (card : Card) (s s' : Nodes) : Type 0 where
  pub history : List CardEvent
  pub of_card : card_history card.id s.runtime ≡ ok history
  pub compliant : IsAcceptedBy "registration_compliance_validator" "registration_compliant" history
  pub approved : IsAcceptedBy "registration_admin_reviewer" "registration_approved" history
  pub request : Onboarding
  pub read : models.read_onboarding card.payload ≡ decoded request
  pub repository : Repository
  pub of_repository : s'.authorization_repository ≡ some repository
  pub may :
      (auth : AuthEnv) (context : Payload) (r : RoleRequest) (permission : PermissionName)
      → ((n : ℕ) → auth.now ≡ (env.grants n).now)
      → request.participant.status ≡ active
      → In r request.role_assignments
      → In permission (permissions_of r.role_name)
      → (authorize auth request.participant.id permission r.scope context repository).0.allowed
        ≡ true

module _ (nx : GraphLibrary) (py : Conversions) (models : Models) (env : NodeEnv) where
  provision-IsAdmitted :
      (node : NodeDefinition) (card : Card) (reference : Option String) (s s' : Nodes)
      (out : String)
      → provision py nx models env node card reference s ≡ (ok out, s')
      → IsAdmitted models env card s s'
  unfolding provision onboard upsert_participant get_participant
  provision-IsAdmitted node card reference s s' out h =
      let h1 = >>=-gets _ _ s h in
      let (repo, _, h2) = >>=-lift _ _ s h1 in
      let h3 = >>=-gets _ _ s h2 in
      let (history, of_card, h4) = >>=-lift _ _ s h3 in
      let (governed, h5) = >>=-raise_if _ provisioning_history_missing _ s h4 in
      let (o, read, h6) = >>=-lift _ _ s h5 in
      let (u, s1, writing, h7) =
        >>=-eq-returned
          (modify
            (λ (x : Nodes). record x { authorization_repository = some (onboard env o repo) }))
          _ s h6 in
      let last : s1 ≡ s' = ap (λ x. x.1) h7 in
      let written = ap (λ x. x.1.authorization_repository) (sym writing) in
      let (compliant, approved) = provisioning_governed-IsAcceptedBy history governed in
      subst (IsAdmitted models env card s) last (record {
        history = history;
        of_card = of_card;
        compliant = compliant;
        approved = approved;
        request = o;
        read = must_read-decoded _ o read;
        repository = onboard env o repo;
        of_repository = written;
        may = λ auth context r permission instant is_active m listed.
            assign_roles-authorize env auth context instant o.participant is_active o.participant.id
              permission r 0 o.role_assignments _
              (lookup-insert_self o.participant.id o.participant repo.participants) m listed;
      })

  kept-IsAdmitted :
      (card : Card) (s s1 s' : Nodes)
      → s'.authorization_repository ≡ s1.authorization_repository
      → IsAdmitted models env card s s1
      → IsAdmitted models env card s s'
  kept-IsAdmitted card s s1 s' same h = record {
    history = h.history;
    of_card = h.of_card;
    compliant = h.compliant;
    approved = h.approved;
    request = h.request;
    read = h.read;
    repository = h.repository;
    of_repository = same ∙ h.of_repository;
    may = h.may;
  }

  configured_provision :
      (node : NodeDefinition) (card : Card) (reference : Option String)
      → node.id ≡ "authority_provisioner_sink"
      → execute_configured_sink py nx models env node card reference
        ≡ (provision py nx models env node card reference >>= as_reference)
  unfolding execute_configured_sink
  configured_provision node card reference same =
      rw ((string_eq.beq_iff node.id "authority_provisioner_sink").1 same) refl

  -- When the authority provisioning sink returns, the card's history has an accepted compliance check
  -- and an accepted review by the administrator, the card's payload reads as an onboarding request,
  -- and, if the participant is active, every permission of every role in the request is allowed to
  -- them in the role's scope, at the instant at which the roles were assigned.
  pub execute_sink-IsAdmitted :
      (panel : PatchPanel) (node : NodeDefinition) (card_id : ℕ) (sink_id : String)
      (reference key : Option String) (s s' : Nodes) (r : SinkResult)
      → node_of panel sink_id sink ≡ ok node
      → node.id ≡ "authority_provisioner_sink"
      → execute_sink py nx models env panel card_id sink_id reference key s ≡ (ok r, s')
      → (card : Card) × (get_card card_id s.runtime ≡ ok card) × IsAdmitted models env card s s'
  execute_sink-IsAdmitted panel node card_id sink_id reference key s s' r found same h =
      let d =
        execute_sink-IsDelivered nx py models env panel node card_id sink_id reference key s s' r
          found h in
      let provisioned =
        subst (λ m. m s ≡ (ok r.external_reference, d.after_action))
          (configured_provision node d.card reference same) d.action in
      let (text, s2, provisioning, ending) =
        >>=-eq-returned (provision py nx models env node d.card reference) as_reference s
          provisioned in
      (
        d.card,
        d.of_card,
        kept-IsAdmitted d.card s d.after_action s' d.same_repository (
            subst (IsAdmitted models env d.card s) (ap (λ x. x.1) ending)
              (provision-IsAdmitted node d.card reference s s2 text provisioning)),
      )
