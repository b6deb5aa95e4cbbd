-- ===== src/Boundaries/Deduplication.antt =====
-- boundaries.py: a source that receives the same thing twice.
use ghostmesh.Prelude.{
  String, ◌≡◌, refl, sym, ap, subst, ◌∙◌, true, false, Option, none, some, List, [], ◌∷◌, arith,
  is_text, ◌==◌, string_eq, beq_false, longer-differs, append-cancel, ◌+++◌,
}
use ghostmesh.Python.{str, obj, Payload, Conversions, suffixed, text_or_null}
use ghostmesh.Result.{Result, ok, ok_injective, >>=-eq-ok}
use ghostmesh.Exec.{
  Exec, lift, gets, zoom, put_back, >>=-eq-returned, >>=-lift, >>=-gets, >>=-returns,
}
use ghostmesh.Domain.Panel.{NodeType, source, NodeDefinition, PatchPanel, type_eq}
use ghostmesh.Domain.Work.{Card, CardEvent}
use ghostmesh.Runtime.State.{Runtime, typed_card, typed_event}
use ghostmesh.Runtime.Cards.{record_event}
use ghostmesh.Nodes.{Nodes, find_node, node_of}
use ghostmesh.Nodes.Work as Work
use ghostmesh.Nodes.Replay.{
  IsAnswering, record_event-IsAnswering, record_event-found, kept-IsAnswering, suffixed-text,
  is_text-append, execute_source-IsAnswering, execute_source-found,
}
use ghostmesh.Boundaries.{
  BoundarySourceRequest, SourceBoundaryResult, Adapters, BoundaryEnv, fields_of, on_executor,
  find_panel, contract_of, ensure_authorized, envelope, map_payload, text_at,
}
use ghostmesh.Boundaries.Ingress.{Ingress, ingress_key, prepare, ensure_target, as_key}
use ghostmesh.Nodes.Sinks.{must_read}
use ghostmesh.Boundaries.Source.{receive, execute_source}

unfoldable pub executor_of : Runtime → Nodes
executor_of rt = record { runtime = rt; registry = none; authorization_repository = none }

put_back_runtime :
    {A : Type 0} (r : Result A × Nodes) (a : A) (rt rt' : Runtime)
    → put_back (λ (s : Nodes) (x : Runtime). s.runtime) rt r ≡ (ok a, rt')
    → (s : Nodes) × (r ≡ (ok a, s)) × (s.runtime ≡ rt')
put_back_runtime (r, s) a rt rt' h = (s, ap (λ x. (x.0, s)) h, ap (λ x. x.1) h)

on_executor_returned :
    {A : Type 0} (m : Exec Nodes A) (rt rt' : Runtime) (a : A)
    → on_executor m rt ≡ (ok a, rt')
    → (s : Nodes) × (m (executor_of rt) ≡ (ok a, s)) × (s.runtime ≡ rt')
unfolding zoom executor_of
on_executor_returned m rt rt' a h = put_back_runtime (m (executor_of rt)) a rt rt' h

on_executor_at :
    {A : Type 0} (m : Exec Nodes A) (rt : Runtime) (a : A)
    → m (executor_of rt) ≡ (ok a, executor_of rt)
    → on_executor m rt ≡ (ok a, rt)
unfolding zoom executor_of
on_executor_at m rt a h = ap (put_back (λ (s : Nodes) (x : Runtime). s.runtime) rt) h

find_node-id :
    (ns : List NodeDefinition) (id : String) (t : NodeType) (n : NodeDefinition)
    → find_node ns id t ≡ ok n
    → n.id ≡ id
unfolding find_node
find_node-id [] id t n h = absurd (cc)
find_node-id (m ∷ ns) id t n h =
    ground (arith, h, find_node-id ns id t n, string_eq.beq_iff m.id id)

pub node_of-id :
    (panel : PatchPanel) (id : String) (t : NodeType) (n : NodeDefinition)
    → node_of panel id t ≡ ok n
    → node_of panel n.id t ≡ ok n
unfolding node_of
node_of-id panel id t n h =
    subst (λ x. find_node panel.nodes x t ≡ ok n) (sym (find_node-id panel.nodes id t n h)) h

event_key_differs : (key : String) → ((key +++ ":source") == (key +++ ":event")) ≡ false
event_key_differs key =
    beq_false (key +++ ":source") (key +++ ":event")
      (λ h. let same = append-cancel key ":source" ":event" h in absurd (cc))

own_key_differs : (key : String) → (key == (key +++ ":event")) ≡ false
own_key_differs key = beq_false key (key +++ ":event") (λ h. longer-differs key _ _ h)

-- What the runtime has under the three keys of a request.
record IsReceived (key : String) (c : Card) (rt : Runtime) : Type 0 where
  pub created : IsAnswering typed_card key c rt
  pub executed : (e : CardEvent) × IsAnswering typed_event (key +++ ":source") e rt
  pub noted : (e : CardEvent) × IsAnswering typed_event (key +++ ":event") e rt

abbrev notice : Ingress → Payload
notice i =
    ("adapter", str i.adapter)
    ∷ ("source_id", str i.node.id)
    ∷ ("deduplication_key", text_or_null i.deduplication_key)
    ∷ ("headers", obj (fields_of i.headers))
    ∷ []

module _ (py : Conversions) (env : BoundaryEnv) (i : Ingress) (key : String)
    (known : node_of i.panel i.node.id source ≡ ok i.node) (under : ingress_key i ≡ some key)
    (keyed : is_text key ≡ true) where
  event_key : suffixed (ingress_key i) ":event" ≡ some (key +++ ":event")
  event_key = ap (λ k. suffixed k ":event") under ∙ suffixed-text key ":event" keyed

  record_it : Card → Option String → Exec Runtime CardEvent
  record_it c k =
      record_event env.for_event c.id "boundary_source_received" (some i.node.id) (notice i) k

  executed_source : Option String → Exec Nodes Card
  executed_source k = Work.execute_source py env.for_node i.panel i.node.id i.payload i.metadata k

  receive-IsReceived :
      (rt rt' : Runtime) (r : SourceBoundaryResult)
      → receive py env i rt ≡ (ok r, rt')
      → IsReceived key r.card rt'
  unfolding receive record_it executed_source
  receive-IsReceived rt rt' r h =
      let (c, s1, executing, h1) =
        >>=-eq-returned (on_executor (executed_source (ingress_key i))) _ rt h in
      let executing' =
        subst (λ k. on_executor (executed_source k) rt ≡ (ok c, s1)) under executing in
      let (s, call, at) = on_executor_returned (executed_source (some key)) rt s1 c executing' in
      let (created, (e, executed)) =
        execute_source-IsAnswering py env.for_node env.for_node i.panel i.node i.node.id key known
          keyed i.payload i.metadata (executor_of rt) s c call in
      let created' = subst (IsAnswering typed_card key c) at created in
      let executed' = subst (IsAnswering typed_event (key +++ ":source") e) at executed in
      let (e2, s2, noting, h2) =
        >>=-eq-returned (record_it c (suffixed (ingress_key i) ":event")) _ s1 h1 in
      let noting' = subst (λ k. record_it c k s1 ≡ (ok e2, s2)) event_key noting in
      let same : c ≡ r.card = ap (λ x. x.card) (ok_injective _ _ (ap (λ x. x.0) h2)) in
      subst (λ (x : Card × Runtime). IsReceived key x.0 x.1) (λ j. (same j, (h2 j).1))
        (record {
          created =
              kept-IsAnswering env.for_event typed_card c c.id "boundary_source_received"
                (some i.node.id) (notice i) (key +++ ":event") key s1 s2 (ok e2)
                (own_key_differs key) noting' created';
          executed = (
            e,
            kept-IsAnswering env.for_event typed_event e c.id "boundary_source_received"
                (some i.node.id) (notice i) (key +++ ":event") (key +++ ":source") s1 s2 (ok e2)
                (event_key_differs key) noting' executed',
          );
          noted = (
            e2,
            record_event-IsAnswering env.for_event c.id "boundary_source_received" (some i.node.id)
                (notice i) (key +++ ":event") s1 s2 e2 (is_text-append key ":event" keyed) noting',
          );
        })

  receive-found :
      (rt : Runtime) (c : Card)
      → IsReceived key c rt
      → receive py env i rt ≡ (
        ok (record { card = c; deduplication_key = i.deduplication_key; adapter = i.adapter }),
        rt,
      )
  unfolding receive record_it executed_source executor_of
  receive-found rt c a =
      let (e, executed) = a.executed in
      let (e2, noted) = a.noted in
      >>=-returns (on_executor (executed_source (ingress_key i))) _ rt (
        ap (λ k. on_executor (executed_source k) rt) under
        ∙ on_executor_at (executed_source (some key)) rt c (
            execute_source-found py env.for_node env.for_node i.panel i.node i.node.id key known
              keyed i.payload i.metadata (executor_of rt) c e a.created executed))
      ∙ >>=-returns (record_it c (suffixed (ingress_key i) ":event")) _ rt (
          ap (λ k. record_it c k rt) event_key
          ∙ record_event-found env.for_event c.id "boundary_source_received" (some i.node.id)
              (notice i) (key +++ ":event") rt e2 noted)

key_of : (panel_id node_id d : String) → String
key_of panel_id node_id d = ("boundary-source:" +++ panel_id +++ ":" +++ node_id +++ ":") +++ d

key_of-text : (a b d : String) → is_text (key_of a b d) ≡ true
unfolding key_of ◌+++◌
key_of-text a b d = refl

module _ (py : Conversions) (adapters : Adapters) where
  prepare-node :
      (request : BoundarySourceRequest) (rt : Runtime) (i : Ingress)
      → prepare py adapters request rt ≡ ok i
      → node_of i.panel i.node.id source ≡ ok i.node
  unfolding prepare
  prepare-node request rt i h =
      let (panel, _, h1) = >>=-eq-ok (find_panel request.patch_panel_id rt) _ h in
      let (node, known, h2) = >>=-eq-ok (node_of panel request.source_id source) _ h1 in
      let (contract, _, h3) =
        >>=-eq-ok (must_read (adapters.read_source (contract_of "ingress_contract" node))) _ h2 in
      let (_, _, h4) = >>=-eq-ok (ensure_authorized contract.auth request.actor_token) _ h3 in
      let (_, _, h5) = >>=-eq-ok (ensure_target contract.target_workflow_version panel) _ h4 in
      let outside = envelope request.external_payload request.headers in
      let (_, _, h6) = >>=-eq-ok (map_payload outside contract.payload_map) _ h5 in
      let (_, _, h7) = >>=-eq-ok (map_payload outside contract.metadata_map) _ h6 in
      let (_, _, h8) = >>=-eq-ok (text_at py outside contract.deduplication_key) _ h7 in
      subst (λ (x : Ingress). node_of x.panel x.node.id source ≡ ok x.node) (ok_injective _ _ h8)
        (node_of-id panel request.source_id source node known)

  under_key :
      (i : Ingress) (panel_id node_id d : String)
      → i.panel.id ≡ panel_id
      → i.node.id ≡ node_id
      → i.deduplication_key ≡ some d
      → is_text d ≡ true
      → ingress_key i ≡ some (key_of panel_id node_id d)
  unfolding ingress_key key_of
  under_key i panel_id node_id d a b c t =
      (λ j. as_key ("boundary-source:" +++ a j +++ ":" +++ b j +++ ":") (c j)) ∙ rw t refl

  -- A source has received a request with a deduplication key that is not empty. Each further
  -- request that comes to the same key for the same panel and source, whatever else it holds and by
  -- whatever clock, gives the same card and changes nothing.
  pub execute_source_deduplicated :
      (env env' : BoundaryEnv) (request request' : BoundarySourceRequest) (i i' : Ingress)
      (d : String) (rt rt' : Runtime) (r : SourceBoundaryResult)
      → is_text d ≡ true
      → prepare py adapters request rt ≡ ok i
      → i.deduplication_key ≡ some d
      → execute_source py adapters env request rt ≡ (ok r, rt')
      → prepare py adapters request' rt' ≡ ok i'
      → i'.panel.id ≡ i.panel.id
      → i'.node.id ≡ i.node.id
      → i'.deduplication_key ≡ some d
      → (r' : SourceBoundaryResult) × (execute_source py adapters env' request' rt' ≡ (ok r', rt'))
        × (r'.card ≡ r.card)
  unfolding execute_source ingress_key
  execute_source_deduplicated env env' request request' i i' d rt rt' r t first by h again panel
        node by' =
      let (x, same, h1) = >>=-lift (prepare py adapters request rt) _ rt (>>=-gets _ _ rt h) in
      let h2 =
        subst (λ j. receive py env j rt ≡ (ok r, rt')) (ok_injective _ _ (sym same ∙ first)) h1 in
      let under = under_key i i.panel.id i.node.id d refl refl by t in
      let under' = under_key i' i.panel.id i.node.id d panel node by' t in
      let key = key_of i.panel.id i.node.id d in
      let received =
        receive-IsReceived py env i key (prepare-node request rt i first) under
          (key_of-text i.panel.id i.node.id d) rt rt' r h2 in
      (
        _,
        >>=-returns (gets (prepare py adapters request')) _ rt' refl
            ∙ >>=-returns (lift (prepare py adapters request' rt')) (receive py env') rt'
                (ap (λ x. (x, rt')) again)
            ∙ receive-found py env' i' key (prepare-node request' rt' i' again) under'
                (key_of-text i.panel.id i.node.id d) rt' r.card received,
        refl,
      )
