-- ===== src/Nodes/Replay.antt =====
-- nodes/executor.py: a source that is executed again under its key.
use ghostmesh.Prelude.{
  ℕ, String, ◌≡◌, refl, ap, subst, ◌∙◌, true, false, Option, some, [], ◌∷◌, is_text, ◌==◌,
  string_eq, beq_false, longer-differs, ◌+++◌,
}
use ghostmesh.Python.{str, Payload, Conversions, suffixed}
use ghostmesh.Result.{Result, ok, ok_injective}
use ghostmesh.Exec.{Exec, lift, >>=-returns, zoom, >>=-eq-returned, >>=-lift}
use ghostmesh.Domain.Panel.{source, NodeDefinition, PatchPanel}
use ghostmesh.Domain.Work.{Card, CardEvent}
use ghostmesh.Runtime.State.{
  Runtime, Env, Stored, card, event, get_idempotent, typed_card, typed_event,
}
use ghostmesh.Runtime.Cards.{
  create_card, record_event, check_create, write_create, check_event, write_event,
}
use ghostmesh.Runtime.Remembered.{keyed_stored, keyed_found, record_event-get_idempotent}
use ghostmesh.Nodes.{Nodes, NodeEnv, on_runtime, node_of}
use ghostmesh.Nodes.Governance.{on_runtime_returned}
use ghostmesh.Nodes.Work.{execute_source}

-- The table has an answer of its type under the key.
pub record IsAnswering {B : Type 0} (typed : Stored → Result B) (key : String) (b : B)
    (rt : Runtime) : Type 0 where
  pub value : Stored
  pub found : get_idempotent (some key) rt ≡ some value
  pub of_type : typed value ≡ ok b

module _ (env : Env) where
  pub create_card-IsAnswering :
      (id : String) (p m : Payload) (key : String) (rt rt' : Runtime) (c : Card)
      → is_text key ≡ true
      → create_card env id p m (some key) rt ≡ (ok c, rt')
      → IsAnswering typed_card key c rt'
  unfolding create_card
  create_card-IsAnswering id p m key rt rt' c t h =
      let (v, found, ty) =
        keyed_stored key card typed_card (check_create env id) (write_create env p m) rt rt' c t
          (λ x. refl) (λ x. refl) h in
      record { value = v; found = found; of_type = ty }

  pub create_card-found :
      (id : String) (p m : Payload) (key : String) (rt : Runtime) (c : Card)
      → IsAnswering typed_card key c rt
      → create_card env id p m (some key) rt ≡ (ok c, rt)
  unfolding create_card
  create_card-found id p m key rt c a =
      keyed_found key card typed_card (check_create env id) (write_create env p m) rt a.value c
        a.found a.of_type

  pub record_event-IsAnswering :
      (id : ℕ) (type : String) (actor : Option String) (p : Payload) (key : String)
      (rt rt' : Runtime) (e : CardEvent)
      → is_text key ≡ true
      → record_event env id type actor p (some key) rt ≡ (ok e, rt')
      → IsAnswering typed_event key e rt'
  unfolding record_event
  record_event-IsAnswering id type actor p key rt rt' e t h =
      let (v, found, ty) =
        keyed_stored key event typed_event (check_event env id) (write_event env type actor p) rt
          rt' e t (λ x. refl) (λ x. refl) h in
      record { value = v; found = found; of_type = ty }

  pub record_event-found :
      (id : ℕ) (type : String) (actor : Option String) (p : Payload) (key : String) (rt : Runtime)
      (e : CardEvent)
      → IsAnswering typed_event key e rt
      → record_event env id type actor p (some key) rt ≡ (ok e, rt)
  unfolding record_event
  record_event-found id type actor p key rt e a =
      keyed_found key event typed_event (check_event env id) (write_event env type actor p) rt
        a.value e a.found a.of_type

  -- An answer under another key outlasts the recording of an event.
  pub kept-IsAnswering :
      {B : Type 0} (typed : Stored → Result B) (b : B) (id : ℕ) (type : String)
      (actor : Option String) (p : Payload) (key other : String) (rt rt' : Runtime)
      (r : Result CardEvent)
      → (other == key) ≡ false
      → record_event env id type actor p (some key) rt ≡ (r, rt')
      → IsAnswering typed other b rt
      → IsAnswering typed other b rt'
  kept-IsAnswering typed b id type actor p key other rt rt' r differs h a = record {
    value = a.value;
    found =
        subst (λ s. get_idempotent (some other) s ≡ some a.value) (ap (λ x. x.1) h)
          (record_event-get_idempotent env id type actor p key other rt a.value differs a.found);
    of_type = a.of_type;
  }

pub source-differs : (key : String) → (key == (key +++ ":source")) ≡ false
source-differs key = beq_false key (key +++ ":source") (λ h. longer-differs key _ _ h)

pub suffixed-text :
    (key suffix : String) → is_text key ≡ true → suffixed (some key) suffix ≡ some (key +++ suffix)
suffixed-text key suffix t = rw t refl

pub is_text-append : (key suffix : String) → is_text key ≡ true → is_text (key +++ suffix) ≡ true
unfolding ◌+++◌
is_text-append String.[] suffix t = absurd (cc)
is_text-append (String.◌∷◌ c s) suffix t = refl

on_runtime_at :
    {A : Type 0} (m : Exec Runtime A) (s : Nodes) (a : A)
    → m s.runtime ≡ (ok a, s.runtime)
    → on_runtime m s ≡ (ok a, s)
unfolding zoom
on_runtime_at m s a h = rw h refl

module _ (py : Conversions) (env env' : NodeEnv) (panel : PatchPanel) (node : NodeDefinition)
    (id key : String) (known : node_of panel id source ≡ ok node) (keyed : is_text key ≡ true) where
  -- What an execution under a key leaves: the card under the key, and the event under the next.
  pub execute_source-IsAnswering :
      (p m : Payload) (s s' : Nodes) (c : Card)
      → execute_source py env panel id p m (some key) s ≡ (ok c, s')
      → IsAnswering typed_card key c s'.runtime
        × ((e : CardEvent) × IsAnswering typed_event (key +++ ":source") e s'.runtime)
  unfolding execute_source
  execute_source-IsAnswering p m s s' c h =
      let (n, _, h1) = >>=-lift (node_of panel id source) _ s h in
      let (c', s1, created, h2) =
        >>=-eq-returned (on_runtime (create_card env.first_call panel.id p m (some key))) _ s h1 in
      let (call, _, _) = on_runtime_returned _ s s1 c' created in
      let answered =
        create_card-IsAnswering env.first_call panel.id p m key s.runtime s1.runtime c' keyed
          call in
      let record_it = λ (k : Option String).
        record_event env.second_call c'.id "source_executed" (some n.id)
          (("source_id", str n.id) ∷ []) k in
      let (e, s2, recorded, h3) =
        >>=-eq-returned (on_runtime (record_it (suffixed (some key) ":source"))) _ s1 h2 in
      let (call', _, _) = on_runtime_returned _ s1 s2 e recorded in
      let call'' =
        subst (λ k. record_it k s1.runtime ≡ (ok e, s2.runtime)) (suffixed-text key ":source" keyed)
          call' in
      let last : s2 ≡ s' = ap (λ x. x.1) h3 in
      let same : c' ≡ c = ok_injective _ _ (ap (λ x. x.0) h3) in
      subst
        (λ (x : Card × Nodes).
          IsAnswering typed_card key x.0 x.1.runtime
          × ((e : CardEvent) × IsAnswering typed_event (key +++ ":source") e x.1.runtime))
        (λ i. (same i, last i))
        (
          kept-IsAnswering env.second_call typed_card c' c'.id "source_executed" (some n.id) _
              (key +++ ":source") key s1.runtime s2.runtime (ok e) (source-differs key) call''
              answered,
          (
            e,
            record_event-IsAnswering env.second_call c'.id "source_executed" (some n.id) _
                (key +++ ":source") s1.runtime s2.runtime e (is_text-append key ":source" keyed)
                call'',
          ),
        )

  -- And what those answers make of the next execution.
  pub execute_source-found :
      (p m : Payload) (s : Nodes) (c : Card) (e : CardEvent)
      → IsAnswering typed_card key c s.runtime
      → IsAnswering typed_event (key +++ ":source") e s.runtime
      → execute_source py env' panel id p m (some key) s ≡ (ok c, s)
  unfolding execute_source
  execute_source-found p m s c e a b =
      let record_it = λ (k : Option String).
        record_event env'.second_call c.id "source_executed" (some node.id)
          (("source_id", str node.id) ∷ []) k in
      let first_found =
        on_runtime_at (create_card env'.first_call panel.id p m (some key)) s c
          (create_card-found env'.first_call panel.id p m key s.runtime c a) in
      let second_found =
        on_runtime_at
          (record_event env'.second_call c.id "source_executed" (some node.id)
            (("source_id", str node.id) ∷ []) (some (key +++ ":source")))
          s e
          (record_event-found env'.second_call c.id "source_executed" (some node.id)
            (("source_id", str node.id) ∷ []) (key +++ ":source") s.runtime e b) in
      >>=-returns (lift (node_of panel id source)) _ s (ap (λ r. (r, s)) known)
      ∙ >>=-returns (on_runtime (create_card env'.first_call panel.id p m (some key))) _ s
          first_found
      ∙ >>=-returns (on_runtime (record_it (suffixed (some key) ":source"))) _ s
          (ap (λ k. on_runtime (record_it k) s) (suffixed-text key ":source" keyed) ∙ second_found)

  -- A source that has been executed under a key that is not empty gives the same card when it is
  -- executed again under that key, with whatever payload and by whatever clock, and changes nothing.
  pub execute_source_again :
      (p p' m m' : Payload) (s s' : Nodes) (c : Card)
      → execute_source py env panel id p m (some key) s ≡ (ok c, s')
      → execute_source py env' panel id p' m' (some key) s' ≡ (ok c, s')
  execute_source_again p p' m m' s s' c h =
      let (a, (e, b)) = execute_source-IsAnswering p m s s' c h in
      execute_source-found p' m' s' c e a b
