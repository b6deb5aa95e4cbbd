-- ===== src/Runtime/Cards.antt =====
-- runtime/memory.py: panels, and the operations on cards that take no lease.
use ghostmesh.Prelude.{
  ℕ, String, Bool, Option, none, some, List, [], ◌∷◌, if◌then◌else◌, is_text, insert, update,
  values, nat_eq, string_eq,
}
use ghostmesh.Python.{boolean, str, text_or_null, Payload}
use ghostmesh.Result.{Result, ok, err, ◌>>=◌, ◌>>◌}
use ghostmesh.Exec.{Exec}
use ghostmesh.Domain.Panel.{PatchPanel, output, workflow_version_id}
use ghostmesh.Domain.Work.{Card, CardEvent}
use ghostmesh.PanelValidator.{GraphLibrary, validate}
use ghostmesh.Runtime.Service.{resolve_initial_bucket, resolve_pipe_bucket, ensure_bucket_exists}
use ghostmesh.Runtime.State.{
  Runtime, Env, card, event, typed_card, typed_event, record_in_log, events_of, get_card,
  get_patch_panel, get_patch_panel_for_card, keyed,
}

-- `_get_card` under its public name, and the two listings.
unfoldable pub list_patch_panels : Runtime → List PatchPanel
list_patch_panels rt = values rt.patch_panels

unfoldable pub list_cards : Runtime → List Card
list_cards rt = values rt.cards

abbrev pub after_validation : PatchPanel → Result Unit → Exec Runtime PatchPanel
after_validation panel (ok _) rt =
    (ok panel, record rt { patch_panels = insert panel.id panel rt.patch_panels })
after_validation panel (err e) rt = (err e, rt)

unfoldable pub register_patch_panel : GraphLibrary → PatchPanel → Exec Runtime PatchPanel
register_patch_panel nx panel rt = after_validation panel (do validate nx panel; ok tt) rt

module _ (env : Env) where
  abbrev pub new_event : ℕ → String → Option String → Payload → CardEvent
  new_event card_id event_type actor_id payload = record {
    id = env.event_id;
    card_id = card_id;
    event_type = event_type;
    actor_id = actor_id;
    payload = payload;
    occurred_at = env.occurred_at;
  }

  abbrev new_card : PatchPanel → String → Payload → Payload → Card
  new_card panel bucket payload metadata = record {
    id = env.new_id;
    workflow_version = workflow_version_id panel;
    current_bucket = bucket;
    payload = payload;
    metadata = metadata;
    created_at = env.stamped_at;
  }

  unfoldable pub check_create : String → Runtime → Result (PatchPanel × String)
  check_create panel_id rt = do
    panel ← get_patch_panel panel_id rt
    bucket ← resolve_initial_bucket panel
    ok (panel, bucket)

  unfoldable pub write_create :
      (payload metadata : Payload) → PatchPanel × String → Runtime → Card × Runtime
  write_create payload metadata (panel, bucket) rt =
      let c = new_card panel bucket payload metadata in
      (
        c,
        record_in_log
            (new_event c.id "card_created" none (
              ("patch_panel_id", str panel.id)
              ∷ ("version", str panel.version)
              ∷ ("bucket", str bucket)
              ∷ []))
            (record rt { cards = insert c.id c rt.cards }),
      )

  unfoldable pub create_card :
      (panel_id : String) (payload metadata : Payload) (key : Option String) → Exec Runtime Card
  unfolding check_create write_create
  create_card panel_id payload metadata key =
      keyed key card typed_card (check_create panel_id) (write_create payload metadata)

  unfoldable pub check_move : ℕ → String → Runtime → Result Card
  check_move card_id to_bucket rt = do
    c ← get_card card_id rt
    panel ← get_patch_panel_for_card c rt
    ensure_bucket_exists panel to_bucket
    ok c

  unfoldable pub write_move :
      String → (actor_id reason : Option String) → Card → Runtime → Card × Runtime
  write_move to_bucket actor_id reason c rt =
      let moved = record c { current_bucket = to_bucket } in
      (
        moved,
        record_in_log
            (new_event c.id "card_moved" actor_id (
              ("from_bucket", str c.current_bucket)
              ∷ ("to_bucket", str to_bucket)
              ∷ ("reason", text_or_null reason)
              ∷ []))
            (record rt { cards = insert c.id moved rt.cards }),
      )

  unfoldable pub move_card :
      ℕ → (to_bucket : String) (actor_id reason key : Option String) → Exec Runtime Card
  unfolding check_move write_move
  move_card card_id to_bucket actor_id reason key =
      keyed key card typed_card (check_move card_id to_bucket)
        (write_move to_bucket actor_id reason)

  -- `if output_pipe`: the exit, with the bucket that it leads to.
  unfoldable pub chosen_exit : Card → Option String → Runtime → Result (Option (String × String))
  chosen_exit c none rt = ok none
  chosen_exit c (some pipe) rt =
      if is_text pipe
      then (do
        panel ← get_patch_panel_for_card c rt
        target ← resolve_pipe_bucket panel pipe output
        ok (some (pipe, target.0)))
      else ok none

  unfoldable pub check_validate :
      ℕ → Option String → Runtime → Result (Card × Option (String × String))
  unfolding chosen_exit
  check_validate card_id output_pipe rt = do
    c ← get_card card_id rt
    exit ← chosen_exit c output_pipe rt
    ok (c, exit)

  -- The payload of the caller is laid over the decision, and the exit over both.
  unfoldable pub decision_payload :
      Bool → Option String → Payload → Option (String × String) → Payload
  decision_payload accepted reason payload none =
      update (("accepted", boolean accepted) ∷ ("reason", text_or_null reason) ∷ []) payload
  decision_payload accepted reason payload (some (pipe, bucket)) =
      insert "destination_bucket" (str bucket) (
        insert "output_pipe" (str pipe)
          (update (("accepted", boolean accepted) ∷ ("reason", text_or_null reason) ∷ []) payload))

  abbrev pub follow : Card → Option (String × String) → Runtime → Runtime
  follow c none rt = rt
  follow c (some (_, bucket)) rt = record rt {
    cards = insert c.id (record c { current_bucket = bucket }) rt.cards;
  }

  unfoldable pub write_validate :
      String
      → Bool
      → Option String
      → Payload
      → Card × Option (String × String)
      → Runtime
      → CardEvent × Runtime
  unfolding decision_payload
  write_validate validator_id accepted reason payload (c, exit) rt =
      let e =
        new_event c.id "card_validated" (some validator_id)
          (decision_payload accepted reason payload exit) in
      (e, record_in_log e (follow c exit rt))

  unfoldable pub validate_card :
      ℕ
      → (validator_id : String) (accepted : Bool) (reason output_pipe : Option String)
        (payload : Payload) (key : Option String)
      → Exec Runtime CardEvent
  unfolding check_validate write_validate
  validate_card card_id validator_id accepted reason output_pipe payload key =
      keyed key event typed_event (check_validate card_id output_pipe)
        (write_validate validator_id accepted reason payload)

  unfoldable pub write_event : String → Option String → Payload → ℕ → Runtime → CardEvent × Runtime
  write_event event_type actor_id payload card_id rt =
      let e = new_event card_id event_type actor_id payload in (e, record_in_log e rt)

  unfoldable pub check_event : ℕ → Runtime → Result ℕ
  check_event card_id rt = do get_card card_id rt; ok card_id

  unfoldable pub record_event :
      ℕ
      → (event_type : String) (actor_id : Option String) (payload : Payload) (key : Option String)
      → Exec Runtime CardEvent
  unfolding check_event write_event
  record_event card_id event_type actor_id payload key =
      keyed key event typed_event (check_event card_id) (write_event event_type actor_id payload)

unfoldable pub card_history : ℕ → Runtime → Result (List CardEvent)
card_history card_id rt = do get_card card_id rt; ok (events_of card_id rt)
