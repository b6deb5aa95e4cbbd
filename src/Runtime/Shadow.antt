-- ===== src/Runtime/Shadow.antt =====
-- runtime/shadow.py: `ShadowService`, over the runtime in memory.
pub mod Limits
pub mod Promotion
use ghostmesh.Prelude.{
  ℕ, String, Bool, true, false, not, ◌&&◌, Option, none, some, List, [], ◌∷◌, length, keep, Dict,
  lookup, insert, update, values, leb, ◌==◌, nat_eq, string_eq, if◌then◌else◌, before_first_colon,
}
use ghostmesh.Python.{text_or_null, ℤ, pos, negsuc, Json, str, obj, boolean, Conversions, Payload}
use ghostmesh.Errors.{
  link_missing, mutation_missing, mutation_not_validated, shadow_skipped, too_many_shadows,
}
use ghostmesh.Result.{Result, ok, err, or_raise}
use ghostmesh.Result as Results
use ghostmesh.Exec.{Exec, pure, lift, gets, modify, raise_if, ◌>>=◌, ◌>>◌}
use ghostmesh.Domain.Panel.{PatchPanel}
use ghostmesh.Domain.Work.{Card, CardEvent}
use ghostmesh.Domain.Shadow.{
  ShadowCardLink, LinkStatus, active, completed, is_active_link, ProposedMutation, shadowing,
  validated, rejected, promoted, is_validated,
}
use ghostmesh.PanelValidator.{GraphLibrary}
use ghostmesh.Runtime.State.{Runtime, Env}
use ghostmesh.Runtime.Cards.{create_card, record_event, register_patch_panel}
use ghostmesh.Runtime.Leases.{fields}

pub record Shadow : Type 0 where
  pub runtime : Runtime
  pub links : Dict ℕ ShadowCardLink
  pub mutations : Dict ℕ ProposedMutation

-- Of the rate only its sign is read: it is given in units as small as one likes.
pub record ShadowPolicy : Type 0 where
  pub sample_rate : ℤ
  pub max_parallel : ℤ

pub record ShadowRun : Type 0 where
  pub production_card : Card
  pub shadow_card : Card
  pub shadow_metadata : Payload

-- What a call takes from outside: a new link's or mutation's id, the clock, and the runtime's for the
-- card and for the event.
pub record ShadowEnv : Type 0 where
  pub new_id : ℕ
  pub now : ℕ
  pub for_card : Env
  pub for_event : Env

-- A call of the runtime, whose state is a field of the service's.
abbrev pub put_runtime : {A : Type 0} → Shadow → Result A × Runtime → Result A × Shadow
put_runtime s (r, rt) = (r, record s { runtime = rt })

abbrev pub on_runtime : {A : Type 0} → Exec Runtime A → Exec Shadow A
on_runtime m s = put_runtime s (m s.runtime)

abbrev pub not_positive : ℤ → Bool
not_positive (pos n) = n == 0
not_positive (negsuc _) = true

-- `n >= limit`
abbrev pub reaches : ℕ → ℤ → Bool
reaches n (pos m) = leb m n
reaches n (negsuc _) = true

abbrev pub is_active_for : ℕ → ShadowCardLink → Bool
is_active_for card_id link = link.production_card_id == card_id && is_active_link link.status

unfoldable pub active_links : ℕ → Shadow → List ShadowCardLink
active_links card_id s = keep (λ l. is_active_for card_id l) (values s.links)

abbrev pub put_link : ShadowCardLink → Shadow → Shadow
put_link l s = record s { links = insert l.id l s.links }

abbrev pub put_mutation : ProposedMutation → Shadow → Shadow
put_mutation m s = record s { mutations = insert m.id m s.mutations }

module _ (py : Conversions) (env : ShadowEnv) where
  abbrev pub new_link : Card → String → Card → ShadowCardLink
  new_link production_card candidate_id shadow = record {
    id = env.new_id;
    production_card_id = production_card.id;
    shadow_card_id = shadow.id;
    candidate_id = candidate_id;
    status = active;
    metrics = [];
    created_at = env.now;
  }

  abbrev pub shadow_metadata_of : Card → String → Payload
  shadow_metadata_of c candidate_id = update c.metadata (
      ("shadow", boolean true)
      ∷ ("production_card_id", str (py.uuid_text c.id))
      ∷ ("candidate_id", str candidate_id)
      ∷ [])

  abbrev pub link_data : ShadowCardLink → Payload
  link_data l =
      ("shadow_card_id", str (py.uuid_text l.shadow_card_id))
      ∷ ("shadow_link_id", str (py.uuid_text l.id))
      ∷ ("candidate_id", str l.candidate_id)
      ∷ []

  -- From the shadow card on: the link is stored before the event is recorded.
  abbrev pub link_up : Card → String → Card → Exec Shadow ShadowRun
  link_up production_card candidate_id shadow =
      let l = new_link production_card candidate_id shadow in
      do
        modify (put_link l)
        on_runtime (
            record_event env.for_event production_card.id "shadow_created" (some candidate_id)
              (link_data l) none)
        pure (record {
          production_card = production_card;
          shadow_card = shadow;
          shadow_metadata =
              ("production_card_id", str (py.uuid_text production_card.id)) ∷ link_data l;
        })

  unfoldable pub create_shadow_card :
      Card → (candidate_id : String) → ShadowPolicy → (key : Option String) → Exec Shadow ShadowRun
  unfolding ◌>>=◌ active_links
  create_shadow_card production_card candidate_id policy key = do
    raise_if (not_positive policy.sample_rate) shadow_skipped
    running ← gets (λ s. length (active_links production_card.id s))
    raise_if (reaches running policy.max_parallel) (too_many_shadows production_card.id)
    shadow ← on_runtime (
        create_card env.for_card (before_first_colon production_card.workflow_version)
          production_card.payload (shadow_metadata_of production_card candidate_id) key)
    link_up production_card candidate_id shadow

  abbrev pub completed_link : Payload → ShadowCardLink → ShadowCardLink
  completed_link metrics l = record l { status = completed; metrics = metrics }

  unfoldable pub complete_shadow : (link_id : ℕ) (metrics : Payload) → Exec Shadow ShadowCardLink
  unfolding ◌>>=◌
  complete_shadow link_id metrics = do
    found ← gets (λ s. or_raise (lookup link_id s.links) (link_missing link_id))
    l ← lift found
    modify (λ s. record s { links = insert link_id (completed_link metrics l) s.links })
    on_runtime (
        record_event env.for_event l.production_card_id "shadow_completed" (some l.candidate_id)
          (("shadow_link_id", str (py.uuid_text link_id)) ∷ ("metrics", obj (fields metrics)) ∷ [])
          none)
    pure (completed_link metrics l)

  abbrev pub new_mutation : (mutation_type proposed_by : String) → Payload → ProposedMutation
  new_mutation mutation_type proposed_by payload = record {
    id = env.new_id;
    mutation_type = mutation_type;
    proposed_by = proposed_by;
    payload = payload;
    status = shadowing;
    created_at = env.now;
    validated_at = none;
    promoted_at = none;
  }

  unfoldable pub propose_mutation :
      (mutation_type proposed_by : String) → Payload → Exec Shadow ProposedMutation
  unfolding ◌>>=◌
  propose_mutation mutation_type proposed_by payload = do
    modify (put_mutation (new_mutation mutation_type proposed_by payload))
    pure (new_mutation mutation_type proposed_by payload)

  abbrev pub judged : Bool → String → Option String → ProposedMutation → ProposedMutation
  judged accepted validator_id reason m = record m {
    status = if accepted then validated else rejected;
    validated_at = some env.now;
    payload = update m.payload (
        (
          "validation",
          obj (fields (("validator_id", str validator_id) ∷ ("reason", text_or_null reason) ∷ [])),
        )
        ∷ []);
  }

  unfoldable pub validate_mutation :
      (mutation_id : ℕ)
      → Bool
      → (validator_id : String) → Option String
      → Exec Shadow ProposedMutation
  unfolding ◌>>=◌
  validate_mutation mutation_id accepted validator_id reason = do
    found ← gets (λ s. or_raise (lookup mutation_id s.mutations) (mutation_missing mutation_id))
    m ← lift found
    modify (λ s. record s {
      mutations = insert mutation_id (judged accepted validator_id reason m) s.mutations;
    })
    pure (judged accepted validator_id reason m)

  abbrev pub promoted_one : ProposedMutation → ProposedMutation
  promoted_one m = record m { status = promoted; promoted_at = some env.now }

  unfoldable pub promote_mutation :
      GraphLibrary → (mutation_id : ℕ) → PatchPanel → Exec Shadow ProposedMutation
  unfolding ◌>>=◌
  promote_mutation nx mutation_id panel = do
    found ← gets (λ s. or_raise (lookup mutation_id s.mutations) (mutation_missing mutation_id))
    m ← lift found
    raise_if (not (is_validated m.status)) mutation_not_validated
    on_runtime (register_patch_panel nx panel)
    modify (λ s. record s { mutations = insert mutation_id (promoted_one m) s.mutations })
    pure (promoted_one m)
