-- ===== src/Nodes/Governance.antt =====
-- nodes/executor.py: what the two checks of a card's history find, and what a returning call of the
-- runtime leaves.
use ghostmesh.Prelude.{
  ℕ, String, ◌≡◌, refl, sym, ap, Bool, true, false, not, ◌&&◌, Option, none, some, List, In,
  witness_of_any, string_eq, option_eq, option_beq_iff, arith, lookup,
}
use ghostmesh.Python.{Json, boolean, str, is_str, is_true, Payload}
use ghostmesh.Result.{Result, ok}
use ghostmesh.Exec.{Exec, zoom, put_back}
use ghostmesh.Domain.Work.{CardEvent}
use ghostmesh.Runtime.State.{Runtime, Env, event, typed_event, store_idempotent, record_in_log}
use ghostmesh.Runtime.Cards.{record_event, check_event, write_event}
use ghostmesh.Runtime.Keyed.{keyed_induction}
use ghostmesh.Nodes.{Nodes, on_runtime, accepted_by}
use ghostmesh.Nodes.Sinks.{publication_governed, provisioning_governed}

-- The history has an event by which the validator accepted the card at the exit.
pub record IsAcceptedBy (validator_id exit : String) (history : List CardEvent) : Type 0 where
  pub decision : CardEvent
  pub recorded : In decision history
  pub is_validation : decision.event_type ≡ "card_validated"
  pub by : decision.actor_id ≡ some validator_id
  pub accepted : lookup "accepted" decision.payload ≡ some (boolean true)
  pub at : lookup "output_pipe" decision.payload ≡ some (str exit)

true_of : (v : Option Json) → is_true v ≡ true → v ≡ some (boolean true)
true_of v h = ground arith

text_of : (s : String) (v : Option Json) → is_str s v ≡ true → v ≡ some (str s)
text_of s none h = absurd (cc)
text_of s (some (str t)) h = ground (arith, string_eq.beq_iff t s)
text_of s (some v) h = ground arith

all_four :
    (a b c d : Bool) → (a && b && c && d) ≡ true → (a ≡ true) × (b ≡ true) × (c ≡ true) × (d ≡ true)
all_four a b c d h = ground arith

pub accepted_by-IsAcceptedBy :
    (validator_id exit : String) (history : List CardEvent)
    → accepted_by validator_id exit history ≡ true
    → IsAcceptedBy validator_id exit history
unfolding accepted_by
accepted_by-IsAcceptedBy validator_id exit history h =
    let (e, m, t) = witness_of_any _ history h in
    let (a, b, c, d) = all_four _ _ _ _ t in
    record {
      decision = e;
      recorded = m;
      is_validation = (string_eq.beq_iff e.event_type "card_validated").0 a;
      by = (option_beq_iff {A = String} e.actor_id (some validator_id)).0 b;
      accepted = true_of _ c;
      at = text_of exit _ d;
    }

both_not : (a b : Bool) → not (a && b) ≡ false → (a ≡ true) × (b ≡ true)
both_not a b h = ground arith

pub publication_governed-IsAcceptedBy :
    (history : List CardEvent)
    → not (publication_governed history) ≡ false
    → IsAcceptedBy "topological_validator" "topology_valid" history
      × IsAcceptedBy "governance_reviewer" "proposal_approved" history
unfolding publication_governed
publication_governed-IsAcceptedBy history h =
    let (a, b) = both_not _ _ h in
    (accepted_by-IsAcceptedBy _ _ history a, accepted_by-IsAcceptedBy _ _ history b)

pub provisioning_governed-IsAcceptedBy :
    (history : List CardEvent)
    → not (provisioning_governed history) ≡ false
    → IsAcceptedBy "registration_compliance_validator" "registration_compliant" history
      × IsAcceptedBy "registration_admin_reviewer" "registration_approved" history
unfolding provisioning_governed
provisioning_governed-IsAcceptedBy history h =
    let (a, b) = both_not _ _ h in
    (accepted_by-IsAcceptedBy _ _ history a, accepted_by-IsAcceptedBy _ _ history b)

put_back_ok :
    {A : Type 0} (s s' : Nodes) (r : Result A × Runtime) (a : A)
    → put_back (λ rt (x : Nodes). record x { runtime = rt }) s r ≡ (ok a, s')
    → (r ≡ (ok a, s'.runtime))
      × (s'.registry ≡ s.registry)
      × (s'.authorization_repository ≡ s.authorization_repository)
put_back_ok s s' (r, rt) a h = (
  ap (λ x. (x.0, x.1.runtime)) h,
  ap (λ x. x.1.registry) (sym h),
  ap (λ x. x.1.authorization_repository) (sym h),
)

-- A call of the runtime that returns leaves the registry and the repository.
pub on_runtime_returned :
    {A : Type 0} (m : Exec Runtime A) (s s' : Nodes) (a : A)
    → on_runtime m s ≡ (ok a, s')
    → (m s.runtime ≡ (ok a, s'.runtime))
      × (s'.registry ≡ s.registry)
      × (s'.authorization_repository ≡ s.authorization_repository)
unfolding zoom
on_runtime_returned m s s' a h = put_back_ok s s' (m s.runtime) a h

pub record_event-patch_panels :
    (env : Env) (id : ℕ) (type : String) (actor : Option String) (p : Payload) (key : Option String)
    (rt : Runtime)
    → (record_event env id type actor p key rt).1.patch_panels ≡ rt.patch_panels
unfolding record_event write_event record_in_log
record_event-patch_panels env id type actor p key rt =
    keyed_induction key event typed_event (check_event env id) (write_event env type actor p)
      (λ s. s.patch_panels ≡ rt.patch_panels) rt
      (λ v s h. unfold store_idempotent in ground (arith, h)) (λ i _. refl) refl
