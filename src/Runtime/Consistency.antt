-- ===== src/Runtime/Consistency.antt =====
-- The tables of `InMemoryCardRuntime` agree with one another, after any operation.
use ghostmesh.Prelude.{
  ℕ, String, ◌≡◌, true, false, Option, none, some, List, [], ◌∷◌, ◌++◌, arith, is_some, lookup,
  insert, lookup-insert, All, inl, inr, nat_eq, string_eq, ◌==◌, eq_of_beq, if◌then◌else◌,
  if_induction, All-append, Bool-cases, subst, sym, ◌⊎◌, is_text, values, All-mono,
  All-values-insert, All_apply, In-values, lookup-insert_self,
}
use ghostmesh.Python.{Conversions}
use ghostmesh.Result.{ok}
use ghostmesh.Domain.Work.{ArtifactReference, Card, CardEvent, Lease}
use ghostmesh.Runtime.State.{
  Runtime, Env, Stored, store_idempotent, record_in_log, events_of, get_card, get_lease,
  events_of-record_in_log,
}
use ghostmesh.Runtime.Leases.{store_refs}

-- Each card and lease stands under its own id, each lease and each event names a card that is there,
-- and each event stands in the history of its card.
pub record IsConsistent (rt : Runtime) : Type 0 where
  pub card_key : (i : ℕ) (c : Card) → lookup i rt.cards ≡ some c → c.id ≡ i
  pub card_listed : All (λ c. is_some (lookup c.id rt.cards) ≡ true) (values rt.cards)
  pub lease_key : (i : ℕ) (l : Lease) → lookup i rt.leases ≡ some l → l.id ≡ i
  pub lease_card : All (λ l. is_some (lookup l.card_id rt.cards) ≡ true) (values rt.leases)
  pub event_key : (i : ℕ) → All (λ e. e.card_id ≡ i) (events_of i rt)

pub store-IsConsistent :
    (key : Option String) (v : Stored) (rt : Runtime)
    → IsConsistent rt
    → IsConsistent (store_idempotent key v rt)
unfolding store_idempotent events_of
store-IsConsistent none v rt h = h
store-IsConsistent (some key) v rt h =
    if_induction IsConsistent (is_text key) _ rt
      (record {
        card_key = h.card_key;
        card_listed = h.card_listed;
        lease_key = h.lease_key;
        lease_card = h.lease_card;
        event_key = h.event_key;
      })
      h

logged :
    (i : ℕ) (e : CardEvent) (rt : Runtime)
    → IsConsistent rt
    → ((i == e.card_id) ≡ true) ⊎ ((i == e.card_id) ≡ false)
    → All
        (λ x. x.card_id ≡ i)
        (if i == e.card_id then events_of e.card_id rt ++ e ∷ [] else events_of i rt)
logged i e rt h (inr other) = rw other (h.event_key i)
logged i e rt h (inl same) = rw same (
    All-append (λ x. x.card_id ≡ i) (events_of e.card_id rt) (e ∷ [])
      (subst (λ j. All (λ x. x.card_id ≡ i) (events_of j rt)) (eq_of_beq i e.card_id same)
        (h.event_key i))
      (sym (eq_of_beq i e.card_id same), tt))

-- An event of a card joins the history of that card.
pub log-IsConsistent :
    (e : CardEvent) (rt : Runtime) → IsConsistent rt → IsConsistent (record_in_log e rt)
unfolding record_in_log
log-IsConsistent e rt h = record {
  card_key = h.card_key;
  card_listed = h.card_listed;
  lease_key = h.lease_key;
  lease_card = h.lease_card;
  event_key =
      λ i. rw (events_of-record_in_log i e rt) (logged i e rt h (Bool-cases (i == e.card_id)));
}

pub set_card-IsConsistent :
    (c : Card) (rt : Runtime)
    → IsConsistent rt
    → IsConsistent (record rt { cards = insert c.id c rt.cards })
unfolding events_of
set_card-IsConsistent c rt h = record {
  card_key = λ i x e. ground (arith, lookup-insert c.id i c rt.cards, h.card_key i x);
  card_listed = All-values-insert _ c.id c rt.cards (rw (lookup-insert_self c.id c rt.cards)) (
      All-mono (λ x. is_some (lookup x.id rt.cards) ≡ true) _ (values rt.cards)
        (λ x p. ground (arith, lookup-insert c.id x.id c rt.cards)) h.card_listed);
  lease_key = h.lease_key;
  lease_card =
      All-mono (λ l. is_some (lookup l.card_id rt.cards) ≡ true) _ (values rt.leases)
        (λ l p. ground (arith, lookup-insert c.id l.card_id c rt.cards)) h.lease_card;
  event_key = h.event_key;
}

pub set_lease-IsConsistent :
    (l : Lease) (rt : Runtime)
    → is_some (lookup l.card_id rt.cards) ≡ true
    → IsConsistent rt
    → IsConsistent (record rt { leases = insert l.id l rt.leases })
unfolding events_of
set_lease-IsConsistent l rt there h = record {
  card_key = h.card_key;
  card_listed = h.card_listed;
  lease_key = λ i x e. ground (arith, lookup-insert l.id i l rt.leases, h.lease_key i x);
  lease_card = All-values-insert _ l.id l rt.leases there h.lease_card;
  event_key = h.event_key;
}

pub store_refs-IsConsistent :
    (py : Conversions) (env : Env) (refs : List ArtifactReference) (rt : Runtime)
    → IsConsistent rt
    → IsConsistent (store_refs py env refs rt)
unfolding store_refs events_of
store_refs-IsConsistent py env [] rt h = h
store_refs-IsConsistent py env (ref ∷ refs) rt h = store_refs-IsConsistent py env refs _ (record {
  card_key = h.card_key;
  card_listed = h.card_listed;
  lease_key = h.lease_key;
  lease_card = h.lease_card;
  event_key = h.event_key;
})

module _ (rt : Runtime) (h : IsConsistent rt) where
  -- A lease that the table finds has its card in the table of cards.
  pub found_lease :
      (id : ℕ) (l : Lease) → get_lease id rt ≡ ok l → is_some (lookup l.card_id rt.cards) ≡ true
  unfolding get_lease
  found_lease id l e =
      All_apply (λ x. is_some (lookup x.card_id rt.cards) ≡ true) l (values rt.leases) h.lease_card
        (In-values id l rt.leases (ground arith))

  pub found_card : (id : ℕ) (c : Card) → get_card id rt ≡ ok c → c.id ≡ id
  unfolding get_card
  found_card id c e = h.card_key id c (ground arith)
