-- ===== src/Observability/Events.antt =====
-- observability.py: what `_all_events` reads.
use ghostmesh.Prelude.{
  ℕ, ◌≤◌, ◌≡◌, refl, true, false, List, [], ◌∷◌, arith, is_some, All, collect, lookup, nat_eq,
}
use mathlib.Core.List.{Perm}
use ghostmesh.Prelude.Sorting.{sorted, IsAscending, sorted-Perm, sorted-IsAscending}
use ghostmesh.Python.{Conversions}
use ghostmesh.Result.{ok}
use ghostmesh.Domain.Work.{Card, CardEvent}
use ghostmesh.Runtime.State.{Runtime, events_of, get_card}
use ghostmesh.Runtime.Cards.{list_cards, card_history}
use ghostmesh.Runtime.Consistency.{IsConsistent}
use ghostmesh.Observability.{histories, by_time, all_events}

-- The events of the cards, each once, in the order of their times.
pub record IsTimeline (py : Conversions) (rt : Runtime) (es : List CardEvent) : Type 0 where
  pub read : all_events py rt ≡ ok es
  pub in_order : IsAscending (by_time py) (λ (e : CardEvent). e.occurred_at) es
  pub rearranged : Perm es (collect (λ (c : Card). events_of c.id rt) (list_cards rt))

found_history :
    (rt : Runtime) (id : ℕ)
    → is_some (lookup id rt.cards) ≡ true
    → card_history id rt ≡ ok (events_of id rt)
unfolding card_history get_card
found_history rt id h = ground arith

module _ (py : Conversions) (rt : Runtime) where
  histories-collect :
      (cs : List Card)
      → All (λ c. is_some (lookup c.id rt.cards) ≡ true) cs
      → histories py cs rt ≡ ok (collect (λ c. events_of c.id rt) cs)
  unfolding histories
  histories-collect [] h = refl
  histories-collect (c ∷ cs) h = rw (found_history rt c.id h.0, histories-collect cs h.1) refl

  le_of_by_time : (a b : CardEvent) → by_time py a b ≡ true → a.occurred_at ≤ b.occurred_at
  le_of_by_time a b h = ground arith

  ge_of_by_time : (a b : CardEvent) → by_time py a b ≡ false → b.occurred_at ≤ a.occurred_at
  ge_of_by_time a b h = ground arith

  -- Where the runtime's tables agree, reading all events succeeds, and gives the events of the
  -- histories of all cards, each as often as it stands there, in the order of the times at which
  -- they occurred.
  pub all_events-IsTimeline : IsConsistent rt → (es : List CardEvent) × IsTimeline py rt es
  unfolding all_events list_cards
  all_events-IsTimeline h =
      let es = collect (λ (c : Card). events_of c.id rt) (list_cards rt) in
      (
        sorted (by_time py) es,
        record {
          read = rw (histories-collect (list_cards rt) h.card_listed) refl;
          in_order =
              sorted-IsAscending (by_time py) (λ (e : CardEvent). e.occurred_at) le_of_by_time
                ge_of_by_time es;
          rearranged = sorted-Perm (by_time py) es;
        },
      )
