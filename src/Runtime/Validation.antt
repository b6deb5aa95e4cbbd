-- ===== src/Runtime/Validation.antt =====
-- runtime/memory.py: what has passed when `validate_card` returns an event.
use ghostmesh.Prelude.{
  ℕ, String, ◌≡◌, ◌⊎◌, refl, sym, ap, subst, ◌∙◌, inl, inr, Bool, true, Option, none, some, [], ◌∷◌,
  lookup, insert, update, lookup-insert, lookup-insert_self, lookup-update_absent, is_text, arith,
  string_eq, nat_eq, if◌then◌else◌,
}
use ghostmesh.Python.{str, boolean, text_or_null, Payload}
use ghostmesh.Result.{>>=-eq-ok, ok_injective, ◌>>=◌, ok}
use ghostmesh.Domain.Panel.{output}
use ghostmesh.Domain.Work.{Card, CardEvent}
use ghostmesh.Runtime.Service.{resolve_pipe_bucket}
use ghostmesh.Runtime.State.{
  Runtime, Env, event, typed_event, get_idempotent, store_idempotent, get_patch_panel_for_card,
  events_of, record_in_log, get_card,
}
use ghostmesh.Runtime.Cards.{
  validate_card, check_validate, write_validate, follow, decision_payload, chosen_exit,
}
use ghostmesh.Runtime.Outcomes.{
  IsReplayed, IsAppended, keyed_returned, stored_event, store_idempotent_keeps, logged-IsAppended,
}

-- A validator's decision on a card, new in its history: the card stands in the bucket that the exit
-- leads to, and the caller's payload may say its own "accepted".
pub record IsValidated (key : Option String) (c : Card) (by exit : String) (accepted : Bool)
    (p : Payload) (e : CardEvent) (rt rt' : Runtime) : Type 0 where
  pub appended : IsAppended key c.id "card_validated" by e rt rt'
  pub verdict : lookup "accepted" p ≡ none → lookup "accepted" e.payload ≡ some (boolean accepted)
  pub through : is_text exit ≡ true → lookup "output_pipe" e.payload ≡ some (str exit)
  pub moved :
      is_text exit ≡ true
      → (bucket : String) × (lookup c.id rt'.cards ≡ some (record c { current_bucket = bucket }))
        × (lookup "destination_bucket" e.payload ≡ some (str bucket))

module _ (env : Env) where
  decided_verdict :
      (accepted : Bool) (reason : Option String) (p : Payload) (exit : Option (String × String))
      → lookup "accepted" p ≡ none
      → lookup "accepted" (decision_payload env accepted reason p exit) ≡ some (boolean accepted)
  unfolding decision_payload lookup
  decided_verdict accepted reason p none h = lookup-update_absent "accepted" _ p h
  decided_verdict accepted reason p (some (pipe, bucket)) h = ground (
    arith,
    lookup-insert "destination_bucket" "accepted" (str bucket) (
        insert "output_pipe" (str pipe)
          (update (("accepted", boolean accepted) ∷ ("reason", text_or_null reason) ∷ []) p)),
    lookup-insert "output_pipe" "accepted" (str pipe)
        (update (("accepted", boolean accepted) ∷ ("reason", text_or_null reason) ∷ []) p),
    lookup-update_absent "accepted"
        (("accepted", boolean accepted) ∷ ("reason", text_or_null reason) ∷ []) p h,
  )

  decided_through :
      (accepted : Bool) (reason : Option String) (p : Payload) (pipe bucket : String)
      → let q = decision_payload env accepted reason p (some (pipe, bucket)) in
        (lookup "output_pipe" q ≡ some (str pipe))
        × (lookup "destination_bucket" q ≡ some (str bucket))
  unfolding decision_payload
  decided_through accepted reason p pipe bucket =
      let d = update (("accepted", boolean accepted) ∷ ("reason", text_or_null reason) ∷ []) p in
      (
        ground (
          arith,
          lookup-insert "destination_bucket" "output_pipe" (str bucket)
              (insert "output_pipe" (str pipe) d),
          lookup-insert_self "output_pipe" (str pipe) d,
        ),
        lookup-insert_self "destination_bucket" (str bucket) (insert "output_pipe" (str pipe) d),
      )

  follow_events :
      (c : Card) (exit : Option (String × String)) (rt : Runtime) (i : ℕ)
      → events_of i (follow env c exit rt) ≡ events_of i rt
  unfolding events_of
  follow_events c none rt i = refl
  follow_events c (some (pipe, bucket)) rt i = refl

  -- The exit that the check finds is that of the call, where the call names one.
  IsChosen : String → Option (String × String) → Type 0
  IsChosen exit found = is_text exit ≡ true → (bucket : String) × (found ≡ some (exit, bucket))

  chosen_exit-IsChosen :
      (c : Card) (exit : String) (rt : Runtime) (found : Option (String × String))
      → chosen_exit env c (some exit) rt ≡ ok found
      → IsChosen exit found
  unfolding chosen_exit IsChosen
  chosen_exit-IsChosen c exit rt found h t =
      let h1 =
        subst
          (λ b.
            (if b
              then (do
                panel ← get_patch_panel_for_card c rt
                target ← resolve_pipe_bucket panel exit output
                ok (some (exit, target.0)))
              else ok none)
            ≡ ok found)
          t h in
      let (panel, _, h2) = >>=-eq-ok (get_patch_panel_for_card c rt) _ h1 in
      let (target, _, h3) = >>=-eq-ok (resolve_pipe_bucket panel exit output) _ h2 in
      (target.0, sym (ok_injective _ _ h3))

  checked_validate :
      (id : ℕ) (exit : String) (rt : Runtime) (c : Card) (found : Option (String × String))
      → check_validate env id (some exit) rt ≡ ok (c, found)
      → (get_card id rt ≡ ok c) × IsChosen exit found
  unfolding check_validate
  checked_validate id exit rt c found h =
      let (d, a, h1) = >>=-eq-ok (get_card id rt) _ h in
      let (x, b, h2) = >>=-eq-ok (chosen_exit env d (some exit) rt) _ h1 in
      let same = ok_injective _ _ h2 in
      (
        a ∙ ap (λ q. ok q.0) same,
        chosen_exit-IsChosen c exit rt found (
            subst
              (λ (q : Card × Option (String × String)). chosen_exit env q.0 (some exit) rt ≡ ok q.1)
              same b),
      )

  validate_card-IsValidated :
      (by : String) (accepted : Bool) (reason : Option String) (exit : String) (p : Payload)
      (key : Option String) (rt : Runtime) (c : Card) (found : Option (String × String))
      → get_idempotent key rt ≡ none
      → IsChosen exit found
      → let (e, rt') = write_validate env by accepted reason p (c, found) rt in
        IsValidated key c by exit accepted p e rt (store_idempotent key (event e) rt')
  unfolding write_validate record_in_log IsChosen
  validate_card-IsValidated by accepted reason exit p key rt c found fresh chosen = record {
    appended =
        logged-IsAppended key "card_validated" by _ rt (follow env c found rt) fresh refl refl
          (follow_events c found rt);
    verdict = decided_verdict accepted reason p found;
    through = λ t.
        let (bucket, same) = chosen t in
        subst
          (λ q. lookup "output_pipe" (decision_payload env accepted reason p q) ≡ some (str exit))
          (sym same) (decided_through accepted reason p exit bucket).0;
    moved = λ t.
        let (bucket, same) = chosen t in
        let (_, cards) = store_idempotent_keeps key _ (record_in_log _ (follow env c found rt)) in
        (
          bucket,
          ap (λ d. lookup c.id d) cards
              ∙ ap (λ q. lookup c.id (follow env c q rt).cards) same
              ∙ lookup-insert_self c.id (record c { current_bucket = bucket }) rt.cards,
          subst
              (λ q.
                lookup "destination_bucket" (decision_payload env accepted reason p q)
                ≡ some (str bucket))
              (sym same) (decided_through accepted reason p exit bucket).1,
        );
  }

  -- What a validation that returns has done.
  pub validate_card-outcome :
      (id : ℕ) (by : String) (accepted : Bool) (reason : Option String) (exit : String)
      (p : Payload) (key : Option String) (rt rt' : Runtime) (e : CardEvent)
      → validate_card env id by accepted reason (some exit) p key rt ≡ (ok e, rt')
      → IsReplayed key e rt rt'
        ⊎ ((c : Card) × (get_card id rt ≡ ok c) × IsValidated key c by exit accepted p e rt rt')
  unfolding validate_card
  validate_card-outcome id by accepted reason exit p key rt rt' e h =
      elim (keyed_returned key event typed_event (check_validate env id (some exit))
        (write_validate env by accepted reason p) rt rt' e h) [
          | inl (v, cached, is_e, same) ↦
              inl (record { stored = cached ∙ ap some (stored_event v e is_e); unchanged = same })
          | inr ((c, found), fresh, good, is_e, now) ↦
              let (there, chosen) = checked_validate id exit rt c found good in
              inr (
                c,
                there,
                subst (λ (x : CardEvent × Runtime). IsValidated key c by exit accepted p x.0 rt x.1)
                    (λ j. (is_e j, sym now j))
                    (validate_card-IsValidated by accepted reason exit p key rt c found fresh
                      chosen),
              )
        ]
