-- ===== src/Genesis/Launching.antt =====
-- genesis/service.py: `GenesisService.launch`, made twice.
use ghostmesh.Prelude.{
  ℕ, String, ◌≡◌, refl, ap, subst, sym, ◌∙◌, true, Option, some, insert, lookup-insert, nat_eq,
  string_eq, arith, is_text, inl, inr, ◌+++◌, if◌then◌else◌, ◌==◌, if_induction,
}
use ghostmesh.Python.{Conversions, Payload}
use ghostmesh.Result.{Result, ok, err, Result-cases}
use ghostmesh.Domain.Work.{Card}
use ghostmesh.Domain.Registry.{GenesisIntent, PatchPanelRegistryEntry}
use ghostmesh.Runtime.State.{Runtime, Env, card, typed_card}
use ghostmesh.Runtime.Cards.{create_card}
use ghostmesh.Runtime.Replay.{keyed_replay}
use ghostmesh.Genesis.{
  Genesis, GenesisEnv, Dumps, get, launch_key, linked, launch_payload, launch_metadata,
  after_launch, check_launch, create_launched, after_check, launch,
}

launch_key-is_text :
    (py : Conversions) (i : GenesisIntent) (e : PatchPanelRegistryEntry)
    → is_text (launch_key py i e) ≡ true
unfolding ◌+++◌
launch_key-is_text py i e = refl

create_card_replay :
    (env env' : Env) (id : String) (p m p' m' : Payload) (k : String) (rt rt' : Runtime) (c : Card)
    → is_text k ≡ true
    → create_card env id p m (some k) rt ≡ (ok c, rt')
    → create_card env' id p' m' (some k) rt' ≡ (ok c, rt')
unfolding create_card
create_card_replay env env' id p m p' m' k rt rt' c t h =
    keyed_replay k card typed_card _ _ _ _ rt rt' c t refl (λ _ _. refl) h

linked_ok :
    (update : Card → GenesisIntent) (g g' : Genesis) (a : Result Card × Runtime) (c : Card)
    → linked update g a ≡ (ok c, g')
    → (a ≡ (ok c, g'.runtime))
      × (g'
          ≡ record g { runtime = g'.runtime; intents = insert (update c).id (update c) g.intents })
linked_ok update g g' (ok x, rt) c h = (ground (arith, h), ground (arith, h))
linked_ok update g g' (err x, rt) c h = absurd (cc)

module _ (py : Conversions) (dumps : Dumps) (env env' : GenesisEnv) (id : ℕ)
    (entry_id : Option ℕ) where
  -- The second check finds the same entry, by the intent as it was or as the launch left it.
  check_launch_again :
      (g : Genesis) (rt : Runtime) (i : GenesisIntent) (e : PatchPanelRegistryEntry) (c : Card)
      → check_launch py dumps env id entry_id g ≡ ok (i, e)
      → let i' = after_launch py dumps env i e c in
        let g' = record g { runtime = rt; intents = insert i'.id i' g.intents } in
        check_launch py dumps env' id entry_id g' ≡ ok ((if id == i.id then i' else i), e)
  unfolding check_launch get
  check_launch_again g rt i e c h =
      let i' = after_launch py dumps env i e c in
      ground (arith, h, lookup-insert i.id id i' g.intents)

  create_launched_again :
      (g g' : Genesis) (i i' : GenesisIntent) (e : PatchPanelRegistryEntry) (c : Card)
      → i'.deduplication_key ≡ i.deduplication_key
      → create_launched py dumps env (i, e) g ≡ (ok c, g')
      → let again = create_launched py dumps env' (i', e) g' in
        (again.0 ≡ ok c) × (again.1.runtime ≡ g'.runtime) × (again.1.registry ≡ g'.registry)
  create_launched_again g g' i i' e c same h =
      let (made, _) = linked_ok (after_launch py dumps env i e) g g' _ c h in
      let again =
        create_card_replay env.runtime env'.runtime e.patch_panel_id (launch_payload py dumps env i)
          (launch_metadata py dumps env i e) (launch_payload py dumps env' i')
          (launch_metadata py dumps env' i' e) (launch_key py i e) g.runtime g'.runtime c
          (launch_key-is_text py i e) made in
      let keyed_alike =
        subst
          (λ k.
            create_card env'.runtime e.patch_panel_id (launch_payload py dumps env' i')
              (launch_metadata py dumps env' i' e)
              (some ("genesis:launch:" +++ k +++ ":" +++ py.uuid_text e.id)) g'.runtime
            ≡ (ok c, g'.runtime))
          (sym same) again in
      rw keyed_alike (refl, refl, refl)

  -- After an intent was launched, launching it again with the same choice of an entry, by any clock
  -- and with any new identifiers, returns the same card, and leaves the runtime and the registry
  -- as they were.
  pub launch_again :
      (g g' : Genesis) (c : Card)
      → launch py dumps env id entry_id g ≡ (ok c, g')
      → let again = launch py dumps env' id entry_id g' in
        (again.0 ≡ ok c) × (again.1.runtime ≡ g'.runtime) × (again.1.registry ≡ g'.registry)
  unfolding launch
  launch_again g g' c h = elim (Result-cases (check_launch py dumps env id entry_id g)) [
    | inr (e, bad) ↦
        absurd (let k = ap (λ r. r.0) (sym h ∙ ap (λ r. after_check py dumps env r g) bad) in cc)
    | inl (found, good) ↦
        let (i, e) = found in
        let made : create_launched py dumps env (i, e) g ≡ (ok c, g') =
          sym (ap (λ r. after_check py dumps env r g) good) ∙ h in
        let (_, shape) = linked_ok (after_launch py dumps env i e) g g' _ c made in
        let i' = after_launch py dumps env i e c in
        let next = if id == i.id then i' else i in
        let checked : check_launch py dumps env' id entry_id g' ≡ ok (next, e) =
          subst (λ s. check_launch py dumps env' id entry_id s ≡ ok (next, e)) (sym shape)
            (check_launch_again g g'.runtime i e c good) in
        rw checked (
          create_launched_again g g' i next e c
            (if_induction (λ (x : GenesisIntent). x.deduplication_key ≡ i.deduplication_key)
              (id == i.id) i' i refl refl)
            made)
  ]
