-- ===== src/Runtime/Shadow/Limits.antt =====
-- runtime/shadow.py: the limit on parallel shadows, and what is promoted.
use ghostmesh.Prelude.{
  Eq, ℕ, String, ◌≡◌, ◌≤◌, suc, refl, sym, subst, Bool, false, Option, none, some, [], ◌∷◌, length,
  keep, Dict, insert, values, nat_eq, string_eq, arith, inl, inr, Bool-cases, before_first_colon,
}
use ghostmesh.Python.{ℤ, pos, negsuc, Conversions}
use ghostmesh.Result.{Result, ok, err}
use ghostmesh.Exec.{◌>>=◌}
use ghostmesh.Domain.Work.{Card, CardEvent}
use ghostmesh.Runtime.State.{Runtime}
use ghostmesh.Runtime.Cards.{create_card, record_event}
use ghostmesh.Runtime.Shadow.{
  Shadow, ShadowPolicy, ShadowRun, ShadowEnv, not_positive, reaches, is_active_for, active_links,
  new_link, create_shadow_card, put_runtime, link_up, link_data, shadow_metadata_of,
}

module _ {K V : Type 0} ⦃e : Eq K⦄ where
  -- One write adds at most one entry to those that pass a test.
  length-keep-insert :
      (p : V → Bool) (k : K) (v : V) (d : Dict K V)
      → length (keep p (values (insert k v d))) ≤ suc (length (keep p (values d)))
  unfolding insert
  length-keep-insert p k v [] = ground arith
  length-keep-insert p k v ((j, w) ∷ d) = ground (arith, length-keep-insert p k v d)

-- The number as the code compares it with the limit.
abbrev pub IsWithin : ℕ → ℤ → Type 0
IsWithin n (pos m) = n ≤ m
IsWithin n (negsuc _) = ⊥

below : (n n' : ℕ) (limit : ℤ) → reaches n limit ≡ false → n' ≤ suc n → IsWithin n' limit
below n n' (pos m) h le = ground arith
below n n' (negsuc m) h le = absurd (cc)

-- The end of the call, taken apart by the answer of the runtime.
module _ (py : Conversions) (env : ShadowEnv) (c : Card) (candidate_id : String) where
  linked :
      (shadow : Card) (s s' : Shadow) (run : ShadowRun)
      → (told : Result CardEvent × Runtime)
      → record_event env.for_event c.id "shadow_created"
          (some candidate_id)
          (link_data py env (new_link py env c candidate_id shadow))
          none
          s.runtime
        ≡ told
      → link_up py env c candidate_id shadow s ≡ (ok run, s')
      → s'.links ≡ insert env.new_id (new_link py env c candidate_id shadow) s.links
  unfolding ◌>>=◌
  linked shadow s s' run (ok e, rt) told h = ground (arith, told, h)
  linked shadow s s' run (err e, rt) told h = absurd (ground (arith, told, h))

  created :
      (s s' : Shadow) (run : ShadowRun) (made : Result Card × Runtime)
      → (let (r, s1) = put_runtime s made in
          elim r [ ok shadow ↦ link_up py env c candidate_id shadow s1 | err e ↦ (err e, s1) ])
        ≡ (ok run, s')
      → (shadow : Card) × (s'.links
          ≡ insert env.new_id (new_link py env c candidate_id shadow) s.links)
  created s s' run (ok shadow, rt) h =
      (shadow, linked shadow (record s { runtime = rt }) s' run _ refl h)
  created s s' run (err e, rt) h = absurd (cc)

-- A shadow card that is created leaves its production card with at most as many active links as the
-- policy allows, the new one included.
pub create_shadow_card-IsWithin :
    (py : Conversions) (env : ShadowEnv) (c : Card) (candidate_id : String) (policy : ShadowPolicy)
    (key : Option String) (s s' : Shadow) (run : ShadowRun)
    → create_shadow_card py env c candidate_id policy key s ≡ (ok run, s')
    → IsWithin (length (active_links c.id s')) policy.max_parallel
unfolding create_shadow_card active_links
create_shadow_card-IsWithin py env c candidate_id policy key s s' run h =
    let running = length (active_links c.id s) in
    elim (Bool-cases (not_positive policy.sample_rate)) [
      | inl skipped ↦ absurd (ground (arith, skipped, h))
      | inr sampled ↦ elim (Bool-cases (reaches running policy.max_parallel)) [
        | inl full ↦ absurd (ground (arith, sampled, full, h))
        | inr free ↦
            let made =
              create_card env.for_card (before_first_colon c.workflow_version) c.payload
                (shadow_metadata_of py env c candidate_id) key s.runtime in
            let rest : (let (r, s1) = put_runtime s made in
                  elim r [
                    | ok shadow ↦ link_up py env c candidate_id shadow s1
                    | err e ↦ (err e, s1)
                  ])
                ≡ (ok run, s') =
              ground (arith, sampled, free, h) in
            let (shadow, links) = created py env c candidate_id s s' run made rest in
            let more =
              length-keep-insert (λ l. is_active_for c.id l) env.new_id
                (new_link py env c candidate_id shadow) s.links in
            below running (length (active_links c.id s')) policy.max_parallel free (
              subst (λ d. length (keep (λ l. is_active_for c.id l) (values d)) ≤ suc running)
                (sym links) more)
      ]
    ]
