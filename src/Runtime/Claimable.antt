-- ===== src/Runtime/Claimable.antt =====
-- What `_claim_target` of runtime/memory.py returns.
use ghostmesh.Prelude.{
  ℕ, String, ◌≡◌, refl, true, none, some, List, [], ◌∷◌, arith, is_some, values, In, All, first-In,
  nat_eq, string_eq, ◌⊎◌, inl, inr, sym, subst, ap, Bool-cases, All_apply, All-intro, In-keep,
}
use ghostmesh.Errors.{is_invalid_operation}
use ghostmesh.Result.{Result, ok, err, ok_injective, Result-cases}
use ghostmesh.Domain.Panel.{PatchPanel, input}
use ghostmesh.Domain.Work.{Card}
use ghostmesh.Runtime.Service.{resolve_pipe_bucket}
use ghostmesh.Runtime.State.{Runtime}
use ghostmesh.Runtime.Claim.{
  Match, is_claimable, match_in, matches, add_match, with_cards, pick, claim_target, check_claim,
}

module _ (now : ℕ) (rt : Runtime) (pipe : String) where
  -- The card of a match is in the table, and claimable in the bucket of the pipe.
  abbrev pub IsGood : Match → Type 0
  IsGood m =
      (c : Card)
      → m.card ≡ some c
      → In c (values rt.cards)
        × (is_claimable now rt m.panel m.bucket c ≡ true)
        × (resolve_pipe_bucket m.panel pipe input ≡ ok (m.bucket, m.node_id))
        × In m.panel (values rt.patch_panels)

  match_in-IsGood :
      (panel : PatchPanel) (target : String × String)
      → In panel (values rt.patch_panels)
      → resolve_pipe_bucket panel pipe input ≡ ok target
      → IsGood (match_in now rt panel target)
  unfolding match_in
  match_in-IsGood panel (bucket, node) there e c h =
      let found = first-In (is_claimable now rt panel bucket) (values rt.cards) c h in
      (found.0, found.1, e, there)

  add_match-IsGood :
      (panel : PatchPanel) (r : Result (String × String)) (rest : Result (List Match))
      (ms : List Match)
      → In panel (values rt.patch_panels)
      → resolve_pipe_bucket panel pipe input ≡ r
      → ((ms' : List Match) → rest ≡ ok ms' → All IsGood ms')
      → add_match now rt panel r rest ≡ ok ms
      → All IsGood ms
  add_match-IsGood panel (ok target) (ok ms') ms there e ih h =
      subst (All IsGood) (ok_injective (match_in now rt panel target ∷ ms') ms h)
        (match_in-IsGood panel target there e, ih ms' refl)
  add_match-IsGood panel (ok target) (err bad) ms there e ih h = absurd (cc)
  add_match-IsGood panel (err bad) rest ms there e ih h =
      elim (Bool-cases (is_invalid_operation bad)) [
        | inl skip ↦ ih ms (rw skip at h)
        | inr leave ↦ let k : err bad ≡ ok ms = rw leave at h in absurd (cc)
      ]

  matches-IsGood :
      (panels : List PatchPanel) (ms : List Match)
      → All (λ p. In p (values rt.patch_panels)) panels
      → matches now rt pipe panels ≡ ok ms
      → All IsGood ms
  unfolding matches
  matches-IsGood [] ms there h = subst (All IsGood) (ok_injective [] ms h) tt
  matches-IsGood (panel ∷ panels) ms there h =
      add_match-IsGood panel (resolve_pipe_bucket panel pipe input) (matches now rt pipe panels) ms
        there.0 refl (λ ms' e. matches-IsGood panels ms' there.1 e) h

  pick_cases :
      (ms ws : List Match) (m : Match)
      → pick pipe ms ws ≡ ok m
      → In m ws ⊎ In m ms ⊎ (m.card ≡ none)
  pick_cases [] ws m h = absurd (cc)
  pick_cases (a ∷ ms) (w ∷ []) m h = inl (inl (sym (ok_injective w m h)))
  pick_cases (a ∷ []) [] m h = inr (inl (inl (sym (ok_injective a m h))))
  pick_cases (a ∷ b ∷ ms) [] m h = inr (inr (ap (λ (x : Match). x.card) (sym (ok_injective _ m h))))
  pick_cases (a ∷ []) (w ∷ v ∷ ws) m h = inr (inl (inl (sym (ok_injective a m h))))
  pick_cases (a ∷ b ∷ ms) (w ∷ v ∷ ws) m h = absurd (cc)

  pick-IsGood :
      (ms : List Match) (m : Match) → All IsGood ms → pick pipe ms (with_cards ms) ≡ ok m → IsGood m
  pick-IsGood ms m good h = elim (pick_cases ms (with_cards ms) m h) [
    | inl kept ↦ All_apply IsGood m ms good ((In-keep (λ x. is_some x.card) ms m).0 kept).0
    | inr (inl there) ↦ All_apply IsGood m ms good there
    | inr (inr missing) ↦ λ c e. absurd (cc)
  ]

  -- The node and card that `claim_card` goes on with.
  pub check_claim_lem :
      (node_id : String) (c : Card)
      → check_claim now pipe rt ≡ ok (node_id, c)
      → (m : Match) × (m.card ≡ some c) × (m.node_id ≡ node_id) × IsGood m
  unfolding check_claim claim_target
  check_claim_lem node_id c h = elim (Result-cases (matches now rt pipe (values rt.patch_panels))) [
    | inr (e, bad) ↦ absurd (ground (arith, bad))
    | inl (ms, found) ↦ elim (Result-cases (pick pipe ms (with_cards ms))) [
      | inr (e, bad) ↦ absurd (ground (arith, found, bad))
      | inl (m, picked) ↦ (
        m,
        ground (arith, found, picked),
        ground (arith, found, picked),
        pick-IsGood ms m
            (matches-IsGood (values rt.patch_panels) ms
              (All-intro (values rt.patch_panels) (λ p i. i)) found)
            picked,
      )
    ]
  ]
