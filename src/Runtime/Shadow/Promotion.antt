-- ===== src/Runtime/Shadow/Promotion.antt =====
-- runtime/shadow.py: what `promote_mutation` promotes.
use ghostmesh.Prelude.{
  ℕ, ◌≡◌, true, some, lookup, lookup-insert_self, nat_eq, string_eq, arith, inl, inr, Bool-cases,
  Option-cases,
}
use ghostmesh.Python.{Conversions}
use ghostmesh.Result.{ok, Result-cases}
use ghostmesh.Domain.Panel.{PatchPanel}
use ghostmesh.Domain.Shadow.{ProposedMutation, MutationStatus, validated, promoted, is_validated}
use ghostmesh.PanelValidator.{GraphLibrary, GraphLaws, validate}
use ghostmesh.PanelValidator.Meaning.{IsWellFormed}
use ghostmesh.PanelValidator.Soundness.{validate-IsWellFormed}
use ghostmesh.Runtime.Cards.{register_patch_panel}
use ghostmesh.Runtime.Shadow.{Shadow, ShadowEnv, promote_mutation, promoted_one}

module _ (nx : GraphLibrary) (laws : GraphLaws nx) (py : Conversions) (env : ShadowEnv) where
  pub record IsPromoted (id : ℕ) (panel : PatchPanel) (m' : ProposedMutation) (s s' : Shadow)
      : Type 0 where
    pub before : ProposedMutation
    pub found : lookup id s.mutations ≡ some before
    pub was_validated : before.status ≡ validated
    pub well_formed : IsWellFormed panel
    pub registered : lookup panel.id s'.runtime.patch_panels ≡ some panel
    pub stored : lookup id s'.mutations ≡ some m'
    pub is_promoted : m'.status ≡ promoted

  status_lem : (t : MutationStatus) → is_validated t ≡ true → t ≡ validated
  status_lem t h = ground arith

  -- Over a graph library that obeys its laws, a promotion that returns found a mutation that was
  -- validated, and a well-formed panel, which it
  -- registered; the mutation is stored as promoted.
  pub promote_mutation-IsPromoted :
      (id : ℕ) (panel : PatchPanel) (s s' : Shadow) (m' : ProposedMutation)
      → promote_mutation py env nx id panel s ≡ (ok m', s')
      → IsPromoted id panel m' s s'
  unfolding promote_mutation register_patch_panel
  promote_mutation-IsPromoted id panel s s' m' h = elim (Option-cases (lookup id s.mutations)) [
    | inl missing ↦ absurd (ground (arith, missing, h))
    | inr (m, found) ↦ elim (Bool-cases (is_validated m.status)) [
      | inr other ↦ absurd (ground (arith, found, other, h))
      | inl fit ↦ elim (Result-cases (validate nx panel)) [
        | inr (e, bad) ↦ absurd (ground (arith, found, fit, bad, h))
        | inl (report, good) ↦ record {
          before = m;
          found = found;
          was_validated = status_lem m.status fit;
          well_formed = validate-IsWellFormed nx laws panel report good;
          registered = ground (
            arith,
            found,
            fit,
            good,
            h,
            lookup-insert_self panel.id panel s.runtime.patch_panels,
          );
          stored = ground (
            arith,
            found,
            fit,
            good,
            h,
            lookup-insert_self id (promoted_one py env m) s.mutations,
          );
          is_promoted = ground (arith, found, fit, good, h);
        }
      ]
    ]
  ]
