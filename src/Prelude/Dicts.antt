-- ===== src/Prelude/Dicts.antt =====
-- Python's `dict` in insertion order: an assignment to a key that is there keeps its place.
use mathlib.Core.Path.{◌≡◌, refl}
use mathlib.Core.Logic.{◌≢◌}
use mathlib.Core.Option.{Option, none, some}
use mathlib.Core.List.{List, [], ◌∷◌}
use native.Mathlib.Omega.{arith}
use ghostmesh.Prelude.Tests.{Eq, ◌==◌, if◌then◌else◌, if_induction, beq_self}
use ghostmesh.Prelude.Lists.{In, All}

abbrev pub Dict {ℓ κ} : Type ℓ → Type κ → Type (ℓ ⊔ κ)
Dict K V = List (K × V)

module _ {ℓ κ} {K : Type ℓ} {V : Type κ} ⦃e : Eq K⦄ where
  -- `d.get(k)`
  unfoldable pub lookup : K → Dict K V → Option V
  lookup k [] = none
  lookup k ((j, v) ∷ d) = if k == j then some v else lookup k d

  -- `d[k] = v`
  unfoldable pub insert : K → V → Dict K V → Dict K V
  insert k v [] = (k, v) ∷ []
  insert k v ((j, w) ∷ d) = if k == j then (j, v) ∷ d else (j, w) ∷ insert k v d

  -- `d.update(new)` and `{**d, **new}`
  unfoldable pub update : Dict K V → Dict K V → Dict K V
  unfolding insert
  update d [] = d
  update d ((k, v) ∷ new) = update (insert k v d) new

  pub lookup-insert :
      (k j : K) (v : V) (d : Dict K V)
      → lookup j (insert k v d) ≡ (if j == k then some v else lookup j d)
  unfolding lookup insert
  lookup-insert k j v [] = refl
  lookup-insert k j v ((i, w) ∷ d) =
      ground (arith, e.beq_iff k i, e.beq_iff j i, e.beq_iff j k, lookup-insert k j v d)

  pub lookup-insert_self : (k : K) (v : V) (d : Dict K V) → lookup k (insert k v d) ≡ some v
  lookup-insert_self k v d = rw (lookup-insert k k v d, beq_self k)

  pub lookup-insert_ne :
      (k j : K) (v : V) (d : Dict K V) → j ≢ k → lookup j (insert k v d) ≡ lookup j d
  lookup-insert_ne k j v d h = ground (arith, lookup-insert k j v d, e.beq_iff j k)

  -- What the new dictionary does not say stays as it was.
  pub lookup-update_absent :
      (j : K) (d new : Dict K V) → lookup j new ≡ none → lookup j (update d new) ≡ lookup j d
  unfolding lookup update
  lookup-update_absent j d [] h = refl
  lookup-update_absent j d ((k, v) ∷ new) h =
      ground
        (arith, e.beq_iff j k, lookup-update_absent j (insert k v d) new, lookup-insert k j v d, h)

-- `d.values()`
abbrev pub values {ℓ κ} : {K : Type ℓ} {V : Type κ} → Dict K V → List V
values [] = []
values ((_, v) ∷ d) = v ∷ values d

module _ {K V : Type 0} ⦃e : Eq K⦄ where
  pub In-values : (k : K) (v : V) (d : Dict K V) → lookup k d ≡ some v → In v (values d)
  unfolding lookup
  In-values k v [] h = absurd (cc)
  In-values k v ((j, w) ∷ d) h = ground (arith, In-values k v d)

  pub All-values-insert :
      (P : V → Type 0) (k : K) (v : V) (d : Dict K V)
      → P v
      → All P (values d)
      → All P (values (insert k v d))
  unfolding insert
  All-values-insert P k v [] p h = (p, tt)
  All-values-insert P k v ((j, w) ∷ d) p h =
      if_induction (λ x. All P (values x)) (k == j) ((j, v) ∷ d) ((j, w) ∷ insert k v d) (p, h.1)
        (h.0, All-values-insert P k v d p h.1)
