-- ===== src/Prelude/Sorting.antt =====
-- Python's `sorted`, and the order of texts.
use Prim.Native.Nat.{ℕ, ◌≤◌, Ordering}
use Prim.Native.String.{String, compare}
use mathlib.Core.Path.{◌≡◌}
use mathlib.Core.Bool.{Bool, true, false}
use mathlib.Core.Logic.{inl, inr}
use mathlib.Core.List.{List, [], ◌∷◌, Perm}
use mathlib.Core.List.Perm
use native.Mathlib.Omega.{arith}
use ghostmesh.Prelude.Tests.{if◌then◌else◌, Bool-cases}
use ghostmesh.Prelude.Lists.{All, All-mono}

-- `a <= b` on texts.
unfoldable pub text_leb : String → String → Bool
text_leb a b = elim (compare a b) [ Ordering.lt ↦ true | Ordering.eq ↦ true | Ordering.gt ↦ false ]

module _ {A : Type 0} (before : A → A → Bool) where
  unfoldable pub place : A → List A → List A
  place x [] = x ∷ []
  place x (y ∷ ys) = if before x y then x ∷ y ∷ ys else y ∷ place x ys

  -- Stable, as the sort of the language is.
  unfoldable pub sorted : List A → List A
  unfolding place
  sorted [] = []
  sorted (x ∷ xs) = place x (sorted xs)

  place-Perm : (x : A) (xs : List A) → Perm (place x xs) (x ∷ xs)
  unfolding place
  place-Perm x [] = Perm.rfl
  place-Perm x (y ∷ ys) = elim (Bool-cases (before x y)) [
    | inl first ↦ rw first Perm.rfl
    | inr later ↦ rw later (Perm.trans (Perm.cons y (place-Perm x ys)) (Perm.swap x y ys))
  ]

  -- Sorting rearranges.
  pub sorted-Perm : (xs : List A) → Perm (sorted xs) xs
  unfolding sorted
  sorted-Perm [] = Perm.rfl
  sorted-Perm (x ∷ xs) = Perm.trans (place-Perm x (sorted xs)) (Perm.cons x (sorted-Perm xs))

  place-All : (P : A → Type 0) (x : A) (xs : List A) → P x → All P xs → All P (place x xs)
  unfolding place
  place-All P x [] h hs = (h, tt)
  place-All P x (y ∷ ys) h hs = elim (Bool-cases (before x y)) [
    | inl first ↦ rw first (h, hs)
    | inr later ↦ rw later (hs.0, place-All P x ys h hs.1)
  ]

  -- Each number is at most every later one.
  abbrev pub IsAscending : (A → ℕ) → List A → Type 0
  IsAscending key [] = Unit
  IsAscending key (x ∷ xs) = All (λ y. key x ≤ key y) xs × IsAscending key xs

  module _ (key : A → ℕ) (le_of_before : (x y : A) → before x y ≡ true → key x ≤ key y)
      (ge_of_after : (x y : A) → before x y ≡ false → key y ≤ key x) where
    place-IsAscending : (x : A) (xs : List A) → IsAscending key xs → IsAscending key (place x xs)
    unfolding place
    place-IsAscending x [] h = (tt, tt)
    place-IsAscending x (y ∷ ys) h = elim (Bool-cases (before x y)) [
      | inl first ↦
          let le = le_of_before x y first in
          rw first ((le, All-mono _ _ ys (λ z k. omega (arith, le, k)) h.0), h)
      | inr later ↦ rw later (
        place-All (λ z. key y ≤ key z) x ys (ge_of_after x y later) h.0,
        place-IsAscending x ys h.1,
      )
    ]

    -- Where the test follows a number, sorting puts the numbers in order.
    pub sorted-IsAscending : (xs : List A) → IsAscending key (sorted xs)
    unfolding sorted
    sorted-IsAscending [] = tt
    sorted-IsAscending (x ∷ xs) = place-IsAscending x (sorted xs) (sorted-IsAscending xs)
