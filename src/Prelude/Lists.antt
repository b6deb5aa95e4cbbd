-- ===== src/Prelude/Lists.antt =====
-- List functions over the native numbers, as Python's comprehensions and `next` use them.
use Prim.Native.Nat.{ℕ, suc}
use mathlib.Core.Path.{◌≡◌, refl, sym, subst, ap}
use mathlib.Core.Logic.{◌⊎◌, ◌↔◌, inl, inr}
use mathlib.Core.Bool.{Bool, true, false, ◌&&◌, ◌||◌}
use mathlib.Core.Option.{Option, none, some}
use mathlib.Core.List.{List, [], ◌∷◌, ◌++◌, map}
use native.Mathlib.Omega.{arith}
use ghostmesh.Prelude.Tests.{Eq, ◌==◌, if◌then◌else◌, Bool-cases}

module _ {ℓ} {A : Type ℓ} where
  abbrev pub length : List A → ℕ
  length [] = 0
  length (x ∷ xs) = suc (length xs)

  -- `[x for x in xs if p(x)]`
  abbrev pub keep : (A → Bool) → List A → List A
  keep p [] = []
  keep p (x ∷ xs) = if p x then x ∷ keep p xs else keep p xs

  -- `next((x for x in xs if p(x)), None)`
  abbrev pub first : (A → Bool) → List A → Option A
  first p [] = none
  first p (x ∷ xs) = if p x then some x else first p xs

  abbrev pub any : (A → Bool) → List A → Bool
  any p [] = false
  any p (x ∷ xs) = p x || any p xs

  abbrev pub every : (A → Bool) → List A → Bool
  every p [] = true
  every p (x ∷ xs) = p x && every p xs

  -- `x in xs`
  abbrev pub mem : ⦃e : Eq A⦄ → A → List A → Bool
  mem a xs = any (λ x. a == x) xs

  abbrev pub is_empty : List A → Bool
  is_empty [] = true
  is_empty (x ∷ xs) = false

-- `[y for x in xs for y in f(x)]`
abbrev pub collect {ℓ κ} : {A : Type ℓ} {B : Type κ} → (A → List B) → List A → List B
collect f [] = []
collect f (x ∷ xs) = f x ++ collect f xs

-- Membership and quantification by recursion: they compute to `⊎`, `×` and paths.
module _ {A : Type 0} where
  abbrev pub In : A → List A → Type 0
  In a [] = ⊥
  In a (x ∷ xs) = (a ≡ x) ⊎ In a xs

  abbrev pub All : (A → Type 0) → List A → Type 0
  All P [] = Unit
  All P (x ∷ xs) = P x × All P xs

  pub All_apply : (P : A → Type 0) (a : A) (xs : List A) → All P xs → In a xs → P a
  All_apply P a [] h m = absurd m
  All_apply P a (x ∷ xs) h (inl p) = subst P (sym p) h.0
  All_apply P a (x ∷ xs) h (inr m) = All_apply P a xs h.1 m

  pub All-mono : (P Q : A → Type 0) (xs : List A) → ((a : A) → P a → Q a) → All P xs → All Q xs
  All-mono P Q [] f h = tt
  All-mono P Q (x ∷ xs) f h = (f x h.0, All-mono P Q xs f h.1)

  pub All-append : (P : A → Type 0) (xs ys : List A) → All P xs → All P ys → All P (xs ++ ys)
  All-append P [] ys h k = k
  All-append P (x ∷ xs) ys h k = (h.0, All-append P xs ys h.1 k)

  pub All-intro : {P : A → Type 0} (xs : List A) → ((a : A) → In a xs → P a) → All P xs
  All-intro [] h = tt
  All-intro (x ∷ xs) h = (h x (inl refl), All-intro xs (λ a m. h a (inr m)))

  pub refuted_by_any :
      (p : A → Bool) (xs : List A) (a : A) → any p xs ≡ false → In a xs → p a ≡ false
  refuted_by_any p [] a h m = absurd m
  refuted_by_any p (x ∷ xs) a h (inl e) = ground arith
  refuted_by_any p (x ∷ xs) a h (inr m) = refuted_by_any p xs a (ground arith) m

  pub witness_of_any :
      (p : A → Bool) (xs : List A) → any p xs ≡ true → (a : A) × In a xs × (p a ≡ true)
  witness_of_any p [] h = absurd (cc)
  witness_of_any p (x ∷ xs) h = elim (Bool-cases (p x)) [
    | inl t ↦ (x, inl refl, t)
    | inr f ↦ let (a, m, t) = witness_of_any p xs (ground arith) in (a, inr m, t)
  ]

  pub not_empty : (xs : List A) → is_empty xs ≡ false → (a : A) × In a xs
  not_empty [] h = absurd (cc)
  not_empty (x ∷ xs) h = (x, inl refl)

  pub first-In : (p : A → Bool) (xs : List A) (a : A) → first p xs ≡ some a → In a xs × (p a ≡ true)
  first-In p [] a h = absurd (cc)
  first-In p (x ∷ xs) a h = ground (arith, first-In p xs a)

  pub first-none : (p : A → Bool) (xs : List A) (a : A) → first p xs ≡ none → In a xs → p a ≡ false
  first-none p [] a h m = absurd m
  first-none p (x ∷ xs) a h m = ground (arith, first-none p xs a, h, m)

  pub In-keep : (p : A → Bool) (xs : List A) (a : A) → In a (keep p xs) ↔ (In a xs × (p a ≡ true))
  In-keep p [] a = ground arith
  In-keep p (x ∷ xs) a = ground (arith, In-keep p xs a)

  pub In-mem : ⦃e : Eq A⦄ → (a : A) (xs : List A) → (mem a xs ≡ true) ↔ In a xs
  In-mem a [] = ground arith
  In-mem ⦃e⦄ a (x ∷ xs) = ground (arith, In-mem a xs, e.beq_iff a x)

  pub append_nil : (xs ys : List A) → xs ++ ys ≡ [] → (xs ≡ []) × (ys ≡ [])
  append_nil [] ys h = (refl, h)
  append_nil (x ∷ xs) ys h = absurd (cc)

  pub In-append : (xs ys : List A) (a : A) → In a (xs ++ ys) ↔ (In a xs ⊎ In a ys)
  In-append [] ys a = ((λ m. inr m), (λ m. elim m [ inl b ↦ absurd b | inr m ↦ m ]))
  In-append (x ∷ xs) ys a = ground (arith, In-append xs ys a)

-- A collection is empty exactly where each part is.
pub All-collect_nil :
    {A B : Type 0} (f : A → List B) (xs : List A) → (collect f xs ≡ []) ↔ All (λ x. f x ≡ []) xs
All-collect_nil f [] = ground arith
All-collect_nil f (x ∷ xs) = (
  (λ h. let s = append_nil (f x) (collect f xs) h in (s.0, (All-collect_nil f xs).0 s.1)),
  (λ h. rw (h.0, (All-collect_nil f xs).1 h.1) refl),
)

pub In-map : {A B : Type 0} (f : A → B) (xs : List A) (a : A) → In a xs → In (f a) (map f xs)
In-map f [] a m = absurd m
In-map f (x ∷ xs) a (inl p) = inl (ap f p)
In-map f (x ∷ xs) a (inr m) = inr (In-map f xs a m)

pub of_In-map :
    {A B : Type 0} (f : A → B) (xs : List A) (b : B)
    → In b (map f xs)
    → (a : A) × In a xs × (b ≡ f a)
of_In-map f [] b m = absurd m
of_In-map f (x ∷ xs) b (inl p) = (x, inl refl, p)
of_In-map f (x ∷ xs) b (inr m) = let (a, i, e) = of_In-map f xs b m in (a, inr i, e)

pub In-collect :
    {A B : Type 0} (f : A → List B) (xs : List A) (b : B)
    → In b (collect f xs)
    → (a : A) × In a xs × In b (f a)
In-collect f [] b m = absurd m
In-collect f (x ∷ xs) b m = elim ((In-append (f x) (collect f xs) b).0 m) [
  | inl here ↦ (x, inl refl, here)
  | inr later ↦ let (a, i, j) = In-collect f xs b later in (a, inr i, j)
]
