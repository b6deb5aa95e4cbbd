-- ===== src/Result.antt =====
-- Functions that return a value or raise.
use ghostmesh.Prelude.{◌≡◌, refl, Bool, true, false, Option, none, some, ◌⊎◌, inl, inr}
use ghostmesh.Errors.{Error}

pub data Result (A : Type 0) : Type 0 where
  ok : A → Result A
  err : Error → Result A

infixl 5 ◌>>=◌ ◌>>◌
abbrev pub ◌>>=◌ : {A B : Type 0} → Result A → (A → Result B) → Result B
ok a >>= f = f a
err e >>= f = err e

abbrev pub ◌>>◌ : {A B : Type 0} → Result A → Result B → Result B
m >> k = m >>= λ _. k

abbrev pub raise_if : Bool → Error → Result Unit
raise_if true e = err e
raise_if false e = ok tt

abbrev pub or_raise : {A : Type 0} → Option A → Error → Result A
or_raise none e = err e
or_raise (some a) e = ok a

abbrev pub is_ok : {A : Type 0} → Result A → Bool
is_ok (ok _) = true
is_ok (err _) = false

pub ok_injective : {A : Type 0} (a b : A) → ok a ≡ ok b → a ≡ b
ok_injective a b h = cc

-- A chain that returns has returned from its first part.
pub >>=-eq-ok :
    {A B : Type 0} (first : Result A) (then_do : A → Result B) {returned : B}
    → (first >>= then_do) ≡ ok returned
    → (value : A) × (first ≡ ok value) × (then_do value ≡ ok returned)
>>=-eq-ok (err e) then_do chain = absurd (cc)
>>=-eq-ok (ok value) then_do chain = (value, refl, chain)

pub raise_if-eq-ok : (b : Bool) (e : Error) {u : Unit {0}} → raise_if b e ≡ ok u → b ≡ false
raise_if-eq-ok true e h = absurd (cc)
raise_if-eq-ok false e h = refl

pub Result-cases :
    {A : Type 0} (outcome : Result A)
    → ((value : A) × (outcome ≡ ok value)) ⊎ ((raised : Error) × (outcome ≡ err raised))
Result-cases (err raised) = inr (raised, refl)
Result-cases (ok value) = inl (value, refl)
