-- ===== src/Exec.antt =====
-- Methods that change an object and may raise. What was written before a raise stays written, so
-- the state comes back beside the error too.
pub mod Moves
use ghostmesh.Prelude.{◌≡◌, refl, Bool, true, false, ap}
use ghostmesh.Errors.{Error}
use ghostmesh.Result.{Result, ok, err}

abbrev pub Exec : Type 0 → Type 0 → Type 0
Exec S A = S → Result A × S

module _ {S A : Type 0} where
  abbrev pub pure : A → Exec S A
  pure a s = (ok a, s)

  abbrev pub raise : Error → Exec S A
  raise e s = (err e, s)

  abbrev pub lift : Result A → Exec S A
  lift r s = (r, s)

  abbrev pub gets : (S → A) → Exec S A
  gets f s = (ok (f s), s)

infixl 5 ◌>>=◌ ◌>>◌
unfoldable pub ◌>>=◌ : {S A B : Type 0} → Exec S A → (A → Exec S B) → Exec S B
◌>>=◌ m f s = let (r, s') = m s in elim r [ ok a ↦ f a s' | err e ↦ (err e, s') ]

abbrev pub ◌>>◌ : {S A B : Type 0} → Exec S A → Exec S B → Exec S B
m >> k = m >>= λ _. k

abbrev pub modify : {S : Type 0} → (S → S) → Exec S Unit
modify f s = (ok tt, f s)

abbrev pub raise_if : {S : Type 0} → Bool → Error → Exec S Unit
raise_if true e s = (err e, s)
raise_if false e s = (ok tt, s)

-- A method of an object that is a field of the state.
abbrev pub put_back : {R S A : Type 0} → (R → S → S) → S → Result A × R → Result A × S
put_back put s (r, t) = (r, put t s)

unfoldable pub zoom : {R S A : Type 0} → (S → R) → (R → S → S) → Exec R A → Exec S A
zoom get put m s = put_back put s (m (get s))

after_first :
    {S A B : Type 0} (first : Result A × S) (f : A → Exec S B) (s' : S) (b : B)
    → (let (r, s1) = first in elim r [ ok a ↦ f a s1 | err e ↦ (err e, s1) ]) ≡ (ok b, s')
    → (a : A) × (s1 : S) × (first ≡ (ok a, s1)) × (f a s1 ≡ (ok b, s'))
after_first (ok a, s1) f s' b h = (a, s1, refl, h)
after_first (err e, s1) f s' b h = absurd (cc)

-- A chain that returns, taken apart.
pub >>=-eq-returned :
    {S A B : Type 0} (m : Exec S A) (f : A → Exec S B) (s : S) {s' : S} {b : B}
    → (m >>= f) s ≡ (ok b, s')
    → (a : A) × (s1 : S) × (m s ≡ (ok a, s1)) × (f a s1 ≡ (ok b, s'))
unfolding ◌>>=◌
>>=-eq-returned m f s h = after_first (m s) f _ _ h

-- A lifted result that returns leaves the state alone.
pub >>=-lift :
    {S A B : Type 0} (r : Result A) (f : A → Exec S B) (s : S) {s' : S} {b : B}
    → (lift r >>= f) s ≡ (ok b, s')
    → (a : A) × (r ≡ ok a) × (f a s ≡ (ok b, s'))
unfolding ◌>>=◌
>>=-lift (ok a) f s h = (a, refl, h)
>>=-lift (err e) f s h = absurd (cc)

pub >>=-raise_if :
    {S B : Type 0} (test : Bool) (e : Error) (f : Unit {0} → Exec S B) (s : S) {s' : S} {b : B}
    → (raise_if test e >>= f) s ≡ (ok b, s')
    → (test ≡ false) × (f tt s ≡ (ok b, s'))
unfolding ◌>>=◌
>>=-raise_if true e f s h = absurd (cc)
>>=-raise_if false e f s h = (refl, h)

pub >>=-gets :
    {S A B : Type 0} (g : S → A) (f : A → Exec S B) (s : S) {r : Result B × S}
    → (gets g >>= f) s ≡ r
    → f (g s) s ≡ r
unfolding ◌>>=◌
>>=-gets g f s h = h

-- And put together.
pub >>=-returns :
    {S A B : Type 0} (m : Exec S A) (f : A → Exec S B) (s : S) {s' : S} {a : A}
    → m s ≡ (ok a, s')
    → (m >>= f) s ≡ f a s'
unfolding ◌>>=◌
>>=-returns {S = S} {A = A} m f s h =
    ap (λ (x : Result A × S). let (r, t) = x in elim r [ ok a ↦ f a t | err e ↦ (err e, t) ]) h

put_back_returned :
    {R S A : Type 0} (put : R → S → S) (s s' : S) (r : Result A × R) (a : A)
    → put_back put s r ≡ (ok a, s')
    → (t : R) × (r ≡ (ok a, t)) × (put t s ≡ s')
put_back_returned put s s' (r, t) a h = (t, ap (λ x. (x.0, t)) h, ap (λ x. x.1) h)

-- A field's method that returns has changed the field alone.
pub zoom_returned :
    {R S A : Type 0} (get : S → R) (put : R → S → S) (m : Exec R A) (s s' : S) (a : A)
    → zoom get put m s ≡ (ok a, s')
    → (t : R) × (m (get s) ≡ (ok a, t)) × (put t s ≡ s')
unfolding zoom
zoom_returned get put m s s' a h = put_back_returned put s s' (m (get s)) a h

-- A chain whose first part raises.
pub >>=-raises :
    {S A B : Type 0} (m : Exec S A) (f : A → Exec S B) (s : S) {s' : S} {e : Error}
    → m s ≡ (err e, s')
    → (m >>= f) s ≡ (err e, s')
unfolding ◌>>=◌
>>=-raises {S = S} {A = A} m f s h =
    ap (λ (x : Result A × S). let (r, t) = x in elim r [ ok a ↦ f a t | err e ↦ (err e, t) ]) h
