-- ===== src/Exec/Moves.antt =====
-- Pre- and postconditions of actions on the state alone: what holds before holds, in another form,
-- after, whether the action returns or raises. One rule for each way to build an action.
use ghostmesh.Prelude.{Bool, true, false, if◌then◌else◌}
use ghostmesh.Errors.{Error}
use ghostmesh.Result.{Result, ok, err}
use ghostmesh.Exec.{Exec, pure, lift, gets, modify, raise_if, ◌>>=◌, zoom}

pub record Moves {S A : Type 0} (P Q : S → Type 0) (m : Exec S A) : Type 0 where
  pub at : (s : S) → P s → Q (m s).1

module _ {S A : Type 0} {P : S → Type 0} where
  pub Moves-pure : (a : A) → Moves P P (pure a)
  Moves-pure a = record { at = λ s h. h }

  pub Moves-lift : (r : Result A) → Moves P P (lift r)
  Moves-lift r = record { at = λ s h. h }

  pub Moves-gets : (f : S → A) → Moves P P (gets f)
  Moves-gets f = record { at = λ s h. h }

pub Moves-raise_if : {S : Type 0} {P : S → Type 0} (b : Bool) (e : Error) → Moves P P (raise_if b e)
Moves-raise_if true e = record { at = λ s h. h }
Moves-raise_if false e = record { at = λ s h. h }

pub Moves-modify :
    {S : Type 0} {P Q : S → Type 0} (f : S → S) → ((s : S) → P s → Q (f s)) → Moves P Q (modify f)
Moves-modify f h = record { at = h }

module _ {S A B : Type 0} {P R Q : S → Type 0} where
  pub Moves-bind :
      (m : Exec S A) (f : A → Exec S B)
      → ((s : S) → R s → Q s)
      → Moves P R m
      → ((a : A) → Moves R Q (f a))
      → Moves P Q (m >>= f)
  unfolding ◌>>=◌
  Moves-bind m f weaken first rest = record { at = λ s h. after (m s) (first.at s h) }
    where
      after : (r : Result A × S) → R r.1 → Q (((λ s. r) >>= f) r.1).1
      after (ok a, s') h = (rest a).at s' h
      after (err e, s') h = weaken s' h

-- The first part leaves the condition as it is.
pub Moves-after :
    {S A B : Type 0} {P Q : S → Type 0} (m : Exec S A) (f : A → Exec S B)
    → ((s : S) → P s → Q s)
    → Moves P P m
    → ((a : A) → Moves P Q (f a))
    → Moves P Q (m >>= f)
Moves-after m f weaken first rest = Moves-bind m f weaken first rest

-- No part changes the condition.
pub Moves-then :
    {S A B : Type 0} {P : S → Type 0} (m : Exec S A) (f : A → Exec S B)
    → Moves P P m
    → ((a : A) → Moves P P (f a))
    → Moves P P (m >>= f)
Moves-then m f first rest = Moves-bind m f (λ s h. h) first rest

pub Moves-if :
    {S A : Type 0} {P Q : S → Type 0} (b : Bool) (m n : Exec S A)
    → Moves P Q m
    → Moves P Q n
    → Moves P Q (if b then m else n)
Moves-if true m n h k = h
Moves-if false m n h k = k

-- An action on a field: a condition of the field before gives one of it after.
pub Moves-zoom :
    {S T A : Type 0} {P : S → Type 0} {Q : T → Type 0} (get : S → T) (put : T → S → S)
    (m : Exec T A) {R : S → Type 0}
    → ((s : S) → P s → Q (m (get s)).1)
    → ((s : S) (t : T) → Q t → R (put t s))
    → Moves P R (zoom get put m)
unfolding zoom
Moves-zoom get put m first back = record { at = λ s h. back s _ (first s h) }
