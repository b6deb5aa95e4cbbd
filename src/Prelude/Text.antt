-- ===== src/Prelude/Text.antt =====
-- Python's `str`: concatenation, and splitting at the first or last colon.
use Prim.Native.Char.{Char, code}
use Prim.Native.String.{String}
use mathlib.Core.Path.{◌≡◌, refl, ap}
use mathlib.Core.Logic.{◌≢◌}
use mathlib.Core.Bool.{Bool, true, false, ◌||◌}
use native.Mathlib.Omega.{arith}
use ghostmesh.Prelude.Tests.{nat_beq, if◌then◌else◌}

infixr 66 ◌+++◌
unfoldable pub ◌+++◌ : String → String → String
String.[] +++ t = t
(String.◌∷◌ c s) +++ t = String.◌∷◌ c (s +++ t)

-- Truth of a text: it is not empty.
abbrev pub is_text : String → Bool
is_text String.[] = false
is_text (String.◌∷◌ _ _) = true

abbrev is_colon : Char → Bool
is_colon c = nat_beq (code c) b':'

unfoldable pub has_colon : String → Bool
has_colon String.[] = false
has_colon (String.◌∷◌ c s) = is_colon c || has_colon s

-- `s.split(":", maxsplit=1)[0]`
unfoldable pub before_first_colon : String → String
before_first_colon String.[] = ""
before_first_colon (String.◌∷◌ c s) = if is_colon c then "" else String.◌∷◌ c (before_first_colon s)

-- `s.rsplit(":", 1)[0]`
unfoldable pub before_last_colon : String → String
unfolding has_colon
before_last_colon String.[] = ""
before_last_colon (String.◌∷◌ c s) =
    if has_colon s
    then String.◌∷◌ c (before_last_colon s)
    else if is_colon c
    then ""
    else String.◌∷◌ c s

has_colon-join : (s t : String) → has_colon (s +++ ":" +++ t) ≡ true
unfolding has_colon ◌+++◌
has_colon-join String.[] t = refl
has_colon-join (String.◌∷◌ c s) t = ground (arith, has_colon-join s t)

-- What stands before the last colon of `s:t` is `s`, if `t` has no colon.
pub before_last_colon-join :
    (s t : String) → has_colon t ≡ false → before_last_colon (s +++ ":" +++ t) ≡ s
unfolding before_last_colon has_colon ◌+++◌
before_last_colon-join String.[] t h = ground arith
before_last_colon-join (String.◌∷◌ c s) t h =
    ground (arith, has_colon-join s t, before_last_colon-join s t h)

pub before_first_colon-join :
    (s t : String) → has_colon s ≡ false → before_first_colon (s +++ ":" +++ t) ≡ s
unfolding before_first_colon has_colon ◌+++◌
before_first_colon-join String.[] t h = refl
before_first_colon-join (String.◌∷◌ c s) t h = ground (arith, before_first_colon-join s t)

abbrev tail_of : String → String
tail_of String.[] = String.[]
tail_of (String.◌∷◌ c s) = s

-- A text differs from itself with something behind.
pub longer-differs : (s : String) (c : Char) (t : String) → s ≢ (s +++ String.◌∷◌ c t)
unfolding ◌+++◌
longer-differs String.[] c t h = absurd (cc)
longer-differs (String.◌∷◌ d s) c t h = longer-differs s c t (ap tail_of h)

pub append-cancel : (s t u : String) → (s +++ t) ≡ (s +++ u) → t ≡ u
unfolding ◌+++◌
append-cancel String.[] t u h = h
append-cancel (String.◌∷◌ c s) t u h = append-cancel s t u (ap tail_of h)
