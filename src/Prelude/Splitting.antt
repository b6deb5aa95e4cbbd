-- ===== src/Prelude/Splitting.antt =====
-- Python's `str.split` at one character, `str.strip`, and `str.join`.
use Prim.Native.Nat.{ℕ}
use Prim.Native.Char.{Char, code}
use Prim.Native.String.{String}
use mathlib.Core.Bool.{Bool, not, ◌&&◌, ◌||◌}
use mathlib.Core.List.{List, [], ◌∷◌}
use ghostmesh.Prelude.Tests.{nat_beq, leb, if◌then◌else◌}
use ghostmesh.Prelude.Text.{◌+++◌, is_text}

abbrev onto_first : Char → List String → List String
onto_first c [] = String.◌∷◌ c String.[] ∷ []
onto_first c (s ∷ ss) = String.◌∷◌ c s ∷ ss

-- `s.split(separator)`: never empty.
unfoldable pub split : ℕ → String → List String
split separator String.[] = "" ∷ []
split separator (String.◌∷◌ c s) =
    let rest = split separator s in
    if nat_beq (code c) separator then "" ∷ rest else onto_first c rest

abbrev between : ℕ → ℕ → ℕ → Bool
between a b n = leb a n && leb n b

-- `str.isspace` of one character.
abbrev is_space : Char → Bool
is_space c =
    let n = code c in
    between 9 13 n
    || between 28 32 n
    || nat_beq n 133
    || nat_beq n 160
    || nat_beq n 5760
    || between 8192 8202 n
    || between 8232 8233 n
    || nat_beq n 8239
    || nat_beq n 8287
    || nat_beq n 12288

abbrev prepend : Char → String → String
prepend c rest = if is_space c && not (is_text rest) then "" else String.◌∷◌ c rest

unfoldable pub strip_right : String → String
strip_right String.[] = ""
strip_right (String.◌∷◌ c s) = prepend c (strip_right s)

unfoldable pub strip_left : String → String
strip_left String.[] = ""
strip_left (String.◌∷◌ c s) = if is_space c then strip_left s else String.◌∷◌ c s

-- `s.strip()`
unfoldable pub strip : String → String
unfolding strip_left strip_right
strip s = strip_left (strip_right s)

-- `separator.join(texts)`
unfoldable pub join : String → List String → String
join separator [] = ""
join separator (s ∷ []) = s
join separator (s ∷ t ∷ ss) = s +++ separator +++ join separator (t ∷ ss)
