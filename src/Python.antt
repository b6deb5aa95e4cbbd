-- ===== src/Python.antt =====
-- What the code takes from Python: the values of JSON-like dictionaries (`dict[str, Any]`), and two
-- conversions of the language, `int` and `str`, as a parameter.
use ghostmesh.Prelude.{
  ℕ, String, Bool, true, false, Option, none, some, List, [], ◌∷◌, Dict, ◌==◌, string_eq, nat_eq,
  not, is_text, if◌then◌else◌, ◌+++◌,
}

pub data ℤ : Type 0 where
  pos : ℕ → ℤ
  negsuc : ℕ → ℤ

mutual
  pub data Json : Type 0 where
    null : Json
    boolean : Bool → Json
    num : ℤ → Json
    str : String → Json
    arr : Items → Json
    obj : Fields → Json

  pub data Items : Type 0 where
    nil : Items
    cons : Json → Items → Items

  pub data Fields : Type 0 where
    end : Fields
    field : String → Json → Fields → Fields

abbrev pub Payload : Type 0
Payload = Dict String Json

abbrev pub not_zero : ℤ → Bool
not_zero (pos n) = not (n == 0)
not_zero (negsuc _) = true

abbrev pub is_negative : ℤ → Bool
is_negative (pos _) = false
is_negative (negsuc _) = true

-- `value == text`, for a text.
abbrev pub is_str : String → Option Json → Bool
is_str s (some (str t)) = t == s
is_str s _ = false

-- `value is True`
abbrev pub is_true : Option Json → Bool
is_true (some (boolean true)) = true
is_true _ = false

-- `bool(value)`, of a value that may be missing: `None` is false.
abbrev pub is_truthy : Option Json → Bool
is_truthy none = false
is_truthy (some null) = false
is_truthy (some (boolean b)) = b
is_truthy (some (num n)) = not_zero n
is_truthy (some (str s)) = is_text s
is_truthy (some (arr nil)) = false
is_truthy (some (arr (cons _ _))) = true
is_truthy (some (obj end)) = false
is_truthy (some (obj (field _ _ _))) = true

-- `value.get(key)` on a dictionary within a value.
unfoldable pub get_field : String → Fields → Option Json
get_field key end = none
get_field key (field k v fs) = if key == k then some v else get_field key fs

-- `value.get(key)` where the value is a dictionary, `None` where it is not.
abbrev pub get_in : String → Option Json → Option Json
get_in key (some (obj fs)) = get_field key fs
get_in key _ = none

abbrev pub or_null : Option Json → Json
or_null none = null
or_null (some v) = v

abbrev pub text_or_null : Option String → Json
text_or_null none = null
text_or_null (some s) = str s

-- `text or other`
abbrev pub text_or : Option String → String → String
text_or none other = other
text_or (some s) other = if is_text s then s else other

-- `f"{key}{suffix}" if key else None`
abbrev pub suffixed : Option String → String → Option String
suffixed none suffix = none
suffixed (some key) suffix = if is_text key then some (key +++ suffix) else none

abbrev pub texts : List String → Items
texts [] = nil
texts (s ∷ ss) = cons (str s) (texts ss)

unfoldable pub items_of : Items → List Json
items_of nil = []
items_of (cons v vs) = v ∷ items_of vs

unfoldable pub keys_of : Fields → List Json
keys_of end = []
keys_of (field k v fs) = str k ∷ keys_of fs

unfoldable pub chars_of : String → List Json
chars_of String.[] = []
chars_of (String.◌∷◌ c s) = str (String.◌∷◌ c "") ∷ chars_of s

-- The values that `for x in value` runs through; `none` is the `TypeError` of what is not iterable.
unfoldable pub iterate : Json → Option (List Json)
unfolding items_of keys_of chars_of
iterate (arr vs) = some (items_of vs)
iterate (obj fs) = some (keys_of fs)
iterate (str s) = some (chars_of s)
iterate _ = none

-- `str(value)`, `int(value)` where `none` is the `ValueError` or `TypeError` that it raises, the text
-- of a `UUID`, and `datetime.isoformat`.
pub record Conversions : Type 0 where
  pub str_of : Json → String
  pub int_of : Json → Option ℤ
  pub uuid_text : ℕ → String
  pub isoformat : ℕ → String

-- `str(value) if value is not None else None`
abbrev pub optional_text : Conversions → Option Json → Option String
optional_text py none = none
optional_text py (some null) = none
optional_text py (some v) = some (py.str_of v)
