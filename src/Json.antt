-- ===== src/Json.antt =====
-- Python's `json` module, as far as the services use it: documents that are one object of plain
-- values and lists of numbers. A document that is no object raises `TypeError`, as its first subscript does.
use vix_75_platform.Base.{
  String, Bool, true, false, ◌≡◌, none, some, List, [], ◌∷◌, format, if◌then◌else◌,
}
use vix_75_platform.Base.Dict.{Dict, lookup}
use vix_75_platform.Base.Int.{ℤ}
use vix_75_platform.Base.Result.{Result, ok, raise, key_error, type_error}
use vix_75_platform.Float.{Float, nought}

pub data JsonValue (F : Type 0) : Type 0 where
  null : JsonValue F
  bool : Bool → JsonValue F
  num : F → JsonValue F
  text : String → JsonValue F
  nums : List F → JsonValue F

pub record JsonLib (F : Type 0) : Type 0 where
  pub dumps : Dict (JsonValue F) → String
  pub loads : String → Result (Dict (JsonValue F))
  -- `float(s)` and `int(s)` of a text, and `int(x)` of a float.
  pub parse_float : String → Result F
  pub parse_int : String → Result ℤ
  pub trunc : F → ℤ

-- The library reads back the document that it wrote.
abbrev pub ReadsBack : {F : Type 0} ⦃j : JsonLib F⦄ → Dict (JsonValue F) → Type 0
ReadsBack ⦃j⦄ d = j.loads (j.dumps d) ≡ ok d

-- `d[k]`
abbrev pub get_item {ℓ} : {V : Type ℓ} → Dict V → String → Result V
get_item d k = elim (lookup k d) [ some v ↦ ok v | none ↦ raise (key_error k) ]

module _ {F : Type 0} ⦃d : Float F⦄ where
  -- `", ".join(str(x) for x in xs)`
  abbrev pub joined : List F → String
  joined [] = ""
  joined (x ∷ []) = d.show x
  joined (x ∷ (y ∷ xs)) = format (d.show x ∷ ", " ∷ joined (y ∷ xs) ∷ [])

  -- `str(v)`
  abbrev pub str_of : JsonValue F → String
  str_of null = "None"
  str_of (bool true) = "True"
  str_of (bool false) = "False"
  str_of (num x) = d.show x
  str_of (text s) = s
  str_of (nums xs) = format ("[" ∷ joined xs ∷ "]" ∷ [])

  -- `float(v)` and `int(v)`
  abbrev pub float_of : ⦃j : JsonLib F⦄ → JsonValue F → Result F
  float_of null = raise type_error
  float_of (bool b) = ok (if b then d.lit 1 0 else nought)
  float_of (num x) = ok x
  float_of ⦃j⦄ (text s) = j.parse_float s
  float_of (nums xs) = raise type_error

  abbrev pub int_of : ⦃j : JsonLib F⦄ → JsonValue F → Result ℤ
  int_of null = raise type_error
  int_of ⦃j⦄ (bool b) = ok (j.trunc (if b then d.lit 1 0 else nought))
  int_of ⦃j⦄ (num x) = ok (j.trunc x)
  int_of ⦃j⦄ (text s) = j.parse_int s
  int_of (nums xs) = raise type_error
