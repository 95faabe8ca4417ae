-- ===== src/Tasks/Parameter.antt =====
-- The class TaskParameter of bricoler: a value with its source, its type and a test of validity.
use bricoler.Base.{
  ℕ, codes, String, List, [], ◌∷◌, Bool, true, false, not, Option, none, some, if◌then◌else◌,
  str_eq, ◌&&◌,
}
use bricoler.Lua.Tables.{bytes_eq}
use bricoler.Tasks.{
  invalid_value, invalid_boolean, invalid_number, assertion, Result, ok, err, ◌>>=◌,
}

-- The characters of a string.
abbrev pub Text : Type 0
Text = List ℕ

-- Lua's numbers, with == and the conversion of a string by tonumber.
pub record Numbers : Type 1 where
  pub Number : Type 0
  pub number_eq : Number → Number → Bool
  pub to_number : Text → Option Number

module _ (numbers : Numbers) where
  open numbers use {Number, number_eq, to_number}

  -- A value other than nil; tables and functions are objects with their type and an identity.
  pub data Value : Type 0 where
    boolean : Bool → Value
    number : Number → Value
    string : Text → Value
    object : String → String → Value

  -- type(v)
  unfoldable pub type_of : Value → String
  type_of (boolean b) = "boolean"
  type_of (number n) = "number"
  type_of (string s) = "string"
  type_of (object t i) = t

  abbrev bool_eq : Bool → Bool → Bool
  bool_eq true b = b
  bool_eq false b = not b

  -- v == w
  unfoldable pub raw_equal : Value → Value → Bool
  raw_equal (boolean a) (boolean b) = bool_eq a b
  raw_equal (number a) (number b) = number_eq a b
  raw_equal (string a) (string b) = bytes_eq a b
  raw_equal (object s i) (object t j) = str_eq s t && str_eq i j
  raw_equal _ _ = false

  -- tonumber(v)
  unfoldable pub tonumber : Value → Option Number
  tonumber (number n) = some n
  tonumber (string s) = to_number s
  tonumber _ = none

  -- The field `valid`: a predicate, which may return what is no boolean, or the permitted values.
  pub data Valid : Type 0 where
    predicate : (Value → Option Bool) → Valid
    permitted : List Value → Valid

  pub record Parameter : Type 0 where
    pub type : Option String
    pub valid : Valid
    pub required : Bool
    pub source : String
    pub value : Value

  unfoldable pub among : Value → List Value → Bool
  among v [] = false
  among v (candidate ∷ vs) = if raw_equal v candidate then true else among v vs

  -- The first part of bind: is the value valid?
  unfoldable pub check_valid : Valid → Value → Result (Unit {0})
  unfolding among
  check_valid (predicate f) v = elim (f v) [
    | none ↦ err assertion
    | some b ↦ if b then ok tt else err invalid_value
  ]
  check_valid (permitted vs) v = if among v vs then ok tt else err invalid_value

  abbrev pub has_type : Option String → String → Bool
  has_type none t = false
  has_type (some s) t = str_eq s t

  unfoldable pub to_boolean : Value → Result Value
  to_boolean (boolean b) = ok (boolean b)
  to_boolean (string s) =
      if bytes_eq s (codes "true")
      then ok (boolean true)
      else if bytes_eq s (codes "false")
      then ok (boolean false)
      else err invalid_boolean
  to_boolean (number n) = err invalid_boolean
  to_boolean (object t i) = err invalid_boolean

  -- The second part: a value of type boolean or number is converted.
  unfoldable pub convert : Option String → Value → Result Value
  unfolding to_boolean tonumber
  convert t v =
      if has_type t "boolean"
      then to_boolean v
      else if has_type t "number"
      then (elim (tonumber v) [ none ↦ err invalid_number | some n ↦ ok (number n) ])
      else ok v

  unfoldable pub bind : Parameter → Value → String → Result Parameter
  unfolding check_valid convert
  bind p v source = do
    _ ← check_valid p.valid v
    v' ← convert p.type v
    ok (record p { source = source; value = v' })

  -- The arguments of the constructor, less its texts.
  pub record Args : Type 0 where
    pub default : Option Value
    pub type : Option String
    pub valid : Option Valid
    pub required : Bool

  -- The object before _ctor: the prototype's fields, and the arguments'.
  abbrev pub fresh : Args → Parameter
  fresh args = record {
    type = args.type;
    valid = elim args.valid [ none ↦ predicate (λ v. some true) | some f ↦ f ];
    required = args.required;
    source = "";
    value = string [];
  }

  abbrev pub inferred : Option String → Value → Option String
  inferred none v = some (type_of v)
  inferred (some t) v = some t

  -- TaskParameter(args)
  unfoldable pub construct : Args → Result Parameter
  unfolding bind type_of
  construct args = elim args.default [
    | none ↦ ok (fresh args)
    | some v ↦ bind (record (fresh args) { type = inferred args.type v }) v "default"
  ]

  unfoldable pub bound : Parameter → Bool
  bound p = not (str_eq p.source "")

  -- `none` is nil.
  unfoldable pub value : Parameter → Option Value
  unfolding bound
  value p = if bound p then some p.value else none
