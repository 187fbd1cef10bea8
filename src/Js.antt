-- ===== src/Js.antt =====
-- What the TypeScript sources use of the language: dynamic values, text, and the platform calls
-- that are not code of the repository.
pub mod Text
pub mod Url
use x402_worker_template.Prelude.{
  ℕ, String, Bool, true, false, Option, none, some, List, not, str_eq, if◌then◌else◌,
}

-- A value of type `unknown`. A finite number carries its JSON text. `instance` is an object whose
-- prototype is neither `Object.prototype` nor null; `other` is a bigint, function or symbol.
mutual
  pub data Value : Type 0 where
    undefined null not_finite : Value
    boolean : Bool → Value
    number : String → Value
    text : String → Value
    array : Items → Value
    object : Fields → Value
    instance_of : Fields → Value
    other : String → Value

  pub data Items : Type 0 where
    nil : Items
    cons : Value → Items → Items

  pub data Fields : Type 0 where
    end : Fields
    field : String → Value → Fields → Fields

-- `object[key]`: a missing property reads as `undefined`.
unfoldable pub get : String → Fields → Value
get key end = undefined
get key (field k v fs) = if str_eq k key then v else get key fs

-- `key in object`.
unfoldable pub has_key : String → Fields → Bool
has_key key end = false
has_key key (field k v fs) = if str_eq k key then true else has_key key fs

-- The properties of a value whose `typeof` is "object"; an array has none of the names read here.
abbrev pub as_object : Value → Option Fields
as_object (object fs) = some fs
as_object (instance_of fs) = some fs
as_object (array items) = some end
as_object v = none

-- Whether `!value` is false; the number that is not finite here is NaN.
abbrev pub is_truthy : Value → Bool
is_truthy undefined = false
is_truthy null = false
is_truthy not_finite = false
is_truthy (boolean b) = b
is_truthy (number n) = not (str_eq n "0")
is_truthy (text s) = not (str_eq s "")
is_truthy v = true

-- `value?.[key]` of a value that is no text.
abbrev pub property : String → Value → Value
property key v = elim (as_object v) [ some fs ↦ get key fs | none ↦ undefined ]

-- The platform: SHA-256 of a text's UTF-8 bytes, `JSON.parse` (`none` is a thrown SyntaxError)
-- and `JSON.stringify`.
pub record Platform : Type 0 where
  pub digest : String → List ℕ
  pub parse : String → Option Value
  pub stringify : Value → String
