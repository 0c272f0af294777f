-- ===== src/Json.antt =====
-- JSON values as the payloads carry them (`unknown` in the TypeScript sources), and the reads that
-- the code makes of them. A number is an integer; fractions are left out. An object lists its own
-- entries in the order of their enumeration, each key once.
pub mod Stringify
use native.Mathlib.Decide.{ℕ_discrete}
use reticle.Common.{
  ℕ, suc, Text, codes, same, List, [], ◌∷◌, Option, none, some, Bool, true, false, ◌&&◌, not,
  if◌then◌else◌, ◌==◌, ◌++◌, decimal, ◌≡◌,
}

-- `negsuc n` is -(n + 1).
pub data ℤ : Type 0 where
  pos : ℕ → ℤ
  negsuc : ℕ → ℤ

pub ℤ-discrete : Discrete ℤ
ℤ-discrete = hlevel ℕ_discrete

mutual
  pub data Json : Type 0 where
    null : Json
    boolean : Bool → Json
    number : ℤ → Json
    text : Text → Json
    array : Items → Json
    object : Fields → Json

  pub data Items : Type 0 where
    nil : Items
    cons : Json → Items → Items

  pub data Fields : Type 0 where
    end : Fields
    field : Text → Json → Fields → Fields

abbrev pub elements : Items → List Json
elements nil = []
elements (cons v vs) = v ∷ elements vs

abbrev pub of_list : List Json → Items
of_list [] = nil
of_list (v ∷ vs) = cons v (of_list vs)

-- `Object.entries(o)`
abbrev pub entries : Fields → List (Text × Json)
entries end = []
entries (field k v fs) = (k, v) ∷ entries fs

unfoldable pub get_field : Text → Fields → Option Json
get_field k end = none
get_field k (field j v fs) = if same j k then some v else get_field k fs

-- `p.k`, with `undefined` as `none`: of a value that is no object every field is undefined.
unfoldable pub get : Text → Json → Option Json
unfolding get_field
get k (object fs) = get_field k fs
get k _ = none

-- `p?.k ?? undefined`: a field that is null is taken for an absent one.
abbrev pub defined : Option Json → Option Json
defined none = none
defined (some null) = none
defined (some v) = some v

-- A value of a field that the interfaces declare as an optional string.
abbrev pub as_text : Option Json → Option Text
as_text (some (text s)) = some s
as_text _ = none

-- `str(value)` of ids.ts: a string that is not empty.
abbrev pub non_empty : Text → Option Text
non_empty [] = none
non_empty (c ∷ s) = some (c ∷ s)

unfoldable pub str : Option Json → Option Text
str (some (text s)) = non_empty s
str _ = none

-- `Boolean(value)`
unfoldable pub truthy : Option Json → Bool
truthy none = false
truthy (some null) = false
truthy (some (boolean b)) = b
truthy (some (number (pos n))) = not (n == 0)
truthy (some (number (negsuc n))) = true
truthy (some (text s)) = not (same s [])
truthy (some (array vs)) = true
truthy (some (object fs)) = true

-- `typeof value === 'object' && value !== null`
abbrev pub is_object : Json → Bool
is_object (array _) = true
is_object (object _) = true
is_object _ = false

-- `{...o, k: v}`
unfoldable pub with_field : Text → Json → Fields → Fields
with_field k v end = field k v end
with_field k v (field j w fs) = if same j k then field j v fs else field j w (with_field k v fs)

unfoldable pub decimal_int : ℤ → Text
decimal_int (pos n) = decimal n
decimal_int (negsuc n) = b'-' ∷ decimal (suc n)

-- `String(value)`: an array joins its elements, of which null is the empty text.
unfoldable mutual
  unfolding decimal_int

  pub string_of : Json → Text
  string_of null = codes "null"
  string_of (boolean true) = codes "true"
  string_of (boolean false) = codes "false"
  string_of (number n) = decimal_int n
  string_of (text s) = s
  string_of (array vs) = string_items vs
  string_of (object fs) = codes "[object Object]"

  pub string_items : Items → Text
  string_items nil = []
  string_items (cons v nil) = string_element v
  string_items (cons v (cons w vs)) = string_element v ++ (codes "," ++ string_items (cons w vs))

  pub string_element : Json → Text
  string_element null = []
  string_element (boolean true) = codes "true"
  string_element (boolean false) = codes "false"
  string_element (number n) = decimal_int n
  string_element (text s) = s
  string_element (array vs) = string_items vs
  string_element (object fs) = codes "[object Object]"

-- `String(value ?? otherwise)`
abbrev pub string_or : Text → Option Json → Text
string_or otherwise v = elim (defined v) [ none ↦ otherwise | some w ↦ string_of w ]
