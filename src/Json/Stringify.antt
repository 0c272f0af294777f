-- ===== src/Json/Stringify.antt =====
-- `JSON.stringify` without indentation.
use reticle.Common.{
  ℕ, ◌+◌, ◌/◌, ◌%◌, Text, codes, [], ◌∷◌, ◌++◌, Bool, true, false, ◌&&◌, leb, ltb, ◌==◌,
  if◌then◌else◌,
}
use reticle.Json.{
  Json, null, boolean, number, text, array, object, Items, nil, cons, Fields, end, field,
  decimal_int,
}

hex_digit : ℕ → ℕ
hex_digit d = if ltb d 10 then b'0' + d else 87 + d

unicode_escape : ℕ → Text
unfolding hex_digit
unicode_escape c =
    codes "\\u"
    ++ hex_digit (c / 4096)
      ∷ hex_digit (c / 256 % 16)
      ∷ hex_digit (c / 16 % 16)
      ∷ hex_digit (c % 16)
      ∷ []

escaped : ℕ → Text
unfolding unicode_escape
escaped c =
    if c == b'"'
    then codes "\\\""
    else if c == 92
    then codes "\\\\"
    else if c == 8
    then codes "\\b"
    else if c == 12
    then codes "\\f"
    else if c == 10
    then codes "\\n"
    else if c == 13
    then codes "\\r"
    else if c == 9
    then codes "\\t"
    else if ltb c 32
    then unicode_escape c
    else c ∷ []

is_high : ℕ → Bool
is_high c = leb 0xd800 c && leb c 0xdbff

is_low : ℕ → Bool
is_low c = leb 0xdc00 c && leb c 0xdfff

-- A surrogate that has no partner is escaped.
quoted_units : Text → Text
unfolding escaped is_high is_low
quoted_units [] = []
quoted_units (c ∷ []) =
    if is_high c then unicode_escape c else if is_low c then unicode_escape c else escaped c
quoted_units (c ∷ d ∷ s) =
    let pair = c ∷ d ∷ quoted_units s in
    let rest = quoted_units (d ∷ s) in
    if is_high c
    then (if is_low d then pair else unicode_escape c ++ rest)
    else if is_low c
    then unicode_escape c ++ rest
    else escaped c ++ rest

quoted : Text → Text
unfolding quoted_units
quoted s = codes "\"" ++ (quoted_units s ++ codes "\"")

unfoldable mutual
  unfolding quoted decimal_int

  pub stringify : Json → Text
  stringify null = codes "null"
  stringify (boolean true) = codes "true"
  stringify (boolean false) = codes "false"
  stringify (number n) = decimal_int n
  stringify (text s) = quoted s
  stringify (array vs) = codes "[" ++ (stringify_items vs ++ codes "]")
  stringify (object fs) = codes "{" ++ (stringify_fields fs ++ codes "}")

  pub stringify_items : Items → Text
  stringify_items nil = []
  stringify_items (cons v nil) = stringify v
  stringify_items (cons v (cons w vs)) = stringify v ++ (codes "," ++ stringify_items (cons w vs))

  pub stringify_fields : Fields → Text
  stringify_fields end = []
  stringify_fields (field k v end) = quoted k ++ (codes ":" ++ stringify v)
  stringify_fields (field k v (field j w fs)) =
      quoted k ++ (codes ":" ++ (stringify v ++ (codes "," ++ stringify_fields (field j w fs))))
