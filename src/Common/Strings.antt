-- ===== src/Common/Strings.antt =====
-- JavaScript strings as lists of UTF-16 code units, and the string methods that Studio uses.
use Prim.Native.Char.{code}
use Prim.Native.String.{String}
use Prim.Native.Nat.{ℕ, zero, suc, ◌+◌, ◌-◌, ◌/◌, ◌%◌}
use mathlib.Core.Path.{◌≡◌, refl}
use mathlib.Core.Logic.{◌↔◌}
use mathlib.Core.Bool.{Bool, true, false, ◌&&◌, ◌||◌}
use mathlib.Core.List.{List, [], ◌∷◌, ◌++◌, reverse, map}
use mathlib.Core.Option
use mathlib.Core.Option.{Option, none, some}
use native.Mathlib.Omega.{arith}
use reticle.Common.Tests.{◌==◌, leb, if◌then◌else◌, is_some}
use reticle.Common.Lists.{take, drop}

abbrev pub Text : Type 0
Text = List ℕ

-- The code units of a literal: each code point of the literals used is below 0x10000.
abbrev pub codes : String → Text
codes String.[] = []
codes (String.◌∷◌ c s) = code c ∷ codes s

-- `a === b`
unfoldable pub same : Text → Text → Bool
same [] [] = true
same (a ∷ s) (b ∷ t) = a == b && same s t
same _ _ = false

pub same_iff : (s t : Text) → (same s t ≡ true) ↔ (s ≡ t)
unfolding same
same_iff [] [] = ground arith
same_iff [] (b ∷ t) = ground arith
same_iff (a ∷ s) [] = ground arith
same_iff (a ∷ s) (b ∷ t) = ground (arith, same_iff s t)

pub same_refl : (s : Text) → same s s ≡ true
same_refl s = (same_iff s s).1 refl

pub same_sym : (s t : Text) → same s t ≡ same t s
same_sym s t = ground (arith, same_iff s t, same_iff t s)

-- `list.includes(s)`, and membership in a `Set` of strings
unfoldable pub contains : Text → List Text → Bool
contains s [] = false
contains s (t ∷ ts) = same t s || contains s ts

-- `s.startsWith(t)`
unfoldable pub starts_with : Text → Text → Bool
starts_with s [] = true
starts_with [] (b ∷ t) = false
starts_with (a ∷ s) (b ∷ t) = a == b && starts_with s t

-- `s.endsWith(t)`
unfoldable pub ends_with : Text → Text → Bool
unfolding starts_with
ends_with s t = starts_with (reverse s) (reverse t)

-- `s.indexOf(t)`, with -1 as `none`
unfoldable pub index_of : Text → Text → Option ℕ
unfolding starts_with
index_of [] t = if starts_with [] t then some 0 else none
index_of (a ∷ s) t =
    let rest = Option.map suc (index_of s t) in if starts_with (a ∷ s) t then some 0 else rest

-- `s.includes(t)`
unfoldable pub includes : Text → Text → Bool
unfolding index_of
includes s t = is_some (index_of s t)

-- `s.slice(from, to)` for 0 ≤ from
abbrev pub slice : Text → ℕ → ℕ → Text
slice s from to = take (to - from) (drop from s)

-- `s.lastIndexOf(c)` for one code unit, with -1 as `none`
unfoldable pub last_index_of : Text → ℕ → Option ℕ
last_index_of [] c = none
last_index_of (a ∷ s) c = elim (last_index_of s c) [
  | some i ↦ some (suc i)
  | none ↦ if a == c then some 0 else none
]

-- `s.split(c)` for one code unit
unfoldable pub split : ℕ → Text → List Text
split c [] = [] ∷ []
split c (a ∷ s) = elim (split c s) [
  | [] ↦ (a ∷ []) ∷ []
  | t ∷ ts ↦ if a == c then [] ∷ t ∷ ts else (a ∷ t) ∷ ts
]

-- `parts.join(sep)`
unfoldable pub join : Text → List Text → Text
join sep [] = []
join sep (t ∷ []) = t
join sep (t ∷ u ∷ ts) = t ++ (sep ++ join sep (u ∷ ts))

-- The code units that `\s` and `trim` take for white space (ECMAScript WhiteSpace, LineTerminator).
unfoldable pub is_space : ℕ → Bool
is_space c =
    c == 0x20
    || leb 9 c && leb c 13
    || c == 0xa0
    || c == 0x1680
    || leb 0x2000 c && leb c 0x200a
    || c == 0x2028
    || c == 0x2029
    || c == 0x202f
    || c == 0x205f
    || c == 0x3000
    || c == 0xfeff

-- `s.trimStart()`
unfoldable pub trim_start : Text → Text
unfolding is_space
trim_start [] = []
trim_start (a ∷ s) = let rest = trim_start s in if is_space a then rest else a ∷ s

-- `s.trim()`
unfoldable pub trim : Text → Text
unfolding trim_start
trim s = reverse (trim_start (reverse (trim_start s)))

-- `toLowerCase` on the ASCII letters, which are all that the compared literals hold. A text with
-- other letters keeps them.
unfoldable pub lower_code : ℕ → ℕ
lower_code c = if leb b'A' c && leb c b'Z' then c + 32 else c

unfoldable pub lower : Text → Text
unfolding lower_code
lower s = map lower_code s

-- `s || ''` for an optional string
abbrev pub or_empty : Option Text → Text
or_empty none = []
or_empty (some s) = s

-- `String(n)` of a natural number, by its digits on fuel: a number below 10 ^ fuel is whole.
digits : ℕ → ℕ → Text → Text
digits zero n rest = rest
digits (suc f) n rest =
    let d = b'0' + n % 10 in
    let more = digits f (n / 10) (d ∷ rest) in if n / 10 == 0 then d ∷ rest else more

unfoldable pub decimal : ℕ → Text
unfolding digits
decimal n = digits (suc n) n []
