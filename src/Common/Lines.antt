-- ===== src/Common/Lines.antt =====
-- Lines of a text (`split(/\r?\n/)`, `join('\n')`), and what `trim` leaves.
use Prim.Native.Nat.{ℕ}
use mathlib.Core.Path.{◌≡◌, refl, ap, ◌∙◌}
use mathlib.Core.Logic.{◌≢◌, inl, inr}
use mathlib.Core.Bool.{Bool, true, false, ◌&&◌}
use mathlib.Core.List.{List, [], ◌∷◌, ◌++◌}
use native.Mathlib.Omega.{arith}
use reticle.Common.Tests.{◌==◌, if◌then◌else◌, Bool-cases, List-cases}
use reticle.Common.Lists.{All, All-append, filter}
use reticle.Common.Strings.{Text, join}

-- A code unit before the first line.
abbrev pub put_first : ℕ → List Text → List Text
put_first a [] = (a ∷ []) ∷ []
put_first a (t ∷ ts) = (a ∷ t) ∷ ts

abbrev pub starts_line_feed : Text → Bool
starts_line_feed [] = false
starts_line_feed (b ∷ s) = b == 10

-- `s.split(/\r?\n/)`: a carriage return before a line feed goes with it.
unfoldable pub split_lines : Text → List Text
split_lines [] = [] ∷ []
split_lines (a ∷ s) =
    let rest = split_lines s in
    if a == 10 then [] ∷ rest else if a == 13 && starts_line_feed s then rest else put_first a rest

-- A line without line feeds and carriage returns.
abbrev pub IsPlain : Text → Type 0
IsPlain = All (λ a. (a ≢ 10) × (a ≢ 13))

pub split_lines-line : (l s : Text) → IsPlain l → split_lines (l ++ 10 ∷ s) ≡ l ∷ split_lines s
unfolding split_lines
split_lines-line [] s h = refl
split_lines-line (a ∷ l) s h = ground (arith, split_lines-line l s h.1)

-- `s.replace(/\n+$/, '')`
unfoldable pub strip_line_feeds : Text → Text
strip_line_feeds [] = []
strip_line_feeds (a ∷ s) = elim (strip_line_feeds s) [
  | [] ↦ if a == 10 then [] else a ∷ []
  | b ∷ t ↦ a ∷ b ∷ t
]

abbrev first : List Text → Text
first [] = []
first (t ∷ ts) = t

abbrev others : List Text → List Text
others [] = []
others (t ∷ ts) = ts

abbrev pub is_filled : Text → Bool
is_filled [] = false
is_filled (_ ∷ _) = true

-- Lines but for the empty ones after the first.
abbrev SameLines : List Text → List Text → Type 0
SameLines ls ms =
    (first ls ≡ first ms) × (filter is_filled (others ls) ≡ filter is_filled (others ms))

abbrev HasNoReturns : Text → Type 0
HasNoReturns = All (λ a. a ≢ 13)

put_first-SameLines :
    (a : ℕ) (ls ms : List Text) → SameLines ls ms → SameLines (put_first a ls) (put_first a ms)
put_first-SameLines a [] [] h = ground arith
put_first-SameLines a [] (m ∷ ms) h = ground arith
put_first-SameLines a (l ∷ ls) [] h = ground arith
put_first-SameLines a (l ∷ ls) (m ∷ ms) h = ground arith

break-SameLines : (ls ms : List Text) → SameLines ls ms → SameLines ([] ∷ ls) ([] ∷ ms)
break-SameLines [] [] h = ground arith
break-SameLines [] (m ∷ ms) h = ground arith
break-SameLines (l ∷ ls) [] h = ground arith
break-SameLines (l ∷ ls) (m ∷ ms) h = ground arith

unit-SameLines :
    (a : ℕ) (t s : Text)
    → a ≢ 13
    → SameLines (split_lines t) (split_lines s)
    → SameLines (split_lines (a ∷ t)) (split_lines (a ∷ s))
unfolding split_lines
unit-SameLines a t s n h = elim (Bool-cases (a == 10)) [
  | inl e ↦ rw e (break-SameLines (split_lines t) (split_lines s) h)
  | inr e ↦
      let k : (a == 13) ≡ false = ground arith in
      rw (e, k) (put_first-SameLines a (split_lines t) (split_lines s) h)
]

empty-SameLines :
    (ls : List Text) → SameLines ([] ∷ [] ∷ []) ls → SameLines ([] ∷ [] ∷ []) ([] ∷ ls)
empty-SameLines [] h = ground arith
empty-SameLines (l ∷ ls) h = ground arith

feed-SameLines :
    (a : ℕ) (s : Text)
    → (a == 10) ≡ true
    → SameLines (split_lines (10 ∷ [])) (split_lines s)
    → SameLines (split_lines (10 ∷ [])) (split_lines (a ∷ s))
unfolding split_lines
feed-SameLines a s e h = rw e (empty-SameLines (split_lines s) h)

nil-SameLines : SameLines (split_lines (10 ∷ [])) (split_lines [])
unfolding split_lines
nil-SameLines = (refl, refl)

ended-SameLines :
    (s : Text)
    → HasNoReturns s
    → SameLines (split_lines (strip_line_feeds s ++ 10 ∷ [])) (split_lines s)
unfolding strip_line_feeds
ended-SameLines [] h = nil-SameLines
ended-SameLines (a ∷ s) (n, h) = elim (List-cases (strip_line_feeds s)) [
  | inr (b, t, e) ↦ rw e (unit-SameLines a (b ∷ t ++ 10 ∷ []) s n (rw e at (ended-SameLines s h)))
  | inl e ↦ rw e (elim (Bool-cases (a == 10)) [
    | inl k ↦ rw k (feed-SameLines a s k (rw e at (ended-SameLines s h)))
    | inr k ↦ rw k (unit-SameLines a (10 ∷ []) s n (rw e at (ended-SameLines s h)))
  ])
]

split_lines-plain : (l : Text) → IsPlain l → split_lines l ≡ l ∷ []
unfolding split_lines
split_lines-plain [] h = refl
split_lines-plain (a ∷ l) h = ground (arith, split_lines-plain l h.1)

split_lines-join :
    (l : Text) (ls : List Text)
    → All IsPlain (l ∷ ls)
    → split_lines (join (10 ∷ []) (l ∷ ls)) ≡ l ∷ ls
unfolding join
split_lines-join l [] h = split_lines-plain l h.0
split_lines-join l (m ∷ ls) h =
    split_lines-line l (join (10 ∷ []) (m ∷ ls)) h.0 ∙ ap (λ r. l ∷ r) (split_lines-join m ls h.1)

plain-HasNoReturns : (l : Text) → IsPlain l → HasNoReturns l
plain-HasNoReturns [] h = tt
plain-HasNoReturns (a ∷ l) h = (h.0.1, plain-HasNoReturns l h.1)

join-HasNoReturns : (ls : List Text) → All IsPlain ls → HasNoReturns (join (10 ∷ []) ls)
unfolding join
join-HasNoReturns [] h = tt
join-HasNoReturns (l ∷ []) h = plain-HasNoReturns l h.0
join-HasNoReturns (l ∷ m ∷ ls) h =
    All-append (λ a. a ≢ 13) l (10 ∷ join (10 ∷ []) (m ∷ ls)) (plain-HasNoReturns l h.0)
      ((λ e. absurd (omega arith)), join-HasNoReturns (m ∷ ls) h.1)

filled-SameLines : (ls ms : List Text) → SameLines ls ms → filter is_filled ls ≡ filter is_filled ms
filled-SameLines [] [] h = refl
filled-SameLines [] (m ∷ ms) h = ground arith
filled-SameLines (l ∷ ls) [] h = ground arith
filled-SameLines (l ∷ ls) (m ∷ ms) h = ground arith

-- Lines that are joined, and whose final line feeds are replaced by one, are read as the same lines,
-- but for empty ones.
pub split_lines-body :
    (ls : List Text)
    → All IsPlain ls
    → filter is_filled (split_lines (strip_line_feeds (join (10 ∷ []) ls) ++ 10 ∷ []))
      ≡ filter is_filled ls
unfolding split_lines join strip_line_feeds
split_lines-body [] h = refl
split_lines-body (l ∷ ls) h =
    filled-SameLines (split_lines (strip_line_feeds (join (10 ∷ []) (l ∷ ls)) ++ 10 ∷ []))
      (split_lines (join (10 ∷ []) (l ∷ ls)))
      (ended-SameLines (join (10 ∷ []) (l ∷ ls)) (join-HasNoReturns (l ∷ ls) h))
    ∙ ap (filter is_filled) (split_lines-join l ls h)
