-- ===== src/Common/Trimming.antt =====
-- What `trim` leaves (Common.Strings): a text that begins and ends with no white space.
use Prim.Native.Nat.{ℕ}
use mathlib.Core.Path.{◌≡◌, refl, sym, ap, ◌∙◌}
use mathlib.Core.Logic.{inl, inr}
use mathlib.Core.Bool.{true, false}
use mathlib.Core.List.{[], ◌∷◌, ◌++◌, reverse, reverse-append}
use native.Mathlib.Omega.{arith}
use reticle.Common.Tests.{if◌then◌else◌, Bool-cases}
use reticle.Common.Lists.{All}
use reticle.Common.Strings.{Text, trim, trim_start, is_space}

-- `trimEnd`, from the front
trim_end : Text → Text
trim_end [] = []
trim_end (a ∷ s) = elim (trim_end s) [ [] ↦ if is_space a then [] else a ∷ [] | b ∷ t ↦ a ∷ b ∷ t ]

trim_start-append :
    (s : Text) (a : ℕ)
    → trim_start (s ++ a ∷ [])
      ≡ (elim (trim_start s) [ [] ↦ if is_space a then [] else a ∷ [] | b ∷ t ↦ b ∷ t ++ a ∷ [] ])
unfolding trim_start
trim_start-append [] a = refl
trim_start-append (b ∷ s) a = ground (arith, trim_start-append s a)

reverse-cons : (s : Text) (a : ℕ) → reverse (a ∷ s) ≡ reverse s ++ a ∷ []
reverse-cons s a = reverse-append (a ∷ []) s

-- A text with one more code unit before it, unless that is white space before nothing.
abbrev join_unit : ℕ → Text → Text
join_unit a [] = if is_space a then [] else a ∷ []
join_unit a (b ∷ t) = a ∷ b ∷ t

join_unit-filled : (a : ℕ) (s : Text) (b : ℕ) → join_unit a (s ++ b ∷ []) ≡ a ∷ (s ++ b ∷ [])
join_unit-filled a [] b = refl
join_unit-filled a (c ∷ s) b = refl

reverse-join_unit :
    (a : ℕ) (t : Text)
    → reverse (elim t [ [] ↦ if is_space a then [] else a ∷ [] | b ∷ u ↦ b ∷ u ++ a ∷ [] ])
      ≡ join_unit a (reverse t)
reverse-join_unit a [] = elim (Bool-cases (is_space a)) [ inl e ↦ rw e refl | inr e ↦ rw e refl ]
reverse-join_unit a (b ∷ t) =
    reverse-append (b ∷ t) (a ∷ [])
    ∙ ap (λ r. a ∷ r) (reverse-cons t b)
    ∙ sym (join_unit-filled a (reverse t) b)
    ∙ ap (join_unit a) (sym (reverse-cons t b))

trim_end-cons : (a : ℕ) (s : Text) → trim_end (a ∷ s) ≡ join_unit a (trim_end s)
unfolding trim_end
trim_end-cons a s = ground arith

trim_end_lem : (s : Text) → reverse (trim_start (reverse s)) ≡ trim_end s
unfolding trim_end trim_start
trim_end_lem [] = refl
trim_end_lem (a ∷ s) =
    rw (reverse-cons s a, trim_start-append (reverse s) a)
      (reverse-join_unit a (trim_start (reverse s))
        ∙ ap (join_unit a) (trim_end_lem s)
        ∙ sym (trim_end-cons a s))

-- No white space in front.
abbrev pub Starts : Text → Type 0
Starts [] = Unit
Starts (a ∷ s) = is_space a ≡ false

trim_start-Starts : (s : Text) → Starts (trim_start s)
unfolding trim_start
trim_start-Starts [] = tt
trim_start-Starts (a ∷ s) = ground (arith, trim_start-Starts s)

pub trim_start_same : (s : Text) → Starts s → trim_start s ≡ s
unfolding trim_start
trim_start_same [] h = refl
trim_start_same (a ∷ s) h = ground arith

join_unit-Starts : (a : ℕ) (s : Text) → is_space a ≡ false → Starts (join_unit a s)
join_unit-Starts a [] h = rw h h
join_unit-Starts a (b ∷ s) h = h

trim_end-Starts : (s : Text) → Starts s → Starts (trim_end s)
unfolding trim_end
trim_end-Starts [] h = tt
trim_end-Starts (a ∷ s) h = rw (trim_end-cons a s) (join_unit-Starts a (trim_end s) h)

trim_end-join_unit : (a : ℕ) (s : Text) → trim_end s ≡ s → trim_end (join_unit a s) ≡ join_unit a s
unfolding trim_end
trim_end-join_unit a [] h = elim (Bool-cases (is_space a)) [
  | inl e ↦ rw e refl
  | inr e ↦ rw (e, e) refl
]
trim_end-join_unit a (b ∷ s) h = rw (trim_end-cons a (b ∷ s), h) refl

trim_end_idem : (s : Text) → trim_end (trim_end s) ≡ trim_end s
unfolding trim_end
trim_end_idem [] = refl
trim_end_idem (a ∷ s) = rw (trim_end-cons a s) (trim_end-join_unit a (trim_end s) (trim_end_idem s))

trim_lem : (s : Text) → trim s ≡ trim_end (trim_start s)
unfolding trim
trim_lem s = trim_end_lem (trim_start s)

pub trim-Starts : (s : Text) → Starts (trim s)
trim-Starts s = rw (trim_lem s) (trim_end-Starts (trim_start s) (trim_start-Starts s))

-- What is trimmed stays as it is.
pub trim_idem : (s : Text) → trim (trim s) ≡ trim s
trim_idem s =
    rw (trim_lem (trim s), trim_start_same (trim s) (trim-Starts s), trim_lem s)
      (trim_end_idem (trim_start s))

trim_end_empty : (s : Text) → trim_end s ≡ [] → All (λ a. is_space a ≡ true) s
unfolding trim_end
trim_end_empty [] h = tt
trim_end_empty (a ∷ s) h = ground (arith, trim_end_empty s)

trim_start_empty :
    (s : Text) → All (λ a. is_space a ≡ true) (trim_start s) → All (λ a. is_space a ≡ true) s
unfolding trim_start
trim_start_empty [] h = tt
trim_start_empty (a ∷ s) h = elim (Bool-cases (is_space a)) [
  | inl e ↦ (e, trim_start_empty s (rw e at h))
  | inr e ↦ rw e at h
]

-- A text of which trimming leaves nothing is white space.
pub trim_empty : (s : Text) → trim s ≡ [] → All (λ a. is_space a ≡ true) s
trim_empty s h = trim_start_empty s (trim_end_empty (trim_start s) (sym (trim_lem s) ∙ h))
