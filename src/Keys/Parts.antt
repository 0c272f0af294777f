-- ===== src/Keys/Parts.antt =====
-- The groups of a match (Keys) make up the line, so a line that is set again is plain as before.
use mathlib.Core.List.{append_assoc}
use mathlib.Core.Option.{some_inj}
use reticle.Common.{
  ℕ, ◌==◌, Text, codes, is_space, index_of, includes, starts_with, [], ◌∷◌, ◌++◌, any, All, none,
  some, Bool, true, false, not, ◌≡◌, ◌≢◌, refl, sym, ap, ◌∙◌, arith, Bool-cases, List-cases, inl,
  inr,
}
use reticle.Common.Lines.{IsPlain}
use reticle.Keys.{
  span, is_name_start, is_name_code, is_terminator, VarLine, after_equals, at_equals, at_name,
  var_line, is_comment, read_line, is_variable_name,
}

span_parts : (p : ℕ → Bool) (s : Text) → (span p s).run ++ (span p s).rest ≡ s
unfolding span
span_parts p [] = refl
span_parts p (a ∷ s) = elim (Bool-cases (p a)) [
  | inl e ↦ rw e (ap (λ r. a ∷ r) (span_parts p s))
  | inr e ↦ rw e refl
]

abbrev whole : VarLine → Text
whole m = m.indent ++ (m.name ++ (m.equals ++ m.value))

after_equals-whole :
    (indent name before rest : Text) (m : VarLine)
    → after_equals indent name before (span is_space rest) ≡ some m
    → whole m ≡ indent ++ (name ++ (before ++ b'=' ∷ rest))
unfolding after_equals
after_equals-whole indent name before rest m h =
    elim (Bool-cases (any is_terminator (span is_space rest).rest)) [
      | inl k ↦ cc (rw (after_equals, k) at h)
      | inr k ↦
          ap whole (sym (some_inj.0 (rw (after_equals, k) at h)))
          ∙ ap (λ r. indent ++ (name ++ r))
              (append_assoc before (b'=' ∷ (span is_space rest).run) (span is_space rest).rest
                ∙ ap (λ r. before ++ b'=' ∷ r) (span_parts is_space rest))
    ]

at_equals-whole :
    (indent name s : Text) (m : VarLine)
    → at_equals indent name (span is_space s) ≡ some m
    → whole m ≡ indent ++ (name ++ s)
unfolding at_equals
at_equals-whole indent name s m h = elim (List-cases (span is_space s).rest) [
  | inl e ↦ cc (rw (at_equals, e) at h)
  | inr (c, rest, e) ↦ elim (Bool-cases (c == b'=')) [
    | inr k ↦ cc (rw (at_equals, e, k) at h)
    | inl k ↦
        let q : c ≡ b'=' = ground arith in
        after_equals-whole indent name (span is_space s).run rest m (rw (at_equals, e, k) at h)
        ∙ ap (λ r. indent ++ (name ++ r))
            (ap (λ d. (span is_space s).run ++ d ∷ rest) (sym q)
              ∙ ap (λ r. (span is_space s).run ++ r) (sym e)
              ∙ span_parts is_space s)
  ]
]

at_name-whole : (line : Text) (m : VarLine) → at_name (span is_space line) ≡ some m → whole m ≡ line
unfolding at_name
at_name-whole line m h = elim (List-cases (span is_space line).rest) [
  | inl e ↦ cc (rw (at_name, e) at h)
  | inr (c, rest, e) ↦ elim (Bool-cases (is_name_start c)) [
    | inr k ↦ cc (rw (at_name, e, k) at h)
    | inl k ↦
        at_equals-whole (span is_space line).run (span is_name_code (c ∷ rest)).run
          (span is_name_code (c ∷ rest)).rest m (rw (at_name, e, k) at h)
        ∙ ap (λ r. (span is_space line).run ++ r) (span_parts is_name_code (c ∷ rest) ∙ sym e)
        ∙ span_parts is_space line
  ]
]

-- The groups make up the line.
pub read_line-whole :
    (line : Text) (m : VarLine)
    → read_line line ≡ some m
    → m.indent ++ (m.name ++ (m.equals ++ m.value)) ≡ line
unfolding read_line var_line
read_line-whole line m h = elim (Bool-cases (is_comment line)) [
  | inl e ↦ cc (rw e at h)
  | inr e ↦ at_name-whole line m (rw e at h)
]

module _ (P : ℕ → Type 0) where
  pub All-split : (xs ys : Text) → All P (xs ++ ys) → All P xs × All P ys
  All-split [] ys h = (tt, h)
  All-split (x ∷ xs) ys h = let (a, b) = All-split xs ys h.1 in ((h.0, a), b)

pub value-IsPlain : (s : Text) → any is_terminator s ≡ false → IsPlain s
unfolding is_terminator
value-IsPlain [] h = tt
value-IsPlain (a ∷ s) h = ground (arith, value-IsPlain s)

name_code-IsPlain : (a : ℕ) → is_name_code a ≡ true → (a ≢ 10) × (a ≢ 13)
unfolding is_name_code is_name_start
name_code-IsPlain a h = ground arith

includes_line_feed : (s : Text) → any is_terminator s ≡ false → index_of s (10 ∷ []) ≡ none
unfolding index_of starts_with is_terminator
includes_line_feed [] h = refl
includes_line_feed (a ∷ s) h = ground (arith, includes_line_feed s)

-- A value without line ends has no line feed.
pub includes-terminator : (s : Text) → any is_terminator s ≡ false → includes s (codes "\n") ≡ false
unfolding includes
includes-terminator s h = rw (includes_line_feed s h) refl

names-IsPlain : (s : Text) → any (λ d. not (is_name_code d)) s ≡ false → IsPlain s
names-IsPlain [] h = tt
names-IsPlain (a ∷ s) h = ground (arith, name_code-IsPlain a, names-IsPlain s)

name_start-IsPlain : (a : ℕ) → is_name_start a ≡ true → (a ≢ 10) × (a ≢ 13)
unfolding is_name_start
name_start-IsPlain a h = ground arith

pub name-IsPlain : (s : Text) → is_variable_name s ≡ true → IsPlain s
unfolding is_variable_name
name-IsPlain [] h = tt
name-IsPlain (a ∷ s) h = ground (arith, name_start-IsPlain a, names-IsPlain s)
