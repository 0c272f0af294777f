-- ===== src/Keys/Groups.antt =====
-- The lines of the `.env` file (Keys): what the groups of a match on a line are.
use mathlib.Core.Option.{some_inj}
use reticle.Common.{
  ℕ, ◌==◌, Text, is_space, [], ◌∷◌, ◌++◌, any, All, some, Bool, true, false, not, ◌≡◌, refl, arith,
  Bool-cases, List-cases, subst, inl, inr,
}
use reticle.Keys.{
  span, is_name_start, is_name_code, is_terminator, VarLine, after_equals, at_equals, at_name,
  var_line, is_variable_name,
}

-- The next code unit, if there is one, is not of a class.
abbrev pub Stops : (ℕ → Bool) → Text → Type 0
Stops p [] = Unit
Stops p (a ∷ s) = p a ≡ false

module _ (p : ℕ → Bool) where
  pub span-append :
      (run rest : Text)
      → All (λ a. p a ≡ true) run
      → Stops p rest
      → span p (run ++ rest) ≡ record { run = run; rest = rest }
  unfolding span
  span-append [] [] h k = refl
  span-append [] (a ∷ s) h k = rw k refl
  span-append (a ∷ run) rest h k = rw (h.0, span-append run rest h.1 k) refl

  span-All : (s : Text) → All (λ a. p a ≡ true) (span p s).run
  unfolding span
  span-All [] = tt
  span-All (a ∷ s) = elim (Bool-cases (p a)) [ inl e ↦ rw e (e, span-All s) | inr e ↦ rw e tt ]

-- What the groups of a match are.
pub record IsVarLine (m : VarLine) : Type 0 where
  pub indent : All (λ a. is_space a ≡ true) m.indent
  pub name : is_variable_name m.name ≡ true
  pub before : Text
  pub before_space : All (λ a. is_space a ≡ true) before
  pub after : Text
  pub after_space : All (λ a. is_space a ≡ true) after
  pub equals : m.equals ≡ before ++ b'=' ∷ after

All-not-any :
    (s : Text) → All (λ a. is_name_code a ≡ true) s → any (λ d. not (is_name_code d)) s ≡ false
All-not-any [] h = refl
All-not-any (a ∷ s) h = rw h.0 (All-not-any s h.1)

not-any-All :
    (s : Text) → any (λ d. not (is_name_code d)) s ≡ false → All (λ a. is_name_code a ≡ true) s
not-any-All [] h = tt
not-any-All (a ∷ s) h = ground (arith, not-any-All s)

name_start-code : (c : ℕ) → is_name_start c ≡ true → is_name_code c ≡ true
unfolding is_name_code
name_start-code c h = rw h refl

not-true : (b : Bool) → not b ≡ true → b ≡ false
not-true true h = cc
not-true false h = refl

pub name_start-not_space :
    (c : ℕ) → is_name_start c ≡ true → (is_space c ≡ false) × ((c == b'#') ≡ false)
unfolding is_name_start is_space
name_start-not_space c h = ground arith

pub space-not_name : (c : ℕ) → is_space c ≡ true → (is_name_code c ≡ false) × ((c == b'=') ≡ false)
unfolding is_name_code is_name_start is_space
space-not_name c h = ground arith

after_equals-IsVarLine :
    (indent name before : Text) (after : Text) (m : VarLine)
    → All (λ a. is_space a ≡ true) indent
    → is_variable_name name ≡ true
    → All (λ a. is_space a ≡ true) before
    → after_equals indent name before (span is_space after) ≡ some m
    → IsVarLine m
unfolding after_equals
after_equals-IsVarLine indent name before after m i n b h =
    elim (Bool-cases (any is_terminator (span is_space after).rest)) [
      | inl k ↦ cc (rw (after_equals, k) at h)
      | inr k ↦ subst IsVarLine (some_inj.0 (rw (after_equals, k) at h)) (record {
        indent = i;
        name = n;
        before = before;
        before_space = b;
        after = (span is_space after).run;
        after_space = span-All is_space after;
        equals = refl;
      })
    ]

at_equals-IsVarLine :
    (indent name s : Text) (m : VarLine)
    → All (λ a. is_space a ≡ true) indent
    → is_variable_name name ≡ true
    → at_equals indent name (span is_space s) ≡ some m
    → IsVarLine m
unfolding at_equals
at_equals-IsVarLine indent name s m i n h = elim (List-cases (span is_space s).rest) [
  | inl e ↦ cc (rw (at_equals, e) at h)
  | inr (c, rest, e) ↦ elim (Bool-cases (c == b'=')) [
    | inr k ↦ cc (rw (at_equals, e, k) at h)
    | inl k ↦
        after_equals-IsVarLine indent name (span is_space s).run rest m i n (span-All is_space s)
          (rw (at_equals, e, k) at h)
  ]
]

pub is_variable_name-All :
    (s : Text) → is_variable_name s ≡ true → All (λ a. is_name_code a ≡ true) s
unfolding is_variable_name
is_variable_name-All [] h = tt
is_variable_name-All (c ∷ s) h = elim (Bool-cases (is_name_start c)) [
  | inl k ↦ (name_start-code c k, not-any-All s (not-true _ (rw k at h)))
  | inr k ↦ cc (rw k at h)
]

span-is_variable_name :
    (c : ℕ) (rest : Text)
    → is_name_start c ≡ true
    → is_variable_name (span is_name_code (c ∷ rest)).run ≡ true
unfolding is_variable_name span
span-is_variable_name c rest k =
    rw
      (
        name_start-code c k,
        k,
        All-not-any (span is_name_code rest).run (span-All is_name_code rest),
      )
      refl

at_name-IsVarLine :
    (line : Text) (m : VarLine) → at_name (span is_space line) ≡ some m → IsVarLine m
unfolding at_name
at_name-IsVarLine line m h = elim (List-cases (span is_space line).rest) [
  | inl e ↦ cc (rw (at_name, e) at h)
  | inr (c, rest, e) ↦ elim (Bool-cases (is_name_start c)) [
    | inr k ↦ cc (rw (at_name, e, k) at h)
    | inl k ↦
        at_equals-IsVarLine (span is_space line).run (span is_name_code (c ∷ rest)).run
          (span is_name_code (c ∷ rest)).rest m (span-All is_space line)
          (span-is_variable_name c rest k) (rw (at_name, e, k) at h)
  ]
]

pub var_line-IsVarLine : (line : Text) (m : VarLine) → var_line line ≡ some m → IsVarLine m
unfolding var_line
var_line-IsVarLine line m h = at_name-IsVarLine line m h
