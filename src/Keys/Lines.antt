-- ===== src/Keys/Lines.antt =====
-- The lines of the `.env` file (Keys): a line with another value is matched with that value.
use mathlib.Core.List.{append_assoc}
use reticle.Common.{
  ℕ, Text, codes, is_space, [], ◌∷◌, ◌++◌, any, All, none, some, true, false, ◌≡◌, refl, sym, ap,
  ◌∙◌, Bool-cases, inl, inr,
}
use reticle.Common.Trimming.{Starts}
use reticle.Keys.{
  Span, span, is_name_start, is_name_code, is_terminator, VarLine, after_equals, at_equals, at_name,
  var_line, is_comment, read_line, is_variable_name,
}
use reticle.Keys.Groups.{
  IsVarLine, Stops, is_variable_name-All, name_start-not_space, space-not_name, span-append,
  var_line-IsVarLine,
}

-- A name, and where the line goes on behind it.
span-name :
    (name rest : Text)
    → is_variable_name name ≡ true
    → Stops is_name_code rest
    → span is_name_code (name ++ rest) ≡ record { run = name; rest = rest }
unfolding is_variable_name
span-name [] rest h k = cc
span-name (c ∷ s) rest h k =
    span-append is_name_code (c ∷ s) rest (is_variable_name-All (c ∷ s) h) k

Starts-Stops : (s : Text) → Starts s → Stops is_space s
Starts-Stops [] h = tt
Starts-Stops (a ∷ s) h = h

equals_not_space : is_space b'=' ≡ false
unfolding is_space
equals_not_space = refl

var_line-name :
    (indent : Text) (c : ℕ) (x : Text)
    → All (λ a. is_space a ≡ true) indent
    → is_name_start c ≡ true
    → var_line (indent ++ c ∷ x)
      ≡ at_equals indent
          (span is_name_code (c ∷ x)).run
          (span is_space (span is_name_code (c ∷ x)).rest)
unfolding var_line at_name
var_line-name indent c x h k =
    ap at_name (span-append is_space indent (c ∷ x) h (name_start-not_space c k).0) ∙ rw k refl

at_equals_lem :
    (indent name before after clean : Text)
    → All (λ a. is_space a ≡ true) before
    → All (λ a. is_space a ≡ true) after
    → Starts clean
    → any is_terminator clean ≡ false
    → at_equals indent name (span is_space (before ++ b'=' ∷ (after ++ clean)))
      ≡ some
          (record { indent = indent; name = name; equals = before ++ b'=' ∷ after; value = clean })
unfolding at_equals after_equals
at_equals_lem indent name before after clean hb ha s t =
    ap (at_equals indent name)
      (span-append is_space before (b'=' ∷ (after ++ clean)) hb equals_not_space)
    ∙ ap (after_equals indent name before)
        (span-append is_space after clean ha (Starts-Stops clean s))
    ∙ rw t refl

equals-Stops :
    (before rest : Text)
    → All (λ a. is_space a ≡ true) before
    → Stops is_name_code (before ++ b'=' ∷ rest)
unfolding is_name_code
equals-Stops [] rest h = refl
equals-Stops (a ∷ before) rest h = (space-not_name a h.0).0

is_variable_name-start :
    (c : ℕ) (s : Text) → is_variable_name (c ∷ s) ≡ true → is_name_start c ≡ true
unfolding is_variable_name
is_variable_name-start c s h = elim (Bool-cases (is_name_start c)) [
  | inl k ↦ k
  | inr k ↦ cc (rw k at h)
]

-- A line that is put together of white space, a name, an equals sign and a value is matched so.
var_line-parts :
    (indent name before after clean : Text)
    → All (λ a. is_space a ≡ true) indent
    → is_variable_name name ≡ true
    → All (λ a. is_space a ≡ true) before
    → All (λ a. is_space a ≡ true) after
    → Starts clean
    → any is_terminator clean ≡ false
    → var_line (indent ++ (name ++ (before ++ b'=' ∷ (after ++ clean))))
      ≡ some
          (record { indent = indent; name = name; equals = before ++ b'=' ∷ after; value = clean })
unfolding is_variable_name
var_line-parts indent [] before after clean hi n hb ha s t = cc
var_line-parts indent (c ∷ name) before after clean hi n hb ha s t =
    let rest = before ++ b'=' ∷ (after ++ clean) in
    var_line-name indent c (name ++ rest) hi (is_variable_name-start c name n)
    ∙ ap (λ (p : Span). at_equals indent p.run (span is_space p.rest))
        (span-name (c ∷ name) rest n (equals-Stops before (after ++ clean) hb))
    ∙ at_equals_lem indent (c ∷ name) before after clean hb ha s t

-- What the groups of a match make with another value is matched, with that value.
pub var_line-groups :
    (m : VarLine) (clean : Text)
    → IsVarLine m
    → Starts clean
    → any is_terminator clean ≡ false
    → var_line (m.indent ++ (m.name ++ (m.equals ++ clean))) ≡ some (record m { value = clean })
var_line-groups m clean h s t =
    ap (λ e. var_line (m.indent ++ (m.name ++ e)))
      (ap (λ e. e ++ clean) h.equals ∙ append_assoc h.before (b'=' ∷ h.after) clean)
    ∙ var_line-parts m.indent m.name h.before h.after clean h.indent h.name h.before_space
        h.after_space s t
    ∙ ap (λ e. some (record m { value = clean; equals = e })) (sym h.equals)

-- A line that sets a variable is no comment.
is_comment-line :
    (indent : Text) (name rest : Text)
    → All (λ a. is_space a ≡ true) indent
    → is_variable_name name ≡ true
    → is_comment (indent ++ (name ++ rest)) ≡ false
unfolding is_comment is_variable_name
is_comment-line indent [] rest h n = cc
is_comment-line indent (c ∷ name) rest h n =
    let k = name_start-not_space c (is_variable_name-start c name n) in
    rw (is_comment, span-append is_space indent (c ∷ name ++ rest) h k.0) k.1

pub read_line-groups :
    (m : VarLine) (clean : Text)
    → IsVarLine m
    → Starts clean
    → any is_terminator clean ≡ false
    → read_line (m.indent ++ (m.name ++ (m.equals ++ clean))) ≡ some (record m { value = clean })
unfolding read_line
read_line-groups m clean h s t =
    rw (is_comment-line m.indent m.name (m.equals ++ clean) h.indent h.name)
      (var_line-groups m clean h s t)

pub read_line-IsVarLine : (line : Text) (m : VarLine) → read_line line ≡ some m → IsVarLine m
unfolding read_line
read_line-IsVarLine line m h = elim (Bool-cases (is_comment line)) [
  | inl e ↦ cc (rw e at h)
  | inr e ↦ var_line-IsVarLine line m (rw e at h)
]

-- The line that is added for a new variable.
pub read_line_new :
    (name clean : Text)
    → is_variable_name name ≡ true
    → Starts clean
    → any is_terminator clean ≡ false
    → read_line (name ++ (codes "=" ++ clean))
      ≡ some (record { indent = []; name = name; equals = codes "="; value = clean })
read_line_new name clean n s t =
    read_line-groups (record { indent = []; name = name; equals = codes "="; value = [] }) clean
      (record {
        indent = tt;
        name = n;
        before = [];
        before_space = tt;
        after = [];
        after_space = tt;
        equals = refl;
      })
      s t

span-All_rest : (s : Text) → All (λ a. is_space a ≡ true) s → (span is_space s).rest ≡ []
unfolding span
span-All_rest [] h = refl
span-All_rest (a ∷ s) h = rw h.0 (span-All_rest s h.1)

-- White space sets nothing.
pub read_line_blank : (line : Text) → All (λ a. is_space a ≡ true) line → read_line line ≡ none
unfolding read_line is_comment var_line at_name
read_line_blank line h = rw (read_line, is_comment, var_line, at_name, span-All_rest line h) refl
