-- ===== src/Keys/Values.antt =====
-- The values that lines of the `.env` file (Keys) give to variables, and what writing does to them.
use reticle.Common.{
  Text, codes, same, same_iff, trim, is_space, List, [], ◌∷◌, ◌++◌, map, any, All, filter, Option,
  none, some, true, false, if◌then◌else◌, ◌<|>◌, Dict, lookup, lookup-put, put, join, ◌≡◌, refl,
  sym, ap, ◌∙◌, arith, Option-cases, inl, inr,
}
use reticle.Common.Lines.{split_lines, strip_line_feeds, is_filled, IsPlain, split_lines-body}
use reticle.Common.Trimming.{Starts}
use reticle.Keys.{
  VarLine, is_terminator, read_line, read_lines, parse_from, parse, sets, replace_line, write,
}
use reticle.Keys.Lines.{read_line-IsVarLine, read_line-groups, read_line_blank}

-- What a line gives a variable.
pub value_in : Text → Text → Option Text
value_in k line = elim (read_line line) [
  | none ↦ none
  | some m ↦ if same m.name k then some (trim m.value) else none
]

pub no-value_in : (k line : Text) → read_line line ≡ none → value_in k line ≡ none
unfolding value_in
no-value_in k line e = rw (value_in, e) refl

pub some-value_in :
    (k line : Text) (m : VarLine)
    → read_line line ≡ some m
    → value_in k line ≡ (if same m.name k then some (trim m.value) else none)
unfolding value_in
some-value_in k line m e = rw (value_in, e) refl

pub replace_line-none :
    (name clean line : Text) → read_line line ≡ none → replace_line name clean line ≡ line
unfolding replace_line
replace_line-none name clean line e = rw (replace_line, e) refl

pub replace_line-some :
    (name clean line : Text) (m : VarLine)
    → read_line line ≡ some m
    → replace_line name clean line
      ≡ (if same m.name name then m.indent ++ (m.name ++ (m.equals ++ clean)) else line)
unfolding replace_line
replace_line-some name clean line m e = rw (replace_line, e) refl

-- What lines give a variable: the last line that sets it.
unfoldable pub last_value : Text → List Text → Option Text
unfolding value_in
last_value k [] = none
last_value k (line ∷ lines) = last_value k lines <|> value_in k line

module _ {A : Type 0} where
  pub <|>-none : (a : Option A) → (a <|> none) ≡ a
  <|>-none none = refl
  <|>-none (some v) = refl

  <|>-assoc : (a b c : Option A) → ((a <|> b) <|> c) ≡ (a <|> (b <|> c))
  <|>-assoc none b c = refl
  <|>-assoc (some v) b c = refl

put-value_in :
    (k : Text) (line : Text) (m : VarLine) (found : Dict Text)
    → read_line line ≡ some m
    → lookup k (put m.name (trim m.value) found) ≡ (value_in k line <|> lookup k found)
unfolding value_in
put-value_in k line m found e =
    rw (value_in, e) (ground (arith, lookup-put m.name k (trim m.value) found))

lookup-parse_from :
    (k : Text) (found : Dict Text) (lines : List Text)
    → lookup k (parse_from found lines) ≡ (last_value k lines <|> lookup k found)
unfolding parse_from last_value
lookup-parse_from k found [] = refl
lookup-parse_from k found (line ∷ lines) = elim (Option-cases (read_line line)) [
  | inl e ↦ rw e (
      lookup-parse_from k found lines
      ∙ ap (λ v. v <|> lookup k found)
          (sym (
            ap (λ v. last_value k lines <|> v) (no-value_in k line e)
            ∙ <|>-none (last_value k lines))))
  | inr (m, e) ↦ rw e (
      lookup-parse_from k (put m.name (trim m.value) found) lines
      ∙ ap (λ v. last_value k lines <|> v) (put-value_in k line m found e)
      ∙ sym (<|>-assoc (last_value k lines) (value_in k line) (lookup k found)))
]

-- The map that `parse` makes holds what the last line gives.
pub lookup-parse : (k : Text) (lines : List Text) → lookup k (parse lines) ≡ last_value k lines
unfolding parse lookup
lookup-parse k lines = lookup-parse_from k [] lines ∙ <|>-none (last_value k lines)

pub last_value-append :
    (k : Text) (xs ys : List Text) → last_value k (xs ++ ys) ≡ (last_value k ys <|> last_value k xs)
unfolding last_value
last_value-append k [] ys = sym (<|>-none (last_value k ys))
last_value-append k (x ∷ xs) ys =
    ap (λ v. v <|> value_in k x) (last_value-append k xs ys)
    ∙ <|>-assoc (last_value k ys) (last_value k xs) (value_in k x)

pub blank-value_in : (k line : Text) → All (λ a. is_space a ≡ true) line → value_in k line ≡ none
blank-value_in k line h = no-value_in k line (read_line_blank line h)

-- Empty lines set nothing.
last_value-filter :
    (k : Text) (ls : List Text) → last_value k (filter is_filled ls) ≡ last_value k ls
unfolding last_value
last_value-filter k [] = refl
last_value-filter k ([] ∷ ls) =
    last_value-filter k ls
    ∙ sym (ap (λ v. last_value k ls <|> v) (blank-value_in k [] tt) ∙ <|>-none (last_value k ls))
last_value-filter k ((a ∷ s) ∷ ls) = ap (λ v. v <|> value_in k (a ∷ s)) (last_value-filter k ls)

-- What is read back of lines that were written.
pub read_back :
    (k : Text) (ls : List Text)
    → All IsPlain ls
    → last_value k (read_lines (write none ls none).0) ≡ last_value k ls
unfolding read_lines write
read_back k ls h =
    sym (last_value-filter k (split_lines (strip_line_feeds (join (codes "\n") ls) ++ codes "\n")))
    ∙ ap (last_value k) (split_lines-body ls h)
    ∙ last_value-filter k ls

module _ (name clean : Text) (s : Starts clean) (w : trim clean ≡ clean)
    (t : any is_terminator clean ≡ false) where
  value_in-replaced :
      (k line : Text) (m : VarLine)
      → read_line line ≡ some m
      → value_in k (m.indent ++ (m.name ++ (m.equals ++ clean)))
        ≡ (if same m.name k then some clean else none)
  value_in-replaced k line m e =
      some-value_in k (m.indent ++ (m.name ++ (m.equals ++ clean))) (record m { value = clean })
        (read_line-groups m clean (read_line-IsVarLine line m e) s t)
      ∙ ap (λ v. if same m.name k then some v else none) w

  value_in-replace_line :
      (k line : Text)
      → value_in k (replace_line name clean line)
        ≡ (if same name k then (if sets name line then some clean else none) else value_in k line)
  value_in-replace_line k line = elim (Option-cases (read_line line)) [
    | inl e ↦
        ap (value_in k) (replace_line-none name clean line e) ∙ ground (arith, no-value_in k line e)
    | inr (m, e) ↦
        ap (value_in k) (replace_line-some name clean line m e)
        ∙ ground (
          arith,
          value_in-replaced k line m e,
          some-value_in k line m e,
          same_iff m.name name,
          same_iff m.name k,
          same_iff name k,
        )
  ]

  -- Every line that sets the variable sets it to the new value, and the other variables have theirs.
  pub last_value-map :
      (k : Text) (lines : List Text)
      → last_value k (map (replace_line name clean) lines) ≡ (
          if same name k
          then (if any (sets name) lines then some clean else none)
          else last_value k lines)
  unfolding last_value
  last_value-map k [] = ground arith
  last_value-map k (line ∷ lines) =
      rw (last_value-map k lines, value_in-replace_line k line) (ground arith)
