-- ===== src/Keys/File.antt =====
-- Setting, removing and revealing a key of the `.env` file (Keys), one after another.
use reticle.Common.{
  ◌==◌, Text, codes, same, same_iff, trim, includes, List, [], ◌∷◌, ◌++◌, any, All, All-filter,
  filter, length, length-filter-le, Option, none, some, Bool, true, false, not, ◌&&◌, if◌then◌else◌,
  or_else, lookup, ◌≡◌, refl, sym, ap, subst, is_some, ◌∙◌, arith, Bool-cases, Option-cases, inl,
  inr,
}
use reticle.Common.Lines.{IsPlain}
use reticle.Common.Trimming.{trim-Starts, trim_idem}
use reticle.Keys.{
  ApiResult, ok, err, VarLine, is_terminator, var_line, read_line, is_variable_name, read_lines,
  parse, sets, set_lines, write, set_key, remove_key, reveal_key,
}
use reticle.Keys.Lines.{var_line-groups}
use reticle.Keys.Parts.{includes-terminator}
use reticle.Keys.Values.{value_in, last_value, lookup-parse, read_back, no-value_in, some-value_in}
use reticle.Keys.Laws.{set_lines-IsPlain, last_value-set_lines}

-- What a file gives a variable.
abbrev pub value_of : Text → Option Text → Option Text
value_of k file = lookup k (parse (read_lines file))

value_of_lem : (k : Text) (file : Option Text) → value_of k file ≡ last_value k (read_lines file)
value_of_lem k file = lookup-parse k (read_lines file)

written_value :
    (k : Text) (ls : List Text) (file : Option Text)
    → All IsPlain ls
    → value_of k (write none ls file).0 ≡ last_value k ls
unfolding write
written_value k ls file h = value_of_lem k (write none ls none).0 ∙ read_back k ls h

module _ (name value target : Text) (file : Option Text) (n : is_variable_name name ≡ true)
    (t : any is_terminator (trim value) ≡ false) (h : All IsPlain (read_lines file)) where
  set_key-write :
      set_key name value none (some target) file
      ≡ write none (set_lines name (trim value) (read_lines file)) file
  unfolding set_key
  set_key-write = rw (n, includes-terminator (trim value) t) refl

  set_key-value_of :
      (k : Text)
      → value_of k (set_key name value none (some target) file).0
        ≡ (if same name k then some (trim value) else value_of k file)
  set_key-value_of k =
      ap (λ r. value_of k r.0) set_key-write
      ∙ written_value k (set_lines name (trim value) (read_lines file)) file (
          set_lines-IsPlain name (trim value) n (trim-Starts value) (trim_idem value) t
            (read_lines file) h)
      ∙ last_value-set_lines name (trim value) n (trim-Starts value) (trim_idem value) t k
          (read_lines file)
      ∙ ap (λ v. if same name k then some (trim value) else v) (sym (value_of_lem k file))

-- The name of a variable may be asked for.
may_reveal :
    (name : Text)
    → is_variable_name name ≡ true
    → (m : VarLine) × (var_line (name ++ codes "=") ≡ some m)
may_reveal name n = (
  record { indent = []; name = name; equals = codes "="; value = [] },
  var_line-groups (record { indent = []; name = name; equals = codes "="; value = [] }) []
      (record {
        indent = tt;
        name = n;
        before = [];
        before_space = tt;
        after = [];
        after_space = tt;
        equals = refl;
      })
      tt refl,
)

reveal_key_same :
    (k target : Text) (file file' : Option Text)
    → value_of k file ≡ value_of k file'
    → reveal_key k (some target) file ≡ reveal_key k (some target) file'
unfolding reveal_key
reveal_key_same k target file file' e =
    ap
      (λ v. elim (var_line (k ++ codes "=")) [
        | none ↦ err (codes "Invalid variable name.")
        | some _ ↦ ok (or_else v [])
      ])
      e

reveal_key-some :
    (k target v : Text) (file : Option Text)
    → is_variable_name k ≡ true
    → value_of k file ≡ some v
    → reveal_key k (some target) file ≡ ok v
unfolding reveal_key
reveal_key-some k target v file n e = rw (reveal_key, (may_reveal k n).1, e) refl

-- A variable that is set, to a value without line ends inside, in a file without stray carriage
-- returns is revealed with that value, trimmed, and every other variable is revealed as before.
pub reveal_key-set_key :
    (name value target : Text) (file : Option Text)
    → is_variable_name name ≡ true
    → any is_terminator (trim value) ≡ false
    → All IsPlain (read_lines file)
    → ((set_key name value none (some target) file).1 ≡ ok tt)
      × ((k : Text)
          → reveal_key k (some target) (set_key name value none (some target) file).0
            ≡ (if same name k then ok (trim value) else reveal_key k (some target) file))
unfolding write
reveal_key-set_key name value target file n t h = (
  ap (λ r. r.1) (set_key-write name value target file n t h),
  λ k. elim (Bool-cases (same name k)) [
    | inl e ↦ rw e (
        reveal_key-some k target (trim value) (set_key name value none (some target) file).0
          (subst (λ j. is_variable_name j ≡ true) ((same_iff name k).0 e) n)
          (set_key-value_of name value target file n t h k ∙ rw e refl))
    | inr e ↦ rw e (
        reveal_key_same k target (set_key name value none (some target) file).0 file
          (set_key-value_of name value target file n t h k ∙ rw e refl))
  ],
)

module _ {A : Type 0} (p : A → Bool) where
  length-filter-not :
      (xs : List A) → (length (filter (λ x. not (p x)) xs) == length xs) ≡ not (any p xs)
  length-filter-not [] = refl
  length-filter-not (x ∷ xs) =
      ground (arith, length-filter-not xs, length-filter-le (λ y. not (p y)) xs)

sets-value_in : (name line : Text) → is_some (value_in name line) ≡ sets name line
sets-value_in name line = elim (Option-cases (read_line line)) [
  | inl e ↦ ground (arith, no-value_in name line e)
  | inr (m, e) ↦ ground (arith, some-value_in name line m e)
]

any-last_value : (name : Text) (ls : List Text) → is_some (last_value name ls) ≡ any (sets name) ls
unfolding last_value
any-last_value name [] = refl
any-last_value name (line ∷ ls) = ground (arith, any-last_value name ls, sets-value_in name line)

last_value-filter-sets :
    (name k : Text) (ls : List Text)
    → last_value k (filter (λ line. not (sets name line)) ls)
      ≡ (if same name k then none else last_value k ls)
unfolding last_value
last_value-filter-sets name k [] = ground arith
last_value-filter-sets name k (line ∷ ls) = elim (Option-cases (read_line line)) [
  | inl e ↦ ground (arith, last_value-filter-sets name k ls)
  | inr (m, e) ↦ ground (
    arith,
    last_value-filter-sets name k ls,
    same_iff m.name name,
    same_iff m.name k,
    same_iff name k,
  )
]

is_set :
    (name : Text) (file : Option Text) (v : Text)
    → value_of name file ≡ some v
    → any (sets name) (read_lines file) ≡ true
is_set name file v e = ground (arith, value_of_lem name file, any-last_value name (read_lines file))

not_set :
    (name : Text) (file : Option Text)
    → value_of name file ≡ none
    → any (sets name) (read_lines file) ≡ false
not_set name file e = ground (arith, value_of_lem name file, any-last_value name (read_lines file))

-- What removing a key does, by whether the file sets it.
abbrev pub Removes :
    Text → Text → Option Text → Option Text → ApiResult (Unit {0}) → Option Text → Type 0
Removes name target file file' result none =
    (file' ≡ file) × (result ≡ err (name ++ codes " is not set."))
Removes name target file file' result (some v) =
    (result ≡ ok tt)
    × ((k : Text) → value_of k file' ≡ (if same name k then none else value_of k file))

-- In a file without stray carriage returns, a variable that the file does not set is not removed,
-- which is answered, and nothing is written; one that it sets is gone, and every other variable has
-- the value that it had.
pub remove_key-Removes :
    (name target : Text) (file : Option Text)
    → All IsPlain (read_lines file)
    → let r = remove_key name none (some target) file in
      Removes name target file r.0 r.1 (value_of name file)
unfolding remove_key
remove_key-Removes name target file h = elim (Option-cases (value_of name file)) [
  | inl e ↦
      rw (e, length-filter-not (sets name) (read_lines file), not_set name file e) (refl, refl)
  | inr (v, e) ↦
      rw (e, length-filter-not (sets name) (read_lines file), is_set name file v e)
        (
          refl,
          λ k.
              written_value k (filter (λ line. not (sets name line)) (read_lines file)) file
                (All-filter IsPlain (λ line. not (sets name line)) (read_lines file) h)
              ∙ last_value-filter-sets name k (read_lines file)
              ∙ ap (λ w. if same name k then none else w) (sym (value_of_lem k file)),
        )
]

abbrev pub is_ok : ApiResult (Unit {0}) → Bool
is_ok (ok _) = true
is_ok (err _) = false

-- When a key may be set.
abbrev pub may_set : Text → Text → Option Text → Option Text → Bool
may_set name value failure target =
    is_some target
    && (is_variable_name name
        && (not (includes (trim value) (codes "\n")) && not (is_some failure)))

set_key-refused :
    (name value : Text) (failure target file : Option Text)
    → may_set name value failure target ≡ false
    → ((set_key name value failure target file).0 ≡ file)
      × (is_ok (set_key name value failure target file).1 ≡ false)
unfolding set_key write
set_key-refused name value failure none file h = (refl, refl)
set_key-refused name value none (some target) file h = ground arith
set_key-refused name value (some m) (some target) file h = ground arith

set_key-allowed :
    (name value target : Text) (file : Option Text)
    → may_set name value none (some target) ≡ true
    → is_ok (set_key name value none (some target) file).1 ≡ true
unfolding set_key write
set_key-allowed name value target file h = ground arith

-- What setting a key does, by whether it may be set.
abbrev pub SetsIf : Bool → Text → Text → Option Text → Option Text × ApiResult (Unit {0}) → Type 0
SetsIf false name value file r = (is_ok r.1 ≡ false) × (r.0 ≡ file)
SetsIf true name value file r =
    (is_ok r.1 ≡ true)
    × ((k : Text) → value_of k r.0 ≡ (if same name k then some (trim value) else value_of k file))

-- A key is set exactly if the root of the repository is found, the name is one of a variable, the
-- trimmed value has no line feed, and the file can be written. Then the file gives the name the trimmed
-- value, and every other variable what it gave before; otherwise it is the file that it was. This holds
-- for a value that has a line feed, trimmed, if it has any line terminator, and a file without stray
-- carriage returns.
pub set_key-SetsIf :
    (name value : Text) (failure target file : Option Text)
    → any is_terminator (trim value) ≡ includes (trim value) (codes "\n")
    → All IsPlain (read_lines file)
    → SetsIf
        (may_set name value failure target)
        name
        value
        file
        (set_key name value failure target file)
set_key-SetsIf name value failure target file t h =
    elim (Bool-cases (may_set name value failure target)) [
      | inr e ↦ let r = set_key-refused name value failure target file e in rw e (r.1, r.0)
      | inl e ↦ rw e (allowed failure target e)
    ]
  where
    allowed :
        (failure target : Option Text)
        → may_set name value failure target ≡ true
        → SetsIf true name value file (set_key name value failure target file)
    allowed failure none e = cc
    allowed (some m) (some target) e = absurd (ground arith)
    allowed none (some target) e = (
      set_key-allowed name value target file e,
      set_key-value_of name value target file (ground arith) (ground arith) h,
    )
