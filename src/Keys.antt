-- ===== src/Keys.antt =====
-- studio/electron/env/keys.ts: the keys in the `.env` file of the repository. The file is a parameter
-- of the operations (`none` where it cannot be read), and so is whether it can be written.
pub mod Groups
pub mod Lines
pub mod Parts
pub mod Values
pub mod Laws
pub mod File
pub mod Mask
pub mod Listing
pub mod Sections
use reticle.Common.{
  ℕ, ◌+◌, leb, ltb, ◌==◌, Text, codes, same, contains, includes, trim, join, is_space, List, [],
  ◌∷◌, ◌++◌, map, filter, any, take, drop, length, last?, take_last, Option, none, some, Bool, true,
  false, not, ◌&&◌, ◌||◌, if◌then◌else◌, or_else, Dict, lookup, put,
}
use reticle.Common.Lines.{split_lines, strip_line_feeds}

pub data KeyProvider : Type 0 where
  openrouter groq gemini other : KeyProvider

pub record KnownSlot : Type 0 where
  pub name : Text
  pub provider : KeyProvider
  pub label : Text

abbrev slot : Text → KeyProvider → Text → KnownSlot
slot name provider label = record { name = name; provider = provider; label = label }

abbrev pub known_slots : List KnownSlot
known_slots =
    slot (codes "OPENROUTER_API_KEY") openrouter (codes "Primary")
    ∷ slot (codes "OPENROUTER_API_KEY_2") openrouter (codes "Secondary")
    ∷ slot (codes "OPENROUTER_API_KEY_3") openrouter (codes "Tertiary")
    ∷ slot (codes "GROQ_API_KEY") groq (codes "Primary")
    ∷ slot (codes "GROQ_API_KEY_2") groq (codes "Secondary")
    ∷ slot (codes "GROQ_API_KEY_3") groq (codes "Tertiary")
    ∷ slot (codes "GEMINI_API_KEY") gemini (codes "Primary")
    ∷ []

pub record EnvKeyEntry : Type 0 where
  pub name : Text
  pub provider : KeyProvider
  pub slot_label : Option Text
  pub known : Bool
  pub present : Bool
  pub masked : Text
  pub length : ℕ

pub data ApiResult (A : Type 0) : Type 0 where
  ok : A → ApiResult A
  err : Text → ApiResult A

unfoldable pub is_name_start : ℕ → Bool
is_name_start c = leb b'A' c && leb c b'Z' || leb b'a' c && leb c b'z' || c == b'_'

unfoldable pub is_name_code : ℕ → Bool
unfolding is_name_start
is_name_code c = is_name_start c || leb b'0' c && leb c b'9'

-- What `.` does not match.
unfoldable pub is_terminator : ℕ → Bool
is_terminator c = c == 10 || c == 13 || c == 0x2028 || c == 0x2029

-- A text split where a class of code units ends.
pub record Span : Type 0 where
  pub run : Text
  pub rest : Text

unfoldable pub span : (ℕ → Bool) → Text → Span
span p [] = record { run = []; rest = [] }
span p (a ∷ s) =
    let t = span p s in
    if p a then record { run = a ∷ t.run; rest = t.rest } else record { run = []; rest = a ∷ s }

-- The groups of VAR_LINE.
pub record VarLine : Type 0 where
  pub indent : Text
  pub name : Text
  pub equals : Text
  pub value : Text

-- The value, behind the white space that follows `=`.
unfoldable pub after_equals : Text → Text → Text → Span → Option VarLine
after_equals indent name before after =
    if any is_terminator after.rest
    then none
    else some (record {
      indent = indent;
      name = name;
      equals = before ++ b'=' ∷ after.run;
      value = after.rest;
    })

unfoldable pub at_equals : Text → Text → Span → Option VarLine
at_equals indent name before = elim before.rest [
  | [] ↦ none
  | c ∷ rest ↦ if c == b'=' then after_equals indent name before.run (span is_space rest) else none
]

unfoldable pub at_name : Span → Option VarLine
at_name indented = elim indented.rest [
  | [] ↦ none
  | c ∷ rest ↦
      let named = span is_name_code (c ∷ rest) in
      if is_name_start c then at_equals indented.run named.run (span is_space named.rest) else none
]

-- `VAR_LINE.exec(line)`. No match is lost by taking each run of a class whole: what may follow a run
-- begins with no code unit of its class.
unfoldable pub var_line : Text → Option VarLine
unfolding at_name at_equals after_equals span
var_line line = at_name (span is_space line)

-- `/^\s*#/.test(line)`
unfoldable pub is_comment : Text → Bool
unfolding span is_space
is_comment line = elim (span is_space line).rest [ [] ↦ false | c ∷ _ ↦ c == b'#' ]

-- A line that `parse` and the writers read: a match on a line that is no comment.
unfoldable pub read_line : Text → Option VarLine
unfolding is_comment var_line
read_line line = if is_comment line then none else var_line line

-- `/^[A-Za-z_][A-Za-z0-9_]*$/.test(name)`
unfoldable pub is_variable_name : Text → Bool
unfolding is_name_start is_name_code
is_variable_name [] = false
is_variable_name (c ∷ s) = is_name_start c && not (any (λ d. not (is_name_code d)) s)

unfoldable pub read_lines : Option Text → List Text
unfolding split_lines
read_lines none = []
read_lines (some raw) = split_lines raw

unfoldable pub mask_trimmed : Text → Text
mask_trimmed t = if leb (length t) 8 then map (λ c. 0x2022) t else codes "••••••••" ++ take_last 4 t

-- An empty text is masked as itself by the second test too.
unfoldable pub mask : Text → Text
unfolding mask_trimmed trim
mask value = mask_trimmed (trim value)

unfoldable pub parse_from : Dict Text → List Text → Dict Text
unfolding read_line put trim
parse_from found [] = found
parse_from found (line ∷ lines) =
    parse_from (elim (read_line line) [ none ↦ found | some m ↦ put m.name (trim m.value) found ])
      lines

unfoldable pub parse : List Text → Dict Text
unfolding parse_from
parse lines = parse_from [] lines

unfoldable pub known_entry : Dict Text → KnownSlot → EnvKeyEntry
unfolding mask
known_entry values s =
    let value = or_else (lookup s.name values) [] in
    record {
      name = s.name;
      provider = s.provider;
      slot_label = some s.label;
      known = true;
      present = ltb 0 (length value);
      masked = mask value;
      length = length value;
    }

unfoldable pub is_known : Text → Bool
is_known name = any (λ s. same s.name name) known_slots

unfoldable pub other_entry : Text → Text → EnvKeyEntry
unfolding mask
other_entry name value = record {
  name = name;
  provider = other;
  slot_label = none;
  known = false;
  present = ltb 0 (length value);
  masked = mask value;
  length = length value;
}

unfoldable pub list_entries : Dict Text → List EnvKeyEntry
unfolding known_entry other_entry is_known
list_entries values =
    map (known_entry values) known_slots
    ++ map (λ e. other_entry e.0 e.1) (filter (λ e. not (is_known e.0)) values)

-- `target` is the path of the file, if the root of the repository is found.
unfoldable pub list_keys : Option Text → Option Text → ApiResult (List EnvKeyEntry)
unfolding parse read_lines list_entries
list_keys none file = err (codes "Reticle repository root not found, so .env cannot be located.")
list_keys (some target) file = ok (list_entries (parse (read_lines file)))

-- Where the root is not found there are no lines.
abbrev pub file_of : Option Text → Option Text → Option Text
file_of none file = none
file_of (some target) file = file

unfoldable pub reveal_key : Text → Option Text → Option Text → ApiResult Text
unfolding var_line parse read_lines
reveal_key name target file = elim (var_line (name ++ codes "=")) [
  | none ↦ err (codes "Invalid variable name.")
  | some _ ↦ ok (or_else (lookup name (parse (read_lines (file_of target file)))) [])
]

-- The line, if it is to be replaced.
abbrev pub sets : Text → Text → Bool
sets name line = elim (read_line line) [ none ↦ false | some m ↦ same m.name name ]

unfoldable pub replace_line : Text → Text → Text → Text
unfolding read_line
replace_line name clean line = elim (read_line line) [
  | none ↦ line
  | some m ↦ if same m.name name then m.indent ++ (m.name ++ (m.equals ++ clean)) else line
]

abbrev pub is_blank : Option Text → Bool
is_blank none = false
is_blank (some line) = same (trim line) []

unfoldable pub drop_last : List Text → List Text
drop_last [] = []
drop_last (l ∷ []) = []
drop_last (l ∷ m ∷ ls) = l ∷ drop_last (m ∷ ls)

unfoldable pub set_lines : Text → Text → List Text → List Text
unfolding replace_line read_line drop_last trim
set_lines name clean lines =
    let next = map (replace_line name clean) lines in
    if any (sets name) lines
    then next
    else (if is_blank (last? next) then drop_last next else next)
      ++ (name ++ (codes "=" ++ clean)) ∷ []

-- The lines written; a failure of the write leaves the file, and is answered.
unfoldable pub write : Option Text → List Text → Option Text → Option Text × ApiResult (Unit {0})
unfolding strip_line_feeds join
write failure lines file = elim failure [
  | none ↦ (some (strip_line_feeds (join (codes "\n") lines) ++ codes "\n"), ok tt)
  | some message ↦ (file, err message)
]

unfoldable pub set_key :
    Text → Text → Option Text → Option Text → Option Text → Option Text × ApiResult (Unit {0})
unfolding is_variable_name trim set_lines write read_lines includes
set_key name value failure none file = (file, err (codes "Reticle repository root not found."))
set_key name value failure (some target) file =
    if not (is_variable_name name)
    then (file, err (codes "Variable names may contain only letters, digits and underscores."))
    else if includes (trim value) (codes "\n")
    then (file, err (codes "A key cannot contain a newline."))
    else write failure (set_lines name (trim value) (read_lines file)) file

unfoldable pub remove_key :
    Text → Option Text → Option Text → Option Text → Option Text × ApiResult (Unit {0})
unfolding write read_lines read_line
remove_key name failure none file = (file, err (codes "Reticle repository root not found."))
remove_key name failure (some target) file =
    let lines = read_lines file in
    let next = filter (λ line. not (sets name line)) lines in
    if length next == length lines
    then (file, err (name ++ codes " is not set."))
    else write failure next file
