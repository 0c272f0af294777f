-- ===== src/Tests/Keys.antt =====
-- The theorems on the keys file and its sections at concrete inputs.
use reticle.Common.{
  codes, same, trim, trim_start, is_space, includes, index_of, starts_with, join, [], ◌∷◌, none,
  some, true, false, ◌≡◌, refl, arith, inr, any, All, Text, Option, if◌then◌else◌, ◌||◌, ◌≤◌,
  length, ◌++◌, lookup,
}
use reticle.Common.Lines.{split_lines, strip_line_feeds, IsPlain}
use reticle.Keys.{
  ok, is_variable_name, is_name_start, is_name_code, is_terminator, read_lines, set_key, remove_key,
  reveal_key, span, at_name, at_equals, after_equals, var_line, is_comment, read_line, set_lines,
  replace_line, drop_last, write, mask, other, EnvKeyEntry, parse,
}
use reticle.Keys.File.{
  value_of, reveal_key-set_key, Removes, remove_key-Removes, SetsIf, may_set, set_key-SetsIf,
}
use reticle.Keys.Mask.{Alike, mask-Alike}
use reticle.Keys.Sections.{Profile, build_key_sections}
use reticle.Keys.Sections.Laws.{shown, binds}
use reticle.Keys.Sections.Shown.{shown-build_key_sections}

abbrev key_file : Option Text
key_file = some (codes "# keys\nGROQ_API_KEY = old\n")

abbrev groq_key : Text
groq_key = codes "GROQ_API_KEY"

key_file-IsPlain : All IsPlain (read_lines key_file)
unfolding read_lines split_lines
key_file-IsPlain = omega arith

groq_key-is_name : is_variable_name groq_key ≡ true
unfolding is_variable_name is_name_start is_name_code
groq_key-is_name = refl

new_value-ends_nowhere : any is_terminator (trim (codes " gsk-1 ")) ≡ false
unfolding is_terminator trim trim_start is_space
new_value-ends_nowhere = refl

key_file_set :
    (set_key groq_key (codes " gsk-1 ") none (some (codes "/r/.env")) key_file).0
    ≡ some (codes "# keys\nGROQ_API_KEY = gsk-1\n")
unfolding set_key is_variable_name is_name_start is_name_code trim trim_start is_space includes
    index_of starts_with set_lines replace_line read_line is_comment var_line at_name at_equals
    after_equals span is_terminator same read_lines split_lines write strip_line_feeds join
    drop_last
key_file_set = refl

-- A value with a carriage return inside is written, and then not read.
abbrev split_value : Text
split_value = codes "a" ++ 13 ∷ codes "b"

split_value_set :
    set_key groq_key split_value none (some (codes "/r/.env")) key_file
    ≡ (some (codes "# keys\nGROQ_API_KEY = " ++ split_value ++ codes "\n"), ok tt)
unfolding set_key is_variable_name is_name_start is_name_code trim trim_start is_space includes
    index_of starts_with set_lines replace_line read_line is_comment var_line at_name at_equals
    after_equals span is_terminator same read_lines split_lines write strip_line_feeds join
    drop_last
split_value_set = refl

split_value_lost :
    reveal_key groq_key
      (some (codes "/r/.env"))
      (some (codes "# keys\nGROQ_API_KEY = " ++ split_value ++ codes "\n"))
    ≡ ok []
unfolding lookup reveal_key is_variable_name is_name_start is_name_code trim trim_start is_space
    parse read_line is_comment var_line at_name at_equals after_equals span is_terminator same
    read_lines split_lines
split_value_lost = refl

reveal_key-set_key_example :
    ((set_key groq_key (codes " gsk-1 ") none (some (codes "/r/.env")) key_file).1 ≡ ok tt)
    × ((k : Text)
        → reveal_key k
            (some (codes "/r/.env"))
            (set_key groq_key (codes " gsk-1 ") none (some (codes "/r/.env")) key_file).0
          ≡ (if same groq_key k
              then ok (trim (codes " gsk-1 "))
              else reveal_key k (some (codes "/r/.env")) key_file))
reveal_key-set_key_example =
    reveal_key-set_key groq_key (codes " gsk-1 ") (codes "/r/.env") key_file groq_key-is_name
      new_value-ends_nowhere key_file-IsPlain

remove_key-Removes_example :
    Removes groq_key
      (codes "/r/.env")
      key_file
      (remove_key groq_key none (some (codes "/r/.env")) key_file).0
      (remove_key groq_key none (some (codes "/r/.env")) key_file).1
      (value_of groq_key key_file)
remove_key-Removes_example = remove_key-Removes groq_key (codes "/r/.env") key_file key_file-IsPlain

new_value_one_line :
    any is_terminator (trim (codes " gsk-1 ")) ≡ includes (trim (codes " gsk-1 ")) (codes "\n")
unfolding is_terminator trim trim_start is_space includes index_of starts_with
new_value_one_line = refl

set_key-SetsIf_example :
    SetsIf
      (may_set groq_key (codes " gsk-1 ") none (some (codes "/r/.env")))
      groq_key
      (codes " gsk-1 ")
      key_file
      (set_key groq_key (codes " gsk-1 ") none (some (codes "/r/.env")) key_file)
set_key-SetsIf_example =
    set_key-SetsIf groq_key (codes " gsk-1 ") none (some (codes "/r/.env")) key_file
      new_value_one_line key_file-IsPlain

long_keys-Alike : Alike (trim (codes "gsk-12345678")) (trim (codes "xyz-99995678"))
unfolding trim trim_start is_space
long_keys-Alike = inr (omega arith, omega arith, refl)

mask-Alike_example :
    (mask (codes "gsk-12345678") ≡ mask (codes "xyz-99995678"))
    × (length (mask (codes "gsk-12345678")) ≤ 12)
mask-Alike_example = mask-Alike (codes "gsk-12345678") (codes "xyz-99995678") long_keys-Alike

abbrev custom_profile : Profile
custom_profile = record { id = codes "p1"; name = none; api_key_env = some (codes "MY_KEY") }

abbrev my_entry : EnvKeyEntry
my_entry = record {
  name = codes "MY_KEY";
  provider = other;
  slot_label = none;
  known = false;
  present = true;
  masked = [];
  length = 3;
}

shown-build_key_sections_example :
    shown (codes "MY_KEY") (build_key_sections (my_entry ∷ []) (custom_profile ∷ [])) ≡ (
      if any (λ e. same e.name (codes "MY_KEY")) (my_entry ∷ [])
        || any (binds (codes "MY_KEY")) (custom_profile ∷ [])
      then 1
      else 0)
shown-build_key_sections_example =
    shown-build_key_sections (codes "MY_KEY") (my_entry ∷ []) (custom_profile ∷ [])
