-- ===== src/Keys/Sections.antt =====
-- studio/src/features/settings/keySections.ts: the sections in which keys are shown. A `Map` is an
-- association list in the order of insertion.
pub mod Laws
pub mod Shown
use reticle.Common.{
  ℕ, ◌+◌, ◌==◌, Text, codes, same, contains, trim, List, [], ◌∷◌, ◌++◌, map, filter, Option, none,
  some, Bool, true, false, not, ◌&&◌, ◌||◌, if◌then◌else◌, lookup, has, is_some, values,
}
use reticle.Keys.{EnvKeyEntry, KeyProvider, openrouter, groq, gemini, other}

-- What is read of a provider's status.
pub record Profile : Type 0 where
  pub id : Text
  pub name : Option Text
  pub api_key_env : Option Text

pub record KeySection : Type 0 where
  pub id : Text
  pub label : Text
  pub description : Option Text
  pub entries : List EnvKeyEntry

abbrev pub Entries : Type 0
Entries = List (Text × EnvKeyEntry)

-- `entriesByName.set(name, entry)`
unfoldable pub set_entry : Text → EnvKeyEntry → Entries → Entries
set_entry k e [] = (k, e) ∷ []
set_entry k e ((j, f) ∷ m) = if same j k then (j, e) ∷ m else (j, f) ∷ set_entry k e m

unfoldable pub by_name : Entries → List EnvKeyEntry → Entries
unfolding set_entry
by_name m [] = m
by_name m (e ∷ es) = by_name (set_entry e.name e m) es

-- The trimmed name of a profile's variable, if it is not empty.
abbrev pub variable_of : Profile → Option Text
variable_of p = elim p.api_key_env [
  | none ↦ none
  | some v ↦ if same (trim v) [] then none else some (trim v)
]

unfoldable pub recognise : Text → Entries → Entries
unfolding set_entry
recognise name m = elim (lookup name m) [
  | some e ↦ set_entry name (record e { known = true }) m
  | none ↦
      set_entry name
        (record {
          name = name;
          provider = other;
          slot_label = none;
          known = true;
          present = false;
          masked = [];
          length = 0;
        })
        m
]

unfoldable pub recognise_all : List Profile → Entries → Entries
unfolding recognise
recognise_all [] m = m
recognise_all (p ∷ ps) m =
    recognise_all ps (elim (variable_of p) [ none ↦ m | some name ↦ recognise name m ])

abbrev pub is_provider : KeyProvider → KeyProvider → Bool
is_provider openrouter openrouter = true
is_provider groq groq = true
is_provider gemini gemini = true
is_provider other other = true
is_provider _ _ = false

unfoldable pub builtin_section : KeyProvider → Text → List EnvKeyEntry → KeySection
builtin_section p label entries = record {
  id = elim p [
    | openrouter ↦ codes "openrouter"
    | groq ↦ codes "groq"
    | gemini ↦ codes "gemini"
    | other ↦ codes "other"
  ];
  label = label;
  description = none;
  entries = filter (λ e. is_provider e.provider p) entries;
}

abbrev pub has_entries : KeySection → Bool
has_entries s = elim s.entries [ [] ↦ false | _ ∷ _ ↦ true ]

unfoldable pub builtin_sections : List EnvKeyEntry → List KeySection
unfolding builtin_section
builtin_sections entries = filter has_entries (
    builtin_section openrouter (codes "OpenRouter") entries
    ∷ builtin_section groq (codes "Groq") entries
    ∷ builtin_section gemini (codes "Gemini") entries
    ∷ [])

abbrev label_of : Profile → Text
label_of p = elim p.name [ none ↦ p.id | some n ↦ if same (trim n) [] then p.id else trim n ]

-- The name of a variable that a profile binds and that is shown under it.
abbrev pub assigns : List Text → Entries → Profile → Option EnvKeyEntry
assigns assigned m p = elim (variable_of p) [
  | none ↦ none
  | some name ↦ if contains name assigned then none else (elim (lookup name m) [
    | none ↦ none
    | some e ↦ if is_provider e.provider other then some e else none
  ])
]

abbrev pub profile_section : Profile → EnvKeyEntry → KeySection
profile_section p e = record {
  id = codes "profile:" ++ p.id;
  label = label_of p;
  description = some (codes "provider profile");
  entries = e ∷ [];
}

abbrev or_nothing : Option Text → Text
or_nothing none = []
or_nothing (some s) = s

-- The sections of the profiles, and the variables that they take.
unfoldable pub profile_sections : Entries → List Text → List Profile → List KeySection × List Text
profile_sections m assigned [] = ([], assigned)
profile_sections m assigned (p ∷ ps) = elim (assigns assigned m p) [
  | none ↦ profile_sections m assigned ps
  | some e ↦
      let (sections, taken) = profile_sections m (or_nothing (variable_of p) ∷ assigned) ps in
      (profile_section p e ∷ sections, taken)
]

unfoldable pub other_sections : List EnvKeyEntry → List KeySection
other_sections [] = []
other_sections (e ∷ es) =
    record {
      id = codes "other";
      label = codes "Other variables";
      description = some (codes "not assigned to a provider profile");
      entries = e ∷ es;
    }
    ∷ []

unfoldable pub build_key_sections : List EnvKeyEntry → List Profile → List KeySection
build_key_sections keys profiles =
    let m = recognise_all profiles (by_name [] keys) in
    let entries = values m in
    let (sections, taken) = profile_sections m [] profiles in
    builtin_sections entries
    ++ (sections
        ++ other_sections
            (filter (λ e. is_provider e.provider other && not (contains e.name taken)) entries))
