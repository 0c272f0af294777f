-- ===== src/Keys/Sections/Shown.antt =====
-- Every key is shown in one section (Keys.Sections).
use reticle.Common.{
  ℕ, ◌+◌, ◌≤◌, Text, codes, same, same_iff, contains, List, [], ◌∷◌, ◌++◌, filter, any, All, none,
  some, Bool, true, false, not, ◌&&◌, ◌||◌, if◌then◌else◌, lookup, has, values, ◌≡◌, refl, ap,
  subst, ◌∙◌, arith, Bool-cases, Option-cases, List-cases, inl, inr,
}
use reticle.Keys.{EnvKeyEntry, openrouter, groq, gemini, other}
use reticle.Keys.Sections.{
  Profile, KeySection, Entries, by_name, variable_of, recognise_all, is_provider, has_entries,
  builtin_sections, builtin_section, assigns, profile_sections, other_sections, build_key_sections,
}
use reticle.Keys.Sections.Laws.{
  times, shown, IsKeyed, binds, lookup-named, by_name-IsKeyed, has-by_name, recognise_all-IsKeyed,
  has-recognise_all,
}

abbrev is_other : EnvKeyEntry → Bool
is_other e = is_provider e.provider other

shown-append : (k : Text) (ss ts : List KeySection) → shown k (ss ++ ts) ≡ shown k ss + shown k ts
unfolding shown
shown-append k [] ts = omega arith
shown-append k (s ∷ ss) ts = omega (arith, shown-append k ss ts)

shown-filter : (k : Text) (ss : List KeySection) → shown k (filter has_entries ss) ≡ shown k ss
unfolding shown times
shown-filter k [] = refl
shown-filter k (s ∷ ss) = elim (List-cases s.entries) [
  | inl q ↦ ground (arith, shown-filter k ss)
  | inr (e, es, q) ↦ ground (arith, shown-filter k ss)
]

-- The three built-in providers and the others share the entries.
times-providers :
    (k : Text) (es : List EnvKeyEntry)
    → times k (filter (λ e. is_provider e.provider openrouter) es)
        + (times k (filter (λ e. is_provider e.provider groq) es)
            + (times k (filter (λ e. is_provider e.provider gemini) es)
                + times k (filter is_other es)))
      ≡ times k es
unfolding times
times-providers k [] = refl
times-providers k (e ∷ es) = ground (arith, times-providers k es)

shown-builtin_sections :
    (k : Text) (es : List EnvKeyEntry)
    → shown k (builtin_sections es) + times k (filter is_other es) ≡ times k es
unfolding builtin_sections builtin_section shown
shown-builtin_sections k es = omega (
  arith,
  times-providers k es,
  shown-filter k (
      builtin_section openrouter (codes "OpenRouter") es
      ∷ builtin_section groq (codes "Groq") es
      ∷ builtin_section gemini (codes "Gemini") es
      ∷ []),
)

-- Whether a name stands with an entry of no built-in provider.
abbrev other_at : Text → Entries → Bool
other_at k m = elim (lookup k m) [ none ↦ false | some e ↦ is_other e ]

assigns_found :
    (assigned : List Text) (m : Entries) (name : Text) (e : EnvKeyEntry)
    → All (λ f. f.0 ≡ f.1.name) m
    → (if contains name assigned
        then none
        else (elim (lookup name m) [ none ↦ none | some f ↦ if is_other f then some f else none ]))
      ≡ some e
    → (name ≡ e.name) × (contains e.name assigned ≡ false) × (other_at e.name m ≡ true)
assigns_found assigned m name e h q = elim (Bool-cases (contains name assigned)) [
  | inl c ↦ cc (rw c at q)
  | inr c ↦ elim (Option-cases (lookup name m)) [
    | inl l ↦ cc (rw (c, l) at q)
    | inr (f, l) ↦ let n = lookup-named name f m h l in ground arith
  ]
]

assigns-named :
    (assigned : List Text) (m : Entries) (p : Profile) (e : EnvKeyEntry)
    → All (λ f. f.0 ≡ f.1.name) m
    → assigns assigned m p ≡ some e
    → (variable_of p ≡ some e.name)
      × (contains e.name assigned ≡ false)
      × (other_at e.name m ≡ true)
assigns-named assigned m p e h q = elim (Option-cases (variable_of p)) [
  | inl v ↦ cc (rw (assigns, v) at q)
  | inr (name, v) ↦
      let (n, c, o) = assigns_found assigned m name e h (rw (assigns, v) at q) in
      (v ∙ ap (λ t. some t) n, c, o)
]

-- The profiles show the variables that they take, once each, and these have no built-in provider.
shown-profile_sections :
    (k : Text) (m : Entries) (assigned : List Text) (ps : List Profile)
    → All (λ f. f.0 ≡ f.1.name) m
    → shown k (profile_sections m assigned ps).0 + (if contains k assigned then 1 else 0)
      ≡ (if contains k (profile_sections m assigned ps).1 then 1 else 0)
unfolding profile_sections shown times contains
shown-profile_sections k m assigned [] h = omega arith
shown-profile_sections k m assigned (p ∷ ps) h = elim (Option-cases (assigns assigned m p)) [
  | inl q ↦ rw (profile_sections, q) (shown-profile_sections k m assigned ps h)
  | inr (e, q) ↦
      let (v, c, o) = assigns-named assigned m p e h q in
      rw (profile_sections, q, v)
        (ground (arith, shown-profile_sections k m (e.name ∷ assigned) ps h, same_iff e.name k))
]

taken-other :
    (k : Text) (m : Entries) (assigned : List Text) (ps : List Profile)
    → All (λ f. f.0 ≡ f.1.name) m
    → contains k (profile_sections m assigned ps).1 ≡ true
    → contains k assigned ≡ false
    → other_at k m ≡ true
unfolding profile_sections contains
taken-other k m assigned [] h t a = cc
taken-other k m assigned (p ∷ ps) h t a = elim (Option-cases (assigns assigned m p)) [
  | inl q ↦ taken-other k m assigned ps h (rw (profile_sections, q) at t) a
  | inr (e, q) ↦
      let (v, c, o) = assigns-named assigned m p e h q in
      elim (Bool-cases (same e.name k)) [
        | inl n ↦ subst (λ j. other_at j m ≡ true) ((same_iff e.name k).0 n) o
        | inr n ↦
            taken-other k m (e.name ∷ assigned) ps h (rw (profile_sections, q, v) at t) (rw n a)
      ]
]

shown-other_sections : (k : Text) (es : List EnvKeyEntry) → shown k (other_sections es) ≡ times k es
unfolding other_sections shown times
shown-other_sections k [] = refl
shown-other_sections k (e ∷ es) = omega arith

-- The entries without a built-in provider that the profiles have not taken.
times-unassigned :
    (k : Text) (taken : List Text) (es : List EnvKeyEntry)
    → times k (filter (λ e. is_other e && not (contains e.name taken)) es)
      ≡ (if contains k taken then 0 else times k (filter is_other es))
unfolding times
times-unassigned k taken [] = ground arith
times-unassigned k taken (e ∷ es) = ground (arith, times-unassigned k taken es, same_iff e.name k)

times-other_at :
    (k : Text) (m : Entries)
    → All (λ f. f.0 ≡ f.1.name) m
    → other_at k m ≡ true
    → 1 ≤ times k (filter is_other (values m))
unfolding times lookup
times-other_at k [] h o = cc
times-other_at k ((j, f) ∷ m) (p, h) o = ground (arith, same_iff j k, times-other_at k m h)

empty-IsKeyed : IsKeyed []
unfolding times lookup
empty-IsKeyed = record { named = tt; once = λ k. refl }

shown_sum :
    (k : Text) (m : Entries) (ps : List Profile)
    → IsKeyed m
    → let taken = (profile_sections m [] ps).1 in
      shown k (builtin_sections (values m))
        + (shown k (profile_sections m [] ps).0
            + shown k (
                other_sections
                  (filter (λ e. is_other e && not (contains e.name taken)) (values m))))
      ≡ (if has k m then 1 else 0)
unfolding contains
shown_sum k m ps h =
    let taken = (profile_sections m [] ps).1 in
    ground (
      arith,
      shown-builtin_sections k (values m),
      shown-profile_sections k m [] ps h.named,
      shown-other_sections k (filter (λ e. is_other e && not (contains e.name taken)) (values m)),
      times-unassigned k taken (values m),
      h.once k,
      taken-other k m [] ps h.named,
      times-other_at k m h.named,
    )

-- Every entry, and every variable that a profile binds, is shown in one section, once, and nothing
-- else is.
pub shown-build_key_sections :
    (k : Text) (keys : List EnvKeyEntry) (ps : List Profile)
    → shown k (build_key_sections keys ps)
      ≡ (if any (λ e. same e.name k) keys || any (binds k) ps then 1 else 0)
unfolding build_key_sections lookup
shown-build_key_sections k keys ps =
    let m = recognise_all ps (by_name [] keys) in
    let h = recognise_all-IsKeyed ps (by_name [] keys) (by_name-IsKeyed [] keys empty-IsKeyed) in
    let taken = (profile_sections m [] ps).1 in
    let rest =
      other_sections (filter (λ e. is_other e && not (contains e.name taken)) (values m)) in
    shown-append k (builtin_sections (values m)) ((profile_sections m [] ps).0 ++ rest)
    ∙ ap (λ n. shown k (builtin_sections (values m)) + n)
        (shown-append k (profile_sections m [] ps).0 rest)
    ∙ shown_sum k m ps h
    ∙ ap (λ (b : Bool). if◌then◌else◌ {A = ℕ} b 1 0)
        (has-recognise_all k ps (by_name [] keys)
          ∙ ap (λ b. b || any (binds k) ps) (has-by_name k [] keys))
