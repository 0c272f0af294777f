-- ===== src/Keys/Sections/Laws.antt =====
-- The entries by their names, from which the sections of keys are made (Keys.Sections).
use reticle.Common.{
  ℕ, ◌+◌, Text, same, same_iff, List, [], ◌∷◌, any, All, none, some, Bool, true, false, not, ◌&&◌,
  ◌||◌, if◌then◌else◌, lookup, has, values, ◌≡◌, refl, arith, Option-cases, inl, inr,
}
use reticle.Keys.{EnvKeyEntry}
use reticle.Keys.Sections.{
  Profile, KeySection, Entries, set_entry, by_name, variable_of, recognise, recognise_all,
}

-- How often a name stands among entries, and among those of sections.
unfoldable pub times : Text → List EnvKeyEntry → ℕ
times k [] = 0
times k (e ∷ es) = (if same e.name k then 1 else 0) + times k es

unfoldable pub shown : Text → List KeySection → ℕ
unfolding times
shown k [] = 0
shown k (s ∷ ss) = times k s.entries + shown k ss

-- Each entry stands under its own name, and each name once.
pub record IsKeyed (m : Entries) : Type 0 where
  pub named : All (λ e. e.0 ≡ e.1.name) m
  pub once : (k : Text) → times k (values m) ≡ (if has k m then 1 else 0)

set_entry-named :
    (k : Text) (e : EnvKeyEntry) (m : Entries)
    → k ≡ e.name
    → All (λ f. f.0 ≡ f.1.name) m
    → All (λ f. f.0 ≡ f.1.name) (set_entry k e m)
unfolding set_entry
set_entry-named k e [] q h = (q, tt)
set_entry-named k e ((j, f) ∷ m) q (p, h) = ground (arith, same_iff j k, set_entry-named k e m q h)

times-set_entry :
    (k j : Text) (e : EnvKeyEntry) (m : Entries)
    → k ≡ e.name
    → All (λ f. f.0 ≡ f.1.name) m
    → times j (values (set_entry k e m))
      ≡ times j (values m) + (if same k j && not (has k m) then 1 else 0)
unfolding set_entry times lookup
times-set_entry k j e [] q h = ground (arith, same_iff k j)
times-set_entry k j e ((i, f) ∷ m) q (p, h) =
    ground (arith, same_iff i k, same_iff k j, same_iff i j, times-set_entry k j e m q h)

has-set_entry :
    (k j : Text) (e : EnvKeyEntry) (m : Entries) → has j (set_entry k e m) ≡ (same k j || has j m)
unfolding set_entry lookup
has-set_entry k j e [] = ground arith
has-set_entry k j e ((i, f) ∷ m) =
    ground (arith, same_iff i k, same_iff k j, same_iff i j, has-set_entry k j e m)

set_entry-IsKeyed :
    (k : Text) (e : EnvKeyEntry) (m : Entries) → k ≡ e.name → IsKeyed m → IsKeyed (set_entry k e m)
set_entry-IsKeyed k e m q h = record {
  named = set_entry-named k e m q h.named;
  once = λ j.
      ground
        (arith, times-set_entry k j e m q h.named, has-set_entry k j e m, h.once j, same_iff k j);
}

pub lookup-named :
    (k : Text) (e : EnvKeyEntry) (m : Entries)
    → All (λ f. f.0 ≡ f.1.name) m
    → lookup k m ≡ some e
    → k ≡ e.name
unfolding lookup
lookup-named k e [] h q = cc
lookup-named k e ((j, f) ∷ m) (p, h) q = ground (arith, same_iff j k, lookup-named k e m h)

pub by_name-IsKeyed : (m : Entries) (es : List EnvKeyEntry) → IsKeyed m → IsKeyed (by_name m es)
unfolding by_name
by_name-IsKeyed m [] h = h
by_name-IsKeyed m (e ∷ es) h =
    by_name-IsKeyed (set_entry e.name e m) es (set_entry-IsKeyed e.name e m refl h)

pub has-by_name :
    (k : Text) (m : Entries) (es : List EnvKeyEntry)
    → has k (by_name m es) ≡ (has k m || any (λ e. same e.name k) es)
unfolding by_name
has-by_name k m [] = ground arith
has-by_name k m (e ∷ es) =
    ground (arith, has-by_name k (set_entry e.name e m) es, has-set_entry e.name k e m)

recognise-IsKeyed : (name : Text) (m : Entries) → IsKeyed m → IsKeyed (recognise name m)
unfolding recognise
recognise-IsKeyed name m h = elim (Option-cases (lookup name m)) [
  | inl q ↦ rw (recognise, q) (set_entry-IsKeyed name _ m refl h)
  | inr (e, q) ↦
      rw (recognise, q)
        (set_entry-IsKeyed name (record e { known = true }) m (lookup-named name e m h.named q) h)
]

has-recognise : (k name : Text) (m : Entries) → has k (recognise name m) ≡ (same name k || has k m)
unfolding recognise
has-recognise k name m = elim (Option-cases (lookup name m)) [
  | inl q ↦ rw (recognise, q) (has-set_entry name k _ m)
  | inr (e, q) ↦ rw (recognise, q) (has-set_entry name k (record e { known = true }) m)
]

-- Whether a profile binds a variable.
abbrev pub binds : Text → Profile → Bool
binds k p = elim (variable_of p) [ none ↦ false | some name ↦ same name k ]

pub recognise_all-IsKeyed :
    (ps : List Profile) (m : Entries) → IsKeyed m → IsKeyed (recognise_all ps m)
unfolding recognise_all
recognise_all-IsKeyed [] m h = h
recognise_all-IsKeyed (p ∷ ps) m h = elim (Option-cases (variable_of p)) [
  | inl q ↦ rw q (recognise_all-IsKeyed ps m h)
  | inr (name, q) ↦ rw q (recognise_all-IsKeyed ps (recognise name m) (recognise-IsKeyed name m h))
]

pub has-recognise_all :
    (k : Text) (ps : List Profile) (m : Entries)
    → has k (recognise_all ps m) ≡ (has k m || any (binds k) ps)
unfolding recognise_all
has-recognise_all k [] m = ground arith
has-recognise_all k (p ∷ ps) m = elim (Option-cases (variable_of p)) [
  | inl q ↦ ground (arith, has-recognise_all k ps m)
  | inr (name, q) ↦
      (ground (arith, has-recognise_all k ps (recognise name m), has-recognise k name m))
]
