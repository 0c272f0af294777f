-- ===== src/Keys/Listing.antt =====
-- The entries that are listed of the `.env` file (Keys).
use reticle.Common.{
  Text, same, same_iff, contains, List, [], ◌∷◌, ◌++◌, map, filter, any, Bool, true, false, not,
  ◌||◌, ◌&&◌, Dict, lookup, has, ◌≡◌, refl, ap, ◌∙◌, arith,
}
use reticle.Keys.{
  EnvKeyEntry, KnownSlot, known_slots, known_entry, other_entry, is_known, list_entries,
}

abbrev pub entry_names : List EnvKeyEntry → List Text
entry_names = map (λ e. e.name)

contains-append :
    (k : Text) (xs ys : List Text) → contains k (xs ++ ys) ≡ (contains k xs || contains k ys)
unfolding contains
contains-append k [] ys = refl
contains-append k (x ∷ xs) ys = ground (arith, contains-append k xs ys)

map-append_names :
    (xs ys : List EnvKeyEntry) → entry_names (xs ++ ys) ≡ entry_names xs ++ entry_names ys
map-append_names [] ys = refl
map-append_names (x ∷ xs) ys = ap (λ r. x.name ∷ r) (map-append_names xs ys)

known_names :
    (k : Text) (values : Dict Text) (slots : List KnownSlot)
    → contains k (entry_names (map (known_entry values) slots)) ≡ any (λ s. same s.name k) slots
unfolding contains known_entry
known_names k values [] = refl
known_names k values (s ∷ slots) = ap (λ b. same s.name k || b) (known_names k values slots)

abbrev others : Dict Text → List EnvKeyEntry
others values = map (λ e. other_entry e.0 e.1) (filter (λ e. not (is_known e.0)) values)

other_names :
    (k : Text) (values : Dict Text)
    → contains k (entry_names (others values)) ≡ (has k values && not (is_known k))
unfolding contains lookup other_entry
other_names k [] = refl
other_names k ((j, v) ∷ values) = ground (arith, other_names k values, same_iff j k)

known_slot_names :
    (k : Text) (values : Dict Text)
    → contains k (entry_names (map (known_entry values) known_slots)) ≡ is_known k
unfolding is_known
known_slot_names k values = known_names k values known_slots

or_absorb : (a b : Bool) → (a || (b && not a)) ≡ (a || b)
or_absorb true b = refl
or_absorb false true = refl
or_absorb false false = refl

-- The built-in slots and the variables that the file sets are listed, and nothing else.
pub contains-list_entries :
    (k : Text) (values : Dict Text)
    → contains k (entry_names (list_entries values)) ≡ (is_known k || has k values)
unfolding list_entries
contains-list_entries k values =
    ap (contains k) (map-append_names (map (known_entry values) known_slots) (others values))
    ∙ contains-append k (entry_names (map (known_entry values) known_slots))
        (entry_names (others values))
    ∙ ground (
      arith,
      known_slot_names k values,
      other_names k values,
      or_absorb (is_known k) (has k values),
    )
