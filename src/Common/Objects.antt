-- ===== src/Common/Objects.antt =====
-- Objects used as dictionaries (`Record<string, V>`), as association lists in the order in which
-- JavaScript enumerates an object: keys that are array indices first, ascending, and then the
-- others in the order of their insertion. Keys that `Object.prototype` has ("constructor",
-- "__proto__") are left out: the code reads an inherited member under them.
use Prim.Native.Nat.{ℕ, ◌+◌, ◌-◌, ◌*◌}
use mathlib.Core.Path.{◌≡◌, refl}
use mathlib.Core.Bool.{Bool, true, false, ◌&&◌}
use mathlib.Core.List.{List, [], ◌∷◌, map}
use mathlib.Core.Option.{Option, none, some}
use native.Mathlib.Omega.{arith}
use reticle.Common.Tests.{◌==◌, ltb, leb, if◌then◌else◌, is_some}
use reticle.Common.Lists.{All}
use reticle.Common.Strings.{Text, same, same_iff, same_refl, contains}

-- The number that a text of decimal digits stands for.
digits_value : ℕ → Text → Option ℕ
digits_value acc [] = some acc
digits_value acc (c ∷ s) =
    let rest = digits_value (10 * acc + (c - b'0')) s in
    if leb b'0' c && leb c b'9' then rest else none

-- An array index: a canonical decimal numeral below 2^32 - 1.
unfoldable pub array_index : Text → Option ℕ
unfolding digits_value
array_index [] = none
array_index (c ∷ s) =
    if c == b'0' then (elim s [ [] ↦ some 0 | _ ∷ _ ↦ none ]) else (elim (digits_value 0 (c ∷ s)) [
      | none ↦ none
      | some n ↦ if ltb n 4294967295 then some n else none
    ])

-- Whether a new key `k` is enumerated before the key `j` that is already there.
unfoldable pub comes_before : Text → Text → Bool
unfolding array_index
comes_before k j = elim (array_index k) [
  | none ↦ false
  | some n ↦ elim (array_index j) [ none ↦ true | some m ↦ ltb n m ]
]

abbrev pub Dict : Type 0 → Type 0
Dict V = List (Text × V)

module _ {V : Type 0} where
  -- `m[k]`
  unfoldable pub lookup : Text → Dict V → Option V
  lookup k [] = none
  lookup k ((j, v) ∷ m) = if same j k then some v else lookup k m

  abbrev pub has : Text → Dict V → Bool
  has k m = is_some (lookup k m)

  abbrev pub keys : Dict V → List Text
  keys = map (λ e. e.0)

  abbrev pub values : Dict V → List V
  values = map (λ e. e.1)

  unfoldable pub replace : Text → V → Dict V → Dict V
  replace k v [] = []
  replace k v ((j, w) ∷ m) = if same j k then (j, v) ∷ m else (j, w) ∷ replace k v m

  unfoldable pub add : Text → V → Dict V → Dict V
  add k v [] = (k, v) ∷ []
  add k v ((j, w) ∷ m) = if comes_before k j then (k, v) ∷ (j, w) ∷ m else (j, w) ∷ add k v m

  -- `m[k] = v`
  unfoldable pub put : Text → V → Dict V → Dict V
  unfolding replace add
  put k v m = if has k m then replace k v m else add k v m

  lookup-replace :
      (k j : Text) (v : V) (m : Dict V)
      → lookup j (replace k v m) ≡ (if same k j && has j m then some v else lookup j m)
  unfolding lookup replace
  lookup-replace k j v [] = ground arith
  lookup-replace k j v ((i, w) ∷ m) =
      ground (arith, same_iff k j, same_iff i k, same_iff i j, lookup-replace k j v m)

  lookup-add :
      (k j : Text) (v : V) (m : Dict V)
      → lookup k m ≡ none
      → lookup j (add k v m) ≡ (if same k j then some v else lookup j m)
  unfolding lookup add
  lookup-add k j v [] h = refl
  lookup-add k j v ((i, w) ∷ m) h =
      ground (arith, same_iff k j, same_iff i k, same_iff i j, lookup-add k j v m)

  -- What is written is read back, and every other key reads as before.
  pub lookup-put :
      (k j : Text) (v : V) (m : Dict V)
      → lookup j (put k v m) ≡ (if same k j then some v else lookup j m)
  unfolding put
  lookup-put k j v m = ground (arith, same_iff k j, lookup-replace k j v m, lookup-add k j v m)

  pub lookup-put_self : (k : Text) (v : V) (m : Dict V) → lookup k (put k v m) ≡ some v
  lookup-put_self k v m = ground (arith, lookup-put k k v m, same_refl k)

  -- Membership of a key among the keys.
  pub contains-keys : (k : Text) (m : Dict V) → contains k (keys m) ≡ has k m
  unfolding contains lookup
  contains-keys k [] = refl
  contains-keys k ((j, v) ∷ m) = ground (arith, contains-keys k m)

-- Every entry satisfies a predicate on its key and value.
abbrev pub AllEntries {ℓ} : {V : Type 0} → (Text → V → Type ℓ) → Dict V → Type ℓ
AllEntries P m = All (λ e. P e.0 e.1) m

module _ {ℓ} {V : Type 0} (P : Text → V → Type ℓ) where
  AllEntries-replace :
      (k : Text) (v : V) (m : Dict V) → AllEntries P m → P k v → AllEntries P (replace k v m)
  unfolding replace
  AllEntries-replace k v [] h p = tt
  AllEntries-replace k v ((j, w) ∷ m) (q, h) p =
      ground (arith, same_iff j k, AllEntries-replace k v m h p)

  AllEntries-add :
      (k : Text) (v : V) (m : Dict V) → AllEntries P m → P k v → AllEntries P (add k v m)
  unfolding add
  AllEntries-add k v [] h p = (p, tt)
  AllEntries-add k v ((j, w) ∷ m) (q, h) p = ground (arith, AllEntries-add k v m h p)

  pub AllEntries-put :
      (k : Text) (v : V) (m : Dict V) → AllEntries P m → P k v → AllEntries P (put k v m)
  unfolding put
  AllEntries-put k v m h p = ground (arith, AllEntries-replace k v m h p, AllEntries-add k v m h p)

  pub AllEntries-lookup :
      (k : Text) (m : Dict V) (v : V) → AllEntries P m → lookup k m ≡ some v → P k v
  unfolding lookup
  AllEntries-lookup k [] v h e = cc
  AllEntries-lookup k ((j, w) ∷ m) v (q, h) e =
      ground (arith, same_iff j k, AllEntries-lookup k m v h)

  pub AllEntries-map :
      (Q : Text → V → Type ℓ) (m : Dict V)
      → ((k : Text) (v : V) → P k v → Q k v)
      → AllEntries P m
      → AllEntries Q m
  AllEntries-map Q [] f h = tt
  AllEntries-map Q ((j, w) ∷ m) f (q, h) = (f j w q, AllEntries-map Q m f h)

  -- Under a key the predicate holds of the value by its lookup.
  pub AllEntries-values :
      (Q : V → Type ℓ) (m : Dict V)
      → ((k : Text) (v : V) → P k v → Q v)
      → AllEntries P m
      → All Q (values m)
  AllEntries-values Q [] f h = tt
  AllEntries-values Q ((j, w) ∷ m) f (q, h) = (f j w q, AllEntries-values Q m f h)
