-- ===== src/Common/Sort.antt =====
-- `Array.prototype.sort`, which is stable, as insertion sort by a strict test
-- (`compare(a, b) < 0`), and what a sort by numbers gives.
use Prim.Native.Nat.{ℕ}
use mathlib.Core.Path.{◌≡◌}
use mathlib.Core.Bool.{Bool, true, false}
use mathlib.Core.List.{List, [], ◌∷◌, Perm}
use mathlib.Core.List.Perm
use native.Mathlib.Omega.{arith}
use reticle.Common.Tests.{ltb, if◌then◌else◌, Bool-cases}
use reticle.Common.Lists.{All}
use mathlib.Core.Logic.{inl, inr}

module _ {ℓ} {A : Type ℓ} (lt : A → A → Bool) where
  unfoldable pub insert : A → List A → List A
  insert x [] = x ∷ []
  insert x (y ∷ ys) = let rest = insert x ys in if lt y x then y ∷ rest else x ∷ y ∷ ys

  unfoldable pub sort : List A → List A
  unfolding insert
  sort [] = []
  sort (x ∷ xs) = insert x (sort xs)

  insert-perm : (x : A) (ys : List A) → Perm (insert x ys) (x ∷ ys)
  unfolding insert
  insert-perm x [] = Perm.refl _
  insert-perm x (y ∷ ys) = elim (Bool-cases (lt y x)) [
    | inl e ↦ rw e (Perm.trans (Perm.cons y (insert-perm x ys)) (Perm.swap x y ys))
    | inr e ↦ rw e (Perm.refl _)
  ]

  -- A sort rearranges.
  pub sort-perm : (xs : List A) → Perm (sort xs) xs
  unfolding sort
  sort-perm [] = Perm.refl _
  sort-perm (x ∷ xs) = Perm.trans (insert-perm x (sort xs)) (Perm.cons x (sort-perm xs))

-- What is sorted by the test: nothing goes strictly before what stands before it.
module _ {ℓ} {A : Type ℓ} (lt : A → A → Bool) where
  abbrev pub IsSorted : List A → Type 0
  IsSorted [] = Unit
  IsSorted (x ∷ xs) = All (λ y. lt y x ≡ false) xs × IsSorted xs

  module _ (asym : (a b : A) → lt a b ≡ true → lt b a ≡ false)
      (trans : (a b c : A) → lt b a ≡ false → lt c b ≡ false → lt c a ≡ false) where
    All-insert :
        (z x : A) (ys : List A)
        → lt x z ≡ false
        → All (λ y. lt y z ≡ false) ys
        → All (λ y. lt y z ≡ false) (insert lt x ys)
    unfolding insert
    All-insert z x [] p h = (p, tt)
    All-insert z x (y ∷ ys) p (q, h) = ground (arith, All-insert z x ys p h)

    All-weaken :
        (z x : A) (ys : List A)
        → lt x z ≡ false
        → All (λ y. lt y x ≡ false) ys
        → All (λ y. lt y z ≡ false) ys
    All-weaken z x [] p h = tt
    All-weaken z x (y ∷ ys) p (q, h) = (trans z x y p q, All-weaken z x ys p h)

    insert-IsSorted : (x : A) (ys : List A) → IsSorted ys → IsSorted (insert lt x ys)
    unfolding insert
    insert-IsSorted x [] h = (tt, tt)
    insert-IsSorted x (y ∷ ys) (low, h) = elim (Bool-cases (lt y x)) [
      | inl e ↦ rw e (All-insert y x ys (asym y x e) low, insert-IsSorted x ys h)
      | inr e ↦ rw e ((e, All-weaken x y ys e low), (low, h))
    ]

    pub sort-IsSorted : (xs : List A) → IsSorted (sort lt xs)
    unfolding sort
    sort-IsSorted [] = tt
    sort-IsSorted (x ∷ xs) = insert-IsSorted x (sort lt xs) (sort-IsSorted xs)

-- A sort by a number, in either direction, is sorted.
module _ {ℓ} {A : Type ℓ} (key : A → ℕ) where
  pub sort-IsSorted_ascending :
      (xs : List A) → IsSorted (λ a b. ltb (key a) (key b)) (sort (λ a b. ltb (key a) (key b)) xs)
  sort-IsSorted_ascending xs =
      sort-IsSorted _ (λ a b h. ground arith) (λ a b c h k. ground arith) xs

  pub sort-IsSorted_descending :
      (xs : List A) → IsSorted (λ a b. ltb (key b) (key a)) (sort (λ a b. ltb (key b) (key a)) xs)
  sort-IsSorted_descending xs =
      sort-IsSorted _ (λ a b h. ground arith) (λ a b c h k. ground arith) xs
