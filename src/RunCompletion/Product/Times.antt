-- ===== src/RunCompletion/Product/Times.antt =====
-- How often a path is listed: by a sort, a filter, a set and a search.
use reticle.Common.{
  ℕ, Text, same, same_iff, same_sym, same_refl, ◌≤◌, contains, filter, find, count, List, [], ◌∷◌,
  none, some, Bool, true, not, ◌&&◌, ◌≡◌, refl, ap, arith, if◌then◌else◌,
}
use reticle.Common.Sort.{insert, sort}
use reticle.RunCompletion.Product.{once}

-- How often a text is listed.
abbrev pub times : Text → List Text → ℕ
times p xs = count (same p) xs

times-insert :
    (lt : Text → Text → Bool) (p x : Text) (ys : List Text)
    → times p (insert lt x ys) ≡ times p (x ∷ ys)
unfolding insert
times-insert lt p x [] = refl
times-insert lt p x (y ∷ ys) = ground (arith, times-insert lt p x ys)

pub times-sort :
    (lt : Text → Text → Bool) (p : Text) (xs : List Text) → times p (sort lt xs) ≡ times p xs
unfolding sort
times-sort lt p [] = refl
times-sort lt p (x ∷ xs) = ground (arith, times-sort lt p xs, times-insert lt p x (sort lt xs))

pub times-filter :
    (f : Text → Bool) (p : Text) (xs : List Text)
    → times p (filter f xs) ≡ (if f p then times p xs else 0)
times-filter f p [] = ground arith
times-filter f p (x ∷ xs) = ground (arith, times-filter f p xs, ap f, same_iff p x)

pub times-once :
    (p : Text) (seen xs : List Text)
    → times p (once seen xs) ≡ (if contains p xs && not (contains p seen) then 1 else 0)
unfolding once contains
times-once p seen [] = refl
times-once p seen (x ∷ xs) =
    ground (arith, times-once p (x ∷ seen) xs, times-once p seen xs, same_iff p x, same_sym p x)

-- To put an entry of a list first changes nothing in how often a text is listed, if it is there once.
pub times-first :
    (p e : Text) (xs : List Text)
    → times e xs ≡ 1
    → times p (e ∷ filter (λ x. not (same x e)) xs) ≡ times p xs
times-first p e xs h =
    ground (arith, times-filter (λ x. not (same x e)) p xs, same_iff p e, ap (λ x. times x xs))

-- Whatever is found of a list is there.
module _ (f : Text → Bool) where
  pub times-find :
      (xs : List Text) (e : Text) → find f xs ≡ some e → (1 ≤ times e xs) × (f e ≡ true)
  times-find [] e h = cc
  times-find (x ∷ xs) e h = ground (arith, times-find xs e, same_refl x)

  pub times-find-none : (xs : List Text) (p : Text) → find f xs ≡ none → f p ≡ true → times p xs ≡ 0
  times-find-none [] p h k = refl
  times-find-none (x ∷ xs) p h k = ground (arith, times-find-none xs p, same_iff p x, ap f)
