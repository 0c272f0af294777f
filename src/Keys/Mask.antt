-- ===== src/Keys/Mask.antt =====
-- What is shown of a key (Keys) that is not revealed.
use reticle.Common.{
  ℕ, ◌-◌, ◌≤◌, ◌<◌, Text, codes, trim, [], ◌∷◌, map, length, take_last, length-append, length-drop,
  ◌≡◌, refl, ap, arith, inl, inr, ◌⊎◌,
}
use reticle.Keys.{mask, mask_trimmed}

length-map : (f : ℕ → ℕ) (s : Text) → length (map f s) ≡ length s
length-map f [] = refl
length-map f (a ∷ s) = omega (arith, length-map f s)

map_const : (c : ℕ) (s t : Text) → length s ≡ length t → map (λ a. c) s ≡ map (λ a. c) t
map_const c [] [] h = refl
map_const c [] (b ∷ t) h = absurd (omega arith)
map_const c (a ∷ s) [] h = absurd (omega arith)
map_const c (a ∷ s) (b ∷ t) h = ap (λ r. c ∷ r) (map_const c s t (omega arith))

-- Two values that may not be told apart: both short, of one length, or both long, with the same last
-- four code units.
abbrev pub Alike : Text → Text → Type 0
Alike s t =
    ((length s ≤ 8) × (length s ≡ length t))
    ⊎ ((8 < length s) × (8 < length t) × (take_last 4 s ≡ take_last 4 t))

mask_trimmed-Alike : (s t : Text) → Alike s t → mask_trimmed s ≡ mask_trimmed t
unfolding mask_trimmed
mask_trimmed-Alike s t (inl (h, e)) = ground (arith, map_const 0x2022 s t e)
mask_trimmed-Alike s t (inr (h, k, e)) = ground arith

length-mask_trimmed : (s : Text) → length (mask_trimmed s) ≤ 12
unfolding mask_trimmed
length-mask_trimmed s = ground (
  arith,
  length-map (λ a. 0x2022) s,
  length-append (codes "••••••••") (take_last 4 s),
  length-drop (length s - 4) s,
)

-- What is shown of a value has at most twelve code units. Of a value that has, trimmed, at most eight
-- it tells the length only, and of a longer one the last four code units only.
pub mask-Alike : (v w : Text) → Alike (trim v) (trim w) → (mask v ≡ mask w) × (length (mask v) ≤ 12)
unfolding mask
mask-Alike v w h = (mask_trimmed-Alike (trim v) (trim w) h, length-mask_trimmed (trim v))
