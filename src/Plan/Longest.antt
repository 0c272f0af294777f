-- ===== src/Plan/Longest.antt =====
-- The levels of `depths` (Plan.Depths) are the longest distances.
use reticle.Common.{
  ℕ, zero, suc, ◌+◌, ◌≤◌, Text, same, same_refl, contains, List, [], ◌∷◌, Option, none, some, true,
  false, lookup, ◌≡◌, sym, subst, ap, arith, Bool-cases, Option-cases, inl, inr,
}
use reticle.Plan.Depths.{Levels, set_level, Relaxing, relax_all, passes, start_levels, depths}
use reticle.Plan.Walks.{
  Walk, begin, go, Reaches, AtLeast, IsLength, AreLengths, set_level-All, lookup-All,
  lookup-set_level, relax_all-AreLengths, relax_all-AtLeast, relax_all-reached, relax_all-same,
}

Reaches-weaken : (n d : ℕ) (o : Option ℕ) → n ≤ d → Reaches d o → Reaches n o
Reaches-weaken n d none l h = h
Reaches-weaken n d (some e) l h = omega arith

module _ (children : Text → List Text) (starts : List Text) (limit : ℕ)
    (bound : (n : ℕ) (id : Text) → Walk children starts n id → n ≤ limit) where
  -- Every node has at least the length of each walk to it that is no longer than `k`.
  abbrev Covers : ℕ → Levels → Type 0
  Covers k m = (n : ℕ) (id : Text) → Walk children starts n id → n ≤ k → AtLeast n id m

  abbrev pass : Levels → Relaxing
  pass m = relax_all children limit m (m, false)

  pass-reached :
      (n : ℕ) (id child : Text) (m : Levels)
      → AreLengths children starts limit m
      → contains child (children id) ≡ true
      → AtLeast n id m
      → AtLeast (suc n) child (pass m).0
  pass-reached n id child m a c h = elim (Option-cases (lookup id m)) [
    | inl e ↦ absurd (rw e at h)
    | inr (d, e) ↦
        let w = lookup-All (IsLength children starts limit) id d m e a in
        let room = bound (suc d) child (go d id child w.walked c) in
        Reaches-weaken (suc n) (suc d) (lookup child (pass m).0) (ground arith)
          (relax_all-reached children starts limit id child d m (m, false) e room c)
  ]

  pass-Covers :
      (k : ℕ) (m : Levels)
      → AreLengths children starts limit m
      → Covers k m
      → Covers (suc k) (pass m).0
  pass-Covers k m a h n id (begin i e) l =
      relax_all-AtLeast children starts limit 0 id m (m, false) (h 0 id (begin id e) (omega arith))
  pass-Covers k m a h n child (go n' id c w e) l =
      pass-reached n' id child m a e (h n' id w (omega arith))

  -- Where a pass changes nothing, walks of every length are covered.
  fixed-Covers :
      (k j : ℕ) (m : Levels)
      → AreLengths children starts limit m
      → (pass m).1 ≡ false
      → Covers k m
      → Covers (k + j) m
  fixed-Covers k zero m a e h = subst (λ i. Covers i m) (omega arith) h
  fixed-Covers k (suc j) m a e h =
      subst (λ i. Covers i m) (omega arith)
        (subst (λ (r : Relaxing). Covers (suc (k + j)) r.0)
          (relax_all-same children starts limit m (m, false) e)
          (pass-Covers (k + j) m a (fixed-Covers k j m a e h)))

  pass-AreLengths :
      (m : Levels)
      → AreLengths children starts limit m
      → AreLengths children starts limit (pass m).0
  pass-AreLengths m a = relax_all-AreLengths children starts limit m (m, false) a a

  passes-Covers :
      (k left : ℕ) (m : Levels)
      → AreLengths children starts limit m
      → Covers k m
      → Covers (k + left) (passes children limit left m)
        × AreLengths children starts limit (passes children limit left m)
  unfolding passes
  passes-Covers k zero m a h = (subst (λ i. Covers i m) (omega arith) h, a)
  passes-Covers k (suc left) m a h = elim (Bool-cases (pass m).1) [
    | inl e ↦
        let (c, b) =
          passes-Covers (suc k) left (pass m).0 (pass-AreLengths m a) (pass-Covers k m a h) in
        rw e (subst (λ i. Covers i (passes children limit left (pass m).0)) (omega arith) c, b)
    | inr e ↦
        let same_map : m ≡ (pass m).0 =
          ap (λ (r : Relaxing). r.0) (sym (relax_all-same children starts limit m (m, false) e)) in
        rw e (
          subst (Covers (k + suc left)) same_map (fixed-Covers k (suc left) m a e h),
          pass-AreLengths m a,
        )
  ]

  start_levels-AreLengths :
      (ss : List Text) (m : Levels)
      → ((s : Text) → contains s ss ≡ true → contains s starts ≡ true)
      → AreLengths children starts limit m
      → AreLengths children starts limit (start_levels ss m)
  unfolding start_levels contains
  start_levels-AreLengths [] m k h = h
  start_levels-AreLengths (s ∷ ss) m k h =
      start_levels-AreLengths ss (set_level s 0 m) (λ t e. k t (ground arith))
        (set_level-All (IsLength children starts limit) s 0 m
          (record { walked = begin s (k s (ground (arith, same_refl s))); bounded = omega arith })
          h)

  start_levels-AtLeast :
      (id : Text) (ss : List Text) (m : Levels) → AtLeast 0 id m → AtLeast 0 id (start_levels ss m)
  unfolding start_levels
  start_levels-AtLeast id [] m h = h
  start_levels-AtLeast id (s ∷ ss) m h =
      start_levels-AtLeast id ss (set_level s 0 m) (rw (lookup-set_level s id 0 m) (ground (arith)))

  start_levels-reached :
      (id : Text) (ss : List Text) (m : Levels)
      → contains id ss ≡ true
      → AtLeast 0 id (start_levels ss m)
  unfolding start_levels contains
  start_levels-reached id [] m h = cc
  start_levels-reached id (s ∷ ss) m h = elim (Bool-cases (same s id)) [
    | inl e ↦
        start_levels-AtLeast id ss (set_level s 0 m)
          (rw (lookup-set_level s id 0 m, e) (omega arith))
    | inr e ↦ start_levels-reached id ss (set_level s 0 m) (rw e at h)
  ]

  start_levels-Covers : Covers 0 (start_levels starts [])
  start_levels-Covers n id (begin i e) l = start_levels-reached id starts [] e
  start_levels-Covers n id (go n' i c w e) l = absurd (omega arith)

-- The longest distance to a node: no walk leads to a node without one.
abbrev pub IsLongest : (Text → List Text) → List Text → Text → Option ℕ → Type 0
IsLongest children starts id none = (n : ℕ) → ¬ Walk children starts n id
IsLongest children starts id (some d) =
    Walk children starts d id × ((n : ℕ) → Walk children starts n id → n ≤ d)

longest :
    (children : Text → List Text) (starts : List Text) (limit : ℕ) (id : Text) (m : Levels)
    → AreLengths children starts limit m
    → ((n : ℕ) → Walk children starts n id → AtLeast n id m)
    → IsLongest children starts id (lookup id m)
longest children starts limit id m a c = elim (Option-cases (lookup id m)) [
  | inl e ↦ rw e (λ n w. rw e at (c n w))
  | inr (d, e) ↦
      rw e ((lookup-All (IsLength children starts limit) id d m e a).walked, λ n w. rw e at (c n w))
]

-- Where no walk from the starts is longer than the limit, as in a graph without cycles that has no
-- more nodes than that, the relaxation ends with the level of each node that can be reached being the
-- length of the longest walk to it, and with none for the others.
pub depths-IsLongest :
    (children : Text → List Text) (starts : List Text) (limit : ℕ)
    → ((n : ℕ) (id : Text) → Walk children starts n id → n ≤ limit)
    → (id : Text) → IsLongest children starts id (lookup id (depths starts children limit))
unfolding depths
depths-IsLongest children starts limit bound id =
    let (c, a) =
      passes-Covers children starts limit bound 0 limit (start_levels starts [])
        (start_levels-AreLengths children starts limit bound starts [] (λ s e. e) tt)
        (start_levels-Covers children starts limit bound) in
    longest children starts limit id (depths starts children limit) a
      (λ n w. c n id w (omega (arith, bound n id w)))
