-- ===== src/Plan/Walks.antt =====
-- What a relaxation (Plan.Depths) keeps: its levels are lengths of walks, and do not go down.
use mathlib.Core.Option.{some_inj}
use reticle.Common.{
  ℕ, suc, ◌≤◌, leb, Text, same, same_iff, same_refl, contains, List, [], ◌∷◌, Option, none, some,
  true, false, ◌&&◌, if◌then◌else◌, lookup, ◌≡◌, refl, sym, subst, ap, ◌∙◌, arith, Bool-cases, All,
  inl, inr,
}
use reticle.Plan.Depths.{
  Levels, set_level, is_below, Relaxing, relax_child, relax_children, relax_all,
}

-- A walk along the edges, from one of some nodes.
pub data Walk (children : Text → List Text) (starts : List Text) : ℕ → Text → Type 0 where
  begin : (id : Text) → contains id starts ≡ true → Walk children starts 0 id
  go :
      (n : ℕ) (id child : Text)
      → Walk children starts n id
      → contains child (children id) ≡ true
      → Walk children starts (suc n) child

pub lookup-set_level :
    (k j : Text) (v : ℕ) (m : Levels)
    → lookup j (set_level k v m) ≡ (if same k j then some v else lookup j m)
unfolding lookup set_level
lookup-set_level k j v [] = refl
lookup-set_level k j v ((i, w) ∷ m) =
    ground (arith, same_iff k j, same_iff i k, same_iff i j, lookup-set_level k j v m)

-- A level of at least `n`.
abbrev pub Reaches : ℕ → Option ℕ → Type 0
Reaches n none = ⊥
Reaches n (some d) = n ≤ d

-- The node has a level of at least `n`.
abbrev pub AtLeast : ℕ → Text → Levels → Type 0
AtLeast n id m = Reaches n (lookup id m)

module _ (P : Text × ℕ → Type 0) where
  pub set_level-All : (k : Text) (v : ℕ) (m : Levels) → P (k, v) → All P m → All P (set_level k v m)
  unfolding set_level
  set_level-All k v [] p h = (p, tt)
  set_level-All k v ((j, w) ∷ m) p (q, h) = elim (Bool-cases (same j k)) [
    | inl e ↦ rw e (subst (λ i. P (i, v)) (sym ((same_iff j k).0 e)) p, h)
    | inr e ↦ rw e (q, set_level-All k v m p h)
  ]

  pub lookup-All : (k : Text) (v : ℕ) (m : Levels) → lookup k m ≡ some v → All P m → P (k, v)
  unfolding lookup
  lookup-All k v [] e h = cc
  lookup-All k v ((j, w) ∷ m) e (q, h) = elim (Bool-cases (same j k)) [
    | inl s ↦
        subst (λ i. P (i, v)) ((same_iff j k).0 s)
          (subst (λ u. P (j, u)) (some_inj.0 (rw s at e)) q)
    | inr s ↦ lookup-All k v m (rw s at e) h
  ]

-- An entry is the length of a walk to its node, and does not pass the limit.
pub record IsLength (children : Text → List Text) (starts : List Text) (limit : ℕ) (e : Text × ℕ)
    : Type 0 where
  pub walked : Walk children starts e.1 e.0
  pub bounded : e.1 ≤ limit

module _ (limit level : ℕ) where
  lookup-relax_child :
      (id child : Text) (r : Relaxing)
      → lookup id (relax_child limit level child r).0 ≡ (
          if is_below (suc level) (lookup child r.0) && leb (suc level) limit
          then (if same child id then some (suc level) else lookup id r.0)
          else lookup id r.0)
  unfolding relax_child
  lookup-relax_child id child r = ground (arith, lookup-set_level child id (suc level) r.0)

  relax_child-AtLeast :
      (n : ℕ) (id child : Text) (r : Relaxing)
      → AtLeast n id r.0
      → AtLeast n id (relax_child limit level child r).0
  relax_child-AtLeast n id child r h =
      rw (lookup-relax_child id child r) (ground (arith, same_iff child id))

  relax_child-reached :
      (child : Text) (r : Relaxing)
      → suc level ≤ limit
      → AtLeast (suc level) child (relax_child limit level child r).0
  relax_child-reached child r h =
      rw (lookup-relax_child child child r) (ground (arith, same_refl child))

  relax_child-same :
      (child : Text) (r : Relaxing)
      → (relax_child limit level child r).1 ≡ false
      → relax_child limit level child r ≡ r
  unfolding relax_child
  relax_child-same child r h = ground arith

  relax_children-AtLeast :
      (n : ℕ) (id : Text) (cs : List Text) (r : Relaxing)
      → AtLeast n id r.0
      → AtLeast n id (relax_children limit level cs r).0
  unfolding relax_children
  relax_children-AtLeast n id [] r h = h
  relax_children-AtLeast n id (c ∷ cs) r h =
      relax_children-AtLeast n id cs (relax_child limit level c r) (relax_child-AtLeast n id c r h)

  relax_children-reached :
      (child : Text) (cs : List Text) (r : Relaxing)
      → suc level ≤ limit
      → contains child cs ≡ true
      → AtLeast (suc level) child (relax_children limit level cs r).0
  unfolding relax_children contains
  relax_children-reached child [] r h k = cc
  relax_children-reached child (c ∷ cs) r h k = elim (Bool-cases (same c child)) [
    | inl e ↦ relax_children-AtLeast (suc level) child cs (relax_child limit level c r) (
        subst (λ j. AtLeast (suc level) child (relax_child limit level j r).0)
          (sym ((same_iff c child).0 e)) (relax_child-reached child r h))
    | inr e ↦ relax_children-reached child cs (relax_child limit level c r) h (rw e at k)
  ]

  relax_children-same :
      (cs : List Text) (r : Relaxing)
      → (relax_children limit level cs r).1 ≡ false
      → relax_children limit level cs r ≡ r
  unfolding relax_children
  relax_children-same [] r h = refl
  relax_children-same (c ∷ cs) r h =
      let e = relax_children-same cs (relax_child limit level c r) h in
      e ∙ relax_child-same c r (ap (λ (q : Relaxing). q.1) (sym e) ∙ h)

module _ (children : Text → List Text) (starts : List Text) (limit : ℕ) where
  abbrev pub AreLengths : Levels → Type 0
  AreLengths = All (IsLength children starts limit)

  relax_child-AreLengths :
      (level : ℕ) (id child : Text) (r : Relaxing)
      → Walk children starts level id
      → contains child (children id) ≡ true
      → AreLengths r.0
      → AreLengths (relax_child limit level child r).0
  unfolding relax_child
  relax_child-AreLengths level id child r w c h =
      elim (Bool-cases (is_below (suc level) (lookup child r.0) && leb (suc level) limit)) [
        | inr k ↦ rw k h
        | inl k ↦ rw k (
            set_level-All (IsLength children starts limit) child (suc level) r.0
              (record { walked = go level id child w c; bounded = ground arith }) h)
      ]

  relax_children-AreLengths :
      (level : ℕ) (id : Text) (cs : List Text) (r : Relaxing)
      → Walk children starts level id
      → ((c : Text) → contains c cs ≡ true → contains c (children id) ≡ true)
      → AreLengths r.0
      → AreLengths (relax_children limit level cs r).0
  unfolding relax_children contains
  relax_children-AreLengths level id [] r w k h = h
  relax_children-AreLengths level id (c ∷ cs) r w k h =
      relax_children-AreLengths level id cs (relax_child limit level c r) w
        (λ d e. k d (ground arith))
        (relax_child-AreLengths level id c r w (k c (ground (arith, same_refl c))) h)

  pub relax_all-AreLengths :
      (nodes : Levels) (r : Relaxing)
      → AreLengths nodes
      → AreLengths r.0
      → AreLengths (relax_all children limit nodes r).0
  unfolding relax_all
  relax_all-AreLengths [] r w h = h
  relax_all-AreLengths ((id, level) ∷ nodes) r (w, ws) h =
      relax_all-AreLengths nodes (relax_children limit level (children id) r) ws
        (relax_children-AreLengths level id (children id) r w.walked (λ c e. e) h)

  pub relax_all-AtLeast :
      (n : ℕ) (id : Text) (nodes : Levels) (r : Relaxing)
      → AtLeast n id r.0
      → AtLeast n id (relax_all children limit nodes r).0
  unfolding relax_all
  relax_all-AtLeast n id [] r h = h
  relax_all-AtLeast n id ((j, level) ∷ nodes) r h =
      relax_all-AtLeast n id nodes (relax_children limit level (children j) r)
        (relax_children-AtLeast limit level n id (children j) r h)

  pub relax_all-same :
      (nodes : Levels) (r : Relaxing)
      → (relax_all children limit nodes r).1 ≡ false
      → relax_all children limit nodes r ≡ r
  unfolding relax_all
  relax_all-same [] r h = refl
  relax_all-same ((id, level) ∷ nodes) r h =
      let e = relax_all-same nodes (relax_children limit level (children id) r) h in
      e ∙ relax_children-same limit level (children id) r (ap (λ (q : Relaxing). q.1) (sym e) ∙ h)

  -- The children of a node of the list get a level beyond the node's.
  pub relax_all-reached :
      (id child : Text) (level : ℕ) (nodes : Levels) (r : Relaxing)
      → lookup id nodes ≡ some level
      → suc level ≤ limit
      → contains child (children id) ≡ true
      → AtLeast (suc level) child (relax_all children limit nodes r).0
  unfolding relax_all lookup
  relax_all-reached id child level [] r e h c = cc
  relax_all-reached id child level ((j, l) ∷ nodes) r e h c = elim (Bool-cases (same j id)) [
    | inr q ↦
        relax_all-reached id child level nodes (relax_children limit l (children j) r) (rw q at e) h
          c
    | inl q ↦
        let s : j ≡ id = (same_iff j id).0 q in
        let k : l ≡ level = some_inj.0 (rw q at e) in
        relax_all-AtLeast (suc level) child nodes (relax_children limit l (children j) r) (
          subst (λ j'. AtLeast (suc level) child (relax_children limit l (children j') r).0) (sym s)
            (subst (λ l'. AtLeast (suc level) child (relax_children limit l' (children id) r).0)
              (sym k) (relax_children-reached limit level child (children id) r h c)))
  ]
