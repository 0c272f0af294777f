-- ===== src/Plan/Depths.antt =====
-- `depths` of planModel.ts: the longest distances from some nodes, by relaxation.
use reticle.Common.{
  ℕ, zero, suc, ltb, leb, Text, same, List, [], ◌∷◌, Option, none, some, Bool, true, false, ◌&&◌,
  if◌then◌else◌, lookup,
}

abbrev pub Levels : Type 0
Levels = List (Text × ℕ)

-- `depth.set(id, level)`, which keeps the place of an old key.
unfoldable pub set_level : Text → ℕ → Levels → Levels
set_level k v [] = (k, v) ∷ []
set_level k v ((j, w) ∷ m) = if same j k then (j, v) ∷ m else (j, w) ∷ set_level k v m

-- `(depth.get(child) ?? -1) < level`
abbrev pub is_below : ℕ → Option ℕ → Bool
is_below level none = true
is_below level (some d) = ltb d level

-- The map and `changed`.
abbrev pub Relaxing : Type 0
Relaxing = Levels × Bool

unfoldable pub relax_child : ℕ → ℕ → Text → Relaxing → Relaxing
unfolding set_level
relax_child limit level child r =
    if is_below (suc level) (lookup child r.0) && leb (suc level) limit
    then (set_level child (suc level) r.0, true)
    else r

unfoldable pub relax_children : ℕ → ℕ → List Text → Relaxing → Relaxing
unfolding relax_child
relax_children limit level [] r = r
relax_children limit level (c ∷ cs) r = relax_children limit level cs (relax_child limit level c r)

-- One pass over the nodes that the map had when the pass began.
unfoldable pub relax_all : (Text → List Text) → ℕ → Levels → Relaxing → Relaxing
unfolding relax_children
relax_all children limit [] r = r
relax_all children limit ((id, level) ∷ nodes) r =
    relax_all children limit nodes (relax_children limit level (children id) r)

-- The passes that are left; a pass that changes nothing is the last.
unfoldable pub passes : (Text → List Text) → ℕ → ℕ → Levels → Levels
unfolding relax_all
passes children limit zero m = m
passes children limit (suc left) m =
    let r = relax_all children limit m (m, false) in
    let rest = passes children limit left r.0 in if r.1 then rest else r.0

-- `new Map(starts.map((id) => [id, 0]))`
unfoldable pub start_levels : List Text → Levels → Levels
unfolding set_level
start_levels [] m = m
start_levels (s ∷ ss) m = start_levels ss (set_level s 0 m)

unfoldable pub depths : List Text → (Text → List Text) → ℕ → Levels
unfolding passes start_levels
depths starts children limit = passes children limit limit (start_levels starts [])
