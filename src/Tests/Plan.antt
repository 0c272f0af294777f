-- ===== src/Tests/Plan.antt =====
-- The theorem on the depths of a plan at a concrete graph, and a checkpoint.
use reticle.Common.{
  ℕ, ◌≤◌, Text, codes, same, same_iff, contains, List, [], ◌∷◌, none, some, true, false,
  if◌then◌else◌, lookup, ◌≡◌, refl, arith, ◌⊎◌, inl, inr, split, join, starts_with, is_space,
}
use reticle.Json.{Json, object, field, end, text, array, nil, get}
use reticle.Plan.{
  parse_checkpoint, normal_lines, is_fence, after_fence, before_fence, checkpoint_of,
}
use reticle.Plan.Depths.{
  depths, passes, relax_all, relax_children, relax_child, start_levels, set_level,
}
use reticle.Plan.Walks.{Walk, begin, go}
use reticle.Plan.Longest.{IsLongest, depths-IsLongest}

-- a before b before c, and a before c.
abbrev chain : Text → List Text
chain id =
    if same id (codes "a")
    then codes "c" ∷ codes "b" ∷ []
    else if same id (codes "b")
    then codes "c" ∷ []
    else []

abbrev at_a : List Text
at_a = codes "a" ∷ []

abbrev Placed : ℕ → Text → Type 0
Placed n id =
    ((n ≡ 0) × (id ≡ codes "a")) ⊎ ((n ≡ 1) × (id ≡ codes "b")) ⊎ ((n ≤ 2) × (id ≡ codes "c"))

b_is_not_a : same (codes "b") (codes "a") ≡ false
unfolding same
b_is_not_a = refl

c_is_neither : (same (codes "c") (codes "a") ≡ false) × (same (codes "c") (codes "b") ≡ false)
unfolding same
c_is_neither = (refl, refl)

Walk-Placed : (n : ℕ) (id : Text) → Walk chain at_a n id → Placed n id
unfolding contains
Walk-Placed n id (begin i e) = ground (arith, same_iff (codes "a") id)
Walk-Placed n id (go n' i c w e) = elim (Walk-Placed n' i w) [
  | inl (k, q) ↦
      ground (arith, same_iff i (codes "a"), same_iff (codes "b") id, same_iff (codes "c") id)
  | inr (inl (k, q)) ↦ ground (arith, same_iff i (codes "b"), same_iff (codes "c") id, b_is_not_a)
  | inr (inr (k, q)) ↦ ground (arith, c_is_neither)
]

chain_bound : (n : ℕ) (id : Text) → Walk chain at_a n id → n ≤ 3
chain_bound n id w = ground (arith, Walk-Placed n id w)

chain_levels : depths at_a chain 3 ≡ (codes "a", 0) ∷ (codes "c", 2) ∷ (codes "b", 1) ∷ []
unfolding depths passes relax_all relax_children relax_child start_levels set_level lookup same
chain_levels = refl

depths-IsLongest_example :
    IsLongest chain at_a (codes "c") (lookup (codes "c") (depths at_a chain 3))
depths-IsLongest_example = depths-IsLongest chain at_a 3 chain_bound (codes "c")

abbrev request_body : Json
request_body =
    object (field (codes "prompt") (text (codes "Go?")) (field (codes "inputs") (array nil) end))

checkpoint_read :
    parse_checkpoint
      (λ s. if same s (codes "{}") then some request_body else none)
      (codes "# Review\r\n```json\r\n{}\r\n```\r\n")
    ≡ record { prompt = some (codes "Go?"); protected_action = none; inputs = []; parsed = true }
unfolding parse_checkpoint normal_lines split after_fence before_fence is_fence starts_with is_space
    join checkpoint_of get same
checkpoint_read = refl
