-- ===== src/Plan.antt =====
-- studio/src/features/hitl/planModel.ts: what an approval request says, and what comes before and
-- after the node that waits. A `Map` is an association list in the order of insertion.
-- `JSON.parse` and `a.localeCompare(b) < 0` are parameters.
pub mod Depths
pub mod Walks
pub mod Longest
use reticle.Common.{
  ℕ, zero, suc, ◌+◌, ◌-◌, ◌==◌, ltb, leb, Text, codes, same, contains, starts_with, is_space, split,
  join, drop, take, length, all, any, filter, map, List, [], ◌∷◌, ◌++◌, Option, none, some, Bool,
  true, false, not, ◌&&◌, ◌||◌, if◌then◌else◌, or_else, lookup, has, keys, values, Dict,
}
use reticle.Common.Sort.{sort}
use reticle.Json.{Json, object, array, null, elements, get, as_text, is_object}
use reticle.Projection.{Run, RunNode, RunEdge}
use reticle.Plan.Depths.{Levels, depths}

pub record CheckpointInput : Type 0 where
  pub name : Option Text
  pub artifact_id : Option Text
  pub value : Option Json

pub record Checkpoint : Type 0 where
  pub prompt : Option Text
  pub protected_action : Option Json
  pub inputs : List CheckpointInput
  pub parsed : Bool

abbrev pub no_checkpoint : Checkpoint
no_checkpoint = record { prompt = none; protected_action = none; inputs = []; parsed = false }

abbrev follows_return : Text → Bool
follows_return [] = false
follows_return (b ∷ s) = b == 10

-- `markdown.replace(/\r\n?/g, '\n')`
unfoldable pub normal_lines : Text → Text
normal_lines [] = []
normal_lines (a ∷ s) =
    let rest = normal_lines s in
    if a == 13 then (if follows_return s then rest else 10 ∷ rest) else a ∷ rest

unfoldable pub is_fence : Text → Text → Bool
unfolding starts_with is_space
is_fence mark line = starts_with line mark && all is_space (drop (length mark) line)

-- The lines behind the first opening fence.
unfoldable pub after_fence : List Text → Option (List Text)
unfolding is_fence
after_fence [] = none
after_fence (l ∷ ls) =
    let rest = after_fence ls in if is_fence (codes "```json") l then some ls else rest

-- The lines before the first closing fence, or all.
unfoldable pub before_fence : List Text → List Text
unfolding is_fence
before_fence [] = []
before_fence (l ∷ ls) =
    let rest = l ∷ before_fence ls in if is_fence (codes "```") l then [] else rest

abbrev input_of : Json → CheckpointInput
input_of v = record {
  name = as_text (get (codes "name") v);
  artifact_id = as_text (get (codes "artifact_id") v);
  value = get (codes "data") v;
}

abbrev inputs_of : Option Json → List CheckpointInput
inputs_of (some (array vs)) = map input_of (filter is_object (elements vs))
inputs_of _ = []

unfoldable pub checkpoint_of : Json → Checkpoint
unfolding get
checkpoint_of (object fs) = record {
  prompt = as_text (get (codes "prompt") (object fs));
  protected_action = get (codes "protected_action") (object fs);
  inputs = inputs_of (get (codes "inputs") (object fs));
  parsed = true;
}
checkpoint_of _ = no_checkpoint

unfoldable pub parse_checkpoint : (Text → Option Json) → Text → Checkpoint
unfolding normal_lines split after_fence before_fence join checkpoint_of
parse_checkpoint json_parse markdown = elim (after_fence (split 10 (normal_lines markdown))) [
  | none ↦ no_checkpoint
  | some rest ↦ elim (json_parse (join (codes "\n") (before_fence rest))) [
    | none ↦ no_checkpoint
    | some v ↦ checkpoint_of v
  ]
]

abbrev pub max_plan_steps : ℕ
max_plan_steps = 40

pub record OutlineEntry : Type 0 where
  pub node : RunNode
  pub depth : ℕ
  pub here : Bool

pub record PlanModel : Type 0 where
  pub upstream : List RunNode
  pub waves : List (List RunNode)
  pub hidden : ℕ
  pub outline : List OutlineEntry

-- The edges between nodes that are there.
abbrev pub inner_edges : Run → List RunEdge
inner_edges run = filter (λ e. has e.from run.nodes && has e.to run.nodes) run.edges

-- `children.get(id) ?? []` and `parents.get(id) ?? []`
unfoldable pub children_of : Run → Text → List Text
children_of run id = map (λ e. e.to) (filter (λ e. same e.from id) (inner_edges run))

unfoldable pub parents_of : Run → Text → List Text
parents_of run id = map (λ e. e.from) (filter (λ e. same e.to id) (inner_edges run))

-- `run.nodes[id]`, of ids that are there.
unfoldable pub nodes_of : Dict RunNode → List Text → List RunNode
nodes_of nodes [] = []
nodes_of nodes (id ∷ ids) = elim (lookup id nodes) [
  | none ↦ nodes_of nodes ids
  | some n ↦ n ∷ nodes_of nodes ids
]

-- `after.delete(nodeId)`
unfoldable pub remove_level : Text → Levels → Levels
remove_level id m = filter (λ e. not (same e.0 id)) m

-- `(waves[level] ??= []).push(node)`; a hole of the array is an empty wave.
unfoldable pub add_wave : ℕ → RunNode → List (List RunNode) → List (List RunNode)
add_wave zero n [] = (n ∷ []) ∷ []
add_wave zero n (w ∷ ws) = (w ++ n ∷ []) ∷ ws
add_wave (suc level) n [] = [] ∷ add_wave level n []
add_wave (suc level) n (w ∷ ws) = w ∷ add_wave level n ws

abbrev is_wave : List RunNode → Bool
is_wave [] = false
is_wave (_ ∷ _) = true

unfoldable pub add_waves : Dict RunNode → Levels → List (List RunNode) → List (List RunNode)
unfolding add_wave
add_waves nodes [] waves = waves
add_waves nodes ((id, level) ∷ steps) waves =
    add_waves nodes steps
      (elim (lookup id nodes) [ none ↦ waves | some n ↦ add_wave (level - 1) n waves ])

module _ (locale_before : Text → Text → Bool) where
  -- `byLabel(a, b) < 0`
  unfoldable pub by_label : RunNode → RunNode → Bool
  by_label a b =
      locale_before a.label b.label
      || not (locale_before b.label a.label) && locale_before a.node_id b.node_id

  abbrev by_label_at : Dict RunNode → Text → Text → Bool
  by_label_at nodes a b = elim (lookup a nodes) [
    | none ↦ false
    | some n ↦ elim (lookup b nodes) [ none ↦ false | some m ↦ by_label n m ]
  ]

  unfoldable pub by_level : Dict RunNode → Text × ℕ → Text × ℕ → Bool
  unfolding by_label
  by_level nodes a b = ltb a.1 b.1 || a.1 == b.1 && by_label_at nodes a.0 b.0

  -- The steps after a node, in their order.
  unfoldable pub steps_after : Run → Text → Levels
  unfolding depths sort by_level remove_level children_of
  steps_after run node_id =
      sort (by_level run.nodes)
        (remove_level node_id (depths (node_id ∷ []) (children_of run) (length (keys run.nodes))))

  unfoldable pub by_depth : OutlineEntry → OutlineEntry → Bool
  unfolding by_label
  by_depth a b = ltb a.depth b.depth || a.depth == b.depth && by_label a.node b.node

  unfoldable pub build_plan : Run → Text → PlanModel
  unfolding steps_after add_waves nodes_of parents_of sort by_depth depths children_of
  build_plan run node_id =
      let steps = steps_after run node_id in
      let roots = filter (λ id. length (parents_of run id) == 0) (keys run.nodes) in
      let overall = depths roots (children_of run) (length (keys run.nodes)) in
      record {
        upstream = sort by_label (nodes_of run.nodes (parents_of run node_id));
        waves = filter is_wave (add_waves run.nodes (take max_plan_steps steps) []);
        hidden = length steps - length (take max_plan_steps steps);
        outline = sort by_depth (
            map
              (λ n. record {
                node = n;
                depth = or_else (lookup n.node_id overall) 0;
                here = same n.node_id node_id;
              })
              (values run.nodes));
      }
