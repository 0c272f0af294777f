-- ===== src/RunCompletion.antt =====
-- studio/src/shared/runCompletion.ts: the runs that have ended and the nodes that have begun to wait
-- between two projections.
pub mod Laws
pub mod Product
use reticle.Common.{
  ℕ, Text, codes, starts_with, Dict, lookup, values, List, [], ◌∷◌, ◌++◌, Option, none, some, Bool,
  true, false, not, ◌&&◌, ◌||◌, if◌then◌else◌, filter,
}
use reticle.Projection.{RunStatus, NodeStatus, Run, RunNode, ProjectionState, is_waiting, is_human}
use reticle.Projection.Select.{needs_approval}

pub data Outcome : Type 0 where
  completed failed : Outcome

pub record RunCompletion : Type 0 where
  pub exec_id : Text
  pub outcome : Outcome
  pub run : Run

unfoldable pub is_compile_run : Text → Bool
is_compile_run exec_id = starts_with exec_id (codes "compile-")

-- `completed` or `failed`
abbrev pub outcome_of : RunStatus → Option Outcome
outcome_of RunStatus.completed = some completed
outcome_of RunStatus.failed = some failed
outcome_of _ = none

-- `!before || before.status === 'completed' || before.status === 'failed'`
abbrev pub was_open : Option Run → Bool
was_open none = false
was_open (some before) = elim (outcome_of before.status) [ none ↦ true | some _ ↦ false ]

-- One round of the loop: the completion of a run, if it is news.
unfoldable pub completion : ProjectionState → ProjectionState → Text → Option RunCompletion
unfolding is_compile_run
completion previous next exec_id = elim (lookup exec_id next.runs) [
  | none ↦ none
  | some run ↦ if is_compile_run exec_id then none else elim (outcome_of run.status) [
    | none ↦ none
    | some outcome ↦
        if was_open (lookup exec_id previous.runs)
        then some (record { exec_id = exec_id; outcome = outcome; run = run })
        else none
  ]
]

unfoldable pub completions : ProjectionState → ProjectionState → List Text → List RunCompletion
unfolding completion
completions previous next [] = []
completions previous next (e ∷ ids) = elim (completion previous next e) [
  | none ↦ completions previous next ids
  | some found ↦ found ∷ completions previous next ids
]

unfoldable pub detect_completions : Option ProjectionState → ProjectionState → List RunCompletion
unfolding completions
detect_completions none next = []
detect_completions (some previous) next = completions previous next next.run_order

-- `previous.runs[execId]?.nodes[nodeId]`
abbrev pub node_before : ProjectionState → Text → Text → Option RunNode
node_before previous e n = elim (lookup e previous.runs) [
  | none ↦ none
  | some run ↦ lookup n run.nodes
]

abbrev pub was_waiting : Option RunNode → Bool
was_waiting none = false
was_waiting (some node) = needs_approval node

-- The inner loop over the nodes of a run.
unfoldable pub requests_in : ProjectionState → Text → List RunNode → List RunNode
requests_in previous e nodes =
    filter (λ node. needs_approval node && not (was_waiting (node_before previous e node.node_id)))
      nodes

unfoldable pub requests : ProjectionState → ProjectionState → List Text → List RunNode
unfolding requests_in is_compile_run
requests previous next [] = []
requests previous next (e ∷ ids) =
    (if is_compile_run e then [] else elim (lookup e next.runs) [
      | none ↦ []
      | some run ↦ requests_in previous e (values run.nodes)
    ])
    ++ requests previous next ids

unfoldable pub detect_approval_requests : Option ProjectionState → ProjectionState → List RunNode
unfolding requests
detect_approval_requests none next = []
detect_approval_requests (some previous) next = requests previous next next.run_order
