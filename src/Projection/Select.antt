-- ===== src/Projection/Select.antt =====
-- The selectors of projection.ts.
pub mod Laws
use reticle.Common.{
  ℕ, ◌+◌, Text, lookup, values, filter, List, [], ◌∷◌, ◌++◌, reverse, Option, none, some, Bool,
  true, false, ◌&&◌, ltb, if◌then◌else◌,
}
use reticle.Common.Sort.{sort}
use reticle.Projection.{NodeStatus, RunNode, Run, ProjectionState, is_waiting, is_human}

pub record RunTotals : Type 0 where
  pub total : ℕ
  pub pending : ℕ
  pub running : ℕ
  pub done : ℕ
  pub failed : ℕ
  pub waiting : ℕ
  pub blocked : ℕ
  pub interrupted : ℕ

abbrev pub zero_totals : RunTotals
zero_totals = record {
  total = 0;
  pending = 0;
  running = 0;
  done = 0;
  failed = 0;
  waiting = 0;
  blocked = 0;
  interrupted = 0;
}

-- One round of the loop: `totals.total += 1; totals[node.status] += 1`
unfoldable pub count_node : NodeStatus → RunTotals → RunTotals
count_node status t = elim status [
  | NodeStatus.pending ↦ record t { total = t.total + 1; pending = t.pending + 1 }
  | NodeStatus.running ↦ record t { total = t.total + 1; running = t.running + 1 }
  | NodeStatus.done ↦ record t { total = t.total + 1; done = t.done + 1 }
  | NodeStatus.failed ↦ record t { total = t.total + 1; failed = t.failed + 1 }
  | NodeStatus.waiting ↦ record t { total = t.total + 1; waiting = t.waiting + 1 }
  | NodeStatus.blocked ↦ record t { total = t.total + 1; blocked = t.blocked + 1 }
  | NodeStatus.interrupted ↦ record t { total = t.total + 1; interrupted = t.interrupted + 1 }
]

unfoldable pub count_nodes : List RunNode → RunTotals → RunTotals
unfolding count_node
count_nodes [] t = t
count_nodes (node ∷ nodes) t = count_nodes nodes (count_node node.status t)

unfoldable pub run_totals : Option Run → RunTotals
unfolding count_nodes
run_totals none = zero_totals
run_totals (some run) = count_nodes (values run.nodes) zero_totals

abbrev pub needs_approval : RunNode → Bool
needs_approval node = is_waiting node.status && is_human node.waiting

unfoldable pub approvals_in : ProjectionState → List Text → List RunNode
approvals_in state [] = []
approvals_in state (e ∷ ids) =
    (elim (lookup e state.runs) [ none ↦ [] | some run ↦ filter needs_approval (values run.nodes) ])
    ++ approvals_in state ids

abbrev pub since : RunNode → ℕ
since node = elim node.waiting [ none ↦ 0 | some w ↦ w.since ]

-- Newest first: the comparison is of `b.since - a.since` with 0.
unfoldable pub pending_approvals : ProjectionState → List RunNode
unfolding approvals_in
pending_approvals state = sort (λ a b. ltb (since b) (since a)) (approvals_in state state.run_order)

-- The loop from the end of the order.
unfoldable pub first_run : ProjectionState → List Text → Option Run
first_run state [] = none
first_run state (e ∷ ids) = elim (lookup e state.runs) [
  | none ↦ first_run state ids
  | some run ↦ some run
]

unfoldable pub latest_run : ProjectionState → Option Run
unfolding first_run
latest_run state = first_run state (reverse state.run_order)
