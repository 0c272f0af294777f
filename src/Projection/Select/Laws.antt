-- ===== src/Projection/Select/Laws.antt =====
-- What the selectors of projection.ts promise.
use mathlib.Core.List.{Perm}
use reticle.Common.{
  ℕ, ◌+◌, Text, lookup, values, filter, filter-append, count, length, List, [], ◌∷◌, ◌++◌, none,
  some, Bool, true, false, ◌≡◌, refl, subst, arith, ltb, Option-cases, inl, inr,
}
use reticle.Common.Sort.{sort-perm, IsSorted, sort-IsSorted_descending}
use reticle.Projection.{
  NodeStatus, human, comfy, RunNode, Run, ProjectionState, is_waiting, is_running, is_done,
  is_pending,
}
use reticle.Projection.Select.{
  RunTotals, zero_totals, count_node, count_nodes, run_totals, needs_approval, approvals_in,
  pending_approvals,
}

abbrev pub is_failed : NodeStatus → Bool
is_failed NodeStatus.failed = true
is_failed _ = false

abbrev pub is_blocked : NodeStatus → Bool
is_blocked NodeStatus.blocked = true
is_blocked _ = false

abbrev pub is_interrupted : NodeStatus → Bool
is_interrupted NodeStatus.interrupted = true
is_interrupted _ = false

-- How many nodes have a status of a kind.
abbrev pub tally : (NodeStatus → Bool) → List RunNode → ℕ
tally p nodes = count (λ node. p node.status) nodes

-- The counters grew by the tallies of the nodes.
record IsTally (nodes : List RunNode) (t u : RunTotals) : Type 0 where
  total : u.total ≡ t.total + length nodes
  pending : u.pending ≡ t.pending + tally is_pending nodes
  running : u.running ≡ t.running + tally is_running nodes
  done : u.done ≡ t.done + tally is_done nodes
  failed : u.failed ≡ t.failed + tally is_failed nodes
  waiting : u.waiting ≡ t.waiting + tally is_waiting nodes
  blocked : u.blocked ≡ t.blocked + tally is_blocked nodes
  interrupted : u.interrupted ≡ t.interrupted + tally is_interrupted nodes

count_node-IsTally :
    (node : RunNode) (t : RunTotals) → IsTally (node ∷ []) t (count_node node.status t)
unfolding count_node
count_node-IsTally node t = ground arith

count_nodes-IsTally : (nodes : List RunNode) (t : RunTotals) → IsTally nodes t (count_nodes nodes t)
unfolding count_nodes
count_nodes-IsTally [] t = omega arith
count_nodes-IsTally (node ∷ nodes) t =
    omega (arith, count_node-IsTally node t, count_nodes-IsTally nodes (count_node node.status t))

-- The counts of a run: the number of its nodes, and of those in each status.
pub record Counts (nodes : List RunNode) (u : RunTotals) : Type 0 where
  pub total : u.total ≡ length nodes
  pub pending : u.pending ≡ tally is_pending nodes
  pub running : u.running ≡ tally is_running nodes
  pub done : u.done ≡ tally is_done nodes
  pub failed : u.failed ≡ tally is_failed nodes
  pub waiting : u.waiting ≡ tally is_waiting nodes
  pub blocked : u.blocked ≡ tally is_blocked nodes
  pub interrupted : u.interrupted ≡ tally is_interrupted nodes
  pub parts :
      u.total ≡ u.pending + u.running + u.done + u.failed + u.waiting + u.blocked + u.interrupted

tally_all :
    (nodes : List RunNode)
    → length nodes
      ≡ tally is_pending nodes
        + tally is_running nodes
        + tally is_done nodes
        + tally is_failed nodes
        + tally is_waiting nodes
        + tally is_blocked nodes
        + tally is_interrupted nodes
tally_all [] = omega arith
tally_all (node ∷ nodes) = omega (arith, one node, tally_all nodes)
  where
    one :
        (node : RunNode)
        → 1
          ≡ tally is_pending (node ∷ [])
            + tally is_running (node ∷ [])
            + tally is_done (node ∷ [])
            + tally is_failed (node ∷ [])
            + tally is_waiting (node ∷ [])
            + tally is_blocked (node ∷ [])
            + tally is_interrupted (node ∷ [])
    one node = ground arith

-- The totals of a run count its nodes: all of them, those in each status, and the statuses add up.
pub run_totals-Counts : (run : Run) → Counts (values run.nodes) (run_totals (some run))
unfolding run_totals
run_totals-Counts run =
    omega (arith, count_nodes-IsTally (values run.nodes) zero_totals, tally_all (values run.nodes))

-- The nodes of the listed runs, run by run.
abbrev pub nodes_in : ProjectionState → List Text → List RunNode
nodes_in state [] = []
nodes_in state (e ∷ ids) =
    (elim (lookup e state.runs) [ none ↦ [] | some run ↦ values run.nodes ]) ++ nodes_in state ids

-- A node that waits, and for a person.
abbrev pub awaits_person : RunNode → Bool
awaits_person node = elim node.waiting [
  | none ↦ false
  | some w ↦ elim w.kind [
    | comfy ↦ false
    | human ↦ elim node.status [
      | NodeStatus.waiting ↦ true
      | NodeStatus.pending ↦ false
      | NodeStatus.running ↦ false
      | NodeStatus.done ↦ false
      | NodeStatus.failed ↦ false
      | NodeStatus.blocked ↦ false
      | NodeStatus.interrupted ↦ false
    ]
  ]
]

pub needs_approval-awaits_person : (node : RunNode) → needs_approval node ≡ awaits_person node
needs_approval-awaits_person node = ground arith

-- When a wait began.
abbrev pub waits_from : RunNode → ℕ
waits_from node = elim node.waiting [ none ↦ 0 | some w ↦ w.since ]

filter_approvals : (nodes : List RunNode) → filter needs_approval nodes ≡ filter awaits_person nodes
filter_approvals [] = refl
filter_approvals (node ∷ nodes) =
    ground (arith, filter_approvals nodes, needs_approval-awaits_person node)

approvals_in-filter :
    (state : ProjectionState) (ids : List Text)
    → approvals_in state ids ≡ filter awaits_person (nodes_in state ids)
unfolding approvals_in
approvals_in-filter state [] = refl
approvals_in-filter state (e ∷ ids) = elim (Option-cases (lookup e state.runs)) [
  | inl m ↦ rw (m, approvals_in) (approvals_in-filter state ids)
  | inr (run, m) ↦
      rw
        (
          m,
          approvals_in,
          filter-append awaits_person (values run.nodes) (nodes_in state ids),
          filter_approvals (values run.nodes),
          approvals_in-filter state ids,
        )
        refl
]

-- The pending approvals are the nodes of the listed runs that wait for a person, all of them and no
-- others, and no wait that began later stands behind one that began earlier.
pub pending_approvals-IsSorted :
    (state : ProjectionState)
    → IsSorted (λ a b. ltb (waits_from b) (waits_from a)) (pending_approvals state)
      × Perm (pending_approvals state) (filter awaits_person (nodes_in state state.run_order))
unfolding pending_approvals
pending_approvals-IsSorted state = (
  sort-IsSorted_descending waits_from (approvals_in state state.run_order),
  subst (Perm (pending_approvals state)) (approvals_in-filter state state.run_order)
      (sort-perm _ (approvals_in state state.run_order)),
)
