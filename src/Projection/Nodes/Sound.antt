-- ===== src/Projection/Nodes/Sound.antt =====
-- What holds of every node that the projection keeps.
use reticle.Common.{ℕ, ◌-◌, Text, List, Option, none, some, true, ◌≡◌, arith, is_some}
use reticle.Events.{RuntimeEvent}
use reticle.Projection.{RunNode, ProjectionState, create_node, is_waiting}
use reticle.Projection.Invariant.{NodeWrite, keep, restore, finish, failed, log, node_write}
use reticle.Projection.Health.{interrupt_node}
use reticle.Projection.Fold.{apply_events}
use reticle.Projection.Nodes.{IsKept, AllNodes, apply_events-AllNodes}

-- The duration is that of the attempt whose start and end the node shows.
abbrev pub HasDuration : Option ℕ → Option ℕ → Option ℕ → Type 0
HasDuration started ended none = Unit
HasDuration none ended (some d) = ⊥
HasDuration (some s) none (some d) = ⊥
HasDuration (some s) (some e) (some d) = d ≡ e - s

pub record IsSound (e n : Text) (node : RunNode) : Type 0 where
  pub run : node.exec_id ≡ e
  pub key : node.node_id ≡ n
  -- A node that waits says what it waits for.
  pub waits : is_waiting node.status ≡ true → is_some node.waiting ≡ true
  pub timed : HasDuration node.started_at node.ended_at node.duration_ms
  -- The label is the agent's name, where that is known, and else the node's id.
  pub labelled : node.label ≡ (elim node.agent_id [ none ↦ node.node_id | some a ↦ a ])

written-IsSound :
    (e n : Text) (w : NodeWrite) (node : RunNode)
    → IsSound e n node
    → IsSound e n (node_write w node)
unfolding interrupt_node
written-IsSound e n keep node h = h
written-IsSound e n (finish at) node h = ground arith
written-IsSound e n (failed payload at) node h = ground arith
written-IsSound e n (log signal checkpoint mocked at) node h = ground arith
written-IsSound e n (restore status idle) node h = ground arith
written-IsSound e n w node h = ground arith

IsSound-kept : IsKept IsSound
unfolding create_node
IsSound-kept = record { created = λ e n t. ground arith; written = written-IsSound }

-- After any events every run stands under its own id and every node under its own ids; a node that
-- waits has a waiting state; a duration is the difference between the end and the start that the
-- node shows; and the label is the agent's name, or the node's id where no agent is known. All this
-- if it was so before.
pub apply_events-IsSound :
    (state : ProjectionState) (events : List RuntimeEvent)
    → AllNodes IsSound state.runs
    → AllNodes IsSound (apply_events state events).runs
apply_events-IsSound = apply_events-AllNodes IsSound-kept
