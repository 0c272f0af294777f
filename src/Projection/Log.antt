-- ===== src/Projection/Log.antt =====
-- The case WorkerLog of `applyToBatch` (projection.ts).
use reticle.Common.{
  ℕ, ◌+◌, Text, codes, lookup, Option, none, some, Bool, false, not, ◌&&◌, ◌||◌, if◌then◌else◌,
  is_some,
}
use reticle.Json.{Json, get, as_text}
use reticle.Ids.{NodeIdentity, identify}
use reticle.Ids.Signals.{
  UiStateSignal, parse_ui_state, parse_checkpoint_path, indicates_mock_fallback,
}
use reticle.Projection.{NodeStatus, WaitingKind, RunNode, Run, is_waiting}
use reticle.Projection.Draft.{Batch, draft_run, draft_node, write_node}
use reticle.Projection.Identity.{draft_identity}

-- The writes of a signal, after `logCount` and `mocked`.
abbrev pub signal_node : Option UiStateSignal → ℕ → RunNode → RunNode
signal_node none timestamp node = node
signal_node (some UiStateSignal.resumed) timestamp node = record node {
  waiting = none;
  status = if is_waiting node.status then NodeStatus.running else node.status;
}
signal_node (some UiStateSignal.waiting_human) timestamp node = record node {
  status = NodeStatus.waiting;
  waiting = some (record {
    kind = WaitingKind.human;
    since = timestamp;
    checkpoint_path = elim node.waiting [ none ↦ none | some w ↦ w.checkpoint_path ];
  });
}
signal_node (some UiStateSignal.waiting_comfy) timestamp node = record node {
  status = NodeStatus.waiting;
  waiting = some (record {
    kind = WaitingKind.comfy;
    since = timestamp;
    checkpoint_path = elim node.waiting [ none ↦ none | some w ↦ w.checkpoint_path ];
  });
}

abbrev pub checkpoint_node : Option Text → ℕ → RunNode → RunNode
checkpoint_node none timestamp node = node
checkpoint_node (some path) timestamp node = record node {
  waiting = some (record {
    kind = elim node.waiting [ none ↦ WaitingKind.human | some w ↦ w.kind ];
    since = elim node.waiting [ none ↦ timestamp | some w ↦ w.since ];
    checkpoint_path = some path;
  });
  status = NodeStatus.waiting;
}

abbrev pub count_log : Bool → RunNode → RunNode
count_log mocked node = record node {
  log_count = node.log_count + 1;
  mocked = mocked || node.mocked;
}

-- A line that says nothing to the projection is counted on a node that is there.
unfoldable pub quiet_found : Option Run → NodeIdentity → Batch → Batch
quiet_found none i batch = batch
quiet_found (some run) i batch = elim (lookup i.node_id run.nodes) [
  | none ↦ batch
  | some node ↦
      write_node i.exec_id i.node_id (count_log false)
        (draft_node i.exec_id i.node_id i.task_id (draft_run i.exec_id batch))
]

unfoldable pub quiet_log : NodeIdentity → Batch → Batch
unfolding quiet_found
quiet_log i batch = quiet_found (lookup i.exec_id batch.runs) i batch

abbrev pub log_node : Option UiStateSignal → Option Text → Bool → ℕ → RunNode → RunNode
log_node signal checkpoint mocked timestamp node =
    checkpoint_node checkpoint timestamp (signal_node signal timestamp (count_log mocked node))

-- `!signal && !checkpoint && !mocked`: a matched path is never empty.
unfoldable pub says_nothing : Option Text → Bool
says_nothing line =
    not (is_some (parse_ui_state line))
    && not (is_some (parse_checkpoint_path line))
    && not (indicates_mock_fallback line)

unfoldable pub log_line : NodeIdentity → Option Text → ℕ → Batch → Batch
unfolding draft_identity quiet_log says_nothing
log_line i line timestamp batch =
    if says_nothing line
    then quiet_log i batch
    else write_node i.exec_id i.node_id
        (log_node (parse_ui_state line) (parse_checkpoint_path line) (indicates_mock_fallback line)
          timestamp)
        (draft_identity i batch)

unfoldable pub worker_log : Json → ℕ → Batch → Batch
unfolding log_line
worker_log payload timestamp batch = elim (identify payload) [
  | none ↦ batch
  | some i ↦ log_line i (as_text (get (codes "log") payload)) timestamp batch
]
