-- ===== src/Projection.antt =====
-- studio/src/shared/projection.ts: the state that the events of a runtime are folded into.
pub mod Draft
pub mod Identity
pub mod Health
pub mod Workflow
pub mod Worker
pub mod Log
pub mod Artifacts
pub mod Control
pub mod Apply
pub mod Fold
pub mod Invariant
pub mod Consistency
pub mod Nodes
pub mod Select
use reticle.Common.{ℕ, Text, codes, Dict, List, [], ◌∷◌, Option, none, some, Bool, true, false, ◌≡◌}
use reticle.Json.{Json, ℤ}
use reticle.Events.{WaitlistPayload}

pub data NodeStatus : Type 0 where
  pending running done failed waiting blocked interrupted : NodeStatus

pub data RunStatus : Type 0 where
  pending running completed failed paused cancelled interrupted : RunStatus

pub data WaitingKind : Type 0 where
  human comfy : WaitingKind

-- `Date.parse(text)`, left as it stands.
pub data ParsedDate : Type 0 where
  parsed : Text → ParsedDate

pub record ArtifactRef : Type 0 where
  pub id : Text
  pub name : Option Text
  pub type : Option Text
  pub producer : Option Text
  pub version : Option ℤ
  pub created_at : Option ParsedDate
  pub has_data : Bool
  pub data_size : Option ℕ
  pub content : Option Text

-- What the runtime reports is kept as it came.
pub record NodeFailure : Type 0 where
  pub reason : Json
  pub exit_code : Option Json
  pub stderr : Option Json

pub record WaitingState : Type 0 where
  pub kind : WaitingKind
  pub since : ℕ
  pub checkpoint_path : Option Text

pub record RunNode : Type 0 where
  pub exec_id : Text
  pub node_id : Text
  pub task_id : Text
  pub agent_id : Option Text
  pub label : Text
  pub status : NodeStatus
  pub model : Option Text
  pub started_at : Option ℕ
  pub ended_at : Option ℕ
  pub duration_ms : Option ℕ
  pub attempts : ℕ
  pub artifacts : List ArtifactRef
  pub files : List Text
  pub failure : Option NodeFailure
  pub waiting : Option WaitingState
  pub mocked : Bool
  pub log_count : ℕ

pub record RunEdge : Type 0 where
  pub from : Text
  pub to : Text

pub record Run : Type 0 where
  pub exec_id : Text
  pub workflow_id : Option Json
  pub status : RunStatus
  pub nodes : Dict RunNode
  pub edges : List RunEdge
  pub started_at : Option ℕ
  pub ended_at : Option ℕ
  pub failure_node_id : Option Text
  pub failure_reason : Option Text

pub record ProjectionState : Type 0 where
  pub runs : Dict Run
  pub run_order : List Text
  pub waitlist : Option WaitlistPayload
  pub last_event_id : ℕ
  pub event_count : ℕ
  pub session_id : Option Text

unfoldable pub create_projection : ProjectionState
create_projection = record {
  runs = [];
  run_order = [];
  waitlist = none;
  last_event_id = 0;
  event_count = 0;
  session_id = none;
}

unfoldable pub create_run : Text → Run
create_run exec_id = record {
  exec_id = exec_id;
  workflow_id = none;
  status = RunStatus.pending;
  nodes = [];
  edges = [];
  started_at = none;
  ended_at = none;
  failure_node_id = none;
  failure_reason = none;
}

unfoldable pub create_node : Text → Text → Text → RunNode
create_node exec_id node_id task_id = record {
  exec_id = exec_id;
  node_id = node_id;
  task_id = task_id;
  agent_id = none;
  label = node_id;
  status = NodeStatus.pending;
  model = none;
  started_at = none;
  ended_at = none;
  duration_ms = none;
  attempts = 0;
  artifacts = [];
  files = [];
  failure = none;
  waiting = none;
  mocked = false;
  log_count = 0;
}

-- `['pending','running','paused'].includes(status)`
abbrev pub is_active : RunStatus → Bool
is_active RunStatus.pending = true
is_active RunStatus.running = true
is_active RunStatus.paused = true
is_active _ = false

-- `['completed','failed','cancelled'].includes(status)`
abbrev pub is_terminal : RunStatus → Bool
is_terminal RunStatus.completed = true
is_terminal RunStatus.failed = true
is_terminal RunStatus.cancelled = true
is_terminal _ = false

abbrev pub is_pending_run : RunStatus → Bool
is_pending_run RunStatus.pending = true
is_pending_run _ = false

abbrev pub is_pending : NodeStatus → Bool
is_pending NodeStatus.pending = true
is_pending _ = false

abbrev pub is_running : NodeStatus → Bool
is_running NodeStatus.running = true
is_running _ = false

abbrev pub is_done : NodeStatus → Bool
is_done NodeStatus.done = true
is_done _ = false

abbrev pub is_waiting : NodeStatus → Bool
is_waiting NodeStatus.waiting = true
is_waiting _ = false

abbrev pub is_human : Option WaitingState → Bool
is_human none = false
is_human (some w) = elim w.kind [ human ↦ true | comfy ↦ false ]
