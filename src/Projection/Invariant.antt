-- ===== src/Projection/Invariant.antt =====
-- The writes that the cases of `applyToBatch` (projection.ts) make, as data, and the principle by
-- which an invariant of the batch follows from the primitive steps.
pub mod Health
pub mod Steps
pub mod Cases
use reticle.Common.{
  ℕ, Text, Dict, lookup, values, List, [], ◌∷◌, Option, none, some, Bool, true, false, ◌≡◌, refl,
  ap, inl, inr, Bool-cases, Option-cases, or_else, ◌<|>◌, arith, codes, if◌then◌else◌, ◌&&◌, ◌||◌,
  not, is_some,
}
use reticle.Json.{Json, array, elements, get, as_text}
use reticle.Events.{RuntimeEvent, EventType}
use reticle.Ids.{NodeIdentity, identify}
use reticle.Ids.Signals.{
  UiStateSignal, parse_ui_state, parse_checkpoint_path, indicates_mock_fallback,
}
use reticle.Projection.{
  NodeStatus, RunStatus, RunNode, Run, RunEdge, ArtifactRef, is_waiting, is_active, is_done,
  is_running, is_pending,
}
use reticle.Projection.Draft.{Batch, draft_run, draft_node, write_run, write_node}
use reticle.Projection.Identity.{set_agent, draft_identity, on_node}
use reticle.Projection.Health.{
  fail_node, fail_nodes, overload_run, overload_runs, interrupt_node, interrupt_nodes,
  interrupt_run, interrupt_runs, overloaded_reason, persistence_reason,
}
use reticle.Projection.Workflow.{
  snapshot_run_status, snapshot_node_status, set_status, snapshot_nodes, set_run_status,
  take_snapshot, seed_edges, start_run, wire_edges, set_edges, workflow_started, workflow_execution,
  states_of, edges_of, task_of,
}
use reticle.Projection.Worker.{
  dispatch_node, start_node, started_run, worker_started, end_node, set_failure, set_files,
  files_written,
}
use reticle.Projection.Log.{count_log, quiet_log, log_node, worker_log}
use reticle.Projection.Artifacts.{
  add_artifact, attach, artifact_stored, to_artifact_ref, task_node, producer_node,
  artifact_execution,
}
use reticle.Projection.Control.{on_run, control_run, complete_run, fail_run, execution}
use reticle.Projection.Apply.{apply_to_batch}

-- A write to a node.
pub data NodeWrite : Type 0 where
  keep fail : NodeWrite
  agent : Option Text → NodeWrite
  interrupt : RunNode → NodeWrite
  restore : (status : NodeStatus) → is_waiting status ≡ false → NodeWrite
  dispatch : Json → NodeWrite
  start : ℕ → NodeWrite
  finish : ℕ → NodeWrite
  failed : Json → ℕ → NodeWrite
  files : List Json → NodeWrite
  quiet : NodeWrite
  log : Option UiStateSignal → Option Text → Bool → ℕ → NodeWrite
  artifact : ArtifactRef → Option Text → NodeWrite

abbrev pub node_write : NodeWrite → RunNode → RunNode
node_write keep node = node
node_write fail node = fail_node node
node_write (agent a) node = set_agent a node
node_write (interrupt seen) node = interrupt_node seen node
node_write (restore status _) node = set_status status node
node_write (dispatch payload) node = dispatch_node payload node
node_write (start at) node = start_node at node
node_write (finish at) node = end_node NodeStatus.done at node
node_write (failed payload at) node = set_failure payload (end_node NodeStatus.failed at node)
node_write (files vs) node = set_files vs node
node_write quiet node = count_log false node
node_write (log signal checkpoint mocked at) node = log_node signal checkpoint mocked at node
node_write (artifact ref producer) node = add_artifact ref (set_agent producer node)

-- A write to a run that leaves its nodes alone.
pub data RunWrite : Type 0 where
  end_by : RunStatus → Text → RunWrite
  restore_run : Option RunStatus → RunWrite
  name_run : Option Json → ℕ → RunWrite
  set_edges_of : List RunEdge → RunWrite
  first_start : ℕ → RunWrite
  control : RunStatus → ℕ → RunWrite
  complete : ℕ → RunWrite
  fail_by : Json → ℕ → RunWrite

abbrev pub run_write : RunWrite → Run → Run
run_write (end_by status reason) run = record run { status = status; failure_reason = some reason }
run_write (restore_run status) run = set_run_status status run
run_write (name_run workflow_id at) run = start_run workflow_id at run
run_write (set_edges_of edges) run = record run { edges = edges }
run_write (first_start at) run = started_run at run
run_write (control status at) run = control_run status at run
run_write (complete at) run = complete_run at run
run_write (fail_by payload at) run = fail_run payload at run

-- A relation between batches that agree on the runs, which each primitive step keeps. (An invariant
-- is such a relation between a batch and itself.)
pub record IsClosed (I : Batch → Batch → Type 0) : Type 0 where
  pub runs : (b d : Batch) → I b d → b.runs ≡ d.runs
  pub order : (b d : Batch) → I b d → b.run_order ≡ d.run_order
  pub draft_run : (e : Text) (b d : Batch) → I b d → I (draft_run e b) (draft_run e d)
  pub draft_node :
      (e n t : Text) (b d : Batch) → I b d → I (draft_node e n t b) (draft_node e n t d)
  pub write_run :
      (e : Text) (w : RunWrite) (b d : Batch)
      → I b d
      → I (write_run e (run_write w) b) (write_run e (run_write w) d)
  pub write_node :
      (e n : Text) (w : NodeWrite) (b d : Batch)
      → I b d
      → I (write_node e n (node_write w) b) (write_node e n (node_write w) d)

-- An invariant that each primitive step keeps.
pub record IsInvariant (J : Batch → Type 0) : Type 0 where
  pub draft_run : (e : Text) (b : Batch) → J b → J (draft_run e b)
  pub draft_node : (e n t : Text) (b : Batch) → J b → J (draft_node e n t b)
  pub write_run : (e : Text) (w : RunWrite) (b : Batch) → J b → J (write_run e (run_write w) b)
  pub write_node :
      (e n : Text) (w : NodeWrite) (b : Batch) → J b → J (write_node e n (node_write w) b)

pub IsInvariant-closed : {J : Batch → Type 0} → IsInvariant J → IsClosed (λ b d. (b ≡ d) × J b)
IsInvariant-closed c = record {
  runs = λ b d h. ap (λ (x : Batch). x.runs) h.0;
  order = λ b d h. ap (λ (x : Batch). x.run_order) h.0;
  draft_run = λ e b d h. (ap (draft_run e) h.0, c.draft_run e b h.1);
  draft_node = λ e n t b d h. (ap (draft_node e n t) h.0, c.draft_node e n t b h.1);
  write_run = λ e w b d h. (ap (write_run e (run_write w)) h.0, c.write_run e w b h.1);
  write_node = λ e n w b d h. (ap (write_node e n (node_write w)) h.0, c.write_node e n w b h.1);
}
