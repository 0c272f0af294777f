-- ===== src/Projection/Invariant/Cases.antt =====
-- Every case of `applyToBatch` (projection.ts) keeps an invariant that the primitive steps keep.
use reticle.Common.{subst, ℕ, Text, Bool, true, false, inl, inr, Option-cases, codes, if◌then◌else◌}
use reticle.Json.{Json, get, defined}
use reticle.Events.{RuntimeEvent, EventType}
use reticle.Ids.{identify}
use reticle.Projection.{RunStatus}
use reticle.Projection.Draft.{Batch, draft_run}
use reticle.Projection.Health.{overload_runs, interrupt_runs}
use reticle.Projection.Workflow.{take_snapshot, workflow_started, workflow_execution, edges_of}
use reticle.Projection.Worker.{worker_started}
use reticle.Projection.Control.{on_run, execution}
use reticle.Projection.Apply.{apply_to_batch}
use reticle.Projection.Invariant.{
  keep, dispatch, start, finish, failed, RunWrite, name_run, first_start, control, complete,
  fail_by, run_write, IsClosed,
}
use reticle.Projection.Invariant.Health.{overload_runs-closed, interrupt_runs-closed}
use reticle.Projection.Invariant.Steps.{
  draft_identity-closed, on_node-closed, set_edges-closed, take_snapshot-closed, worker_log-closed,
  files_written-closed, artifact_stored-closed,
}

module _ {I : Batch → Batch → Type 0} (c : IsClosed I) where
  on_run-closed :
      (w : RunWrite) (payload : Json) (b d : Batch)
      → I b d
      → I (on_run (run_write w) payload b) (on_run (run_write w) payload d)
  unfolding on_run
  on_run-closed w payload b d h = elim (Option-cases (execution payload)) [
    | inl e ↦ rw (e, on_run) h
    | inr (x, e) ↦ rw (e, on_run) (c.write_run x w _ _ (c.draft_run x b d h))
  ]

  worker_started-closed :
      (payload : Json) (at : ℕ) (b d : Batch)
      → I b d
      → I (worker_started payload at b) (worker_started payload at d)
  unfolding worker_started
  worker_started-closed payload at b d h = elim (Option-cases (identify payload)) [
    | inl e ↦ rw (e, worker_started) h
    | inr (i, e) ↦
        rw (e, worker_started)
          (c.write_run i.exec_id (first_start at) _ _
            (c.write_node i.exec_id i.node_id (start at) _ _ (draft_identity-closed c i b d h)))
  ]

  workflow_started-closed :
      (s : Bool) (payload : Json) (at : ℕ) (b d : Batch)
      → I b d
      → I (workflow_started s payload at b) (workflow_started s payload at d)
  unfolding workflow_started
  workflow_started-closed s payload at b d h = elim (Option-cases (workflow_execution payload)) [
    | inl e ↦ rw (e, workflow_started) h
    | inr (x, e) ↦
        rw (e, workflow_started)
          (set_edges-closed c x (edges_of (get (codes "edges") payload)) _ _ (
            c.write_run x (name_run (defined (get (codes "workflow_id") payload)) at) _ _
              (restored s x)))
  ]
    where
      restored :
          (t : Bool) (x : Text)
          → I
              (if t then take_snapshot x payload (draft_run x b) else draft_run x b)
              (if t then take_snapshot x payload (draft_run x d) else draft_run x d)
      restored true x =
          take_snapshot-closed c x payload (draft_run x b) (draft_run x d) (c.draft_run x b d h)
      restored false x = c.draft_run x b d h

  -- An invariant that the primitive steps keep is kept by every event.
  pub apply_to_batch-closed :
      (event : RuntimeEvent) (b d : Batch)
      → I b d
      → I (apply_to_batch event b) (apply_to_batch event d)
  unfolding apply_to_batch
  apply_to_batch-closed event b d h = by_type event.type
    where
      by_type :
          (t : EventType)
          → I
              (apply_to_batch (record event { type = t }) b)
              (apply_to_batch (record event { type = t }) d)
      by_type EventType.runtime_overloaded =
          subst (λ ids. I (overload_runs b.run_order b) (overload_runs ids d)) (c.order b d h)
            (overload_runs-closed c b.run_order b d h)
      by_type EventType.runtime_persistence_failed =
          subst (λ ids. I (interrupt_runs b.run_order b) (interrupt_runs ids d)) (c.order b d h)
            (interrupt_runs-closed c b.run_order b d h)
      by_type EventType.workflow_snapshot =
          workflow_started-closed true event.payload event.timestamp b d h
      by_type EventType.workflow_started =
          workflow_started-closed false event.payload event.timestamp b d h
      by_type EventType.node_ready = on_node-closed c keep event.payload b d h
      by_type EventType.task_created = on_node-closed c keep event.payload b d h
      by_type EventType.task_dispatched =
          on_node-closed c (dispatch event.payload) event.payload b d h
      by_type EventType.worker_started = worker_started-closed event.payload event.timestamp b d h
      by_type EventType.worker_completed =
          on_node-closed c (finish event.timestamp) event.payload b d h
      by_type EventType.worker_files_written = files_written-closed c event.payload b d h
      by_type EventType.worker_failed =
          on_node-closed c (failed event.payload event.timestamp) event.payload b d h
      by_type EventType.task_failed =
          on_node-closed c (failed event.payload event.timestamp) event.payload b d h
      by_type EventType.worker_log = worker_log-closed c event.payload event.timestamp b d h
      by_type EventType.artifacts_produced = artifact_stored-closed c event.payload b d h
      by_type EventType.artifact_stored = artifact_stored-closed c event.payload b d h
      by_type EventType.artifact_version_created = artifact_stored-closed c event.payload b d h
      by_type EventType.execution_paused =
          on_run-closed (control RunStatus.paused event.timestamp) event.payload b d h
      by_type EventType.execution_resumed =
          on_run-closed (control RunStatus.running event.timestamp) event.payload b d h
      by_type EventType.execution_killed =
          on_run-closed (control RunStatus.cancelled event.timestamp) event.payload b d h
      by_type EventType.workflow_completed =
          on_run-closed (complete event.timestamp) event.payload b d h
      by_type EventType.workflow_failed =
          on_run-closed (fail_by event.payload event.timestamp) event.payload b d h
      by_type _ = h
