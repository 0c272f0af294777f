-- ===== src/Projection/Apply.antt =====
-- `applyToBatch` of projection.ts: its switch.
use reticle.Common.{Option, true, false}
use reticle.Events.{RuntimeEvent, EventType, WaitlistPayload}
use reticle.Projection.{NodeStatus, RunStatus}
use reticle.Projection.Draft.{Batch}
use reticle.Projection.Identity.{on_node}
use reticle.Projection.Health.{overload_runs, overload_waitlist, interrupt_runs}
use reticle.Projection.Workflow.{workflow_started}
use reticle.Projection.Worker.{dispatch_node, worker_started, end_node, set_failure, files_written}
use reticle.Projection.Log.{worker_log}
use reticle.Projection.Artifacts.{artifact_stored}
use reticle.Projection.Control.{on_run, control_run, complete_run, fail_run, update_waitlist}

-- `applyToBatch`, on the batch
unfoldable pub apply_to_batch : RuntimeEvent → Batch → Batch
apply_to_batch event batch =
    let payload = event.payload in
    let at = event.timestamp in
    elim event.type [
      | EventType.runtime_overloaded ↦ overload_runs batch.run_order batch
      | EventType.runtime_persistence_failed ↦ interrupt_runs batch.run_order batch
      | EventType.workflow_snapshot ↦ workflow_started true payload at batch
      | EventType.workflow_started ↦ workflow_started false payload at batch
      | EventType.node_ready ↦ on_node (λ i n. n) payload batch
      | EventType.task_created ↦ on_node (λ i n. n) payload batch
      | EventType.task_dispatched ↦ on_node (λ i. dispatch_node payload) payload batch
      | EventType.worker_started ↦ worker_started payload at batch
      | EventType.worker_completed ↦ on_node (λ i. end_node NodeStatus.done at) payload batch
      | EventType.worker_files_written ↦ files_written payload batch
      | EventType.worker_failed ↦
          on_node (λ i n. set_failure payload (end_node NodeStatus.failed at n)) payload batch
      | EventType.task_failed ↦
          on_node (λ i n. set_failure payload (end_node NodeStatus.failed at n)) payload batch
      | EventType.worker_log ↦ worker_log payload at batch
      | EventType.artifacts_produced ↦ artifact_stored payload batch
      | EventType.artifact_stored ↦ artifact_stored payload batch
      | EventType.artifact_version_created ↦ artifact_stored payload batch
      | EventType.execution_paused ↦ on_run (control_run RunStatus.paused at) payload batch
      | EventType.execution_resumed ↦ on_run (control_run RunStatus.running at) payload batch
      | EventType.execution_killed ↦ on_run (control_run RunStatus.cancelled at) payload batch
      | EventType.workflow_completed ↦ on_run (complete_run at) payload batch
      | EventType.workflow_failed ↦ on_run (fail_run payload at) payload batch
      | _ ↦ batch
    ]

-- `applyToBatch`, on `state.waitlist`
unfoldable pub apply_to_waitlist : RuntimeEvent → Option WaitlistPayload → Option WaitlistPayload
unfolding overload_waitlist update_waitlist
apply_to_waitlist event waitlist = elim event.type [
  | EventType.runtime_overloaded ↦ overload_waitlist waitlist
  | EventType.waitlist_updated ↦ update_waitlist event.payload waitlist
  | _ ↦ waitlist
]
