-- ===== src/Events.antt =====
-- studio/src/shared/events.ts: the event types and the normalized envelope.
pub mod Decode
use reticle.Common.{ℕ, Text, codes, same, List, [], ◌∷◌, Option, if◌then◌else◌}
use reticle.Json.{Json}

-- `EventType | string`: the known types, and any other name.
pub data EventType : Type 0 where
  runtime_overloaded runtime_persistence_failed workflow_snapshot execution_paused : EventType
  execution_resumed execution_killed environment_provisioning_completed : EventType
  environment_provisioning_failed environment_provisioning_started artifact_stored : EventType
  artifact_version_created artifacts_produced automation_triggered file_lock_released : EventType
  file_lock_requested graph_mutation_requested memory_read_completed : EventType
  memory_read_requested memory_updated memory_write_requested node_ready : EventType
  runtime_shutdown runtime_started task_created task_dispatched task_failed : EventType
  waitlist_command waitlist_state_requested waitlist_updated worker_completed : EventType
  worker_files_written worker_verification_recorded worker_failed worker_log : EventType
  worker_started workflow_completed workflow_failed workflow_started : EventType
  workflow_state_requested : EventType
  other : Text → EventType

-- `EVENT_TYPES`, each name with its constructor
abbrev pub event_types : List (Text × EventType)
event_types =
    (codes "RuntimeOverloaded", runtime_overloaded)
    ∷ (codes "RuntimePersistenceFailed", runtime_persistence_failed)
    ∷ (codes "WorkflowSnapshot", workflow_snapshot)
    ∷ (codes "ExecutionPaused", execution_paused)
    ∷ (codes "ExecutionResumed", execution_resumed)
    ∷ (codes "ExecutionKilled", execution_killed)
    ∷ (codes "EnvironmentProvisioningCompleted", environment_provisioning_completed)
    ∷ (codes "EnvironmentProvisioningFailed", environment_provisioning_failed)
    ∷ (codes "EnvironmentProvisioningStarted", environment_provisioning_started)
    ∷ (codes "ArtifactStored", artifact_stored)
    ∷ (codes "ArtifactVersionCreated", artifact_version_created)
    ∷ (codes "ArtifactsProduced", artifacts_produced)
    ∷ (codes "AutomationTriggered", automation_triggered)
    ∷ (codes "FileLockReleased", file_lock_released)
    ∷ (codes "FileLockRequested", file_lock_requested)
    ∷ (codes "GraphMutationRequested", graph_mutation_requested)
    ∷ (codes "MemoryReadCompleted", memory_read_completed)
    ∷ (codes "MemoryReadRequested", memory_read_requested)
    ∷ (codes "MemoryUpdated", memory_updated)
    ∷ (codes "MemoryWriteRequested", memory_write_requested)
    ∷ (codes "NodeReady", node_ready)
    ∷ (codes "RuntimeShutdown", runtime_shutdown)
    ∷ (codes "RuntimeStarted", runtime_started)
    ∷ (codes "TaskCreated", task_created)
    ∷ (codes "TaskDispatched", task_dispatched)
    ∷ (codes "TaskFailed", task_failed)
    ∷ (codes "WaitlistCommand", waitlist_command)
    ∷ (codes "WaitlistStateRequested", waitlist_state_requested)
    ∷ (codes "WaitlistUpdated", waitlist_updated)
    ∷ (codes "WorkerCompleted", worker_completed)
    ∷ (codes "WorkerFilesWritten", worker_files_written)
    ∷ (codes "WorkerVerificationRecorded", worker_verification_recorded)
    ∷ (codes "WorkerFailed", worker_failed)
    ∷ (codes "WorkerLog", worker_log)
    ∷ (codes "WorkerStarted", worker_started)
    ∷ (codes "WorkflowCompleted", workflow_completed)
    ∷ (codes "WorkflowFailed", workflow_failed)
    ∷ (codes "WorkflowStarted", workflow_started)
    ∷ (codes "WorkflowStateRequested", workflow_state_requested)
    ∷ []

type_named : Text → List (Text × EventType) → EventType
type_named s [] = other s
type_named s ((name, t) ∷ rest) = if same name s then t else type_named s rest

unfoldable pub event_type : Text → EventType
unfolding type_named
event_type s = type_named s event_types

-- The name that a type has on the wire.
unfoldable pub type_name : EventType → Text
type_name runtime_overloaded = codes "RuntimeOverloaded"
type_name runtime_persistence_failed = codes "RuntimePersistenceFailed"
type_name workflow_snapshot = codes "WorkflowSnapshot"
type_name execution_paused = codes "ExecutionPaused"
type_name execution_resumed = codes "ExecutionResumed"
type_name execution_killed = codes "ExecutionKilled"
type_name environment_provisioning_completed = codes "EnvironmentProvisioningCompleted"
type_name environment_provisioning_failed = codes "EnvironmentProvisioningFailed"
type_name environment_provisioning_started = codes "EnvironmentProvisioningStarted"
type_name artifact_stored = codes "ArtifactStored"
type_name artifact_version_created = codes "ArtifactVersionCreated"
type_name artifacts_produced = codes "ArtifactsProduced"
type_name automation_triggered = codes "AutomationTriggered"
type_name file_lock_released = codes "FileLockReleased"
type_name file_lock_requested = codes "FileLockRequested"
type_name graph_mutation_requested = codes "GraphMutationRequested"
type_name memory_read_completed = codes "MemoryReadCompleted"
type_name memory_read_requested = codes "MemoryReadRequested"
type_name memory_updated = codes "MemoryUpdated"
type_name memory_write_requested = codes "MemoryWriteRequested"
type_name node_ready = codes "NodeReady"
type_name runtime_shutdown = codes "RuntimeShutdown"
type_name runtime_started = codes "RuntimeStarted"
type_name task_created = codes "TaskCreated"
type_name task_dispatched = codes "TaskDispatched"
type_name task_failed = codes "TaskFailed"
type_name waitlist_command = codes "WaitlistCommand"
type_name waitlist_state_requested = codes "WaitlistStateRequested"
type_name waitlist_updated = codes "WaitlistUpdated"
type_name worker_completed = codes "WorkerCompleted"
type_name worker_files_written = codes "WorkerFilesWritten"
type_name worker_verification_recorded = codes "WorkerVerificationRecorded"
type_name worker_failed = codes "WorkerFailed"
type_name worker_log = codes "WorkerLog"
type_name worker_started = codes "WorkerStarted"
type_name workflow_completed = codes "WorkflowCompleted"
type_name workflow_failed = codes "WorkflowFailed"
type_name workflow_started = codes "WorkflowStarted"
type_name workflow_state_requested = codes "WorkflowStateRequested"
type_name (other s) = s

-- A number of milliseconds or an id is a natural number. A missing payload is null.
pub record RuntimeEvent : Type 0 where
  pub id : ℕ
  pub type : EventType
  pub timestamp : ℕ
  pub source : Text
  pub session_id : Text
  pub payload : Json

pub record WaitlistPayload : Type 0 where
  pub items : List Json
  pub max_workers : Json
  pub running_workers : Json
  pub locked_keys : Option Json
  pub key_health : Option Json
