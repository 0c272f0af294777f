-- ===== src/EventStore.antt =====
-- studio/electron/forge/store.ts: the bounded history of a runtime and its log.
pub mod Ring
pub mod Query
pub mod Records
pub mod Replay
pub mod Sequence
use reticle.Common.{
  ℕ, suc, ◌+◌, Text, codes, same, List, [], ◌∷◌, ◌++◌, filter, Option, none, some, Bool, true,
  false, not, ◌&&◌, ◌||◌, if◌then◌else◌, is_some,
}
use reticle.Events.{RuntimeEvent}
use reticle.Projection.{ProjectionState, create_projection}
use reticle.Projection.Fold.{apply_events}
use reticle.EventStore.Ring.{RingBuffer, empty, push, set_capacity, clear}
use reticle.EventStore.Query.{LogBatch, admits}
use reticle.EventStore.Records.{LogRecord, to_log_record, strip_heavy_payload}

-- The node that the log is narrowed to; an absent id is no filter.
pub record LogScope : Type 0 where
  pub exec_id : Option Text
  pub node_id : Option Text

-- A timer is known by whether it is set. What is emitted is the operations' result.
pub record EventStore : Type 0 where
  pub events : RingBuffer RuntimeEvent
  pub logs : RingBuffer LogRecord
  pub projection : ProjectionState
  pub pending_events : List RuntimeEvent
  pub pending_logs : List LogRecord
  pub state_timer : Bool
  pub log_timer : Bool
  pub log_seq : ℕ
  pub scope : LogScope

unfoldable pub create_store : ℕ → EventStore
unfolding empty create_projection
create_store buffer_size = record {
  events = empty buffer_size;
  logs = empty buffer_size;
  projection = create_projection;
  pending_events = [];
  pending_logs = [];
  state_timer = false;
  log_timer = false;
  log_seq = 0;
  scope = record { exec_id = none; node_id = none };
}

unfoldable pub set_buffer_size : ℕ → EventStore → EventStore
unfolding set_capacity
set_buffer_size size s = record s {
  events = set_capacity size s.events;
  logs = set_capacity size s.logs;
}

unfoldable pub set_scope : LogScope → EventStore → EventStore
set_scope scope s = record s { scope = scope }

-- The record that `ingest` logs; `toLogRecord` advances the sequence number for every event.
unfoldable pub log_event : RuntimeEvent → EventStore → EventStore
unfolding push
log_event event s = elim (to_log_record (suc s.log_seq) event) [
  | none ↦ record s { log_seq = suc s.log_seq }
  | some r ↦ record s {
    log_seq = suc s.log_seq;
    logs = push r s.logs;
    pending_logs = s.pending_logs ++ r ∷ [];
  }
]

unfoldable pub schedule_flush : EventStore → EventStore
schedule_flush s = record s { state_timer = true; log_timer = true }

unfoldable pub ingest : RuntimeEvent → EventStore → EventStore
unfolding log_event schedule_flush push
ingest raw s =
    let event = strip_heavy_payload raw in
    schedule_flush (
      log_event event (record s {
        events = push event s.events;
        pending_events = s.pending_events ++ event ∷ [];
      }))

-- The state timer fires: the projection that is pushed, with its events, if there are any.
unfoldable pub flush_state : EventStore → EventStore × List RuntimeEvent
flush_state s = elim s.pending_events [
  | [] ↦ (record s { state_timer = false }, [])
  | event ∷ events ↦ (
    record s {
      state_timer = false;
      pending_events = [];
      projection = apply_events s.projection (event ∷ events);
    },
    event ∷ events,
  )
]

abbrev pub in_scope : LogScope → LogRecord → Bool
in_scope scope r = admits scope.exec_id r.exec_id && admits scope.node_id r.node_id

-- The log timer fires: the batch that is pushed, if any record is in the scope.
unfoldable pub flush_logs : EventStore → EventStore × Option LogBatch
flush_logs s = elim s.pending_logs [
  | [] ↦ (record s { log_timer = false }, none)
  | r ∷ rs ↦ (
    record s { log_timer = false; pending_logs = [] },
    (elim (filter (in_scope s.scope) (r ∷ rs)) [
      | [] ↦ none
      | q ∷ qs ↦ some (record { records = q ∷ qs; truncated = s.logs.evicted })
    ]),
  )
]

unfoldable pub clear_store : EventStore → EventStore
unfolding clear create_projection
clear_store s = record s {
  events = clear s.events;
  logs = clear s.logs;
  pending_events = [];
  pending_logs = [];
  projection = create_projection;
}
