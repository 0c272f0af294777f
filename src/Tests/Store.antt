-- ===== src/Tests/Store.antt =====
-- The theorems on the event store and the logs at concrete inputs, and runs.
use reticle.Common.{
  ℕ, Text, codes, same, filter, take_last, length, foldl, [], ◌∷◌, Option, none, some, true, false,
  ◌≡◌, refl, arith, ◌≤◌,
}
use reticle.Json.{Json}
use reticle.Events.{EventType}
use reticle.Projection.{create_projection}
use reticle.Projection.Fold.{apply_event}
use reticle.EventStore.{create_store, flush_state}
use reticle.EventStore.Ring.{RingBuffer, empty, push_all}
use reticle.EventStore.Ring.Laws.{Holds, push_all-Holds}
use reticle.EventStore.Records.{LogRecord, Level, strip_heavy_payload}
use reticle.EventStore.Query.{LogQuery, query_logs}
use reticle.EventStore.Query.Laws.{Rises, wanted, query_logs-wanted}
use reticle.EventStore.Sequence.{query_logs-act_all}
use reticle.EventStore.Replay.{
  receive, state_timer_fires, log_timer_fires, act_all, flush_state-act_all,
}
use reticle.Logs.{merge_log_records}
use reticle.Logs.Laws.{merge_log_records-Rises}
use reticle.Logs.Llm.{build_llm_diagnostics}
use reticle.Logs.Llm.Laws.{said, said_by, AreSeparate, said-build_llm_diagnostics}
use reticle.Tests.{event, task, workflow}

flush_state-act_all_example :
    (flush_state (
      act_all
        (receive (event 1 EventType.workflow_started workflow)
          ∷ state_timer_fires
          ∷ receive (event 2 EventType.worker_started task)
          ∷ log_timer_fires
          ∷ [])
        (create_store 10))).0.projection
    ≡ foldl apply_event create_projection (
        strip_heavy_payload (event 1 EventType.workflow_started workflow)
        ∷ strip_heavy_payload (event 2 EventType.worker_started task)
        ∷ [])
unfolding strip_heavy_payload
flush_state-act_all_example =
    flush_state-act_all 10
      (receive (event 1 EventType.workflow_started workflow)
        ∷ state_timer_fires
        ∷ receive (event 2 EventType.worker_started task)
        ∷ log_timer_fires
        ∷ [])
      (refl, (refl, tt))

push_all-Holds_example : Holds {A = ℕ} 2 (1 ∷ 2 ∷ 3 ∷ []) (push_all (1 ∷ 2 ∷ 3 ∷ []) (empty 2))
push_all-Holds_example = push_all-Holds {A = ℕ} 2 (1 ∷ 2 ∷ 3 ∷ [])

push_all_three :
    push_all {A = ℕ} (1 ∷ 2 ∷ 3 ∷ []) (empty 2)
    ≡ record { items = 2 ∷ 3 ∷ []; evicted = true; capacity = 2 }
unfolding push_all empty
push_all_three = refl

abbrev log_record : ℕ → Level → Option Text → LogRecord
log_record seq level exec_id = record {
  seq = seq;
  at = 0;
  level = level;
  exec_id = exec_id;
  node_id = none;
  agent_id = none;
  message = codes "line";
  event_type = none;
  is_llm = false;
}

abbrev some_logs : RingBuffer LogRecord
some_logs = record {
  items =
      log_record 1 Level.error none
      ∷ log_record 2 Level.info (some (codes "e1"))
      ∷ log_record 4 Level.error (some (codes "e1"))
      ∷ [];
  evicted = true;
  capacity = 3;
}

abbrev error_query : LogQuery
error_query = record {
  exec_id = some (codes "e1");
  include_unscoped = true;
  node_id = none;
  search = none;
  levels = Level.error ∷ [];
  exclude_llm = true;
  limit = some 1;
  after = none;
}

query_logs-wanted_example : query_logs error_query some_logs ≡ record {
  records = take_last 1 (filter (wanted error_query) some_logs.items);
  truncated = true;
}
query_logs-wanted_example =
    query_logs-wanted error_query some_logs
      ((omega arith, (omega arith, tt)), ((omega arith, tt), (tt, tt)))

query_logs_errors :
    query_logs error_query some_logs
    ≡ record { records = log_record 4 Level.error (some (codes "e1")) ∷ []; truncated = true }
unfolding query_logs same
query_logs_errors = refl

merge_log_records-Rises_example :
    Rises (
      merge_log_records
        (log_record 2 Level.info none ∷ [])
        (log_record 1 Level.warn none ∷ log_record 2 Level.error none ∷ [])
        1)
    × (length (
          merge_log_records
            (log_record 2 Level.info none ∷ [])
            (log_record 1 Level.warn none ∷ log_record 2 Level.error none ∷ [])
            1)
        ≤ 1)
merge_log_records-Rises_example =
    merge_log_records-Rises (log_record 2 Level.info none ∷ []) (log_record 1 Level.warn none)
      (log_record 2 Level.error none ∷ []) 1

abbrev no_parse : Text → Option Json
no_parse s = none

abbrev llm_record : ℕ → Text → LogRecord
llm_record seq message = record (log_record seq Level.info none) { message = message }

said-build_llm_diagnostics_example :
    (said (
        build_llm_diagnostics no_parse
          (llm_record 1 (codes "[LLM] a") ∷ llm_record 2 (codes "[LLM] b") ∷ []))
      ≡ said_by no_parse (llm_record 1 (codes "[LLM] a") ∷ llm_record 2 (codes "[LLM] b") ∷ []))
    × AreSeparate (
        build_llm_diagnostics no_parse
          (llm_record 1 (codes "[LLM] a") ∷ llm_record 2 (codes "[LLM] b") ∷ []))
said-build_llm_diagnostics_example =
    said-build_llm_diagnostics no_parse
      (llm_record 1 (codes "[LLM] a") ∷ llm_record 2 (codes "[LLM] b") ∷ [])

query_logs-act_all_example :
    let logs =
      (act_all
        (receive (event 2 EventType.worker_started task) ∷ state_timer_fires ∷ [])
        (create_store 5)).logs in
    query_logs error_query logs ≡ record {
      records = take_last 1 (filter (wanted error_query) logs.items);
      truncated = logs.evicted;
    }
query_logs-act_all_example =
    query_logs-act_all error_query 5
      (receive (event 2 EventType.worker_started task) ∷ state_timer_fires ∷ [])
