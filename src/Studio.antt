-- ===== src/Studio.antt =====
-- studio/src/state/store.ts: the state that the window shows, and what changes it. The bridge to the
-- main process is known by the messages that it delivers. Lines that the runtime prints itself, which
-- are logged under negative sequence numbers, are left out.
pub mod Laws
use reticle.Common.{
  ℕ, ltb, Text, same, Dict, lookup, or_empty, length, take_last, List, [], ◌∷◌, ◌++◌, map, Option,
  none, some, Bool, true, false, ◌||◌, if◌then◌else◌,
}
use reticle.Events.{EventType, RuntimeEvent}
use reticle.Projection.{ProjectionState, Run, RunNode}
use reticle.Projection.Select.{latest_run}
use reticle.EventStore.Records.{LogRecord}
use reticle.EventStore.Query.{LogBatch}
use reticle.Logs.{merge_log_records}

abbrev pub log_limit : ℕ
log_limit = 20000

abbrev pub timeline_limit : ℕ
timeline_limit = 20000

pub record Tick : Type 0 where
  pub id : ℕ
  pub at : ℕ
  pub type : EventType

pub record StudioStore : Type 0 where
  pub projection : ProjectionState
  pub timeline : List Tick
  pub logs : List LogRecord
  pub logs_truncated : Bool
  pub system_prefers_light : Bool
  pub selected_exec_id : Option Text
  pub selected_node_id : Option Text
  pub scrub_event_id : Option ℕ

unfoldable pub to_ticks : List RuntimeEvent → List Tick
to_ticks events = map (λ e. record { id = e.id; at = e.timestamp; type = e.type }) events

unfoldable pub append_capped : {A : Type 0} → List A → List A → ℕ → List A
append_capped existing [] limit = existing
append_capped existing (x ∷ incoming) limit =
    if ltb limit (length (existing ++ x ∷ incoming))
    then take_last limit (existing ++ x ∷ incoming)
    else existing ++ x ∷ incoming

unfoldable pub set_system_prefers_light : Bool → StudioStore → StudioStore
set_system_prefers_light light s = record s { system_prefers_light = light }

-- The first set of `initialize`: the events of the main process come as they are.
unfoldable pub on_snapshot : ProjectionState → List RuntimeEvent → StudioStore → StudioStore
unfolding to_ticks
on_snapshot state events s = record s { projection = state; timeline = to_ticks events }

-- Its second set: the log of the main process.
unfoldable pub on_backfill : LogBatch → StudioStore → StudioStore
on_backfill backfill s = record s { logs = backfill.records; logs_truncated = backfill.truncated }

-- Its end: where no run is selected, the latest of the snapshot is.
unfoldable pub select_latest : ProjectionState → StudioStore → StudioStore
unfolding same
select_latest state s =
    if same (or_empty s.selected_exec_id) []
    then elim (latest_run state) [
      | none ↦ s
      | some run ↦ record s { selected_exec_id = some run.exec_id }
    ]
    else s

-- `bridge.projection.onPush`
unfoldable pub on_push : ProjectionState → List RuntimeEvent → StudioStore → StudioStore
unfolding append_capped to_ticks
on_push state batch s = record s {
  projection = state;
  timeline = append_capped s.timeline (to_ticks batch) timeline_limit;
}

-- `bridge.logs.onBatch`
unfoldable pub on_batch : LogBatch → StudioStore → StudioStore
unfolding append_capped
on_batch batch s = record s {
  logs = append_capped s.logs batch.records log_limit;
  logs_truncated = s.logs_truncated || batch.truncated;
}

unfoldable pub select_run : Option Text → StudioStore → StudioStore
select_run exec_id s = record s {
  selected_exec_id = exec_id;
  selected_node_id = none;
  scrub_event_id = none;
}

-- Whether a run is still the selected one when its history arrives.
abbrev pub is_selected : Text → Option Text → Bool
is_selected exec_id none = false
is_selected exec_id (some e) = same e exec_id

-- The history of a run arrives that `selectRun` has asked for.
unfoldable pub on_history : Text → LogBatch → StudioStore → StudioStore
on_history exec_id history s =
    if is_selected exec_id s.selected_exec_id
    then record s {
      logs = merge_log_records s.logs history.records log_limit;
      logs_truncated = s.logs_truncated || history.truncated;
    }
    else s

unfoldable pub select_node : Option Text → StudioStore → StudioStore
select_node node_id s = record s { selected_node_id = node_id }

unfoldable pub set_scrub : Option ℕ → StudioStore → StudioStore
set_scrub event_id s = record s { scrub_event_id = event_id }

unfoldable pub clear_logs : StudioStore → StudioStore
clear_logs s = record s { logs = []; logs_truncated = false }

-- An empty id selects no run.
unfoldable pub active_run : StudioStore → Option Run
active_run s = elim s.selected_exec_id [
  | none ↦ latest_run s.projection
  | some e ↦ if same e [] then latest_run s.projection else lookup e s.projection.runs
]

unfoldable pub active_node : StudioStore → Option RunNode
unfolding active_run
active_node s = elim (active_run s) [
  | none ↦ none
  | some run ↦ elim s.selected_node_id [
    | none ↦ none
    | some n ↦ if same n [] then none else lookup n run.nodes
  ]
]
