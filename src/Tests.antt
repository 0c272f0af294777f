-- ===== src/Tests.antt =====
-- The theorems on the projection at concrete inputs, and runs.
pub mod Store
pub mod Connection
pub mod Keys
pub mod Process
pub mod Plan
pub mod Activity
pub mod Window
pub mod Payloads
use reticle.Common.{
  ℕ, Text, Bool, codes, same, contains, lower_code, filter, take_last, length, ltb, foldl, map,
  List, [], ◌∷◌, ◌++◌, values, Option, none, some, true, false, ◌&&◌, ◌≡◌, ◌≢◌, refl, All, arith,
  lookup, ◌*◌, ◌≤◌, ◌<◌, ◌+◌,
}
use mathlib.Core.List.{Perm}
use reticle.Common.Sort.{IsSorted}
use reticle.Json.{Json, text, object, field, end}
use reticle.Events.{EventType, RuntimeEvent}
use reticle.Projection.{ProjectionState, create_projection, create_run}
use reticle.Projection.Fold.Scrub.{replay_to-foldl}
use reticle.Projection.Fold.{replay_to, apply_events, apply_event}
use reticle.Projection.Fold.Sessions.{apply_events-append}
use reticle.Projection.Consistency.{IsListed, apply_events-IsListed}
use reticle.Projection.Nodes.{AllNodes}
use reticle.Projection.Nodes.Sound.{IsSound, apply_events-IsSound}
use reticle.Projection.Nodes.Artifacts.{HasDistinct, apply_events-HasDistinct}
use reticle.Projection.Select.{run_totals, pending_approvals, approvals_in, since}
use reticle.Projection.Select.Laws.{
  Counts, run_totals-Counts, pending_approvals-IsSorted, nodes_in, awaits_person, waits_from,
}
use reticle.RunCompletion.{detect_completions, detect_approval_requests}
use reticle.RunCompletion.Laws.{
  is_news, IsReported, begins_waiting, detect_completions-filter, detect_approval_requests-filter,
}
use reticle.Common.{trim, starts_with, ends_with, split, last_index_of, lower}

abbrev pub event : ℕ → EventType → Json → RuntimeEvent
event id type payload = record {
  id = id;
  type = type;
  timestamp = 1000 * id;
  source = codes "runtime";
  session_id = codes "s1";
  payload = payload;
}

abbrev pub workflow : Json
workflow = object (field (codes "exec_id") (text (codes "e1")) end)

abbrev pub task : Json
task = object (
    field (codes "task_id") (text (codes "e1|n1"))
      (field (codes "worker_id") (text (codes "writer")) end))

abbrev waiting_log : Json
waiting_log = object (
    field (codes "task_id") (text (codes "e1|n1"))
      (field (codes "log") (text (codes "[UI_STATE: WAITING_HUMAN]")) end))

abbrev produced : Json
produced = object (
    field (codes "id") (text (codes "a1")) (
      field (codes "execution") (text (codes "e1"))
        (field (codes "task") (text (codes "e1|n1")) end)))

abbrev pub started : List RuntimeEvent
started = event 1 EventType.workflow_started workflow ∷ event 2 EventType.worker_started task ∷ []

abbrev pub waits : List RuntimeEvent
waits = event 3 EventType.worker_log waiting_log ∷ []

abbrev ends : List RuntimeEvent
ends =
    event 4 EventType.artifact_stored produced
    ∷ event 5 EventType.artifact_stored produced
    ∷ event 6 EventType.worker_completed task
    ∷ event 7 EventType.workflow_completed workflow
    ∷ []

apply_events-append_example :
    apply_events create_projection (started ++ ends)
    ≡ apply_events (apply_events create_projection started) ends
apply_events-append_example =
    apply_events-append create_projection started ends (refl, (refl, tt))
      (refl, (refl, (refl, (refl, tt))))

apply_events-IsSound_example :
    AllNodes IsSound (apply_events create_projection (started ++ waits)).runs
unfolding create_projection
apply_events-IsSound_example = apply_events-IsSound create_projection (started ++ waits) tt

empty-IsListed : IsListed create_projection.runs create_projection.run_order
unfolding create_projection contains lookup
empty-IsListed = record { listed = λ e. refl; distinct = tt }

apply_events-IsListed_example :
    IsListed
      (apply_events create_projection started).runs
      (apply_events create_projection started).run_order
apply_events-IsListed_example = apply_events-IsListed create_projection started empty-IsListed

apply_events-HasDistinct_example :
    AllNodes
      (λ e n node. HasDistinct node.artifacts)
      (apply_events create_projection (started ++ ends)).runs
unfolding create_projection
apply_events-HasDistinct_example = apply_events-HasDistinct create_projection (started ++ ends) tt

abbrev pub before_end : ProjectionState
before_end = apply_events create_projection (started ++ waits)

abbrev after_end : ProjectionState
after_end = apply_events before_end ends

detect_completions-filter_example :
    (map (λ c. c.exec_id) (detect_completions (some before_end) after_end)
      ≡ filter (is_news before_end after_end) after_end.run_order)
    × All (IsReported after_end) (detect_completions (some before_end) after_end)
detect_completions-filter_example = detect_completions-filter before_end after_end

detect_approval_requests-filter_example :
    detect_approval_requests (some create_projection) before_end
    ≡ filter (begins_waiting create_projection) (nodes_in before_end before_end.run_order)
detect_approval_requests-filter_example =
    detect_approval_requests-filter create_projection before_end apply_events-IsSound_example

run_totals-Counts_example :
    Counts (values (create_run (codes "e1")).nodes) (run_totals (some (create_run (codes "e1"))))
run_totals-Counts_example = run_totals-Counts (create_run (codes "e1"))

pending_approvals-IsSorted_example :
    IsSorted (λ a b. ltb (waits_from b) (waits_from a)) (pending_approvals before_end)
    × Perm
        (pending_approvals before_end)
        (filter awaits_person (nodes_in before_end before_end.run_order))
pending_approvals-IsSorted_example = pending_approvals-IsSorted before_end

replay_to-foldl_example :
    replay_to (started ++ waits) 2 ≡ foldl apply_event create_projection started
replay_to-foldl_example =
    replay_to-foldl 2 started waits (omega arith, (omega arith, tt)) (omega arith, tt)
      (refl, (refl, tt))
