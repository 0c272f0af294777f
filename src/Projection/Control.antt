-- ===== src/Projection/Control.antt =====
-- The cases of `applyToBatch` (projection.ts) that concern a whole run, and the waitlist.
use reticle.Common.{
  ℕ, Text, codes, List, [], ◌∷◌, Option, none, some, ◌<|>◌, or_else, if◌then◌else◌,
}
use reticle.Json.{pos, Json, number, array, elements, get, defined, as_text, truthy}
use reticle.Events.{WaitlistPayload}
use reticle.Ids.{identify_execution}
use reticle.Projection.{RunStatus, Run, is_terminal}
use reticle.Projection.Draft.{Batch, draft_run, write_run}

-- `identifyExecution(payload)`, and nothing where that is empty
unfoldable pub execution : Json → Option Text
execution payload = elim (identify_execution payload) [
  | none ↦ none
  | some [] ↦ none
  | some (c ∷ e) ↦ some (c ∷ e)
]

unfoldable pub on_run : (Run → Run) → Json → Batch → Batch
unfolding execution
on_run f payload batch = elim (execution payload) [
  | none ↦ batch
  | some e ↦ write_run e f (draft_run e batch)
]

abbrev pub control_run : RunStatus → ℕ → Run → Run
control_run status timestamp run = if is_terminal run.status then run else elim status [
  | RunStatus.cancelled ↦ record run { status = RunStatus.cancelled; ended_at = some timestamp }
  | next ↦ record run { status = next }
]

abbrev pub complete_run : ℕ → Run → Run
complete_run timestamp run = record run { status = RunStatus.completed; ended_at = some timestamp }

abbrev pub fail_run : Json → ℕ → Run → Run
fail_run payload timestamp run = record run {
  status = RunStatus.failed;
  ended_at = some timestamp;
  failure_node_id = as_text (get (codes "node_id") payload) <|> run.failure_node_id;
  failure_reason = as_text (get (codes "reason") payload) <|> run.failure_reason;
}

abbrev pub items_of : Option Json → List Json
items_of (some (array vs)) = elements vs
items_of _ = []

unfoldable pub update_waitlist : Json → Option WaitlistPayload → Option WaitlistPayload
update_waitlist p old =
    if truthy (some p)
    then some (record {
      items = items_of (get (codes "items") p);
      max_workers = or_else (defined (get (codes "maxWorkers") p)) (number (pos 0));
      running_workers = or_else (defined (get (codes "runningWorkers") p)) (number (pos 0));
      locked_keys =
          defined (get (codes "lockedKeys") p)
          <|> (elim old [ none ↦ none | some w ↦ w.locked_keys ]);
      key_health =
          defined (get (codes "keyHealth") p)
          <|> (elim old [ none ↦ none | some w ↦ w.key_health ]);
    })
    else old
