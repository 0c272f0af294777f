-- ===== src/Projection/Worker.antt =====
-- The cases of `applyToBatch` (projection.ts) that follow the attempts of one node.
use reticle.Common.{
  ℕ, ◌+◌, ◌-◌, Text, codes, List, [], ◌∷◌, none, some, ◌||◌, ◌<|>◌, or_else, if◌then◌else◌, is_some,
}
use reticle.Json.{Json, text, array, elements, get, defined, str, truthy}
use reticle.Ids.{identify}
use reticle.Projection.{NodeStatus, RunStatus, RunNode, Run, is_pending_run}
use reticle.Projection.Draft.{Batch, write_run, write_node}
use reticle.Projection.Identity.{draft_identity, on_node}

abbrev pub dispatch_node : Json → RunNode → RunNode
dispatch_node payload node = elim (str (get (codes "llm_model") payload)) [
  | none ↦ node
  | some model ↦ record node { model = some model }
]

abbrev pub start_node : ℕ → RunNode → RunNode
start_node timestamp node = record node {
  status = NodeStatus.running;
  started_at = some timestamp;
  ended_at = none;
  duration_ms = none;
  failure = none;
  waiting = none;
  attempts = node.attempts + 1;
}

abbrev pub started_run : ℕ → Run → Run
started_run timestamp run =
    if is_pending_run run.status
    then record run { status = RunStatus.running; started_at = run.started_at <|> some timestamp }
    else run

unfoldable pub worker_started : Json → ℕ → Batch → Batch
unfolding draft_identity
worker_started payload timestamp batch = elim (identify payload) [
  | none ↦ batch
  | some i ↦
      write_run i.exec_id (started_run timestamp)
        (write_node i.exec_id i.node_id (start_node timestamp) (draft_identity i batch))
]

-- The end of an attempt: the duration is `Math.max(0, timestamp - startedAt)`.
abbrev pub end_node : NodeStatus → ℕ → RunNode → RunNode
end_node status timestamp node =
    let ended = record node { status = status; ended_at = some timestamp; waiting = none } in
    elim node.started_at [
      | none ↦ ended
      | some start ↦ record ended { duration_ms = some (timestamp - start) }
    ]

abbrev pub set_failure : Json → RunNode → RunNode
set_failure payload node =
    let reason = get (codes "reason") payload in
    let exit_code = get (codes "exit_code") payload in
    let stderr = get (codes "stderr") payload in
    if truthy reason || is_some exit_code || truthy stderr
    then record node {
      failure = some (record {
        reason = or_else (defined reason) (text (codes "exit_non_zero"));
        exit_code = exit_code;
        stderr = stderr;
      });
    }
    else node

abbrev pub texts_of : List Json → List Text
texts_of [] = []
texts_of (text s ∷ vs) = s ∷ texts_of vs
texts_of (_ ∷ vs) = texts_of vs

abbrev pub set_files : List Json → RunNode → RunNode
set_files files node = record node { files = texts_of files }

unfoldable pub files_written : Json → Batch → Batch
unfolding on_node
files_written payload batch = elim (get (codes "files") payload) [
  | some (array vs) ↦ on_node (λ i. set_files (elements vs)) payload batch
  | _ ↦ batch
]
