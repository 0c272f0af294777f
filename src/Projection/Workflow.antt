-- ===== src/Projection/Workflow.antt =====
-- The cases WorkflowSnapshot and WorkflowStarted of `applyToBatch` (projection.ts).
use reticle.Common.{
  ℕ, Text, codes, same, List, [], ◌∷◌, ◌++◌, map, filter, Option, none, some, Bool, not, ◌&&◌,
  ◌<|>◌, or_empty, if◌then◌else◌,
}
use reticle.Json.{Json, text, array, object, elements, entries, get, defined, as_text}
use reticle.Ids.{identify_execution}
use reticle.Projection.{NodeStatus, RunStatus, RunNode, RunEdge, Run, is_pending_run}
use reticle.Projection.Draft.{Batch, draft_run, draft_node, write_run, write_node}

-- A run status that a snapshot may report. (`String(status)` of a list of one text is that text:
-- such a payload is left out.)
unfoldable pub snapshot_run_status : Option Json → Option RunStatus
snapshot_run_status (some (text s)) =
    if same s (codes "running")
    then some RunStatus.running
    else if same s (codes "paused")
    then some RunStatus.paused
    else if same s (codes "completed")
    then some RunStatus.completed
    else if same s (codes "failed")
    then some RunStatus.failed
    else if same s (codes "cancelled")
    then some RunStatus.cancelled
    else if same s (codes "interrupted")
    then some RunStatus.interrupted
    else none
snapshot_run_status _ = none

unfoldable pub snapshot_node_status : Json → Option NodeStatus
snapshot_node_status (text s) =
    if same s (codes "pending")
    then some NodeStatus.pending
    else if same s (codes "running")
    then some NodeStatus.running
    else if same s (codes "done")
    then some NodeStatus.done
    else if same s (codes "failed")
    then some NodeStatus.failed
    else if same s (codes "blocked")
    then some NodeStatus.blocked
    else if same s (codes "interrupted")
    then some NodeStatus.interrupted
    else none
snapshot_node_status _ = none

abbrev pub task_of : Text → Text → Text
task_of e n = e ++ (codes "|" ++ n)

abbrev pub set_status : NodeStatus → RunNode → RunNode
set_status status node = record node { status = status }

unfoldable pub snapshot_nodes : Text → List (Text × Json) → Batch → Batch
unfolding snapshot_node_status
snapshot_nodes e [] batch = batch
snapshot_nodes e ((id, status) ∷ states) batch =
    snapshot_nodes e states (elim (snapshot_node_status status) [
      | none ↦ batch
      | some st ↦ write_node e id (set_status st) (draft_node e id (task_of e id) batch)
    ])

-- `Object.entries(states)`, where `states` is an object. A list of states is left out.
abbrev pub states_of : Option Json → List (Text × Json)
states_of (some (object fs)) = entries fs
states_of _ = []

abbrev pub set_run_status : Option RunStatus → Run → Run
set_run_status none run = run
set_run_status (some status) run = record run { status = status }

unfoldable pub take_snapshot : Text → Json → Batch → Batch
unfolding snapshot_run_status snapshot_nodes
take_snapshot e payload batch =
    snapshot_nodes e (states_of (get (codes "nodes") payload))
      (write_run e (set_run_status (snapshot_run_status (get (codes "status") payload))) batch)

-- An edge that is null, on which the source throws, is read as one without fields.
abbrev pub edge_of : Json → RunEdge
edge_of edge = record {
  from = or_empty (as_text (get (codes "from") edge) <|> as_text (get (codes "From") edge));
  to = or_empty (as_text (get (codes "to") edge) <|> as_text (get (codes "To") edge));
}

abbrev pub edges_of : Option Json → List Json
edges_of (some (array vs)) = elements vs
edges_of _ = []

unfoldable pub seed_edges : Text → List RunEdge → Batch → Batch
seed_edges e [] batch = batch
seed_edges e (edge ∷ edges) batch =
    seed_edges e edges (
      draft_node e edge.to (task_of e edge.to) (draft_node e edge.from (task_of e edge.from) batch))

abbrev pub start_run : Option Json → ℕ → Run → Run
start_run workflow_id timestamp run =
    let named = record run { workflow_id = workflow_id <|> run.workflow_id } in
    if is_pending_run run.status
    then record named { status = RunStatus.running; started_at = some timestamp }
    else named

abbrev pub wire_edges : List Json → List RunEdge
wire_edges edges =
    filter (λ edge. not (same edge.from []) && not (same edge.to [])) (map edge_of edges)

unfoldable pub set_edges : Text → List Json → Batch → Batch
unfolding seed_edges
set_edges e [] batch = batch
set_edges e (edge ∷ edges) batch =
    seed_edges e (wire_edges (edge ∷ edges))
      (write_run e (λ r. record r { edges = wire_edges (edge ∷ edges) }) batch)

-- `p.exec_id ?? identifyExecution(payload)`, and nothing where that is empty
unfoldable pub workflow_execution : Json → Option Text
workflow_execution payload =
    elim (as_text (get (codes "exec_id") payload) <|> identify_execution payload) [
      | none ↦ none
      | some [] ↦ none
      | some (c ∷ e) ↦ some (c ∷ e)
    ]

unfoldable pub workflow_started : Bool → Json → ℕ → Batch → Batch
unfolding workflow_execution take_snapshot set_edges
workflow_started is_snapshot payload timestamp batch = elim (workflow_execution payload) [
  | none ↦ batch
  | some e ↦
      let drafted = draft_run e batch in
      let restored = if is_snapshot then take_snapshot e payload drafted else drafted in
      set_edges e (edges_of (get (codes "edges") payload))
        (write_run e (start_run (defined (get (codes "workflow_id") payload)) timestamp) restored)
]
