-- ===== src/Projection/Health.antt =====
-- The cases RuntimeOverloaded and RuntimePersistenceFailed of `applyToBatch` (projection.ts).
use reticle.Common.{
  Text, codes, same, lookup, values, List, [], ◌∷◌, map, Option, none, some, Bool, false, ◌||◌,
  if◌then◌else◌,
}
use reticle.Json.{pos, Json, number, text, object, get, with_field}
use reticle.Events.{WaitlistPayload}
use reticle.Projection.{
  NodeStatus, RunStatus, RunNode, Run, is_active, is_pending, is_running, is_done, is_waiting,
}
use reticle.Projection.Draft.{Batch, draft_run, draft_node, write_run, write_node}

abbrev pub fail_node : RunNode → RunNode
fail_node node = record node { status = NodeStatus.failed }

-- The inner loop over `Object.values(run.nodes)`.
unfoldable pub fail_nodes : Text → List RunNode → Batch → Batch
fail_nodes e [] batch = batch
fail_nodes e (node ∷ nodes) batch = fail_nodes e nodes (
    if is_done node.status
    then batch
    else write_node e node.node_id fail_node (draft_node e node.node_id node.task_id batch))

abbrev pub overloaded_reason : Text
overloaded_reason = codes "Runtime event capacity exceeded; restart required"

-- The body of the loop over `batch.runOrder`, with the draft of the run that it has found.
unfoldable pub overload_found : Option Run → Text → Batch → Batch
unfolding fail_nodes
overload_found none e drafted = drafted
overload_found (some run) e drafted =
    if is_active run.status
    then fail_nodes e (values run.nodes) (
        write_run e
          (λ r. record r { status = RunStatus.failed; failure_reason = some overloaded_reason })
          drafted)
    else drafted

unfoldable pub overload_run : Text → Batch → Batch
unfolding overload_found
overload_run e batch =
    let drafted = draft_run e batch in overload_found (lookup e drafted.runs) e drafted

unfoldable pub overload_runs : List Text → Batch → Batch
unfolding overload_run
overload_runs [] batch = batch
overload_runs (e ∷ ids) batch = overload_runs ids (overload_run e batch)

-- `['PENDING','RUNNING','PAUSED'].includes(item.status)`
abbrev pub is_queued : Option Json → Bool
is_queued (some (text s)) =
    same s (codes "PENDING") || same s (codes "RUNNING") || same s (codes "PAUSED")
is_queued _ = false

abbrev pub fail_item : Json → Json
fail_item (object fs) =
    if is_queued (get (codes "status") (object fs))
    then object (with_field (codes "status") (text (codes "FAILED")) fs)
    else object fs
fail_item item = item

unfoldable pub overload_waitlist : Option WaitlistPayload → Option WaitlistPayload
overload_waitlist none = none
overload_waitlist (some w) =
    some (record w { running_workers = number (pos 0); items = map fail_item w.items })

-- RuntimePersistenceFailed

-- The write to the draft, by the status that `node` shows.
unfoldable pub interrupt_node : RunNode → RunNode → RunNode
interrupt_node node draft =
    if is_running node.status || is_waiting node.status
    then record draft { status = NodeStatus.interrupted }
    else if is_pending node.status
    then record draft { status = NodeStatus.blocked }
    else draft

unfoldable pub interrupt_nodes : Text → List RunNode → Batch → Batch
interrupt_nodes e [] batch = batch
interrupt_nodes e (node ∷ nodes) batch =
    let drafted = draft_node e node.node_id node.task_id batch in
    interrupt_nodes e nodes (
      if is_running node.status || is_waiting node.status || is_pending node.status
      then write_node e node.node_id (interrupt_node node) drafted
      else drafted)

abbrev pub persistence_reason : Text
persistence_reason = codes "Runtime persistence failed; reconcile state and restart"

-- The body of the loop over `batch.runOrder`, with the draft of the run that it has found.
unfoldable pub interrupt_found : Option Run → Text → Batch → Batch
unfolding interrupt_nodes
interrupt_found none e drafted = drafted
interrupt_found (some run) e drafted =
    if is_active run.status
    then interrupt_nodes e (values run.nodes) (
        write_run e
          (λ r. record r {
            status = RunStatus.interrupted;
            failure_reason = some persistence_reason;
          })
          drafted)
    else drafted

unfoldable pub interrupt_run : Text → Batch → Batch
unfolding interrupt_found
interrupt_run e batch =
    let drafted = draft_run e batch in interrupt_found (lookup e drafted.runs) e drafted

unfoldable pub interrupt_runs : List Text → Batch → Batch
unfolding interrupt_run
interrupt_runs [] batch = batch
interrupt_runs (e ∷ ids) batch = interrupt_runs ids (interrupt_run e batch)
