-- ===== src/Projection/Identity.antt =====
-- The node that an event names, in projection.ts: `setAgent` and the drafts of an identity.
use reticle.Common.{Text, [], ◌∷◌, Option, none, some}
use reticle.Json.{Json}
use reticle.Ids.{NodeIdentity, identify}
use reticle.Projection.{RunNode}
use reticle.Projection.Draft.{Batch, draft_run, draft_node, write_node}

-- `setAgent`
abbrev pub set_agent : Option Text → RunNode → RunNode
set_agent none node = node
set_agent (some []) node = node
set_agent (some (c ∷ s)) node = record node { agent_id = some (c ∷ s); label = c ∷ s }

-- `draftRun` and `draftNode` of the identity, and `setAgent`
unfoldable pub draft_identity : NodeIdentity → Batch → Batch
draft_identity i batch =
    write_node i.exec_id i.node_id (set_agent i.agent_id)
      (draft_node i.exec_id i.node_id i.task_id (draft_run i.exec_id batch))

-- A handler that writes one node, where the payload names one.
unfoldable pub on_node : (NodeIdentity → RunNode → RunNode) → Json → Batch → Batch
unfolding draft_identity
on_node f payload batch = elim (identify payload) [
  | none ↦ batch
  | some i ↦ write_node i.exec_id i.node_id (f i) (draft_identity i batch)
]
