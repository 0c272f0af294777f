-- ===== src/Projection/Invariant/Steps.antt =====
-- What the parts of the cases of `applyToBatch` (projection.ts) keep.
use reticle.Common.{
  subst, ℕ, Text, lookup, List, [], ◌∷◌, Option, none, some, false, ◌≡◌, inl, inr, Bool-cases,
  Option-cases, or_else, ◌<|>◌, arith, codes,
}
use reticle.Json.{Json, null, boolean, number, text, array, object, elements, get, as_text}
use reticle.Ids.{NodeIdentity, identify}
use reticle.Ids.Signals.{parse_ui_state, parse_checkpoint_path, indicates_mock_fallback}
use reticle.Projection.{NodeStatus, Run, RunEdge, is_waiting}
use reticle.Projection.Draft.{Batch}
use reticle.Projection.Identity.{draft_identity, on_node}
use reticle.Projection.Workflow.{
  snapshot_run_status, snapshot_node_status, snapshot_nodes, take_snapshot, seed_edges, wire_edges,
  set_edges, states_of, task_of,
}
use reticle.Projection.Worker.{set_files, files_written}
use reticle.Projection.Log.{quiet_found, quiet_log, log_line, says_nothing, worker_log}
use reticle.Projection.Artifacts.{
  attach_to, attach, artifact_stored, to_artifact_ref, task_node, producer_node, artifact_execution,
}
use reticle.Projection.Invariant.{
  NodeWrite, agent, restore, files, quiet, log, artifact, node_write, restore_run, set_edges_of,
  IsClosed,
}

restored-not-waiting :
    (v : Json) (st : NodeStatus) → snapshot_node_status v ≡ some st → is_waiting st ≡ false
unfolding snapshot_node_status
restored-not-waiting v st h = ground arith

module _ {I : Batch → Batch → Type 0} (c : IsClosed I) where
  pub draft_identity-closed :
      (i : NodeIdentity) (b d : Batch) → I b d → I (draft_identity i b) (draft_identity i d)
  unfolding draft_identity
  draft_identity-closed i b d h =
      c.write_node i.exec_id i.node_id (agent i.agent_id) _ _
        (c.draft_node i.exec_id i.node_id i.task_id _ _ (c.draft_run i.exec_id b d h))

  pub on_node-closed :
      (w : NodeWrite) (payload : Json) (b d : Batch)
      → I b d
      → I (on_node (λ i. node_write w) payload b) (on_node (λ i. node_write w) payload d)
  unfolding on_node
  on_node-closed w payload b d h = elim (Option-cases (identify payload)) [
    | inl e ↦ rw (e, on_node) h
    | inr (i, e) ↦
        rw (e, on_node) (c.write_node i.exec_id i.node_id w _ _ (draft_identity-closed i b d h))
  ]

  pub snapshot_nodes-closed :
      (e : Text) (states : List (Text × Json)) (b d : Batch)
      → I b d
      → I (snapshot_nodes e states b) (snapshot_nodes e states d)
  unfolding snapshot_nodes
  snapshot_nodes-closed e [] b d h = h
  snapshot_nodes-closed e ((id, v) ∷ states) b d h = elim (Option-cases (snapshot_node_status v)) [
    | inl s ↦ rw s (snapshot_nodes-closed e states b d h)
    | inr (st, s) ↦ rw s (
        snapshot_nodes-closed e states _ _ (
          c.write_node e id (restore st (restored-not-waiting v st s)) _ _
            (c.draft_node e id (task_of e id) b d h)))
  ]

  pub seed_edges-closed :
      (e : Text) (edges : List RunEdge) (b d : Batch)
      → I b d
      → I (seed_edges e edges b) (seed_edges e edges d)
  unfolding seed_edges
  seed_edges-closed e [] b d h = h
  seed_edges-closed e (edge ∷ edges) b d h = seed_edges-closed e edges _ _ (
      c.draft_node e edge.to (task_of e edge.to) _ _
        (c.draft_node e edge.from (task_of e edge.from) b d h))

  pub set_edges-closed :
      (e : Text) (edges : List Json) (b d : Batch)
      → I b d
      → I (set_edges e edges b) (set_edges e edges d)
  unfolding set_edges
  set_edges-closed e [] b d h = h
  set_edges-closed e (edge ∷ edges) b d h =
      seed_edges-closed e (wire_edges (edge ∷ edges)) _ _
        (c.write_run e (set_edges_of (wire_edges (edge ∷ edges))) b d h)

  pub take_snapshot-closed :
      (e : Text) (payload : Json) (b d : Batch)
      → I b d
      → I (take_snapshot e payload b) (take_snapshot e payload d)
  unfolding take_snapshot
  take_snapshot-closed e payload b d h =
      snapshot_nodes-closed e (states_of (get (codes "nodes") payload)) _ _
        (c.write_run e (restore_run (snapshot_run_status (get (codes "status") payload))) b d h)

  pub quiet_found-closed :
      (found : Option Run) (i : NodeIdentity) (b d : Batch)
      → I b d
      → I (quiet_found found i b) (quiet_found found i d)
  unfolding quiet_found
  quiet_found-closed none i b d h = h
  quiet_found-closed (some run) i b d h = elim (Option-cases (lookup i.node_id run.nodes)) [
    | inl m ↦ rw (m, quiet_found) h
    | inr (node, m) ↦
        rw (m, quiet_found)
          (c.write_node i.exec_id i.node_id quiet _ _
            (c.draft_node i.exec_id i.node_id i.task_id _ _ (c.draft_run i.exec_id b d h)))
  ]

  pub quiet_log-closed :
      (i : NodeIdentity) (b d : Batch) → I b d → I (quiet_log i b) (quiet_log i d)
  unfolding quiet_log
  quiet_log-closed i b d h =
      subst (λ runs. I (quiet_log i b) (quiet_found (lookup i.exec_id runs) i d)) (c.runs b d h)
        (quiet_found-closed (lookup i.exec_id b.runs) i b d h)

  pub log_line-closed :
      (i : NodeIdentity) (line : Option Text) (at : ℕ) (b d : Batch)
      → I b d
      → I (log_line i line at b) (log_line i line at d)
  unfolding log_line
  log_line-closed i line at b d h = elim (Bool-cases (says_nothing line)) [
    | inl q ↦ rw (q, log_line) (quiet_log-closed i b d h)
    | inr q ↦
        rw (q, log_line)
          (c.write_node i.exec_id i.node_id
            (log (parse_ui_state line) (parse_checkpoint_path line) (indicates_mock_fallback line)
              at)
            _ _ (draft_identity-closed i b d h))
  ]

  pub worker_log-closed :
      (payload : Json) (at : ℕ) (b d : Batch)
      → I b d
      → I (worker_log payload at b) (worker_log payload at d)
  unfolding worker_log
  worker_log-closed payload at b d h = elim (Option-cases (identify payload)) [
    | inl e ↦ rw (e, worker_log) h
    | inr (i, e) ↦
        rw (e, worker_log) (log_line-closed i (as_text (get (codes "log") payload)) at b d h)
  ]

  pub files_written-closed :
      (payload : Json) (b d : Batch) → I b d → I (files_written payload b) (files_written payload d)
  unfolding files_written
  files_written-closed payload b d h = one (get (codes "files") payload)
    where
      one :
          (v : Option Json)
          → I
              (elim v [
                | some (array vs) ↦ on_node (λ i. set_files (elements vs)) payload b
                | _ ↦ b
              ])
              (elim v [
                | some (array vs) ↦ on_node (λ i. set_files (elements vs)) payload d
                | _ ↦ d
              ])
      one none = h
      one (some null) = h
      one (some (boolean x)) = h
      one (some (number x)) = h
      one (some (text x)) = h
      one (some (array vs)) = on_node-closed (files (elements vs)) payload b d h
      one (some (object x)) = h

  pub attach_to-closed :
      (found : Option Text) (e id : Text) (payload : Json) (b d : Batch)
      → I b d
      → I (attach_to found e id payload b) (attach_to found e id payload d)
  unfolding attach_to
  attach_to-closed none e id payload b d h = h
  attach_to-closed (some []) e id payload b d h = h
  attach_to-closed (some (x ∷ n)) e id payload b d h =
      c.write_node e (x ∷ n)
        (artifact (to_artifact_ref id payload) (as_text (get (codes "producer") payload))) _ _
        (c.draft_node e (x ∷ n) (or_else (as_text (get (codes "task") payload)) (task_of e (x ∷ n)))
          _ _ (c.draft_run e b d h))

  pub attach-closed :
      (e id : Text) (payload : Json) (b d : Batch)
      → I b d
      → I (attach e id payload b) (attach e id payload d)
  unfolding attach
  attach-closed e id payload b d h =
      subst
        (λ runs. I (attach e id payload b) (
          attach_to
            (task_node (as_text (get (codes "task") payload))
              <|> producer_node (as_text (get (codes "producer") payload)) (lookup e runs))
            e id payload d))
        (c.runs b d h)
        (attach_to-closed
          (task_node (as_text (get (codes "task") payload))
            <|> producer_node (as_text (get (codes "producer") payload)) (lookup e b.runs))
          e id payload b d h)

  pub artifact_stored-closed :
      (payload : Json) (b d : Batch)
      → I b d
      → I (artifact_stored payload b) (artifact_stored payload d)
  unfolding artifact_stored
  artifact_stored-closed payload b d h = elim (Option-cases (as_text (get (codes "id") payload))) [
    | inl e ↦ rw (e, artifact_stored) h
    | inr (id, e) ↦ elim (Option-cases (artifact_execution payload)) [
      | inl x ↦ rw (e, artifact_stored, x) h
      | inr (ex, x) ↦ rw (e, artifact_stored, x) (attach-closed ex id payload b d h)
    ]
  ]
