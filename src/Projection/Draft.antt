-- ===== src/Projection/Draft.antt =====
-- The copy-on-write batch of projection.ts. A draft is written through its keys. Whether the object
-- that is written belongs to this batch or is shared with the state that the batch began with is
-- kept beside it: `owned` lists the node objects that the batch has created or cloned, and `leaked`
-- says whether a node object that it does not own was written.
use reticle.Common.{
  Text, codes, same, contains, Dict, lookup, has, put, List, [], ◌∷◌, ◌++◌, none, some, Bool, false,
  not, ◌&&◌, ◌||◌, if◌then◌else◌,
}
use reticle.Projection.{Run, RunNode, create_run, create_node}

pub record Batch : Type 0 where
  pub runs : Dict Run
  pub run_order : List Text
  pub cloned_runs : List Text
  pub cloned_nodes : List Text
  pub owned : List (Text × Text)
  pub leaked : Bool

unfoldable pub owns : Text → Text → List (Text × Text) → Bool
owns e n [] = false
owns e n ((d, m) ∷ rest) = same d e && same m n || owns e n rest

-- A clone of a run has the run's own content: `{ ...existing, nodes: { ...existing.nodes } }`.
unfoldable pub draft_run : Text → Batch → Batch
unfolding create_run
draft_run exec_id batch =
    if has exec_id batch.runs
    then (if contains exec_id batch.cloned_runs
        then batch
        else record batch { cloned_runs = exec_id ∷ batch.cloned_runs })
    else record batch {
      runs = put exec_id (create_run exec_id) batch.runs;
      run_order = batch.run_order ++ exec_id ∷ [];
      cloned_runs = exec_id ∷ batch.cloned_runs;
    }

abbrev pub node_key : Text → Text → Text
node_key exec_id node_id = exec_id ++ (codes "|" ++ node_id)

-- `draftNode` on the run that stands under `exec_id`, which a call of `draft_run` has put there.
unfoldable pub draft_node : Text → Text → Text → Batch → Batch
unfolding create_node
draft_node exec_id node_id task_id batch = elim (lookup exec_id batch.runs) [
  | none ↦ batch
  | some run ↦
      if has node_id run.nodes
      then (if contains (node_key run.exec_id node_id) batch.cloned_nodes
          then batch
          else record batch {
            cloned_nodes = node_key run.exec_id node_id ∷ batch.cloned_nodes;
            owned = (exec_id, node_id) ∷ batch.owned;
          })
      else record batch {
        runs =
            put exec_id
              (record run {
                nodes = put node_id (create_node run.exec_id node_id task_id) run.nodes;
              })
              batch.runs;
        cloned_nodes = node_key run.exec_id node_id ∷ batch.cloned_nodes;
        owned = (exec_id, node_id) ∷ batch.owned;
      }
]

-- Assignments to the fields of a drafted run.
unfoldable pub write_run : Text → (Run → Run) → Batch → Batch
write_run exec_id f batch = elim (lookup exec_id batch.runs) [
  | none ↦ batch
  | some run ↦ record batch { runs = put exec_id (f run) batch.runs }
]

abbrev pub modify_node : Text → (RunNode → RunNode) → Run → Run
modify_node node_id f run = elim (lookup node_id run.nodes) [
  | none ↦ run
  | some node ↦ record run { nodes = put node_id (f node) run.nodes }
]

-- Assignments to the fields of a drafted node.
unfoldable pub write_node : Text → Text → (RunNode → RunNode) → Batch → Batch
unfolding write_run
write_node exec_id node_id f batch =
    let written = write_run exec_id (modify_node node_id f) batch in
    record written { leaked = batch.leaked || not (owns exec_id node_id batch.owned) }
