-- ===== src/Projection/Nodes.antt =====
-- Properties of single nodes that every write of projection.ts keeps, for all nodes of all runs.
pub mod Sound
pub mod Artifacts
use reticle.Common.{
  ℕ, Text, Dict, lookup, put, has, List, [], ◌∷◌, Option, none, some, Bool, true, false, ◌≡◌, refl,
  ◌∙◌, AllEntries, AllEntries-put, AllEntries-lookup, inl, inr, Bool-cases, Option-cases, arith,
  if◌then◌else◌, is_some, contains, same,
}
use reticle.Events.{RuntimeEvent}
use reticle.Projection.{RunNode, Run, ProjectionState, create_projection, create_run, create_node}
use reticle.Projection.Draft.{
  Batch, draft_run, draft_node, write_run, write_node, modify_node, node_key,
}
use reticle.Projection.Invariant.{
  NodeWrite, node_write, RunWrite, end_by, restore_run, name_run, set_edges_of, first_start,
  control, complete, fail_by, run_write, IsInvariant,
}
use reticle.Projection.Invariant.Cases.{apply_to_batch-closed}
use reticle.Projection.Fold.{apply_events}
use reticle.Projection.Fold.Closed.{apply_events-closed}

-- A property of a node under its run's id and its own, kept by every write and true of a new node.
pub record IsKept (Q : Text → Text → RunNode → Type 0) : Type 0 where
  pub created : (e n t : Text) → Q e n (create_node e n t)
  pub written :
      (e n : Text) (w : NodeWrite) (node : RunNode) → Q e n node → Q e n (node_write w node)

module _ (Q : Text → Text → RunNode → Type 0) where
  -- A run under its own id, whose nodes all have the property.
  abbrev pub Holds : Text → Run → Type 0
  Holds e run = (run.exec_id ≡ e) × AllEntries (Q e) run.nodes

  abbrev pub AllNodes : Dict Run → Type 0
  AllNodes runs = AllEntries Holds runs

module _ {Q : Text → Text → RunNode → Type 0} (kept : IsKept Q) where
  draft_run-AllNodes : (e : Text) (b : Batch) → AllNodes Q b.runs → AllNodes Q (draft_run e b).runs
  unfolding draft_run
  draft_run-AllNodes e b h = elim (Bool-cases (has e b.runs)) [
    | inl old ↦ elim (Bool-cases (contains e b.cloned_runs)) [
      | inl d ↦ rw (old, draft_run, d) h
      | inr d ↦ rw (old, draft_run, d) h
    ]
    | inr new ↦ rw (new, draft_run) (AllEntries-put (Holds Q) e (create_run e) b.runs h (refl, tt))
  ]

  write_run-AllNodes :
      (e : Text) (f : Run → Run) (b : Batch)
      → ((run : Run) → Holds Q e run → Holds Q e (f run))
      → AllNodes Q b.runs
      → AllNodes Q (write_run e f b).runs
  unfolding write_run
  write_run-AllNodes e f b k h = elim (Option-cases (lookup e b.runs)) [
    | inl m ↦ rw (m, write_run) h
    | inr (run, m) ↦
        rw (m, write_run)
          (AllEntries-put (Holds Q) e (f run) b.runs h
            (k run (AllEntries-lookup (Holds Q) e b.runs run h m)))
  ]

  modify_node-Holds :
      (e n : Text) (w : NodeWrite) (run : Run)
      → Holds Q e run
      → Holds Q e (modify_node n (node_write w) run)
  modify_node-Holds e n w run h = elim (Option-cases (lookup n run.nodes)) [
    | inl m ↦ rw (m, modify_node) h
    | inr (node, m) ↦
        rw (m, modify_node)
          (
            h.0,
            AllEntries-put (Q e) n (node_write w node) run.nodes h.1
                (kept.written e n w node (AllEntries-lookup (Q e) n run.nodes node h.1 m)),
          )
  ]

  draft_node-AllNodes :
      (e n t : Text) (b : Batch) → AllNodes Q b.runs → AllNodes Q (draft_node e n t b).runs
  unfolding draft_node
  draft_node-AllNodes e n t b h = one (lookup e b.runs) refl
    where
      one : (found : Option Run) → lookup e b.runs ≡ found → AllNodes Q (draft_node e n t b).runs
      one none m = rw (m, draft_node) h
      one (some run) m = elim (Bool-cases (has n run.nodes)) [
        | inl old ↦ elim (Bool-cases (contains (node_key run.exec_id n) b.cloned_nodes)) [
          | inl d ↦ rw (m, draft_node, old, d) h
          | inr d ↦ rw (m, draft_node, old, d) h
        ]
        | inr new ↦
            rw (m, draft_node, new)
              (AllEntries-put (Holds Q) e _ b.runs h (
                here.0,
                AllEntries-put (Q e) n (create_node run.exec_id n t) run.nodes here.1
                    (rw here.0 (kept.created e n t)),
              ))
      ]
        where
          here : Holds Q e run
          here = AllEntries-lookup (Holds Q) e b.runs run h m

  run_write-Holds :
      (e : Text) (w : RunWrite) (run : Run) → Holds Q e run → Holds Q e (run_write w run)
  run_write-Holds e (end_by status reason) run h = h
  run_write-Holds e w run h = ground arith

  -- The property is an invariant of the batch.
  pub AllNodes-invariant : IsInvariant (λ b. AllNodes Q b.runs)
  unfolding write_node
  AllNodes-invariant = record {
    draft_run = draft_run-AllNodes;
    draft_node = draft_node-AllNodes;
    write_run = λ e w b h. write_run-AllNodes e (run_write w) b (run_write-Holds e w) h;
    write_node = λ e n w b h.
        write_run-AllNodes e (modify_node n (node_write w)) b (modify_node-Holds e n w) h;
  }

-- The property holds of every node after any events, if it held of every node before.
pub apply_events-AllNodes :
    {Q : Text → Text → RunNode → Type 0} (kept : IsKept Q) (state : ProjectionState)
    (events : List RuntimeEvent)
    → AllNodes Q state.runs
    → AllNodes Q (apply_events state events).runs
apply_events-AllNodes {Q} kept =
    apply_events-closed (λ runs order. AllNodes Q runs) (AllNodes-invariant kept) tt
