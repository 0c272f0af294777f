-- ===== src/Projection/Invariant/Health.antt =====
-- The loops of RuntimeOverloaded and RuntimePersistenceFailed (projection.ts) keep an invariant.
use reticle.Common.{
  subst, Text, lookup, values, List, [], ◌∷◌, Option, none, some, inl, inr, Bool-cases, ◌||◌,
}
use reticle.Projection.{
  RunStatus, RunNode, Run, is_waiting, is_active, is_done, is_running, is_pending,
}
use reticle.Projection.Draft.{Batch, draft_run}
use reticle.Projection.Health.{
  fail_nodes, overload_found, overload_run, overload_runs, interrupt_nodes, interrupt_found,
  interrupt_run, interrupt_runs, overloaded_reason, persistence_reason,
}
use reticle.Projection.Invariant.{fail, interrupt, end_by, IsClosed}

module _ {I : Batch → Batch → Type 0} (c : IsClosed I) where
  fail_nodes-closed :
      (e : Text) (nodes : List RunNode) (b d : Batch)
      → I b d
      → I (fail_nodes e nodes b) (fail_nodes e nodes d)
  unfolding fail_nodes
  fail_nodes-closed e [] b d h = h
  fail_nodes-closed e (node ∷ nodes) b d h = elim (Bool-cases (is_done node.status)) [
    | inl t ↦ rw t (fail_nodes-closed e nodes b d h)
    | inr t ↦ rw t (
        fail_nodes-closed e nodes _ _
          (c.write_node e node.node_id fail _ _ (c.draft_node e node.node_id node.task_id b d h)))
  ]

  overload_found-closed :
      (found : Option Run) (e : Text) (b d : Batch)
      → I b d
      → I (overload_found found e b) (overload_found found e d)
  unfolding overload_found
  overload_found-closed none e b d h = h
  overload_found-closed (some run) e b d h = elim (Bool-cases (is_active run.status)) [
    | inl a ↦ rw a (
        fail_nodes-closed e (values run.nodes) _ _
          (c.write_run e (end_by RunStatus.failed overloaded_reason) _ _ h))
    | inr a ↦ rw a h
  ]

  overload_run-closed : (e : Text) (b d : Batch) → I b d → I (overload_run e b) (overload_run e d)
  unfolding overload_run
  overload_run-closed e b d h =
      let drafted = c.draft_run e b d h in
      subst (λ runs. I (overload_run e b) (overload_found (lookup e runs) e (draft_run e d)))
        (c.runs _ _ drafted) (overload_found-closed (lookup e (draft_run e b).runs) e _ _ drafted)

  pub overload_runs-closed :
      (ids : List Text) (b d : Batch) → I b d → I (overload_runs ids b) (overload_runs ids d)
  unfolding overload_runs
  overload_runs-closed [] b d h = h
  overload_runs-closed (e ∷ ids) b d h =
      overload_runs-closed ids (overload_run e b) (overload_run e d) (overload_run-closed e b d h)

  interrupt_nodes-closed :
      (e : Text) (nodes : List RunNode) (b d : Batch)
      → I b d
      → I (interrupt_nodes e nodes b) (interrupt_nodes e nodes d)
  unfolding interrupt_nodes
  interrupt_nodes-closed e [] b d h = h
  interrupt_nodes-closed e (node ∷ nodes) b d h =
      elim (Bool-cases
        (is_running node.status || is_waiting node.status || is_pending node.status)) [
          | inl t ↦ rw t (
              interrupt_nodes-closed e nodes _ _ (
                c.write_node e node.node_id (interrupt node) _ _
                  (c.draft_node e node.node_id node.task_id b d h)))
          | inr t ↦
              rw t (
                interrupt_nodes-closed e nodes _ _ (c.draft_node e node.node_id node.task_id b d h))
        ]

  interrupt_found-closed :
      (found : Option Run) (e : Text) (b d : Batch)
      → I b d
      → I (interrupt_found found e b) (interrupt_found found e d)
  unfolding interrupt_found
  interrupt_found-closed none e b d h = h
  interrupt_found-closed (some run) e b d h = elim (Bool-cases (is_active run.status)) [
    | inl a ↦ rw a (
        interrupt_nodes-closed e (values run.nodes) _ _
          (c.write_run e (end_by RunStatus.interrupted persistence_reason) _ _ h))
    | inr a ↦ rw a h
  ]

  interrupt_run-closed :
      (e : Text) (b d : Batch) → I b d → I (interrupt_run e b) (interrupt_run e d)
  unfolding interrupt_run
  interrupt_run-closed e b d h =
      let drafted = c.draft_run e b d h in
      subst (λ runs. I (interrupt_run e b) (interrupt_found (lookup e runs) e (draft_run e d)))
        (c.runs _ _ drafted) (interrupt_found-closed (lookup e (draft_run e b).runs) e _ _ drafted)

  pub interrupt_runs-closed :
      (ids : List Text) (b d : Batch) → I b d → I (interrupt_runs ids b) (interrupt_runs ids d)
  unfolding interrupt_runs
  interrupt_runs-closed [] b d h = h
  interrupt_runs-closed (e ∷ ids) b d h =
      interrupt_runs-closed ids (interrupt_run e b) (interrupt_run e d)
        (interrupt_run-closed e b d h)
