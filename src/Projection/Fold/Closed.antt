-- ===== src/Projection/Fold/Closed.antt =====
-- From a batch to `applyEvents` (projection.ts): an invariant of the runs and their order that the
-- primitive steps keep holds after any events.
use reticle.Common.{
  Text, same, Dict, List, [], ◌∷◌, Option, none, some, not, ◌&&◌, refl, inl, inr, Bool-cases,
  Option-cases,
}
use reticle.Events.{RuntimeEvent}
use reticle.Projection.{Run, ProjectionState, create_projection}
use reticle.Projection.Draft.{Batch}
use reticle.Projection.Invariant.{IsInvariant, IsInvariant-closed}
use reticle.Projection.Invariant.Cases.{apply_to_batch-closed}
use reticle.Projection.Fold.{
  has_session, last_session, own_session, Progress, step, run_steps, begin, base_state,
  apply_session, apply_events,
}

run_steps-closed :
    {I : Batch → Type 0} (c : IsInvariant I) (p : Progress) (events : List RuntimeEvent)
    → I p.batch
    → I (run_steps p events).batch
unfolding run_steps step
run_steps-closed c p [] h = h
run_steps-closed c p (event ∷ events) h =
    run_steps-closed c (step p event) events
      ((apply_to_batch-closed (IsInvariant-closed c) event p.batch p.batch (refl, h)).1)

module _ (J : Dict Run → List Text → Type 0) (c : IsInvariant (λ b. J b.runs b.run_order))
    (empty : J [] []) where
  base_state-closed :
      (state : ProjectionState) (session : Option Text)
      → J state.runs state.run_order
      → J (base_state state session).runs (base_state state session).run_order
  unfolding base_state create_projection
  base_state-closed state none h = h
  base_state-closed state (some newest) h = elim (Option-cases state.session_id) [
    | inl e ↦ rw (e, base_state) h
    | inr (old, e) ↦ elim (Bool-cases (has_session old && not (same newest old))) [
      | inl other ↦ rw (e, base_state, other) empty
      | inr own ↦ rw (e, base_state, own) h
    ]
  ]

  apply_session-closed :
      (state : ProjectionState) (events : List RuntimeEvent)
      → J state.runs state.run_order
      → J (apply_session state events).runs (apply_session state events).run_order
  unfolding apply_session
  apply_session-closed state events h =
      run_steps-closed c (begin (base_state state (last_session events))) events
        (base_state-closed state (last_session events) h)

  pub apply_events-closed :
      (state : ProjectionState) (events : List RuntimeEvent)
      → J state.runs state.run_order
      → J (apply_events state events).runs (apply_events state events).run_order
  unfolding apply_events create_projection
  apply_events-closed state [] h = h
  apply_events-closed state (event ∷ events) h =
      elim (Option-cases (own_session (event ∷ events))) [
        | inl e ↦ rw (e, apply_events) (apply_session-closed state (event ∷ events) h)
        | inr (own, e) ↦ rw (e, apply_events) (apply_session-closed create_projection own empty)
      ]
