-- ===== src/Projection/Fold.antt =====
-- `applyEvents`, `applyEvent` and `replayTo` of projection.ts.
pub mod Closed
pub mod Batching
pub mod Sessions
pub mod Scrub
use reticle.Common.{
  ℕ, ◌+◌, Text, same, length, last?, filter, List, [], ◌∷◌, Option, none, some, Bool, true, false,
  not, ◌&&◌, leb, ltb, if◌then◌else◌,
}
use reticle.Events.{RuntimeEvent, WaitlistPayload}
use reticle.Projection.{ProjectionState, create_projection}
use reticle.Projection.Draft.{Batch}
use reticle.Projection.Apply.{apply_to_batch, apply_to_waitlist}

-- `!!event.sessionId`
abbrev pub has_session : Text → Bool
has_session [] = false
has_session (_ ∷ _) = true

-- The session of the last event, where it has one.
unfoldable pub last_session : List RuntimeEvent → Option Text
last_session events = elim (last? events) [
  | none ↦ none
  | some event ↦ if has_session event.session_id then some event.session_id else none
]

-- An event of another session.
abbrev pub is_foreign : Text → RuntimeEvent → Bool
is_foreign session event = has_session event.session_id && not (same event.session_id session)

-- `events.slice(boundary + 1)`, with `boundary` the last foreign event
unfoldable pub after_boundary : Text → List RuntimeEvent → Option (List RuntimeEvent)
after_boundary session [] = none
after_boundary session (event ∷ events) = elim (after_boundary session events) [
  | some own ↦ some own
  | none ↦ if is_foreign session event then some events else none
]

-- The events behind the boundary, if the batch has one.
unfoldable pub own_session : List RuntimeEvent → Option (List RuntimeEvent)
unfolding last_session after_boundary
own_session events = elim (last_session events) [
  | none ↦ none
  | some session ↦ after_boundary session events
]

-- The variables of the loop: `batch`, and the fields of `next` that it writes.
pub record Progress : Type 0 where
  pub batch : Batch
  pub waitlist : Option WaitlistPayload
  pub last_event_id : ℕ
  pub session_id : Option Text

unfoldable pub step : Progress → RuntimeEvent → Progress
step p event = record {
  batch = apply_to_batch event p.batch;
  waitlist = apply_to_waitlist event p.waitlist;
  last_event_id = if ltb p.last_event_id event.id then event.id else p.last_event_id;
  session_id = if has_session event.session_id then some event.session_id else p.session_id;
}

unfoldable pub run_steps : Progress → List RuntimeEvent → Progress
unfolding step
run_steps p [] = p
run_steps p (event ∷ events) = run_steps (step p event) events

abbrev pub begin : ProjectionState → Progress
begin state = record {
  batch = record {
    runs = state.runs;
    run_order = state.run_order;
    cloned_runs = [];
    cloned_nodes = [];
    owned = [];
    leaked = false;
  };
  waitlist = state.waitlist;
  last_event_id = state.last_event_id;
  session_id = state.session_id;
}

abbrev pub finish : ProjectionState → ℕ → Progress → ProjectionState
finish state n p = record {
  runs = p.batch.runs;
  run_order = p.batch.run_order;
  waitlist = p.waitlist;
  last_event_id = p.last_event_id;
  event_count = state.event_count + n;
  session_id = p.session_id;
}

-- The state to fold into: a new one where the batch is of another session.
unfoldable pub base_state : ProjectionState → Option Text → ProjectionState
unfolding create_projection
base_state state none = state
base_state state (some newest) = elim state.session_id [
  | none ↦ state
  | some old ↦ if has_session old && not (same newest old) then create_projection else state
]

-- The body of `applyEvents` behind the boundary test.
unfoldable pub apply_session : ProjectionState → List RuntimeEvent → ProjectionState
unfolding base_state last_session run_steps
apply_session state events =
    let base = base_state state (last_session events) in
    finish base (length events) (run_steps (begin base) events)

-- The recursive call on the events behind the boundary meets no boundary (`own_session_settled`),
-- so it is the body.
unfoldable pub apply_events : ProjectionState → List RuntimeEvent → ProjectionState
unfolding own_session apply_session create_projection
apply_events state [] = state
apply_events state (event ∷ events) = elim (own_session (event ∷ events)) [
  | some own ↦ apply_session create_projection own
  | none ↦ apply_session state (event ∷ events)
]

unfoldable pub apply_event : ProjectionState → RuntimeEvent → ProjectionState
unfolding apply_events
apply_event state event = apply_events state (event ∷ [])

unfoldable pub replay_to : List RuntimeEvent → ℕ → ProjectionState
unfolding apply_events
replay_to events max_event_id =
    apply_events create_projection (filter (λ event. not (ltb max_event_id event.id)) events)
