-- ===== src/EventStore/Replay.antt =====
-- The timers of studio/electron/forge/store.ts: when they fire makes no difference to the projection.
use reticle.Common.{
  ℕ, List, Bool-cases, subst, [], ◌∷◌, ◌++◌, foldl, ◌≡◌, refl, sym, ap, ◌∙◌, inl, inr, Option-cases,
  suc,
}
use mathlib.Core.List.{append_assoc, append-nil}
use reticle.Events.{RuntimeEvent}
use reticle.Projection.{ProjectionState, create_projection}
use reticle.Projection.Fold.{apply_events, apply_event}
use reticle.Projection.Fold.Sessions.{HasSessions, apply_events-foldl, apply_events-nil}
use reticle.EventStore.Records.{LogRecord, is_artifact_event, to_log_record, strip_heavy_payload}
use reticle.EventStore.{
  EventStore, LogScope, create_store, set_buffer_size, set_scope, log_event, schedule_flush, ingest,
  flush_state, flush_logs,
}

-- What happens to a store, as its owner and its timers see it.
pub data Action : Type 0 where
  receive : RuntimeEvent → Action
  state_timer_fires log_timer_fires : Action
  resize : ℕ → Action
  rescope : LogScope → Action

unfoldable pub act : Action → EventStore → EventStore
unfolding ingest flush_state flush_logs set_buffer_size set_scope
act (receive event) s = ingest event s
act state_timer_fires s = (flush_state s).0
act log_timer_fires s = (flush_logs s).0
act (resize size) s = set_buffer_size size s
act (rescope scope) s = set_scope scope s

unfoldable pub act_all : List Action → EventStore → EventStore
unfolding act
act_all [] s = s
act_all (a ∷ actions) s = act_all actions (act a s)

-- The events that were received, as they are kept.
abbrev pub received : List Action → List RuntimeEvent
received [] = []
received (receive event ∷ actions) = strip_heavy_payload event ∷ received actions
received (_ ∷ actions) = received actions

-- The store has the events of a history either in its projection or pending.
record Reflects (history : List RuntimeEvent) (s : EventStore) : Type 0 where
  early : List RuntimeEvent
  split : history ≡ early ++ s.pending_events
  shown : s.projection ≡ foldl apply_event create_projection early

log_event-keeps :
    (event : RuntimeEvent) (s : EventStore)
    → ((log_event event s).projection ≡ s.projection)
      × ((log_event event s).pending_events ≡ s.pending_events)
unfolding log_event
log_event-keeps event s = elim (Option-cases (to_log_record (suc s.log_seq) event)) [
  | inl m ↦ rw (m, log_event) (refl, refl)
  | inr (r, m) ↦ rw (m, log_event) (refl, refl)
]

strip_heavy_payload-session_id :
    (event : RuntimeEvent) → (strip_heavy_payload event).session_id ≡ event.session_id
unfolding strip_heavy_payload
strip_heavy_payload-session_id event = elim (Bool-cases (is_artifact_event event.type)) [
  | inl k ↦ rw k refl
  | inr k ↦ rw k refl
]

ingest-Reflects :
    (history : List RuntimeEvent) (event : RuntimeEvent) (s : EventStore)
    → Reflects history s
    → Reflects (history ++ strip_heavy_payload event ∷ []) (ingest event s)
unfolding ingest schedule_flush
ingest-Reflects history event s h =
    let kept = log_event-keeps (strip_heavy_payload event) _ in
    record {
      early = h.early;
      split =
          ap (λ l. l ++ strip_heavy_payload event ∷ []) h.split
          ∙ (append_assoc h.early s.pending_events (strip_heavy_payload event ∷ [])
              ∙ ap (λ l. h.early ++ l) (sym kept.1));
      shown = kept.0 ∙ h.shown;
    }

foldl-append :
    (s : ProjectionState) (xs ys : List RuntimeEvent)
    → foldl apply_event s (xs ++ ys) ≡ foldl apply_event (foldl apply_event s xs) ys
foldl-append s [] ys = refl
foldl-append s (x ∷ xs) ys = foldl-append (apply_event s x) xs ys

-- A batch is folded as its events one at a time.
apply_events-each :
    (s : ProjectionState) (ys : List RuntimeEvent)
    → HasSessions ys
    → apply_events s ys ≡ foldl apply_event s ys
apply_events-each s ys k =
    apply_events-foldl s [] ys tt k ∙ ap (λ t. foldl apply_event t ys) (apply_events-nil s)

HasSessions-suffix : (xs ys : List RuntimeEvent) → HasSessions (xs ++ ys) → HasSessions ys
HasSessions-suffix [] ys h = h
HasSessions-suffix (x ∷ xs) ys h = HasSessions-suffix xs ys h.1

HasSessions-prefix : (xs ys : List RuntimeEvent) → HasSessions (xs ++ ys) → HasSessions xs
HasSessions-prefix [] ys h = tt
HasSessions-prefix (x ∷ xs) ys h = (h.0, HasSessions-prefix xs ys h.1)

flush_state-pending :
    (s : EventStore)
    → ((flush_state s).0.projection ≡ apply_events s.projection s.pending_events)
      × ((flush_state s).0.pending_events ≡ [])
unfolding flush_state apply_events
flush_state-pending s = by_cases s.pending_events refl
  where
    by_cases :
        (pending : List RuntimeEvent)
        → s.pending_events ≡ pending
        → ((flush_state s).0.projection ≡ apply_events s.projection s.pending_events)
          × ((flush_state s).0.pending_events ≡ [])
    by_cases [] e = rw (e, flush_state) (sym (apply_events-nil s.projection), e)
    by_cases (x ∷ xs) e = rw (e, flush_state) (refl, refl)

flush_state-Reflects :
    (history : List RuntimeEvent) (s : EventStore)
    → HasSessions history
    → Reflects history s
    → Reflects history (flush_state s).0
      × ((flush_state s).0.projection ≡ foldl apply_event create_projection history)
flush_state-Reflects history s k h =
    let pending = HasSessions-suffix h.early s.pending_events (subst HasSessions h.split k) in
    let whole =
      (flush_state-pending s).0
      ∙ (ap (λ t. apply_events t s.pending_events) h.shown
          ∙ (apply_events-each _ s.pending_events pending
              ∙ (sym (foldl-append create_projection h.early s.pending_events)
                  ∙ ap (foldl apply_event create_projection) (sym h.split)))) in
    (
      record {
        early = history;
        split = sym (append-nil history) ∙ ap (λ l. history ++ l) (sym (flush_state-pending s).1);
        shown = whole;
      },
      whole,
    )

flush_logs-Reflects :
    (history : List RuntimeEvent) (s : EventStore)
    → Reflects history s
    → Reflects history (flush_logs s).0
unfolding flush_logs
flush_logs-Reflects history s h = by_cases s.pending_logs refl
  where
    by_cases :
        (pending : List LogRecord) → s.pending_logs ≡ pending → Reflects history (flush_logs s).0
    by_cases [] e =
        rw (e, flush_logs) (record { early = h.early; split = h.split; shown = h.shown })
    by_cases (r ∷ rs) e =
        rw (e, flush_logs) (record { early = h.early; split = h.split; shown = h.shown })

act_all-Reflects :
    (history : List RuntimeEvent) (actions : List Action) (s : EventStore)
    → HasSessions (history ++ received actions)
    → Reflects history s
    → Reflects (history ++ received actions) (act_all actions s)
unfolding act_all act set_buffer_size set_scope
act_all-Reflects history [] s k h = rw (append-nil history) h
act_all-Reflects history (receive event ∷ actions) s k h =
    let grown = append_assoc history (strip_heavy_payload event ∷ []) (received actions) in
    subst (λ l. Reflects l (act_all actions (ingest event s))) grown
      (act_all-Reflects (history ++ strip_heavy_payload event ∷ []) actions (ingest event s)
        (subst HasSessions (sym grown) k) (ingest-Reflects history event s h))
act_all-Reflects history (state_timer_fires ∷ actions) s k h =
    act_all-Reflects history actions (flush_state s).0 k
      (flush_state-Reflects history s (HasSessions-prefix history (received actions) k) h).0
act_all-Reflects history (log_timer_fires ∷ actions) s k h =
    act_all-Reflects history actions (flush_logs s).0 k (flush_logs-Reflects history s h)
act_all-Reflects history (resize size ∷ actions) s k h =
    act_all-Reflects history actions (set_buffer_size size s) k
      (record { early = h.early; split = h.split; shown = h.shown })
act_all-Reflects history (rescope scope ∷ actions) s k h =
    act_all-Reflects history actions (set_scope scope s) k
      (record { early = h.early; split = h.split; shown = h.shown })

-- However the timers interleave with the events that a new store receives, with changes of its
-- buffers' size and of its scope, the projection that the next flush pushes is that of all the events
-- received so far, folded one at a time in the order of their arrival, if each names its session.
pub flush_state-act_all :
    (size : ℕ) (actions : List Action)
    → HasSessions (received actions)
    → (flush_state (act_all actions (create_store size))).0.projection
      ≡ foldl apply_event create_projection (received actions)
unfolding create_store
flush_state-act_all size actions k =
    (flush_state-Reflects (received actions) _ k (
      act_all-Reflects [] actions (create_store size) k
        (record { early = []; split = refl; shown = refl }))).1
