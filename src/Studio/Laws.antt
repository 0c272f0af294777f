-- ===== src/Studio/Laws.antt =====
-- What the window's timeline shows, whatever else happens: studio/src/state/store.ts.
use reticle.Common.{
  ℕ, ◌-◌, Text, length, length-append, length-drop, drop, drop-drop, drop-append, take_last, List,
  [], ◌∷◌, ◌++◌, Option, Bool, ◌≡◌, refl, sym, ap, ◌∙◌, arith,
}
use mathlib.Core.List.{append_assoc, append-nil}
use reticle.Events.{RuntimeEvent}
use reticle.Projection.{ProjectionState}
use reticle.EventStore.Query.{LogBatch}
use reticle.Studio.{
  Tick, StudioStore, timeline_limit, to_ticks, append_capped, set_system_prefers_light, on_snapshot,
  on_backfill, select_latest, on_push, on_batch, select_run, on_history, select_node, set_scrub,
  clear_logs,
}

-- What happens behind the snapshot of `initialize`: what the bridge delivers, and what the user does.
-- A line of the runtime's own output, which changes the logs only, is left out.
pub data Message : Type 0 where
  push : ProjectionState → List RuntimeEvent → Message
  batch : LogBatch → Message
  backfill : LogBatch → Message
  latest : ProjectionState → Message
  history : Text → LogBatch → Message
  choose_run choose_node : Option Text → Message
  scrub : Option ℕ → Message
  clear : Message
  prefer_light : Bool → Message

unfoldable pub update : Message → StudioStore → StudioStore
unfolding on_push on_batch on_backfill select_latest on_history select_run select_node set_scrub
    clear_logs set_system_prefers_light
update (push state events) s = on_push state events s
update (batch b) s = on_batch b s
update (backfill b) s = on_backfill b s
update (latest state) s = select_latest state s
update (history exec_id b) s = on_history exec_id b s
update (choose_run exec_id) s = select_run exec_id s
update (choose_node node_id) s = select_node node_id s
update (scrub event_id) s = set_scrub event_id s
update clear s = clear_logs s
update (prefer_light light) s = set_system_prefers_light light s

unfoldable pub update_all : List Message → StudioStore → StudioStore
unfolding update
update_all [] s = s
update_all (m ∷ messages) s = update_all messages (update m s)

-- The events of a message, and of all in a row.
abbrev events_of : Message → List RuntimeEvent
events_of m = elim m [
  | push state events ↦ events
  | batch b ↦ []
  | backfill b ↦ []
  | latest state ↦ []
  | history exec_id b ↦ []
  | choose_run exec_id ↦ []
  | choose_node node_id ↦ []
  | scrub event_id ↦ []
  | clear ↦ []
  | prefer_light light ↦ []
]

unfoldable pub pushed : List Message → List RuntimeEvent
pushed [] = []
pushed (m ∷ messages) = events_of m ++ pushed messages

-- The ticks of a snapshot and of the events behind it: the newest of all, as many as the limit, but
-- all of the snapshot's as long as there is no event behind it.
abbrev pub newest : List Tick → List Tick → List Tick
newest snapshot [] = snapshot
newest snapshot (t ∷ later) = take_last timeline_limit (snapshot ++ t ∷ later)

append_capped-newest :
    (snapshot later : List Tick)
    → append_capped snapshot later timeline_limit ≡ newest snapshot later
unfolding append_capped
append_capped-newest snapshot [] = refl
append_capped-newest snapshot (t ∷ later) = ground (arith, ap (λ n. drop n (snapshot ++ t ∷ later)))

-- The newest of the newest and more are the newest of all.
take_last-append {ℓ} :
    {A : Type ℓ} (n : ℕ) (xs ys : List A)
    → take_last n (take_last n xs ++ ys) ≡ take_last n (xs ++ ys)
take_last-append n xs ys =
    let k = length xs - n in
    ap (take_last n) (sym (drop-append k xs ys (omega arith)))
    ∙ drop-drop (length (drop k (xs ++ ys)) - n) k (xs ++ ys)
    ∙ ap (λ i. drop i (xs ++ ys)) (omega (arith, length-drop k (xs ++ ys), length-append xs ys))

append_capped-append :
    (snapshot later more : List Tick)
    → append_capped (newest snapshot later) more timeline_limit ≡ newest snapshot (later ++ more)
append_capped-append snapshot [] more = append_capped-newest snapshot more
append_capped-append snapshot (t ∷ later) [] =
    append_capped-newest (newest snapshot (t ∷ later)) []
    ∙ ap (newest snapshot) (sym (append-nil (t ∷ later)))
append_capped-append snapshot (t ∷ later) (u ∷ more) =
    append_capped-newest (newest snapshot (t ∷ later)) (u ∷ more)
    ∙ take_last-append timeline_limit (snapshot ++ t ∷ later) (u ∷ more)
    ∙ ap (take_last timeline_limit) (append_assoc snapshot (t ∷ later) (u ∷ more))

to_ticks-append : (xs ys : List RuntimeEvent) → to_ticks (xs ++ ys) ≡ to_ticks xs ++ to_ticks ys
unfolding to_ticks
to_ticks-append [] ys = refl
to_ticks-append (x ∷ xs) ys =
    ap (◌∷◌ (record { id = x.id; at = x.timestamp; type = x.type })) (to_ticks-append xs ys)

-- Only a push changes the timeline, by its events.
timeline-update :
    (m : Message) (s : StudioStore)
    → (update m s).timeline ≡ append_capped s.timeline (to_ticks (events_of m)) timeline_limit
unfolding update on_push on_batch on_backfill select_latest on_history select_run select_node
    set_scrub clear_logs set_system_prefers_light append_capped to_ticks
timeline-update (push state events) s = refl
timeline-update (batch b) s = refl
timeline-update (backfill b) s = refl
timeline-update (latest state) s = ground arith
timeline-update (history e b) s = ground arith
timeline-update (choose_run e) s = refl
timeline-update (choose_node n) s = refl
timeline-update (scrub e) s = refl
timeline-update clear s = refl
timeline-update (prefer_light l) s = refl

timeline-update_all :
    (messages : List Message) (snapshot later : List Tick) (s : StudioStore)
    → s.timeline ≡ newest snapshot later
    → (update_all messages s).timeline ≡ newest snapshot (later ++ to_ticks (pushed messages))
unfolding update_all pushed to_ticks
timeline-update_all [] snapshot later s h = h ∙ ap (newest snapshot) (sym (append-nil later))
timeline-update_all (m ∷ messages) snapshot later s h =
    timeline-update_all messages snapshot (later ++ to_ticks (events_of m)) (update m s) (
      timeline-update m s
      ∙ ap (λ ts. append_capped ts (to_ticks (events_of m)) timeline_limit) h
      ∙ append_capped-append snapshot later (to_ticks (events_of m)))
    ∙ ap (newest snapshot) (
        append_assoc later (to_ticks (events_of m)) (to_ticks (pushed messages))
        ∙ ap (λ ts. later ++ ts) (sym (to_ticks-append (events_of m) (pushed messages))))

-- Whatever log records, histories and choices of the user come between the pushes behind the snapshot
-- of `initialize`, the timeline shows the newest of the snapshot's events and of all that were pushed
-- since, in order, 20000 of them at most; as long as none was pushed it shows all of the snapshot's,
-- however many.
pub update_all-newest :
    (messages : List Message) (state : ProjectionState) (events : List RuntimeEvent)
    (s : StudioStore)
    → (update_all messages (on_snapshot state events s)).timeline
      ≡ newest (to_ticks events) (to_ticks (pushed messages))
unfolding on_snapshot
update_all-newest messages state events s =
    timeline-update_all messages (to_ticks events) [] (on_snapshot state events s) refl
