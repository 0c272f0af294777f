-- ===== src/Projection/Fold/Scrub.antt =====
-- The time travel of `replayTo` (projection.ts) against the live projection.
use reticle.Common.{
  ℕ, ◌<◌, ◌≤◌, ltb, not, filter, filter-append, foldl, All, List, [], ◌∷◌, ◌++◌, ◌≡◌, refl, ap, ◌∙◌,
  arith,
}
use mathlib.Core.List.{append-nil}
use reticle.Events.{RuntimeEvent}
use reticle.Projection.{create_projection}
use reticle.Projection.Fold.{apply_events, apply_event, replay_to}
use reticle.Projection.Fold.Sessions.{HasSessions, apply_events-foldl, apply_events-nil}

filter-upto :
    (n : ℕ) (xs : List RuntimeEvent)
    → All (λ e. e.id ≤ n) xs
    → filter (λ e. not (ltb n e.id)) xs ≡ xs
filter-upto n [] h = refl
filter-upto n (x ∷ xs) h = ground (arith, filter-upto n xs h.1)

filter-beyond :
    (n : ℕ) (xs : List RuntimeEvent)
    → All (λ e. n < e.id) xs
    → filter (λ e. not (ltb n e.id)) xs ≡ []
filter-beyond n [] h = refl
filter-beyond n (x ∷ xs) h = ground (arith, filter-beyond n xs h.1)

-- Where the events up to an id come before those beyond it, and those up to it name their sessions, a
-- replay to the id gives the state that folding those up to it one at a time gives, from an empty
-- projection: no later event shows.
pub replay_to-foldl :
    (n : ℕ) (before after : List RuntimeEvent)
    → All (λ e. e.id ≤ n) before
    → All (λ e. n < e.id) after
    → HasSessions before
    → replay_to (before ++ after) n ≡ foldl apply_event create_projection before
unfolding replay_to
replay_to-foldl n before after h k sessions =
    ap (apply_events create_projection) (
      filter-append (λ e. not (ltb n e.id)) before after
      ∙ (ap (λ l. l ++ filter (λ e. not (ltb n e.id)) after) (filter-upto n before h)
          ∙ (ap (λ l. before ++ l) (filter-beyond n after k) ∙ append-nil before)))
    ∙ (apply_events-foldl create_projection [] before tt sessions
        ∙ ap (λ t. foldl apply_event t before) (apply_events-nil create_projection))
