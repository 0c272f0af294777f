-- ===== src/Projection/Fold/Sessions.antt =====
-- Reconnects in `applyEvents` (projection.ts): the session of the last event decides what is kept,
-- however the events are cut into batches.
mod Boundary
use reticle.Common.{
  Text, same, same_iff, same_refl, same_sym, length, last?, List, [], ◌∷◌, ◌++◌, Option, none, some,
  true, false, ◌≡◌, ◌≢◌, refl, ap, sym, ◌∙◌, All, arith, Bool-cases, Option-cases, inl, inr, foldl,
}
use mathlib.Core.List.{append_assoc, append-nil}
use reticle.Events.{RuntimeEvent}
use reticle.Projection.{ProjectionState, create_projection}
use reticle.Projection.Fold.{
  has_session, last_session, own_session, after_boundary, is_foreign, Progress, step, run_steps,
  begin, finish, base_state, apply_session, apply_events, apply_event,
}
use reticle.Projection.Fold.Batching.{finish-concat}
use Boundary.{
  last?-cons, last?-concat, after_boundary-last?, own_settled, run_steps-session,
  after_boundary-concat_own, after_boundary-concat_other, apply_session-base, last_session-of_last,
  own_session-of_last, not_foreign, base_state_same, base_state_other, base_state_new,
  own_session-none, own_session-no_session, own_session_settled, apply_events-own, apply_events-cut,
  apply_session-session, own_single, apply_event-session, foreign_of,
}

-- After a batch that ends in a session the projection has that session.
pub apply_events-session :
    (s : ProjectionState) (xs : List RuntimeEvent) (l : RuntimeEvent)
    → last? xs ≡ some l
    → has_session l.session_id ≡ true
    → (apply_events s xs).session_id ≡ some l.session_id
apply_events-session s xs l a h = elim (Option-cases (own_session xs)) [
  | inl m ↦ rw (apply_events-own s xs l a m) (apply_session-session s xs l a h)
  | inr (own, m) ↦ rw (apply_events-cut s xs own l a m) (
      apply_session-session create_projection own l
        (after_boundary-last? l.session_id xs own l (sym (own_session-of_last xs l a h) ∙ m) a
          (not_foreign l))
        h)
]

module _ (l e : RuntimeEvent) (hl : has_session l.session_id ≡ true)
    (he : has_session e.session_id ≡ true) where
  apply_event-fresh :
      (t : ProjectionState)
      → base_state t (some e.session_id) ≡ create_projection
      → apply_session t (e ∷ [])
        ≡ finish create_projection 1 (run_steps (begin create_projection) (e ∷ []))
  apply_event-fresh t new =
      apply_session-base t (e ∷ [])
      ∙ ap (λ b. finish b 1 (run_steps (begin b) (e ∷ [])))
          (ap (base_state t) (last_session-of_last (e ∷ []) e refl he) ∙ new)

  -- One more event of the session that a batch ends with.
  apply_session-concat :
      (s : ProjectionState) (own : List RuntimeEvent)
      → last? own ≡ some l
      → l.session_id ≡ e.session_id
      → apply_session s (own ++ e ∷ []) ≡ apply_event (apply_session s own) e
  apply_session-concat s own a eq =
      apply_session-base s (own ++ e ∷ [])
      ∙ rw (last_session-of_last (own ++ e ∷ []) e (last?-concat own e) he) (
          sym (finish-concat base own (e ∷ []))
          ∙ (sym (
                apply_event-session t e he
                ∙ ap (λ b. finish b 1 (run_steps (begin b) (e ∷ [])))
                    (base_state_same t e.session_id session))
              ∙ ap (λ u. apply_event u e) shape))
    where
      base : ProjectionState
      base = base_state s (some e.session_id)

      t : ProjectionState
      t = finish base (length own) (run_steps (begin base) own)

      session : t.session_id ≡ some e.session_id
      session = run_steps-session (begin base) own l a hl ∙ ap some eq

      shape : t ≡ apply_session s own
      shape = sym (apply_session-base s own ∙ rw (last_session-of_last own l a hl ∙ ap some eq))

  -- One more event behind any batch whose last event has a session.
  apply_events-concat :
      (s : ProjectionState) (xs : List RuntimeEvent)
      → last? xs ≡ some l
      → apply_events s (xs ++ e ∷ []) ≡ apply_event (apply_events s xs) e
  apply_events-concat s xs a = elim (Bool-cases (same l.session_id e.session_id)) [
    | inl k ↦ own_case ((same_iff l.session_id e.session_id).0 k)
    | inr k ↦ other_case k
  ]
    where
      whole : last? (xs ++ e ∷ []) ≡ some e
      whole = last?-concat xs e

      cut : own_session (xs ++ e ∷ []) ≡ after_boundary e.session_id (xs ++ e ∷ [])
      cut = own_session-of_last (xs ++ e ∷ []) e whole he

      own_case :
          l.session_id ≡ e.session_id
          → apply_events s (xs ++ e ∷ []) ≡ apply_event (apply_events s xs) e
      own_case eq =
          let grown = after_boundary-concat_own e.session_id xs e (not_foreign e) in
          let before = own_session-of_last xs l a hl ∙ ap (λ t. after_boundary t xs) eq in
          elim (Option-cases (after_boundary e.session_id xs)) [
            | inl m ↦
                apply_events-own s _ e whole (cut ∙ (grown ∙ rw m))
                ∙ (apply_session-concat s xs a eq
                    ∙ ap (λ t. apply_event t e) (sym (apply_events-own s xs l a (before ∙ m))))
            | inr (own, m) ↦
                let ends =
                  after_boundary-last? e.session_id xs own l m a
                    (ap (λ t. is_foreign t l) (sym eq) ∙ not_foreign l) in
                apply_events-cut s _ (own ++ e ∷ []) e whole (cut ∙ (grown ∙ rw m))
                ∙ (apply_session-concat create_projection own ends eq
                    ∙ ap (λ t. apply_event t e) (sym (apply_events-cut s xs own l a (before ∙ m))))
          ]

      other_case :
          same l.session_id e.session_id ≡ false
          → apply_events s (xs ++ e ∷ []) ≡ apply_event (apply_events s xs) e
      other_case k =
          let foreign = foreign_of l e hl k in
          apply_events-cut s _ (e ∷ []) e whole
            (cut ∙ after_boundary-concat_other e.session_id xs l e a foreign (not_foreign e))
          ∙ (apply_event-fresh create_projection (base_state_new e.session_id)
              ∙ sym (
                  apply_event-session (apply_events s xs) e he
                  ∙ ap (λ b. finish b 1 (run_steps (begin b) (e ∷ [])))
                      (base_state_other (apply_events s xs) e.session_id l.session_id
                        (apply_events-session s xs l a hl) hl
                        (same_sym e.session_id l.session_id ∙ k))))

-- Every event names its session.
abbrev pub HasSessions : List RuntimeEvent → Type 0
HasSessions events = All (λ e. has_session e.session_id ≡ true) events

last-has_session :
    (xs : List RuntimeEvent) (l : RuntimeEvent)
    → HasSessions xs
    → last? xs ≡ some l
    → has_session l.session_id ≡ true
last-has_session [] l h a = cc
last-has_session (x ∷ []) l h a = ground arith
last-has_session (x ∷ y ∷ xs) l h a = last-has_session (y ∷ xs) l h.1 a

HasSessions-concat :
    (xs : List RuntimeEvent) (e : RuntimeEvent)
    → HasSessions xs
    → has_session e.session_id ≡ true
    → HasSessions (xs ++ e ∷ [])
HasSessions-concat [] e h k = (k, tt)
HasSessions-concat (x ∷ xs) e h k = (h.0, HasSessions-concat xs e h.1 k)

pub apply_events-nil : (s : ProjectionState) → apply_events s [] ≡ s
unfolding apply_events
apply_events-nil s = refl

apply_events-snoc :
    (s : ProjectionState) (xs : List RuntimeEvent) (e : RuntimeEvent)
    → HasSessions xs
    → has_session e.session_id ≡ true
    → apply_events s (xs ++ e ∷ []) ≡ apply_event (apply_events s xs) e
unfolding apply_event
apply_events-snoc s [] e h k = ap (λ t. apply_events t (e ∷ [])) (sym (apply_events-nil s))
apply_events-snoc s (x ∷ xs) e h k = elim (Option-cases (last? (x ∷ xs))) [
  | inl m ↦ absurd (last?-cons x xs m)
  | inr (l, m) ↦ apply_events-concat l e (last-has_session (x ∷ xs) l h m) k s (x ∷ xs) m
]

-- Where every event names its session, a batch has the result of its events one at a time: no
-- reconnect within it and no clone that it shares shows.
pub apply_events-foldl :
    (s : ProjectionState) (xs ys : List RuntimeEvent)
    → HasSessions xs
    → HasSessions ys
    → apply_events s (xs ++ ys) ≡ foldl apply_event (apply_events s xs) ys
apply_events-foldl s xs [] h k = ap (apply_events s) (append-nil xs)
apply_events-foldl s xs (y ∷ ys) h k =
    ap (apply_events s) (sym (append_assoc xs (y ∷ []) ys))
    ∙ (apply_events-foldl s (xs ++ y ∷ []) ys (HasSessions-concat xs y h k.0) k.1
        ∙ ap (λ t. foldl apply_event t ys) (apply_events-snoc s xs y h k.0))

-- However a stream of events that name their sessions is cut into two batches, the projection after
-- the second batch is the one that a single batch of all the events gives.
pub apply_events-append :
    (s : ProjectionState) (xs ys : List RuntimeEvent)
    → HasSessions xs
    → HasSessions ys
    → apply_events s (xs ++ ys) ≡ apply_events (apply_events s xs) ys
apply_events-append s xs ys h k =
    apply_events-foldl s xs ys h k
    ∙ sym (
        apply_events-foldl (apply_events s xs) [] ys tt k
        ∙ ap (λ t. foldl apply_event t ys) (apply_events-nil (apply_events s xs)))
