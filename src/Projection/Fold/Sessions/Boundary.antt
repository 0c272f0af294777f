-- ===== src/Projection/Fold/Sessions/Boundary.antt =====
-- The boundary between sessions in `applyEvents` (projection.ts): what is behind it, and how one more
-- event moves it.
use reticle.Common.{
  Text, same, same_refl, length, last?, List, [], ◌∷◌, ◌++◌, Option, none, some, true, false, ◌≡◌,
  ◌≢◌, refl, sym, ◌∙◌, arith, Bool-cases, inl, inr,
}
use reticle.Events.{RuntimeEvent}
use reticle.Projection.{ProjectionState, create_projection}
use reticle.Projection.Fold.{
  has_session, last_session, own_session, after_boundary, is_foreign, Progress, step, run_steps,
  begin, finish, base_state, apply_session, apply_events, apply_event,
}

pub last?-cons : (x : RuntimeEvent) (xs : List RuntimeEvent) → last? (x ∷ xs) ≢ none
last?-cons x [] h = cc
last?-cons x (y ∷ xs) h = last?-cons y xs h

pub last?-concat : (xs : List RuntimeEvent) (e : RuntimeEvent) → last? (xs ++ e ∷ []) ≡ some e
last?-concat [] e = refl
last?-concat (x ∷ []) e = refl
last?-concat (x ∷ y ∷ xs) e = last?-concat (y ∷ xs) e

-- The events behind the boundary end with the same event.
pub after_boundary-last? :
    (s : Text) (xs own : List RuntimeEvent) (l : RuntimeEvent)
    → after_boundary s xs ≡ some own
    → last? xs ≡ some l
    → is_foreign s l ≡ false
    → last? own ≡ some l
unfolding after_boundary
after_boundary-last? s [] own l a b c = cc
after_boundary-last? s (x ∷ []) own l a b c = ground arith
after_boundary-last? s (x ∷ y ∷ xs) own l a b c =
    ground (arith, after_boundary-last? s (y ∷ xs) own l)

-- No event behind the boundary is of another session.
pub own_settled :
    (s : Text) (xs own : List RuntimeEvent)
    → after_boundary s xs ≡ some own
    → after_boundary s own ≡ none
unfolding after_boundary
own_settled s [] own a = cc
own_settled s (x ∷ xs) own a = ground (arith, own_settled s xs own)

-- The last event's session, where it has one, is the projection's.
pub run_steps-session :
    (p : Progress) (xs : List RuntimeEvent) (l : RuntimeEvent)
    → last? xs ≡ some l
    → has_session l.session_id ≡ true
    → (run_steps p xs).session_id ≡ some l.session_id
unfolding run_steps step
run_steps-session p [] l a h = cc
run_steps-session p (x ∷ []) l a h = ground arith
run_steps-session p (x ∷ y ∷ xs) l a h = run_steps-session (step p x) (y ∷ xs) l a h

-- One more event of the same session moves no boundary.
pub after_boundary-concat_own :
    (s : Text) (xs : List RuntimeEvent) (e : RuntimeEvent)
    → is_foreign s e ≡ false
    → after_boundary s (xs ++ e ∷ [])
      ≡ (elim (after_boundary s xs) [ none ↦ none | some own ↦ some (own ++ e ∷ []) ])
unfolding after_boundary
after_boundary-concat_own s [] e h = rw h
after_boundary-concat_own s (x ∷ xs) e h = ground (arith, after_boundary-concat_own s xs e h)

-- Behind an event of another session only the new event is left.
pub after_boundary-concat_other :
    (s : Text) (xs : List RuntimeEvent) (l e : RuntimeEvent)
    → last? xs ≡ some l
    → is_foreign s l ≡ true
    → is_foreign s e ≡ false
    → after_boundary s (xs ++ e ∷ []) ≡ some (e ∷ [])
unfolding after_boundary
after_boundary-concat_other s [] l e a b c = cc
after_boundary-concat_other s (x ∷ []) l e a b c = ground arith
after_boundary-concat_other s (x ∷ y ∷ xs) l e a b c =
    ground (arith, after_boundary-concat_other s (y ∷ xs) l e a b c)

pub apply_session-base :
    (s : ProjectionState) (events : List RuntimeEvent)
    → apply_session s events
      ≡ finish
          (base_state s (last_session events))
          (length events)
          (run_steps (begin (base_state s (last_session events))) events)
unfolding apply_session
apply_session-base s events = refl

pub last_session-of_last :
    (xs : List RuntimeEvent) (l : RuntimeEvent)
    → last? xs ≡ some l
    → has_session l.session_id ≡ true
    → last_session xs ≡ some l.session_id
unfolding last_session
last_session-of_last xs l a h = ground arith

pub own_session-of_last :
    (xs : List RuntimeEvent) (l : RuntimeEvent)
    → last? xs ≡ some l
    → has_session l.session_id ≡ true
    → own_session xs ≡ after_boundary l.session_id xs
unfolding own_session
own_session-of_last xs l a h = rw (own_session, last_session-of_last xs l a h)

pub not_foreign : (l : RuntimeEvent) → is_foreign l.session_id l ≡ false
not_foreign l = ground (arith, same_refl l.session_id)

-- The base of a batch that is folded after another one of the same session is that one's result.
pub base_state_same :
    (t : ProjectionState) (s : Text) → t.session_id ≡ some s → base_state t (some s) ≡ t
unfolding base_state
base_state_same t s h = rw (h, base_state) (ground (arith, same_refl s))

pub base_state_other :
    (t : ProjectionState) (s old : Text)
    → t.session_id ≡ some old
    → has_session old ≡ true
    → same s old ≡ false
    → base_state t (some s) ≡ create_projection
unfolding base_state
base_state_other t s old h k d = rw (h, base_state) (rw (k, d))

pub base_state_new : (s : Text) → base_state create_projection (some s) ≡ create_projection
unfolding base_state create_projection
base_state_new s = refl

pub own_session-none :
    (events own : List RuntimeEvent) → last? events ≡ none → own_session events ≢ some own
unfolding own_session last_session
own_session-none events own e = ground arith

pub own_session-no_session :
    (events own : List RuntimeEvent) (l : RuntimeEvent)
    → last? events ≡ some l
    → has_session l.session_id ≡ false
    → own_session events ≢ some own
unfolding own_session last_session
own_session-no_session events own l e k = ground arith

-- The recursive call of `applyEvents` on the events behind the boundary meets no boundary: the
-- equation by which the source defines the function.
pub own_session_settled :
    (events own : List RuntimeEvent) → own_session events ≡ some own → own_session own ≡ none
own_session_settled events own h = by_last (last? events) refl
  where
    by_last : (o : Option RuntimeEvent) → last? events ≡ o → own_session own ≡ none
    by_last none e = absurd (own_session-none events own e h)
    by_last (some l) e = elim (Bool-cases (has_session l.session_id)) [
      | inl k ↦
          let behind = sym (own_session-of_last events l e k) ∙ h in
          own_session-of_last own l
            (after_boundary-last? l.session_id events own l behind e (not_foreign l)) k
          ∙ own_settled l.session_id events own behind
      | inr k ↦ absurd (own_session-no_session events own l e k h)
    ]

-- `applyEvents` of a batch that is not empty, without a boundary and with one.
pub apply_events-own :
    (s : ProjectionState) (xs : List RuntimeEvent) (l : RuntimeEvent)
    → last? xs ≡ some l
    → own_session xs ≡ none
    → apply_events s xs ≡ apply_session s xs
unfolding apply_events
apply_events-own s [] l h o = cc
apply_events-own s (x ∷ xs) l h o = rw (apply_events, o)

pub apply_events-cut :
    (s : ProjectionState) (xs own : List RuntimeEvent) (l : RuntimeEvent)
    → last? xs ≡ some l
    → own_session xs ≡ some own
    → apply_events s xs ≡ apply_session create_projection own
unfolding apply_events
apply_events-cut s [] own l h o = cc
apply_events-cut s (x ∷ xs) own l h o = rw (apply_events, o)

pub apply_session-session :
    (s : ProjectionState) (xs : List RuntimeEvent) (l : RuntimeEvent)
    → last? xs ≡ some l
    → has_session l.session_id ≡ true
    → (apply_session s xs).session_id ≡ some l.session_id
unfolding apply_session
apply_session-session s xs l h k =
    run_steps-session (begin (base_state s (last_session xs))) xs l h k

pub own_single : (e : RuntimeEvent) → has_session e.session_id ≡ true → own_session (e ∷ []) ≡ none
unfolding after_boundary
own_single e k = own_session-of_last (e ∷ []) e refl k ∙ ground (arith, same_refl e.session_id)

pub apply_event-session :
    (t : ProjectionState) (e : RuntimeEvent)
    → has_session e.session_id ≡ true
    → apply_event t e
      ≡ finish
          (base_state t (some e.session_id))
          1
          (run_steps (begin (base_state t (some e.session_id))) (e ∷ []))
unfolding apply_event apply_session
apply_event-session t e k =
    apply_events-own t (e ∷ []) e refl (own_single e k)
    ∙ rw (apply_session, last_session-of_last (e ∷ []) e refl k)

pub foreign_of :
    (l e : RuntimeEvent)
    → has_session l.session_id ≡ true
    → same l.session_id e.session_id ≡ false
    → is_foreign e.session_id l ≡ true
foreign_of l e h k = rw (h, k)
