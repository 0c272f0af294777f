-- ===== src/Projection/Fold/Batching.antt =====
-- `applyEvents` (projection.ts) does not depend on how the events are cut into batches.
use reticle.Common.{
  ℕ, ◌+◌, Text, length, length-append, List, [], ◌∷◌, ◌++◌, false, ◌≡◌, refl, ap, sym, subst, ◌∙◌,
  arith, Dict,
}
use reticle.Events.{RuntimeEvent}
use reticle.Projection.{Run, ProjectionState}
use reticle.Projection.Draft.{Batch, draft_run, draft_node, write_run, write_node}
use reticle.Projection.Invariant.{IsClosed, run_write}
use reticle.Projection.Invariant.Cases.{apply_to_batch-closed}
use reticle.Projection.Fold.{Progress, step, run_steps, begin, finish}

-- Two batches with the same runs in the same order; what each has cloned may differ.
abbrev pub Agree : Batch → Batch → Type 0
Agree b d = (b.runs ≡ d.runs) × (b.run_order ≡ d.run_order)

-- What a step makes of the runs and the order does not depend on the rest of the batch.
abbrev plain : Dict Run → List Text → Batch
plain runs order = record {
  runs = runs;
  run_order = order;
  cloned_runs = [];
  cloned_nodes = [];
  owned = [];
  leaked = false;
}

-- A step whose result on the runs is that on the plain batch respects `Agree`.
Agree-step :
    (f : Batch → Batch)
    → ((b : Batch) → Agree (f b) (f (plain b.runs b.run_order)))
    → (b d : Batch) → Agree b d
    → Agree (f b) (f d)
Agree-step f k b d h =
    let e : f (plain b.runs b.run_order) ≡ f (plain d.runs d.run_order) =
      λ i. f (plain (h.0 i) (h.1 i)) in
    (
      (k b).0 ∙ ap (λ (x : Batch). x.runs) e ∙ sym (k d).0,
      (k b).1 ∙ ap (λ (x : Batch). x.run_order) e ∙ sym (k d).1,
    )

draft_run-plain :
    (e : Text) (b : Batch) → Agree (draft_run e b) (draft_run e (plain b.runs b.run_order))
unfolding draft_run
draft_run-plain e b = ground arith

draft_node-plain :
    (e n t : Text) (b : Batch)
    → Agree (draft_node e n t b) (draft_node e n t (plain b.runs b.run_order))
unfolding draft_node
draft_node-plain e n t b = ground arith

write_run-plain :
    (e : Text) (f : Run → Run) (b : Batch)
    → Agree (write_run e f b) (write_run e f (plain b.runs b.run_order))
unfolding write_run
write_run-plain e f b = ground arith

Agree-closed : IsClosed Agree
unfolding write_node
Agree-closed = record {
  runs = λ b d h. h.0;
  order = λ b d h. h.1;
  draft_run = λ e. Agree-step (draft_run e) (draft_run-plain e);
  draft_node = λ e n t. Agree-step (draft_node e n t) (draft_node-plain e n t);
  write_run = λ e w. Agree-step (write_run e (run_write w)) (write_run-plain e (run_write w));
  write_node = λ e n w b d h. Agree-step (write_run e _) (write_run-plain e _) b d h;
}

-- The same progress, whatever the batches have cloned.
pub record Matches (p q : Progress) : Type 0 where
  pub agree : Agree p.batch q.batch
  pub waitlist : p.waitlist ≡ q.waitlist
  pub last_event_id : p.last_event_id ≡ q.last_event_id
  pub session_id : p.session_id ≡ q.session_id

step-Matches :
    (event : RuntimeEvent) (p q : Progress) → Matches p q → Matches (step p event) (step q event)
unfolding step
step-Matches event p q m = record {
  agree = apply_to_batch-closed Agree-closed event p.batch q.batch m.agree;
  waitlist = rw m.waitlist;
  last_event_id = rw m.last_event_id;
  session_id = rw m.session_id;
}

pub run_steps-Matches :
    (events : List RuntimeEvent) (p q : Progress)
    → Matches p q
    → Matches (run_steps p events) (run_steps q events)
unfolding run_steps
run_steps-Matches [] p q m = m
run_steps-Matches (event ∷ events) p q m =
    run_steps-Matches events (step p event) (step q event) (step-Matches event p q m)

pub run_steps-append :
    (p : Progress) (xs ys : List RuntimeEvent)
    → run_steps p (xs ++ ys) ≡ run_steps (run_steps p xs) ys
unfolding run_steps
run_steps-append p [] ys = refl
run_steps-append p (x ∷ xs) ys = run_steps-append (step p x) xs ys

pub finish-Matches :
    (s t : ProjectionState) (m n : ℕ) (p q : Progress)
    → s.event_count + m ≡ t.event_count + n
    → Matches p q
    → finish s m p ≡ finish t n q
finish-Matches s t m n p q counted k = λ i. record {
  runs = k.agree.0 i;
  run_order = k.agree.1 i;
  waitlist = k.waitlist i;
  last_event_id = k.last_event_id i;
  event_count = counted i;
  session_id = k.session_id i;
}

-- One more event behind a batch, where both are folded into the same base.
pub finish-concat :
    (s : ProjectionState) (xs ys : List RuntimeEvent)
    → let t = finish s (length xs) (run_steps (begin s) xs) in
      finish t (length ys) (run_steps (begin t) ys)
      ≡ finish s (length (xs ++ ys)) (run_steps (begin s) (xs ++ ys))
finish-concat s xs ys =
    let t = finish s (length xs) (run_steps (begin s) xs) in
    finish-Matches t s (length ys) (length (xs ++ ys)) (run_steps (begin t) ys)
      (run_steps (begin s) (xs ++ ys)) (omega (arith, length-append xs ys))
      (subst (λ q. Matches (run_steps (begin t) ys) q) (sym (run_steps-append (begin s) xs ys))
        (run_steps-Matches ys (begin t) (run_steps (begin s) xs) (record {
          agree = (refl, refl);
          waitlist = refl;
          last_event_id = refl;
          session_id = refl;
        })))
