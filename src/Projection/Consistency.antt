-- ===== src/Projection/Consistency.antt =====
-- The order of the runs in projection.ts: `runOrder` lists the keys of `runs`, each once.
use reticle.Common.{
  Text, same, same_iff, contains, Dict, lookup, has, put, lookup-put, List, [], ◌∷◌, ◌++◌, some,
  true, false, ◌||◌, ◌≡◌, ◌∙◌, refl, arith, Bool-cases, Option-cases, inl, inr,
}
use reticle.Events.{RuntimeEvent}
use reticle.Projection.{Run, ProjectionState, create_run}
use reticle.Projection.Draft.{Batch, draft_run, draft_node, write_run, write_node, node_key}
use reticle.Projection.Invariant.{IsInvariant, run_write}
use reticle.Projection.Fold.{apply_events}
use reticle.Projection.Fold.Closed.{apply_events-closed}

abbrev pub AreDistinct : List Text → Type 0
AreDistinct [] = Unit
AreDistinct (s ∷ rest) = (contains s rest ≡ false) × AreDistinct rest

pub record IsListed (runs : Dict Run) (order : List Text) : Type 0 where
  pub listed : (e : Text) → contains e order ≡ has e runs
  pub distinct : AreDistinct order

pub contains-concat :
    (s t : Text) (xs : List Text) → contains s (xs ++ t ∷ []) ≡ (contains s xs || same t s)
unfolding contains
contains-concat s t [] = ground arith
contains-concat s t (x ∷ xs) = ground (arith, contains-concat s t xs)

pub AreDistinct-concat :
    (t : Text) (xs : List Text)
    → AreDistinct xs
    → contains t xs ≡ false
    → AreDistinct (xs ++ t ∷ [])
unfolding contains
AreDistinct-concat t [] h k = (refl, tt)
AreDistinct-concat t (x ∷ xs) (q, h) k =
    ground (arith, AreDistinct-concat t xs h, contains-concat x t xs, same_iff t x, same_iff x t)

-- A write to a run that is there changes no key.
put-IsListed :
    (e : Text) (run : Run) (runs : Dict Run) (order : List Text)
    → has e runs ≡ true
    → IsListed runs order
    → IsListed (put e run runs) order
put-IsListed e run runs order there h = record {
  listed = λ d. ground (arith, h.listed d, lookup-put e d run runs, same_iff e d);
  distinct = h.distinct;
}

has_of_lookup :
    (e : Text) (run : Run) (runs : Dict Run) → lookup e runs ≡ some run → has e runs ≡ true
has_of_lookup e run runs m = rw m

draft_run-IsListed :
    (e : Text) (b : Batch)
    → IsListed b.runs b.run_order
    → IsListed (draft_run e b).runs (draft_run e b).run_order
unfolding draft_run
draft_run-IsListed e b h = elim (Bool-cases (has e b.runs)) [
  | inl old ↦ elim (Bool-cases (contains e b.cloned_runs)) [
    | inl d ↦ rw (old, draft_run, d) h
    | inr d ↦ rw (old, draft_run, d) h
  ]
  | inr new ↦
      rw (new, draft_run)
        (record {
          listed = λ d. ground (
            arith,
            h.listed d,
            contains-concat d e b.run_order,
            lookup-put e d (create_run e) b.runs,
          );
          distinct = AreDistinct-concat e b.run_order h.distinct (h.listed e ∙ new);
        })
]

write_run-IsListed :
    (e : Text) (f : Run → Run) (b : Batch)
    → IsListed b.runs b.run_order
    → IsListed (write_run e f b).runs (write_run e f b).run_order
unfolding write_run
write_run-IsListed e f b h = elim (Option-cases (lookup e b.runs)) [
  | inl m ↦ rw (m, write_run) h
  | inr (run, m) ↦
      rw (m, write_run) (put-IsListed e (f run) b.runs b.run_order (has_of_lookup e run b.runs m) h)
]

draft_node-IsListed :
    (e n t : Text) (b : Batch)
    → IsListed b.runs b.run_order
    → IsListed (draft_node e n t b).runs (draft_node e n t b).run_order
unfolding draft_node
draft_node-IsListed e n t b h = elim (Option-cases (lookup e b.runs)) [
  | inl m ↦ rw (m, draft_node) h
  | inr (run, m) ↦ elim (Bool-cases (has n run.nodes)) [
    | inl old ↦ elim (Bool-cases (contains (node_key run.exec_id n) b.cloned_nodes)) [
      | inl d ↦ rw (m, draft_node, old, d) h
      | inr d ↦ rw (m, draft_node, old, d) h
    ]
    | inr new ↦
        rw (m, draft_node, new)
          (put-IsListed e _ b.runs b.run_order (has_of_lookup e run b.runs m) h)
  ]
]

IsListed-invariant : IsInvariant (λ b. IsListed b.runs b.run_order)
unfolding write_node
IsListed-invariant = record {
  draft_run = draft_run-IsListed;
  draft_node = draft_node-IsListed;
  write_run = λ e w. write_run-IsListed e (run_write w);
  write_node = λ e n w. write_run-IsListed e _;
}

empty-IsListed : IsListed [] []
unfolding contains lookup
empty-IsListed = record { listed = λ e. refl; distinct = tt }

-- After any events the order lists exactly the runs that there are, each once, if it did before.
pub apply_events-IsListed :
    (state : ProjectionState) (events : List RuntimeEvent)
    → IsListed state.runs state.run_order
    → IsListed (apply_events state events).runs (apply_events state events).run_order
apply_events-IsListed = apply_events-closed IsListed IsListed-invariant empty-IsListed
