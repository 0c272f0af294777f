-- ===== src/RunCompletion/Laws.antt =====
-- What studio/src/shared/runCompletion.ts announces, and that it announces it once.
use reticle.Common.{
  Text, codes, starts_with, filter, filter-append, lookup, values, List, [], ◌∷◌, map, Option, none,
  some, Bool, true, false, not, ◌&&◌, ◌≡◌, refl, sym, subst, arith, All, is_some, AllEntries-lookup,
  AllEntries-values, Option-cases, inl, inr,
}
use reticle.Projection.{RunStatus, Run, RunNode, ProjectionState}
use reticle.Projection.Select.{needs_approval}
use reticle.Projection.Select.Laws.{nodes_in, awaits_person}
use reticle.Projection.Nodes.{AllNodes}
use reticle.Projection.Nodes.Sound.{IsSound}
use reticle.RunCompletion.{
  Outcome, completed, failed, RunCompletion, is_compile_run, completion, completions,
  detect_completions, node_before, was_waiting, requests_in, requests, detect_approval_requests,
}

-- A run that has ended well or badly.
abbrev has_ended : Run → Bool
has_ended run = elim run.status [
  | RunStatus.completed ↦ true
  | RunStatus.failed ↦ true
  | RunStatus.pending ↦ false
  | RunStatus.running ↦ false
  | RunStatus.paused ↦ false
  | RunStatus.cancelled ↦ false
  | RunStatus.interrupted ↦ false
]

-- A run of the user (its id does not begin with `compile-`) that has ended, and that the projection
-- before knew, and knew as not ended.
abbrev pub is_news : ProjectionState → ProjectionState → Text → Bool
is_news previous next e = elim (lookup e next.runs) [
  | none ↦ false
  | some run ↦ elim (lookup e previous.runs) [
    | none ↦ false
    | some before ↦
        has_ended run && (not (has_ended before) && not (starts_with e (codes "compile-")))
  ]
]

-- What is said of a run is what it is.
abbrev pub status_of : Outcome → RunStatus
status_of completed = RunStatus.completed
status_of failed = RunStatus.failed

abbrev pub IsReported : ProjectionState → RunCompletion → Type 0
IsReported next c = (lookup c.exec_id next.runs ≡ some c.run) × (c.run.status ≡ status_of c.outcome)

completion-is_news :
    (previous next : ProjectionState) (e : Text)
    → is_some (completion previous next e) ≡ is_news previous next e
unfolding completion is_compile_run
completion-is_news previous next e = ground arith

completion-IsReported :
    (previous next : ProjectionState) (e : Text) (c : RunCompletion)
    → completion previous next e ≡ some c
    → (c.exec_id ≡ e) × IsReported next c
unfolding completion
completion-IsReported previous next e c h = ground arith

completions-filter :
    (previous next : ProjectionState) (ids : List Text)
    → (map (λ c. c.exec_id) (completions previous next ids) ≡ filter (is_news previous next) ids)
      × All (IsReported next) (completions previous next ids)
unfolding completions
completions-filter previous next [] = (refl, tt)
completions-filter previous next (e ∷ ids) =
    let rest = completions-filter previous next ids in
    let news = completion-is_news previous next e in
    elim (Option-cases (completion previous next e)) [
      | inl m ↦ ground (arith, rest, news, m)
      | inr (c, m) ↦ ground (arith, rest, news, m, completion-IsReported previous next e c m)
    ]

-- Of the listed runs, in their order, exactly those of the user are announced that have completed or
-- failed and that the previous projection knew, and knew as neither; each with the run and the outcome
-- that its status says.
pub detect_completions-filter :
    (previous next : ProjectionState)
    → (map (λ c. c.exec_id) (detect_completions (some previous) next)
        ≡ filter (is_news previous next) next.run_order)
      × All (IsReported next) (detect_completions (some previous) next)
unfolding detect_completions
detect_completions-filter previous next = completions-filter previous next next.run_order

completions_same : (s : ProjectionState) (ids : List Text) → completions s s ids ≡ []
unfolding completions completion
completions_same s [] = refl
completions_same s (e ∷ ids) = ground (arith, completions_same s ids)

-- A projection that is seen twice announces no run: a run is announced once.
pub detect_completions_same : (s : ProjectionState) → detect_completions (some s) s ≡ []
unfolding detect_completions
detect_completions_same s = completions_same s s.run_order

-- The node of the same run and id in a projection.
abbrev same_in : ProjectionState → RunNode → Option RunNode
same_in state node = elim (lookup node.exec_id state.runs) [
  | none ↦ none
  | some run ↦ lookup node.node_id run.nodes
]

-- A node of a run of the user that waits for a person, and did not in the projection before.
abbrev pub begins_waiting : ProjectionState → RunNode → Bool
begins_waiting previous node =
    awaits_person node
    && (not (starts_with node.exec_id (codes "compile-")) && (elim (same_in previous node) [
      | none ↦ true
      | some before ↦ not (awaits_person before)
    ]))

module _ (previous : ProjectionState) (e : Text) where
  requests_in-filter :
      (nodes : List RunNode)
      → is_compile_run e ≡ false
      → All (λ node. node.exec_id ≡ e) nodes
      → requests_in previous e nodes ≡ filter (begins_waiting previous) nodes
  unfolding requests_in is_compile_run
  requests_in-filter [] c h = refl
  requests_in-filter (node ∷ nodes) c (q, h) = ground (arith, requests_in-filter nodes c h, one)
    where
      one :
          (needs_approval node && not (was_waiting (node_before previous e node.node_id)))
          ≡ begins_waiting previous node
      one = rw q (ground (arith, c))

  compile-filter :
      (nodes : List RunNode)
      → is_compile_run e ≡ true
      → All (λ node. node.exec_id ≡ e) nodes
      → filter (begins_waiting previous) nodes ≡ []
  unfolding is_compile_run
  compile-filter [] c h = refl
  compile-filter (node ∷ nodes) c (q, h) = ground (
    arith,
    compile-filter nodes c h,
    subst (λ k. starts_with k (codes "compile-") ≡ true) (sym q) c,
  )

requests-filter :
    (previous next : ProjectionState) (ids : List Text)
    → AllNodes IsSound next.runs
    → requests previous next ids ≡ filter (begins_waiting previous) (nodes_in next ids)
unfolding requests
requests-filter previous next [] h = refl
requests-filter previous next (e ∷ ids) h = elim (Option-cases (lookup e next.runs)) [
  | inl m ↦ ground (arith, m, requests-filter previous next ids h)
  | inr (run, m) ↦
      let own : All (λ node. node.exec_id ≡ e) (values run.nodes) =
        AllEntries-values (IsSound e) (λ node. node.exec_id ≡ e) run.nodes (λ k node s. s.run)
          ((AllEntries-lookup _ e next.runs run h m).1) in
      ground (
        arith,
        m,
        requests-filter previous next ids h,
        filter-append (begins_waiting previous) (values run.nodes) (nodes_in next ids),
        requests_in-filter previous e (values run.nodes),
        compile-filter previous e (values run.nodes),
        own,
      )
]

-- Where the new projection has its nodes under their own ids, the nodes that are announced are exactly
-- those of the listed runs of the user that wait for a person and did not in the projection before, run
-- by run.
pub detect_approval_requests-filter :
    (previous next : ProjectionState)
    → AllNodes IsSound next.runs
    → detect_approval_requests (some previous) next
      ≡ filter (begins_waiting previous) (nodes_in next next.run_order)
unfolding detect_approval_requests
detect_approval_requests-filter previous next = requests-filter previous next next.run_order
