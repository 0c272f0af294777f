-- ===== src/EventStore/Query.antt =====
-- `queryLogs` of studio/electron/forge/store.ts.
pub mod Laws
use reticle.Common.{
  ℕ, zero, suc, Text, codes, same, includes, lower, List, [], ◌∷◌, ◌++◌, reverse, any, Option, none,
  some, Bool, true, false, not, ◌&&◌, ◌||◌, leb, if◌then◌else◌, is_some, or_else,
}
use reticle.EventStore.Records.{LogRecord, Level, info, warn, error}
use reticle.EventStore.Ring.{RingBuffer}

pub record LogQuery : Type 0 where
  pub exec_id : Option Text
  pub include_unscoped : Bool
  pub node_id : Option Text
  pub search : Option Text
  pub levels : List Level
  pub exclude_llm : Bool
  pub limit : Option ℕ
  pub after : Option ℕ

pub record LogBatch : Type 0 where
  pub records : List LogRecord
  pub truncated : Bool

-- `record.execId !== wanted` and its like, negated, where an absent or empty filter admits all.
abbrev pub admits : Option Text → Option Text → Bool
admits none found = true
admits (some []) found = true
admits (some (c ∷ s)) none = false
admits (some (c ∷ s)) (some t) = same t (c ∷ s)

abbrev pub same_level : Level → Level → Bool
same_level info info = true
same_level warn warn = true
same_level error error = true
same_level _ _ = false

-- An empty list of levels is no filter.
abbrev pub has_level : List Level → Level → Bool
has_level [] level = true
has_level (l ∷ levels) level = any (same_level level) (l ∷ levels)

abbrev pub matches_search : Option Text → Text → Bool
matches_search none message = true
matches_search (some []) message = true
matches_search (some (c ∷ s)) message = includes (lower message) (lower (c ∷ s))

-- What the five tests of the loop let through.
unfoldable pub selects : LogQuery → LogRecord → Bool
selects query r =
    (admits query.exec_id r.exec_id || query.include_unscoped && not (is_some r.exec_id))
    && admits query.node_id r.node_id
    && has_level query.levels r.level
    && not (query.exclude_llm && r.is_llm)
    && matches_search query.search r.message

-- `record.seq <= query.after`, where there is a bound
abbrev pub is_past : Option ℕ → LogRecord → Bool
is_past none r = false
is_past (some after) r = leb r.seq after

-- The loop, from the newest record back, with the room that is left.
unfoldable pub walk : LogQuery → ℕ → List LogRecord → List LogRecord
unfolding selects
walk query zero rs = []
walk query (suc room) [] = []
walk query (suc room) (r ∷ rs) = elim (is_past query.after r) [
  | true ↦ []
  | false ↦ elim (selects query r) [
    | true ↦ r ∷ walk query room rs
    | false ↦ walk query (suc room) rs
  ]
]

unfoldable pub query_logs : LogQuery → RingBuffer LogRecord → LogBatch
unfolding walk
query_logs query logs = record {
  records = reverse (walk query (or_else query.limit 2000) (reverse logs.items));
  truncated = logs.evicted;
}
