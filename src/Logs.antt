-- ===== src/Logs.antt =====
-- studio/src/shared/logMerge.ts: the history of a run folded into the live log.
pub mod Laws
pub mod Llm
use reticle.Common.{ℕ, ◌==◌, ltb, take_last, List, [], ◌∷◌, Bool, if◌then◌else◌}
use reticle.Common.Sort.{sort}
use reticle.EventStore.Records.{LogRecord}

-- `bySeq.set(record.seq, record)`: a key that is there keeps its place.
unfoldable pub set_seq : LogRecord → List LogRecord → List LogRecord
set_seq r [] = r ∷ []
set_seq r (q ∷ qs) = let rest = set_seq r qs in if q.seq == r.seq then r ∷ qs else q ∷ rest

unfoldable pub set_all : List LogRecord → List LogRecord → List LogRecord
unfolding set_seq
set_all [] by_seq = by_seq
set_all (r ∷ rs) by_seq = set_all rs (set_seq r by_seq)

abbrev pub by_seq_order : LogRecord → LogRecord → Bool
by_seq_order a b = ltb a.seq b.seq

unfoldable pub merge_log_records : List LogRecord → List LogRecord → ℕ → List LogRecord
unfolding set_all sort
merge_log_records existing [] limit = existing
merge_log_records existing (r ∷ rs) limit =
    take_last limit (sort by_seq_order (set_all (r ∷ rs) (set_all existing [])))
