-- ===== src/Logs/Laws.antt =====
-- What the merge of studio/src/shared/logMerge.ts gives.
use reticle.Common.{
  ℕ, zero, suc, ◌-◌, ◌==◌, ◌<◌, ◌≤◌, ltb, length, length-drop, drop, All, List, [], ◌∷◌, false, ◌≡◌,
  ◌≢◌, subst, arith, Bool-cases, inl, inr,
}
use reticle.Common.Sort.{insert, sort}
use reticle.EventStore.Records.{LogRecord}
use reticle.EventStore.Query.Laws.{Rises}
use reticle.Logs.{set_seq, set_all, by_seq_order, merge_log_records}

-- No two records have the same sequence number.
abbrev AreApart : List LogRecord → Type 0
AreApart [] = Unit
AreApart (r ∷ rs) = All (λ q. q.seq ≢ r.seq) rs × AreApart rs

All-set_seq :
    (n : ℕ) (r : LogRecord) (qs : List LogRecord)
    → r.seq ≢ n
    → All (λ q. q.seq ≢ n) qs
    → All (λ q. q.seq ≢ n) (set_seq r qs)
unfolding set_seq
All-set_seq n r [] p h = (p, tt)
All-set_seq n r (q ∷ qs) p h = ground (arith, All-set_seq n r qs p h.1)

All-renamed :
    (m n : ℕ) (qs : List LogRecord) → m ≡ n → All (λ q. q.seq ≢ m) qs → All (λ q. q.seq ≢ n) qs
All-renamed m n qs e h = subst (λ k. All (λ q. q.seq ≢ k) qs) e h

set_seq-AreApart : (r : LogRecord) (qs : List LogRecord) → AreApart qs → AreApart (set_seq r qs)
unfolding set_seq
set_seq-AreApart r [] h = (tt, tt)
set_seq-AreApart r (q ∷ qs) h = elim (Bool-cases (q.seq == r.seq)) [
  | inl e ↦ rw e (All-renamed q.seq r.seq qs (ground arith) h.0, h.1)
  | inr e ↦ rw e (All-set_seq q.seq r qs (ground arith) h.0, set_seq-AreApart r qs h.1)
]

set_all-AreApart : (rs qs : List LogRecord) → AreApart qs → AreApart (set_all rs qs)
unfolding set_all
set_all-AreApart [] qs h = h
set_all-AreApart (r ∷ rs) qs h = set_all-AreApart rs (set_seq r qs) (set_seq-AreApart r qs h)

module _ (P : LogRecord → Type 0) where
  All-insert :
      (r : LogRecord) (qs : List LogRecord) → P r → All P qs → All P (insert by_seq_order r qs)
  unfolding insert
  All-insert r [] p h = (p, tt)
  All-insert r (q ∷ qs) p h = ground (arith, All-insert r qs p h.1)

  All-sort : (qs : List LogRecord) → All P qs → All P (sort by_seq_order qs)
  unfolding sort
  All-sort [] h = tt
  All-sort (q ∷ qs) h = All-insert q (sort by_seq_order qs) h.0 (All-sort qs h.1)

All-below :
    (m n : ℕ) (qs : List LogRecord) → m < n → All (λ q. n < q.seq) qs → All (λ q. m < q.seq) qs
All-below m n [] l h = tt
All-below m n (q ∷ qs) l h = (omega (arith, h.0), All-below m n qs l h.1)

insert-Rises :
    (r : LogRecord) (qs : List LogRecord)
    → Rises qs
    → All (λ q. q.seq ≢ r.seq) qs
    → Rises (insert by_seq_order r qs)
unfolding insert
insert-Rises r [] h k = (tt, tt)
insert-Rises r (q ∷ qs) h k = elim (Bool-cases (ltb q.seq r.seq)) [
  | inl e ↦
      rw e (All-insert (λ x. q.seq < x.seq) r qs (ground arith) h.0, insert-Rises r qs h.1 k.1)
  | inr e ↦
      let below = before q.seq r.seq e k.0 in rw e ((below, All-below r.seq q.seq qs below h.0), h)
]
  where
    before : (m n : ℕ) → ltb m n ≡ false → m ≢ n → n < m
    before m n e ne = ground arith

sort-Rises : (qs : List LogRecord) → AreApart qs → Rises (sort by_seq_order qs)
unfolding sort
sort-Rises [] h = tt
sort-Rises (q ∷ qs) h =
    insert-Rises q (sort by_seq_order qs) (sort-Rises qs h.1) (All-sort (λ x. x.seq ≢ q.seq) qs h.0)

Rises-drop : (n : ℕ) (qs : List LogRecord) → Rises qs → Rises (drop n qs)
Rises-drop zero qs h = h
Rises-drop (suc n) [] h = tt
Rises-drop (suc n) (q ∷ qs) h = Rises-drop n qs h.1

-- What a merge with new records gives has one entry for each sequence number, the oldest first, and
-- at most `limit` of them, whatever the order of the two batches.
pub merge_log_records-Rises :
    (existing : List LogRecord) (r : LogRecord) (incoming : List LogRecord) (limit : ℕ)
    → Rises (merge_log_records existing (r ∷ incoming) limit)
      × (length (merge_log_records existing (r ∷ incoming) limit) ≤ limit)
unfolding merge_log_records
merge_log_records-Rises existing r incoming limit =
    let merged = sort by_seq_order (set_all (r ∷ incoming) (set_all existing [])) in
    (
      Rises-drop (length merged - limit) merged (
          sort-Rises (set_all (r ∷ incoming) (set_all existing [])) (
            set_all-AreApart (r ∷ incoming) (set_all existing [])
              (set_all-AreApart existing [] tt))),
      omega (arith, length-drop (length merged - limit) merged),
    )
