-- ===== src/EventStore/Query/Laws.antt =====
-- What `queryLogs` of studio/electron/forge/store.ts answers.
use reticle.Common.{
  ℕ, zero, suc, ◌-◌, ◌<◌, ◌≤◌, leb, length, length-append, length-drop, take, drop, take_last,
  take-append-drop, filter, filter-append, All, All-append, List, [], ◌∷◌, ◌++◌, reverse, Option,
  none, some, Bool, true, not, ◌&&◌, ◌≡◌, refl, sym, ap, ◌∙◌, arith, Bool-cases, inl, inr, or_else,
}
use mathlib.Core.List.{append-nil, reverse-cons, reverse-append, reverse-reverse}
use reticle.EventStore.Records.{LogRecord}
use reticle.EventStore.Ring.{RingBuffer}
use reticle.EventStore.Query.{LogQuery, selects, is_past, walk, query_logs}

-- Newest first: the sequence numbers fall.
abbrev Falls : List LogRecord → Type 0
Falls [] = Unit
Falls (r ∷ rs) = All (λ q. q.seq < r.seq) rs × Falls rs

-- Oldest first, as the store keeps its records: the sequence numbers rise.
abbrev pub Rises : List LogRecord → Type 0
Rises [] = Unit
Rises (r ∷ rs) = All (λ q. r.seq < q.seq) rs × Rises rs

-- The records that a query asks for.
abbrev pub wanted : LogQuery → LogRecord → Bool
wanted query r = not (is_past query.after r) && selects query r

is_past-before :
    (after : Option ℕ) (r q : LogRecord)
    → is_past after r ≡ true
    → q.seq < r.seq
    → is_past after q ≡ true
is_past-before none r q e h = cc
is_past-before (some after) r q e h = ground arith

filter-past :
    (query : LogQuery) (r : LogRecord) (rs : List LogRecord)
    → is_past query.after r ≡ true
    → All (λ q. q.seq < r.seq) rs
    → filter (wanted query) rs ≡ []
filter-past query r [] e h = refl
filter-past query r (q ∷ rs) e h =
    rw (is_past-before query.after r q e h.0) (filter-past query r rs e h.1)

walk-filter :
    (query : LogQuery) (room : ℕ) (rs : List LogRecord)
    → Falls rs
    → walk query room rs ≡ take room (filter (wanted query) rs)
unfolding walk
walk-filter query zero rs h = refl
walk-filter query (suc room) [] h = refl
walk-filter query (suc room) (r ∷ rs) h = elim (Bool-cases (is_past query.after r)) [
  | inl e ↦ rw (e, walk) (sym (ap (take (suc room)) (filter-past query r rs e h.0)))
  | inr e ↦ elim (Bool-cases (selects query r)) [
    | inl k ↦ rw (e, walk, k) (ap (◌∷◌ r) (walk-filter query room rs h.1))
    | inr k ↦ rw (e, walk, k) (walk-filter query (suc room) rs h.1)
  ]
]

Falls-concat :
    (xs : List LogRecord) (r : LogRecord)
    → Falls xs
    → All (λ q. r.seq < q.seq) xs
    → Falls (xs ++ r ∷ [])
Falls-concat [] r h k = (tt, tt)
Falls-concat (x ∷ xs) r h k =
    (All-append (λ q. q.seq < x.seq) xs (r ∷ []) h.0 (k.0, tt), Falls-concat xs r h.1 k.1)

All-reverse : (P : LogRecord → Type 0) (xs : List LogRecord) → All P xs → All P (reverse xs)
All-reverse P [] h = tt
All-reverse P (x ∷ xs) h =
    rw (reverse-cons x xs) (All-append P (reverse xs) (x ∷ []) (All-reverse P xs h.1) (h.0, tt))

Falls-reverse : (xs : List LogRecord) → Rises xs → Falls (reverse xs)
Falls-reverse [] h = tt
Falls-reverse (x ∷ xs) h =
    rw (reverse-cons x xs)
      (Falls-concat (reverse xs) x (Falls-reverse xs h.1) (All-reverse (λ q. x.seq < q.seq) xs h.0))

filter-reverse :
    (p : LogRecord → Bool) (xs : List LogRecord) → filter p (reverse xs) ≡ reverse (filter p xs)
filter-reverse p [] = refl
filter-reverse p (x ∷ xs) =
    rw (reverse-cons x xs, filter-append p (reverse xs) (x ∷ []), filter-reverse p xs)
      (elim (Bool-cases (p x)) [
        | inl e ↦ rw e (sym (reverse-cons x (filter p xs)))
        | inr e ↦ rw e (append-nil (reverse (filter p xs)))
      ])

length-reverse : (xs : List LogRecord) → length (reverse xs) ≡ length xs
length-reverse [] = refl
length-reverse (x ∷ xs) =
    ap length (reverse-cons x xs)
    ∙ omega (arith, length-append (reverse xs) (x ∷ []), length-reverse xs)

take-prefix : (xs ys : List LogRecord) (n : ℕ) → n ≡ length xs → take n (xs ++ ys) ≡ xs
take-prefix [] ys zero e = refl
take-prefix [] ys (suc n) e = absurd (omega arith)
take-prefix (x ∷ xs) ys zero e = absurd (omega arith)
take-prefix (x ∷ xs) ys (suc n) e = ap (◌∷◌ x) (take-prefix xs ys n (omega arith))

take-whole : (xs : List LogRecord) (n : ℕ) → length xs ≤ n → take n xs ≡ xs
take-whole [] zero h = refl
take-whole [] (suc n) h = refl
take-whole (x ∷ xs) zero h = absurd (omega arith)
take-whole (x ∷ xs) (suc n) h = ap (◌∷◌ x) (take-whole xs n (omega arith))

-- The first of a list read backwards are the last of the list.
reverse-take : (n : ℕ) (xs : List LogRecord) → reverse (take n (reverse xs)) ≡ take_last n xs
reverse-take n xs = elim (Bool-cases (leb n (length xs))) [
  | inl e ↦
      let k = length xs - n in
      ap (λ l. reverse (take n (reverse l))) (sym (take-append-drop k xs))
      ∙ (ap (λ l. reverse (take n l)) (reverse-append (take k xs) (drop k xs))
          ∙ (ap reverse (
                take-prefix (reverse (drop k xs)) (reverse (take k xs)) n
                  (ground (arith, length-reverse (drop k xs), length-drop k xs)))
              ∙ reverse-reverse (drop k xs)))
  | inr e ↦
      ap reverse (take-whole (reverse xs) n (ground (arith, length-reverse xs)))
      ∙ (reverse-reverse xs ∙ ap (λ k. drop k xs) (none_left (length xs) n (ground arith)))
]
  where
    none_left : (a b : ℕ) → a ≤ b → 0 ≡ a - b
    none_left a b h = omega arith

-- The answer to a query on records in the order of their sequence numbers: the newest of those that
-- it asks for, as many as its limit (2000 if it has none), oldest first; and it says whether the
-- buffer has lost records.
pub query_logs-wanted :
    (query : LogQuery) (logs : RingBuffer LogRecord)
    → Rises logs.items
    → query_logs query logs ≡ record {
      records = take_last (or_else query.limit 2000) (filter (wanted query) logs.items);
      truncated = logs.evicted;
    }
unfolding query_logs
query_logs-wanted query logs h =
    ap (λ (l : List LogRecord). record { records = l; truncated = logs.evicted })
      (ap reverse (
          walk-filter query (or_else query.limit 2000) (reverse logs.items)
            (Falls-reverse logs.items h))
        ∙ (ap (λ l. reverse (take (or_else query.limit 2000) l))
              (filter-reverse (wanted query) logs.items)
            ∙ reverse-take (or_else query.limit 2000) (filter (wanted query) logs.items)))
