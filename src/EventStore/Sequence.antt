-- ===== src/EventStore/Sequence.antt =====
-- The sequence numbers of the log of studio/electron/forge/store.ts rise, so that a query of a store
-- is answered as `EventStore.Query.Laws` says.
use reticle.Common.{
  ℕ, zero, suc, ◌-◌, ◌<◌, ◌≤◌, ltb, length, drop, take_last, filter, All, All-append, List, [], ◌∷◌,
  ◌++◌, some, ◌≡◌, arith, or_else, Bool-cases, Option-cases, inl, inr,
}
use reticle.Events.{RuntimeEvent}
use reticle.EventStore.Records.{LogRecord, to_log_record, strip_heavy_payload}
use reticle.EventStore.Ring.{RingBuffer, trim_to, push, set_capacity}
use reticle.EventStore.Query.{LogQuery, query_logs}
use reticle.EventStore.Query.Laws.{Rises, wanted, query_logs-wanted}
use reticle.EventStore.{
  EventStore, create_store, set_buffer_size, set_scope, log_event, schedule_flush, ingest,
  flush_state, flush_logs,
}
use reticle.EventStore.Replay.{
  Action, receive, state_timer_fires, log_timer_fires, resize, rescope, act, act_all,
}

-- The records of a log up to a sequence number, which rise to it.
abbrev IsNumbered : ℕ → List LogRecord → Type 0
IsNumbered n records = Rises records × All (λ r. r.seq ≤ n) records

to_log_record-seq :
    (seq : ℕ) (event : RuntimeEvent) (r : LogRecord)
    → to_log_record seq event ≡ some r
    → r.seq ≡ seq
unfolding to_log_record
to_log_record-seq seq event r h = ground arith

IsNumbered-drop : (k n : ℕ) (rs : List LogRecord) → IsNumbered n rs → IsNumbered n (drop k rs)
IsNumbered-drop zero n rs h = h
IsNumbered-drop (suc k) n [] h = h
IsNumbered-drop (suc k) n (r ∷ rs) h = IsNumbered-drop k n rs (h.0.1, h.1.1)

IsNumbered-concat :
    (n : ℕ) (rs : List LogRecord) (r : LogRecord)
    → r.seq ≡ suc n
    → IsNumbered n rs
    → IsNumbered (suc n) (rs ++ r ∷ [])
IsNumbered-concat n [] r e h = ((tt, tt), (omega arith, tt))
IsNumbered-concat n (q ∷ rs) r e h =
    let rest = IsNumbered-concat n rs r e (h.0.1, h.1.1) in
    (
      (All-append (λ x. q.seq < x.seq) rs (r ∷ []) h.0.0 (omega (arith, h.1.0), tt), rest.0),
      (omega (arith, h.1.0), rest.1),
    )

IsNumbered-later : (n : ℕ) (rs : List LogRecord) → IsNumbered n rs → IsNumbered (suc n) rs
IsNumbered-later n [] h = h
IsNumbered-later n (r ∷ rs) h =
    let rest = IsNumbered-later n rs (h.0.1, h.1.1) in (h.0, (omega (arith, h.1.0), rest.1))

trim_to-IsNumbered :
    (n cap : ℕ) (b : RingBuffer LogRecord)
    → IsNumbered n b.items
    → IsNumbered n (trim_to cap b).items
unfolding trim_to
trim_to-IsNumbered n cap b h = elim (Bool-cases (ltb cap (length b.items))) [
  | inl k ↦ rw (k, trim_to) (IsNumbered-drop (length b.items - cap) n b.items h)
  | inr k ↦ rw (k, trim_to) h
]

abbrev IsInOrder : EventStore → Type 0
IsInOrder s = IsNumbered s.log_seq s.logs.items

log_event-IsInOrder :
    (event : RuntimeEvent) (s : EventStore) → IsInOrder s → IsInOrder (log_event event s)
unfolding log_event push
log_event-IsInOrder event s h = elim (Option-cases (to_log_record (suc s.log_seq) event)) [
  | inl m ↦ rw (m, log_event) (IsNumbered-later s.log_seq s.logs.items h)
  | inr (r, m) ↦
      rw (m, log_event)
        (trim_to-IsNumbered (suc s.log_seq) s.logs.capacity
          (record (s.logs) { items = s.logs.items ++ r ∷ [] })
          (IsNumbered-concat s.log_seq s.logs.items r (to_log_record-seq (suc s.log_seq) event r m)
            h))
]

flush-IsInOrder :
    (s : EventStore) → IsInOrder s → IsInOrder (flush_state s).0 × IsInOrder (flush_logs s).0
unfolding flush_state flush_logs
flush-IsInOrder s h = ground arith

act-IsInOrder : (a : Action) (s : EventStore) → IsInOrder s → IsInOrder (act a s)
unfolding act ingest schedule_flush set_buffer_size set_capacity set_scope
act-IsInOrder (receive event) s h = log_event-IsInOrder (strip_heavy_payload event) _ h
act-IsInOrder state_timer_fires s h = (flush-IsInOrder s h).0
act-IsInOrder log_timer_fires s h = (flush-IsInOrder s h).1
act-IsInOrder (resize size) s h = trim_to-IsNumbered s.log_seq size _ h
act-IsInOrder (rescope scope) s h = h

act_all-IsInOrder :
    (actions : List Action) (s : EventStore) → IsInOrder s → IsInOrder (act_all actions s)
unfolding act_all
act_all-IsInOrder [] s h = h
act_all-IsInOrder (a ∷ actions) s h = act_all-IsInOrder actions (act a s) (act-IsInOrder a s h)

-- Whatever a new store has received and whenever its timers fire, a query is answered with the newest
-- of the records it asks for that the log still has, as many as its limit (2000 if it has none),
-- oldest first, and with whether the log has lost records.
pub query_logs-act_all :
    (query : LogQuery) (size : ℕ) (actions : List Action)
    → let logs = (act_all actions (create_store size)).logs in
      query_logs query logs ≡ record {
        records = take_last (or_else query.limit 2000) (filter (wanted query) logs.items);
        truncated = logs.evicted;
      }
unfolding create_store
query_logs-act_all query size actions =
    query_logs-wanted query (act_all actions (create_store size)).logs
      (act_all-IsInOrder actions (create_store size) (tt, tt)).0
