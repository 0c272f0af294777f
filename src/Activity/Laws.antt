-- ===== src/Activity/Laws.antt =====
-- Parallel nodes do not mix up their tool calls (Activity).
use mathlib.Core.List.{append-nil}
use reticle.Common.{
  Text, same, same_iff, same_refl, trim, any, filter, filter-append, List, [], ◌∷◌, ◌++◌, Option,
  none, Bool, true, false, if◌then◌else◌, ◌≡◌, refl, sym, ap, ◌∙◌, arith, Bool-cases, Option-cases,
  inl, inr,
}
use reticle.Json.{Json}
use reticle.Logs.Llm.{LlmDiagnostic, parse_llm_log}
use reticle.Activity.{
  ToolRecord, ToolCall, ToolStatus, Ending, node_key, same_node, key_of, call_of, waits_for,
  is_tool, or_tool, end_status, running, done, ended, end_first, finish_call, requested_name,
  ending, tool_event, legacy_call, add_record, add_records, build_tool_calls,
}

-- The calls of a node.
abbrev pub calls_of : Text → List ToolCall → List ToolCall
calls_of key = filter (same_node key)

module _ (key : Text) where
  any-calls_of :
      (name : Text) (calls : List ToolCall)
      → any (waits_for key name) (calls_of key calls) ≡ any (waits_for key name) calls
  any-calls_of name [] = refl
  any-calls_of name (c ∷ cs) = ground (arith, any-calls_of name cs)

  end_first-calls_of :
      (name : Text) (e : Ending) (target : Option Text) (calls : List ToolCall)
      → calls_of key (end_first (waits_for key name) (ended e target) calls)
        ≡ end_first (waits_for key name) (ended e target) (calls_of key calls)
  unfolding end_first
  end_first-calls_of name e target [] = refl
  end_first-calls_of name e target (c ∷ cs) = ground (arith, end_first-calls_of name e target cs)

  end_first-other :
      (other name : Text) (e : Ending) (target : Option Text) (calls : List ToolCall)
      → same other key ≡ false
      → calls_of key (end_first (waits_for other name) (ended e target) calls) ≡ calls_of key calls
  unfolding end_first
  end_first-other other name e target [] h = refl
  end_first-other other name e target (c ∷ cs) h = ground (
    arith,
    end_first-other other name e target cs h,
    same_iff (node_key c.exec_id c.node_id) other,
    same_iff (node_key c.exec_id c.node_id) key,
    same_iff other key,
  )

  -- A call that is added is seen by its node alone.
  push-calls_of :
      (calls : List ToolCall) (c : ToolCall)
      → calls_of key (calls ++ c ∷ [])
        ≡ (if same_node key c then calls_of key calls ++ c ∷ [] else calls_of key calls)
  push-calls_of calls c = elim (Bool-cases (same_node key c)) [
    | inl e ↦ filter-append (same_node key) calls (c ∷ []) ∙ rw e refl
    | inr e ↦ filter-append (same_node key) calls (c ∷ []) ∙ rw e (append-nil (calls_of key calls))
  ]

  -- What a record does to the calls of a node: the same as to all of them, if it is of the node.
  abbrev Restricts : ToolRecord → (List ToolCall → List ToolCall) → Type 0
  Restricts r f =
      (calls : List ToolCall)
      → calls_of key (f calls)
        ≡ (if same (key_of r) key then f (calls_of key calls) else calls_of key calls)

  push-Restricts :
      (r : ToolRecord) (name : Text) (status : ToolStatus) (detail target : Option Text)
      (pending : Bool)
      → Restricts r (λ calls. calls ++ call_of r name status detail target pending ∷ [])
  push-Restricts r name status detail target pending calls =
      push-calls_of calls (call_of r name status detail target pending)

  skip-Restricts : (r : ToolRecord) → Restricts r (λ calls. calls)
  skip-Restricts r calls = elim (Bool-cases (same (key_of r) key)) [
    | inl e ↦ rw e refl
    | inr e ↦ rw e refl
  ]

  finish_call_self :
      (r : ToolRecord) (e : Ending) (target : Option Text) (calls : List ToolCall)
      → key ≡ key_of r
      → calls_of key (finish_call r e target calls) ≡ finish_call r e target (calls_of key calls)
  unfolding finish_call
  finish_call_self r e target calls k = ground (
    arith,
    any-calls_of e.name calls,
    end_first-calls_of e.name e target calls,
    push-calls_of calls (call_of r e.name (end_status e.failed) e.detail target false),
    same_refl key,
  )

  finish_call-other :
      (r : ToolRecord) (e : Ending) (target : Option Text) (calls : List ToolCall)
      → same (key_of r) key ≡ false
      → calls_of key (finish_call r e target calls) ≡ calls_of key calls
  unfolding finish_call
  finish_call-other r e target calls h = ground (
    arith,
    end_first-other (key_of r) e.name e target calls h,
    push-calls_of calls (call_of r e.name (end_status e.failed) e.detail target false),
  )

  finish_call-Restricts :
      (r : ToolRecord) (e : Ending) (target : Option Text) → Restricts r (finish_call r e target)
  finish_call-Restricts r e target calls = elim (Bool-cases (same (key_of r) key)) [
    | inl h ↦ rw h (finish_call_self r e target calls (sym ((same_iff (key_of r) key).0 h)))
    | inr h ↦ rw h (finish_call-other r e target calls h)
  ]

  tool_event-Restricts : (r : ToolRecord) (d : LlmDiagnostic) → Restricts r (tool_event r d)
  unfolding tool_event
  tool_event-Restricts r d calls = elim (Bool-cases (is_tool d)) [
    | inr k ↦ rw (tool_event, k) (skip-Restricts r calls)
    | inl k ↦ elim (Option-cases (requested_name (trim d.text))) [
      | inr (name, q) ↦ rw (tool_event, k, q) (push-Restricts r name running none none true calls)
      | inl q ↦ elim (Option-cases (ending (trim d.text))) [
        | inl n ↦ rw (tool_event, k, q, n) (skip-Restricts r calls)
        | inr (e, n) ↦ rw (tool_event, k, q, n) (finish_call-Restricts r e d.target calls)
      ]
    ]
  ]

  module _ (json_parse : Text → Option Json) where
    add_record-Restricts : (r : ToolRecord) → Restricts r (add_record json_parse r)
    unfolding add_record
    add_record-Restricts r calls = elim (Bool-cases r.is_llm) [
      | inl k ↦ elim (Option-cases (parse_llm_log json_parse r.seq r.message)) [
        | inl q ↦ rw (add_record, k, q) (skip-Restricts r calls)
        | inr (d, q) ↦ rw (add_record, k, q) (tool_event-Restricts r d calls)
      ]
      | inr k ↦ elim (Option-cases (legacy_call r.message)) [
        | inl q ↦ rw (add_record, k, q) (skip-Restricts r calls)
        | inr (rest, q) ↦
            rw (add_record, k, q)
              (push-Restricts r (or_tool (trim rest)) done none none false calls)
      ]
    ]

    add_records-calls_of :
        (rs : List ToolRecord) (calls : List ToolCall)
        → calls_of key (add_records json_parse rs calls)
          ≡ add_records json_parse (filter (λ r. same (key_of r) key) rs) (calls_of key calls)
    unfolding add_records
    add_records-calls_of [] calls = refl
    add_records-calls_of (r ∷ rs) calls = elim (Bool-cases (same (key_of r) key)) [
      | inl e ↦
          add_records-calls_of rs (add_record json_parse r calls)
          ∙ rw e (
              ap (add_records json_parse (filter (λ q. same (key_of q) key) rs))
                (add_record-Restricts r calls ∙ rw e refl))
      | inr e ↦
          add_records-calls_of rs (add_record json_parse r calls)
          ∙ rw e (
              ap (add_records json_parse (filter (λ q. same (key_of q) key) rs))
                (add_record-Restricts r calls ∙ rw e refl))
    ]

-- The calls of a node are those that its own records tell of: records of other nodes, whatever tools
-- they name and however they come between, change none of them.
pub calls_of-build_tool_calls :
    (key : Text) (json_parse : Text → Option Json) (records : List ToolRecord)
    → calls_of key (build_tool_calls json_parse records)
      ≡ build_tool_calls json_parse (filter (λ r. same (key_of r) key) records)
unfolding build_tool_calls
calls_of-build_tool_calls key json_parse records = add_records-calls_of key json_parse records []
