-- ===== src/Tests/Activity.antt =====
-- The theorem on the tool calls of a node at concrete records.
use reticle.Common.{
  ℕ, Text, codes, same, index_of, starts_with, lower, trim, trim_start, is_space, filter, List, [],
  ◌∷◌, Option, none, some, Bool, true, false, ◌≡◌, refl, if◌then◌else◌,
}
use reticle.Json.{Json, object, field, end, text, get, str}
use reticle.Logs.Llm.{parse_llm_log, from_parsed, diagnostic, kind_named}
use reticle.Activity.{
  ToolRecord, ToolCall, done, running, build_tool_calls, add_records, add_record, tool_event,
  finish_call, end_first, requested_name, completed_name, ending, failure, behind, until,
  from_first, legacy_call, node_key, key_of,
}
use reticle.Activity.Laws.{calls_of, calls_of-build_tool_calls}

abbrev tool_said : Text → Json
tool_said s =
    object (field (codes "kind") (text (codes "tool")) (field (codes "text") (text s) end))

abbrev tool_parse : Text → Option Json
tool_parse s =
    if same s (codes "1")
    then some (tool_said (codes "Requested read"))
    else if same s (codes "2")
    then some (tool_said (codes "Completed read"))
    else none

abbrev said : Text → ℕ → Text → ToolRecord
said node seq body = record {
  seq = seq;
  at = seq;
  exec_id = some (codes "e1");
  node_id = some node;
  agent_id = none;
  message = body;
  is_llm = true;
}

-- Two nodes ask for the same tool, and the second is answered.
abbrev tool_records : List ToolRecord
tool_records =
    said (codes "n1") 1 (codes "[LLM_STREAM] 1")
    ∷ said (codes "n2") 2 (codes "[LLM_STREAM] 1")
    ∷ said (codes "n2") 3 (codes "[LLM_STREAM] 2")
    ∷ []

abbrev call : Text → ℕ → Bool → ToolCall
call node seq waits = record {
  seq = seq;
  at = seq;
  exec_id = some (codes "e1");
  node_id = some node;
  agent_id = none;
  name = codes "read";
  status = if waits then running else done;
  detail = none;
  target = none;
  pending = waits;
}

tool_records_calls :
    build_tool_calls tool_parse tool_records
    ≡ call (codes "n1") 1 true ∷ call (codes "n2") 2 false ∷ []
unfolding build_tool_calls add_records add_record tool_event finish_call end_first requested_name
    completed_name ending failure behind until from_first legacy_call node_key parse_llm_log
    from_parsed diagnostic kind_named get str same index_of starts_with lower trim trim_start
    is_space
tool_records_calls = refl

calls_of-build_tool_calls_example :
    calls_of (codes "e1|n1") (build_tool_calls tool_parse tool_records)
    ≡ build_tool_calls tool_parse (filter (λ r. same (key_of r) (codes "e1|n1")) tool_records)
calls_of-build_tool_calls_example =
    calls_of-build_tool_calls (codes "e1|n1") tool_parse tool_records
