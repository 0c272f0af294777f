-- ===== src/Activity.antt =====
-- studio/src/features/activity/toolActivity.ts: the tool calls that the log records tell of. A call
-- object stands in the list of calls, and until it has finished also in the queue of its node
-- (`pending`), which holds the calls of the node that have not finished, in the order of their requests:
-- here it is a call that is marked as pending. `JSON.parse` is a parameter.
pub mod Laws
use reticle.Common.{
  ℕ, ◌+◌, ◌==◌, Text, codes, same, starts_with, lower, trim, trim_start, is_space, take, drop,
  length, any, List, [], ◌∷◌, ◌++◌, Option, none, some, Bool, true, false, not, ◌&&◌, ◌||◌,
  if◌then◌else◌, or_empty,
}
use reticle.Json.{Json, non_empty}
use reticle.Logs.Llm.{LlmDiagnostic, LlmDiagnosticKind, parse_llm_log}

pub record ToolRecord : Type 0 where
  pub seq : ℕ
  pub at : ℕ
  pub exec_id : Option Text
  pub node_id : Option Text
  pub agent_id : Option Text
  pub message : Text
  pub is_llm : Bool

pub data ToolStatus : Type 0 where
  running done failed : ToolStatus

pub record ToolCall : Type 0 where
  pub seq : ℕ
  pub at : ℕ
  pub exec_id : Option Text
  pub node_id : Option Text
  pub agent_id : Option Text
  pub name : Text
  pub status : ToolStatus
  pub detail : Option Text
  pub target : Option Text
  pub pending : Bool

-- `${execId ?? ''}|${nodeId ?? ''}`
unfoldable pub node_key : Option Text → Option Text → Text
node_key exec_id node_id = or_empty exec_id ++ (codes "|" ++ or_empty node_id)

-- The code units before the first one of a class, and those from it on.
unfoldable pub until : (ℕ → Bool) → Text → Text
until p [] = []
until p (a ∷ s) = let rest = until p s in if p a then [] else a ∷ rest

unfoldable pub from_first : (ℕ → Bool) → Text → Text
from_first p [] = []
from_first p (a ∷ s) = let rest = from_first p s in if p a then a ∷ s else rest

-- What follows a word and white space, where `^word\s+` matches.
unfoldable pub behind : Text → Text → Option Text
unfolding starts_with is_space trim_start
behind mark text =
    let rest = drop (length mark) text in
    if starts_with text mark && any is_space (take 1 rest) then some (trim_start rest) else none

-- The name that `\S+` takes, if it is not empty.
abbrev name_behind : Option Text → Option Text
name_behind none = none
name_behind (some rest) = non_empty (until is_space rest)

-- REQUESTED and COMPLETED
unfoldable pub requested_name : Text → Option Text
unfolding behind until is_space
requested_name text = name_behind (behind (codes "Requested") text)

unfoldable pub completed_name : Text → Option Text
unfolding behind until is_space
completed_name text = name_behind (behind (codes "Completed") text)

abbrev ends_name : ℕ → Bool
ends_name c = is_space c || c == b':'

abbrev without_colon : Text → Text
without_colon [] = []
without_colon (c ∷ s) = if c == b':' then s else c ∷ s

-- How a call has ended: its name, and the message of a failure.
pub record Ending : Type 0 where
  pub name : Text
  pub failed : Bool
  pub detail : Option Text

-- FAILED, with the detail that is kept of its message.
unfoldable pub failure : Text → Option Ending
unfolding behind until from_first trim trim_start is_space
failure text = elim (behind (codes "Failed") text) [
  | none ↦ none
  | some rest ↦ elim (until ends_name rest) [
    | [] ↦ none
    | c ∷ s ↦ some (record {
      name = c ∷ s;
      failed = true;
      detail = non_empty (take 300 (trim (trim_start (without_colon (from_first ends_name rest)))));
    })
  ]
]

unfoldable pub ending : Text → Option Ending
unfolding completed_name failure
ending text = elim (completed_name text) [
  | some name ↦ some (record { name = name; failed = false; detail = none })
  | none ↦ failure text
]

abbrev is_terminator : ℕ → Bool
is_terminator c = c == 10 || c == 13 || c == 0x2028 || c == 0x2029

-- What LEGACY takes behind `[TOOL]`: `.` matches no line end, and `$` only the end of the message.
unfoldable pub legacy_call : Text → Option Text
unfolding trim_start lower
legacy_call [] = none
legacy_call (a ∷ s) =
    let found = trim_start (drop 6 (a ∷ s)) in
    let rest = legacy_call s in
    if starts_with (lower (take 6 (a ∷ s))) (codes "[tool]") && not (any is_terminator found)
    then some found
    else rest

abbrev pub or_tool : Text → Text
or_tool [] = codes "tool"
or_tool (c ∷ s) = c ∷ s

abbrev pub same_node : Text → ToolCall → Bool
same_node key c = same (node_key c.exec_id c.node_id) key

-- The call of a record, of a name.
abbrev pub call_of : ToolRecord → Text → ToolStatus → Option Text → Option Text → Bool → ToolCall
call_of r name status detail target pending = record {
  seq = r.seq;
  at = r.at;
  exec_id = r.exec_id;
  node_id = r.node_id;
  agent_id = r.agent_id;
  name = name;
  status = status;
  detail = detail;
  target = target;
  pending = pending;
}

abbrev pub key_of : ToolRecord → Text
key_of r = node_key r.exec_id r.node_id

-- Whether a call stands in the queue of a node, under a name.
abbrev pub waits_for : Text → Text → ToolCall → Bool
waits_for key name c = c.pending && (same_node key c && same c.name name)

abbrev pub end_status : Bool → ToolStatus
end_status true = failed
end_status false = done

abbrev pub ended : Ending → Option Text → ToolCall → ToolCall
ended e target c = record c {
  status = end_status e.failed;
  detail = e.detail;
  target = target;
  pending = false;
}

-- The first call that is waited for has ended, and leaves the queue.
unfoldable pub end_first : (ToolCall → Bool) → (ToolCall → ToolCall) → List ToolCall → List ToolCall
end_first p f [] = []
end_first p f (c ∷ cs) = if p c then f c ∷ cs else c ∷ end_first p f cs

unfoldable pub finish_call : ToolRecord → Ending → Option Text → List ToolCall → List ToolCall
finish_call r e target calls =
    if any (waits_for (key_of r) e.name) calls
    then end_first (waits_for (key_of r) e.name) (ended e target) calls
    else calls ++ call_of r e.name (end_status e.failed) e.detail target false ∷ []

abbrev pub is_tool : LlmDiagnostic → Bool
is_tool d = elim d.kind [
  | LlmDiagnosticKind.tool ↦ true
  | LlmDiagnosticKind.reasoning ↦ false
  | LlmDiagnosticKind.content ↦ false
  | LlmDiagnosticKind.status ↦ false
]

unfoldable pub tool_event : ToolRecord → LlmDiagnostic → List ToolCall → List ToolCall
tool_event r d calls =
    if is_tool d
    then (elim (requested_name (trim d.text)) [
      | some name ↦ calls ++ call_of r name running none none true ∷ []
      | none ↦ elim (ending (trim d.text)) [
        | none ↦ calls
        | some e ↦ finish_call r e d.target calls
      ]
    ])
    else calls

module _ (json_parse : Text → Option Json) where
  unfoldable pub add_record : ToolRecord → List ToolCall → List ToolCall
  add_record r calls =
      if r.is_llm
      then (elim (parse_llm_log json_parse r.seq r.message) [
        | none ↦ calls
        | some d ↦ tool_event r d calls
      ])
      else (elim (legacy_call r.message) [
        | none ↦ calls
        | some rest ↦ calls ++ call_of r (or_tool (trim rest)) done none none false ∷ []
      ])

  unfoldable pub add_records : List ToolRecord → List ToolCall → List ToolCall
  unfolding add_record
  add_records [] calls = calls
  add_records (r ∷ rs) calls = add_records rs (add_record r calls)

  unfoldable pub build_tool_calls : List ToolRecord → List ToolCall
  unfolding add_records
  build_tool_calls records = add_records records []
