-- ===== src/Logs/Llm.antt =====
-- studio/src/features/graph/llmLog.ts: what a model said, from the log. `JSON.parse` is a parameter;
-- it answers `none` where it throws.
pub mod Laws
use reticle.Common.{
  ℕ, ◌+◌, Text, codes, same, index_of, starts_with, drop, length, trim_start, lower, List, [], ◌∷◌,
  ◌++◌, Option, none, some, Bool, true, false, ◌&&◌, ◌||◌, if◌then◌else◌,
}
use reticle.Json.{Json, text, array, object, get, str}
use reticle.EventStore.Records.{LogRecord}

pub data LlmDiagnosticKind : Type 0 where
  reasoning content tool status : LlmDiagnosticKind

pub record LlmDiagnostic : Type 0 where
  pub kind : LlmDiagnosticKind
  pub text : Text
  pub name : Option Text
  pub target : Option Text
  pub first_seq : ℕ
  pub last_seq : ℕ

abbrev pub stream_marker : Text
stream_marker = codes "[LLM_STREAM] "

abbrev pub legacy_marker : Text
legacy_marker = codes "[LLM]"

-- A text or a name that is no string, or is empty, is taken for an absent one.
unfoldable pub diagnostic :
    ℕ → LlmDiagnosticKind → Option Json → Option Json → Option Json → Option LlmDiagnostic
unfolding str
diagnostic seq kind body name target = elim (str body) [
  | none ↦ none
  | some t ↦ some (record {
    kind = kind;
    text = t;
    name = str name;
    target = str target;
    first_seq = seq;
    last_seq = seq;
  })
]

unfoldable pub kind_named : Text → Option LlmDiagnosticKind
kind_named s =
    if same s (codes "reasoning")
    then some reasoning
    else if same s (codes "content")
    then some content
    else if same s (codes "tool")
    then some tool
    else if same s (codes "status")
    then some status
    else none

-- What is done with the value that is parsed behind the marker.
unfoldable pub from_parsed : ℕ → Json → Option LlmDiagnostic
unfolding diagnostic kind_named str
from_parsed seq (Json.text s) = diagnostic seq content (some (Json.text s)) none none
from_parsed seq v = elim (str (get (codes "kind") v)) [
  | none ↦ none
  | some name ↦ elim (kind_named name) [
    | none ↦ none
    | some kind ↦
        diagnostic seq kind (get (codes "text") v) (get (codes "name") v) (get (codes "detail") v)
  ]
]

unfoldable pub from_legacy : ℕ → Text → Option LlmDiagnostic
unfolding diagnostic
from_legacy seq body =
    let kind =
      if starts_with (lower body) (codes "error") || starts_with (lower body) (codes "hard limit")
      then status
      else content in
    diagnostic seq kind (some (Json.text (body ++ 10 ∷ []))) none none

unfoldable pub parse_llm_log : (Text → Option Json) → ℕ → Text → Option LlmDiagnostic
unfolding from_parsed from_legacy
parse_llm_log json_parse seq message = elim (index_of message stream_marker) [
  | some i ↦ elim (json_parse (drop (i + length stream_marker) message)) [
    | none ↦ none
    | some v ↦ from_parsed seq v
  ]
  | none ↦ elim (index_of message legacy_marker) [
    | none ↦ none
    | some i ↦ from_legacy seq (trim_start (drop (i + length legacy_marker) message))
  ]
]

abbrev pub same_kind : LlmDiagnosticKind → LlmDiagnosticKind → Bool
same_kind reasoning reasoning = true
same_kind content content = true
same_kind tool tool = true
same_kind status status = true
same_kind _ _ = false

abbrev pub same_name : Option Text → Option Text → Bool
same_name none none = true
same_name (some s) (some t) = same s t
same_name _ _ = false

abbrev pub joins : LlmDiagnostic → LlmDiagnostic → Bool
joins previous next = same_kind previous.kind next.kind && same_name previous.name next.name

-- One round of the loop: the last diagnostic is extended, or another one begins.
unfoldable pub add_diagnostic : LlmDiagnostic → List LlmDiagnostic → List LlmDiagnostic
add_diagnostic next [] = next ∷ []
add_diagnostic next (p ∷ []) =
    if joins p next
    then record p { text = p.text ++ next.text; last_seq = next.last_seq } ∷ []
    else p ∷ next ∷ []
add_diagnostic next (p ∷ q ∷ ps) = p ∷ add_diagnostic next (q ∷ ps)

unfoldable pub build_from :
    (Text → Option Json) → List LogRecord → List LlmDiagnostic → List LlmDiagnostic
unfolding parse_llm_log add_diagnostic
build_from json_parse [] result = result
build_from json_parse (r ∷ rs) result = elim (parse_llm_log json_parse r.seq r.message) [
  | none ↦ build_from json_parse rs result
  | some next ↦ build_from json_parse rs (add_diagnostic next result)
]

unfoldable pub build_llm_diagnostics : (Text → Option Json) → List LogRecord → List LlmDiagnostic
unfolding build_from
build_llm_diagnostics json_parse records = build_from json_parse records []
