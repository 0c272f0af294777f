-- ===== src/EventStore/Records.antt =====
-- What studio/electron/forge/store.ts keeps of an event: the event without heavy data, and its
-- record in the log.
mod Describe
use reticle.Common.{
  ℕ, ◌==◌, Text, codes, same, starts_with, ends_with, take, drop, length, split, join, trim, lower,
  decimal, List, [], ◌∷◌, ◌++◌, map, filter, any, Option, none, some, Bool, true, false, not, ◌&&◌,
  ◌||◌, leb, if◌then◌else◌, ◌<|>◌,
}
use reticle.Json.{
  Json, text, array, object, elements, get, defined, as_text, str, truthy, with_field, string_of,
  string_or,
}
use reticle.Json.Stringify.{stringify}
use reticle.Events.{EventType, RuntimeEvent, type_name}
use reticle.Ids.{identify}
use reticle.Ids.Signals.{is_llm_log}
use Describe.{describe}

pub data Level : Type 0 where
  info warn error : Level

pub record LogRecord : Type 0 where
  pub seq : ℕ
  pub at : ℕ
  pub level : Level
  pub exec_id : Option Text
  pub node_id : Option Text
  pub agent_id : Option Text
  pub message : Text
  pub event_type : Option Text
  pub is_llm : Bool

abbrev pub artifact_preview_chars : ℕ
artifact_preview_chars = 2000

-- `ARTIFACT_EVENTS.has(type)`
abbrev pub is_artifact_event : EventType → Bool
is_artifact_event EventType.artifacts_produced = true
is_artifact_event EventType.artifact_stored = true
is_artifact_event EventType.artifact_version_created = true
is_artifact_event _ = false

-- `STRUCTURAL_LOG_EVENTS.has(type)`
abbrev pub is_structural : EventType → Bool
is_structural EventType.runtime_overloaded = true
is_structural EventType.environment_provisioning_started = true
is_structural EventType.environment_provisioning_completed = true
is_structural EventType.environment_provisioning_failed = true
is_structural EventType.workflow_started = true
is_structural EventType.workflow_completed = true
is_structural EventType.workflow_failed = true
is_structural EventType.node_ready = true
is_structural EventType.task_dispatched = true
is_structural EventType.worker_started = true
is_structural EventType.worker_completed = true
is_structural EventType.worker_files_written = true
is_structural EventType.worker_verification_recorded = true
is_structural EventType.worker_failed = true
is_structural EventType.task_failed = true
is_structural EventType.artifacts_produced = true
is_structural EventType.runtime_started = true
is_structural EventType.runtime_shutdown = true
is_structural _ = false

-- `\w`
is_word_code : ℕ → Bool
is_word_code c =
    leb b'a' c && leb c b'z' || leb b'A' c && leb c b'Z' || leb b'0' c && leb c b'9' || c == b'_'

-- `\b` behind a word character
at_word_end : Text → Bool
unfolding is_word_code
at_word_end [] = true
at_word_end (c ∷ s) = not (is_word_code c)

-- A word of the pattern at the start of a text in lower case.
word_at : Text → Text → Bool
unfolding at_word_end
word_at s word = starts_with s word && at_word_end (drop (length word) s)

-- `rate.?limit` at the start; `.` matches all but the line terminators.
rate_limit_at : Text → Bool
unfolding word_at
rate_limit_at s =
    starts_with s (codes "rate")
    && (word_at (drop 4 s) (codes "limit") || (elim (drop 4 s) [
      | [] ↦ false
      | c ∷ rest ↦
          not (c == 10 || c == 13 || c == 0x2028 || c == 0x2029) && word_at rest (codes "limit")
    ]))

-- A match that starts at a word boundary, somewhere in the text.
scan : (Text → Bool) → Bool → Text → Bool
unfolding is_word_code
scan here after_word [] = false
scan here after_word (c ∷ s) = not after_word && here (c ∷ s) || scan here (is_word_code c) s

abbrev error_words : List Text
error_words =
    codes "error" ∷ codes "exception" ∷ codes "traceback" ∷ codes "failed" ∷ codes "fatal" ∷ []

abbrev warn_words : List Text
warn_words =
    codes "warn" ∷ codes "warning" ∷ codes "retry" ∷ codes "retrying" ∷ codes "deprecated" ∷ []

unfoldable pub classify : Text → Level
unfolding scan word_at rate_limit_at
classify message =
    if scan (λ s. any (word_at s) error_words) false (lower message)
    then error
    else if scan (λ s. any (word_at s) warn_words || rate_limit_at s) false (lower message)
    then warn
    else info

-- `data.slice(0, ARTIFACT_PREVIEW_CHARS)`, of a text or of what `JSON.stringify` gives.
abbrev pub preview : Json → Text
unfolding stringify
preview (text s) = take artifact_preview_chars s
preview v = take artifact_preview_chars (stringify v)

abbrev pub strip_payload : Json → Json
unfolding preview
strip_payload (object fs) = elim (defined (get (codes "data") (object fs))) [
  | none ↦ object fs
  | some v ↦ object (with_field (codes "data") (text (preview v)) fs)
]
strip_payload p = p

unfoldable pub strip_heavy_payload : RuntimeEvent → RuntimeEvent
unfolding strip_payload
strip_heavy_payload event =
    if is_artifact_event event.type
    then record event { payload = strip_payload event.payload }
    else event

-- The identity that a record takes from a payload, with the sequence number and the time.
abbrev pub base : ℕ → RuntimeEvent → Level → Text → Option Text → Bool → LogRecord
base seq event level message event_type is_llm = record {
  seq = seq;
  at = event.timestamp;
  level = level;
  exec_id = elim (identify event.payload) [ none ↦ none | some i ↦ some i.exec_id ];
  node_id = elim (identify event.payload) [ none ↦ none | some i ↦ some i.node_id ];
  agent_id = elim (identify event.payload) [ none ↦ none | some i ↦ i.agent_id ];
  message = message;
  event_type = event_type;
  is_llm = is_llm;
}

abbrev pub first_line : Text → Text
first_line s = elim (split 10 s) [ [] ↦ [] | line ∷ _ ↦ line ]

abbrev pub failure_detail : Option Text → Text
failure_detail stderr = elim stderr [
  | none ↦ []
  | some s ↦ if same (trim s) [] then [] else codes " — " ++ first_line (trim s)
]

unfoldable pub failure_message : Json → Text
unfolding string_of
failure_message p =
    codes "worker failed: "
    ++ (string_or (codes "failed") (get (codes "reason") p)
        ++ ((elim (get (codes "exit_code") p) [
          | none ↦ []
          | some v ↦ codes " (exit " ++ (string_of v ++ codes ")")
        ])
            ++ failure_detail (as_text (get (codes "stderr") p))))

abbrev pub structural_level : EventType → Level
structural_level type = if ends_with (type_name type) (codes "Failed") then error else info

-- `toLogRecord` with the sequence number it has just taken.
unfoldable pub to_log_record : ℕ → RuntimeEvent → Option LogRecord
unfolding classify failure_message describe
to_log_record seq event = elim event.type [
  | EventType.worker_log ↦ elim (str (get (codes "log") event.payload)) [
    | none ↦ none
    | some message ↦
        some (base seq event (classify message) message none (is_llm_log (some message)))
  ]
  | EventType.worker_failed ↦
      some
        (base seq event error (failure_message event.payload) (some (codes "WorkerFailed")) false)
  | type ↦
      if is_structural type
      then some (
          base seq event (structural_level type) (describe type event.payload)
            (some (type_name type)) false)
      else none
]
