-- ===== src/Events/Decode.antt =====
-- `decodeSocketEvent` and `decodeLogLine` of studio/src/shared/events.ts. `JSON.parse` is a parameter
-- (`none` where it throws), as are `Date.parse` (`none` for NaN) and the clock. A negative id or
-- timestamp is read as 0.
use reticle.Common.{
  ℕ, Text, codes, trim, same, [], Option, none, some, ◌<|>◌, or_else, if◌then◌else◌,
}
use reticle.Json.{
  Json, null, number, text, pos, negsuc, get, defined, is_object, string_or, string_of,
}
use reticle.Events.{RuntimeEvent, event_type}

-- `typeof value === 'number'`
abbrev pub as_natural : Option Json → Option ℕ
as_natural (some (number (pos n))) = some n
as_natural (some (number (negsuc n))) = some 0
as_natural _ = none

-- A field under the first of two names that is there.
abbrev pub either : Text → Text → Json → Option Json
either upper low p = defined (get upper p) <|> defined (get low p)

module _ (json_parse : Text → Option Json) (date_parse : Text → Option ℕ) (now : ℕ) where
  unfoldable pub coerce_timestamp : Option Json → ℕ
  coerce_timestamp (some (text s)) = or_else (date_parse s) now
  coerce_timestamp v = or_else (as_natural v) now

  -- What is built of the fields that were found.
  unfoldable pub envelope :
      Option Json
      → Option Json
      → Option Json
      → Option Json
      → Option Json
      → Option Json
      → Option RuntimeEvent
  unfolding coerce_timestamp string_of
  envelope (some (text type)) id timestamp source session payload = some (record {
    id = or_else (as_natural id) 0;
    type = event_type type;
    timestamp = coerce_timestamp timestamp;
    source = string_or [] source;
    session_id = string_or [] session;
    payload = or_else payload null;
  })
  envelope _ id timestamp source session payload = none

  unfoldable pub decode_parsed : Json → Option RuntimeEvent
  unfolding envelope
  decode_parsed p =
      if is_object p
      then envelope (either (codes "Type") (codes "type") p) (either (codes "ID") (codes "id") p)
          (either (codes "Timestamp") (codes "timestamp") p)
          (either (codes "Source") (codes "source") p)
          (either (codes "SessionID") (codes "sessionId") p)
          (either (codes "Payload") (codes "payload") p)
      else none

  unfoldable pub decode_socket_event : Text → Option RuntimeEvent
  unfolding decode_parsed
  decode_socket_event raw = elim (json_parse raw) [ none ↦ none | some p ↦ decode_parsed p ]

  unfoldable pub decode_line : Json → Option RuntimeEvent
  unfolding envelope
  decode_line p =
      if is_object p
      then envelope (get (codes "event") p) (get (codes "id") p) (get (codes "time") p)
          (defined (get (codes "component") p)) (defined (get (codes "session") p))
          (defined (get (codes "payload") p))
      else none

  unfoldable pub decode_log_line : Text → Option RuntimeEvent
  unfolding decode_line
  decode_log_line raw =
      if same (trim raw) []
      then none
      else elim (json_parse (trim raw)) [ none ↦ none | some p ↦ decode_line p ]
