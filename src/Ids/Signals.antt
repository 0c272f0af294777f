-- ===== src/Ids/Signals.antt =====
-- studio/src/shared/ids.ts: the signals that workers print to stderr, with the regular expressions
-- written out as scans. No expression here can match in a second way at the same place, so a scan
-- from left to right needs no backtracking.
pub mod Mock
use reticle.Common.{
  ℕ, ◌==◌, Text, codes, same, starts_with, includes, drop, length, trim, trim_start, is_space, List,
  [], ◌∷◌, map, Option, none, some, Bool, true, false, not, ◌&&◌, ◌||◌, leb, lower, lower_code,
  if◌then◌else◌, is_some, any,
}

pub data UiStateSignal : Type 0 where
  waiting_human waiting_comfy resumed : UiStateSignal

-- `[A-Z_]`
is_signal_code : ℕ → Bool
is_signal_code c = leb b'A' c && leb c b'Z' || c == b'_'

-- The longest run of `[A-Z_]` at the start, and what follows it.
signal_run : Text → Text × Text
unfolding is_signal_code
signal_run [] = ([], [])
signal_run (c ∷ s) =
    let more = signal_run s in if is_signal_code c then (c ∷ more.0, more.1) else ([], c ∷ s)

-- `\s*\]` at the start
closes : Text → Bool
closes s = starts_with (trim_start s) (codes "]")

-- The rest of the pattern behind `[UI_STATE:`: its group.
ui_state_word : Text → Option Text
unfolding signal_run closes
ui_state_word s =
    let (word, rest) = signal_run (trim_start s) in
    if not (same word []) && closes rest then some word else none

abbrev ui_state_open : Text
ui_state_open = codes "[UI_STATE:"

-- `UI_STATE_PATTERN.exec(log)`: the group of the first match
ui_state_match : Text → Option Text
unfolding ui_state_word
ui_state_match [] = none
ui_state_match (c ∷ s) =
    let later = ui_state_match s in
    elim (if starts_with (c ∷ s) ui_state_open
      then ui_state_word (drop (length ui_state_open) (c ∷ s))
      else none) [ some word ↦ some word | none ↦ later ]

signal_named : Text → Option UiStateSignal
signal_named word =
    if same word (codes "WAITING_HUMAN")
    then some waiting_human
    else if same word (codes "WAITING_COMFY")
    then some waiting_comfy
    else if same word (codes "RESUMED")
    then some resumed
    else none

unfoldable pub parse_ui_state : Option Text → Option UiStateSignal
unfolding ui_state_match signal_named
parse_ui_state none = none
parse_ui_state (some log) = elim (ui_state_match log) [
  | none ↦ none
  | some word ↦ signal_named word
]

-- `.` matches all but the line terminators.
is_line_end : ℕ → Bool
is_line_end c = c == 10 || c == 13 || c == 0x2028 || c == 0x2029

abbrev checkpoint_open : Text
checkpoint_open = codes "Checkpoint file created at:"

-- `\s*(.+?)\s*$` on the end of a trimmed text
checkpoint_rest : Text → Option Text
unfolding is_line_end
checkpoint_rest s =
    let path = trim_start s in
    if not (same path []) && not (any is_line_end path) then some path else none

checkpoint_match : Text → Option Text
unfolding checkpoint_rest
checkpoint_match [] = none
checkpoint_match (c ∷ s) =
    let later = checkpoint_match s in
    elim (if starts_with (c ∷ s) checkpoint_open
      then checkpoint_rest (drop (length checkpoint_open) (c ∷ s))
      else none) [ some path ↦ some path | none ↦ later ]

unfoldable pub parse_checkpoint_path : Option Text → Option Text
unfolding checkpoint_match
parse_checkpoint_path none = none
parse_checkpoint_path (some log) = checkpoint_match (trim log)

-- `\w`
is_word_code : ℕ → Bool
is_word_code c =
    leb b'a' c && leb c b'z' || leb b'A' c && leb c b'Z' || leb b'0' c && leb c b'9' || c == b'_'

-- `(mock fallback|falling back to mock)` at the start, whose first letter is a word character
mock_words : Text → Bool
mock_words s =
    starts_with (lower s) (codes "mock fallback")
    || starts_with (lower s) (codes "falling back to mock")

-- `\[MOCK\]` at the start
mock_tag : Text → Bool
mock_tag s = starts_with (lower s) (codes "[mock]")

-- `MOCK_PATTERN.test(s)`, behind a character that is or is not a word character. The boundary
-- `\b` in front of a letter asks for no word character before it, and in front of a bracket for one.
mock_scan : Bool → Text → Bool
unfolding is_word_code mock_words mock_tag
mock_scan after_word [] = false
mock_scan after_word (c ∷ s) =
    not after_word && mock_words (c ∷ s)
    || after_word && mock_tag (c ∷ s)
    || mock_scan (is_word_code c) s

unfoldable pub indicates_mock_fallback : Option Text → Bool
unfolding mock_scan
indicates_mock_fallback none = false
indicates_mock_fallback (some log) = mock_scan false log

unfoldable pub is_llm_log : Option Text → Bool
is_llm_log none = false
is_llm_log (some log) = includes log (codes "[LLM]") || includes log (codes "[LLM_STREAM]")
