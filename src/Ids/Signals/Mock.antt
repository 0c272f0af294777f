-- ===== src/Ids/Signals/Mock.antt =====
-- `MOCK_PATTERN` of studio/src/shared/ids.ts and the tag `[MOCK]`.
use reticle.Common.{
  ℕ, Text, codes, [], ◌∷◌, ◌++◌, some, Bool, false, ◌≡◌, ◌≢◌, refl, All, arith, lower, lower_code,
  starts_with,
}
use reticle.Ids.Signals.{indicates_mock_fallback, mock_scan, is_word_code, mock_words, mock_tag}

-- A code unit at which no alternative of the pattern begins.
abbrev pub IsQuiet : ℕ → Type 0
IsQuiet c = (lower_code c ≢ b'm') × (lower_code c ≢ b'f') × (lower_code c ≢ b'[')

starts_with-ne : (a b : ℕ) (s t : Text) → a ≢ b → starts_with (a ∷ s) (b ∷ t) ≡ false
unfolding starts_with
starts_with-ne a b s t h = ground arith

quiet-words : (c : ℕ) (s : Text) → IsQuiet c → mock_words (c ∷ s) ≡ false
unfolding mock_words lower
quiet-words c s (m, f, b) = rw (
  starts_with-ne (lower_code c) b'm' (lower s) (codes "ock fallback") m,
  starts_with-ne (lower_code c) b'f' (lower s) (codes "alling back to mock") f,
)

quiet-tag : (c : ℕ) (s : Text) → IsQuiet c → mock_tag (c ∷ s) ≡ false
unfolding mock_tag lower
quiet-tag c s (m, f, b) = starts_with-ne (lower_code c) b'[' (lower s) (codes "mock]") b

mock_scan-quiet : (after_word : Bool) (s : Text) → All IsQuiet s → mock_scan after_word s ≡ false
unfolding mock_scan
mock_scan-quiet w [] h = refl
mock_scan-quiet w (c ∷ s) (q, h) =
    ground (arith, mock_scan-quiet (is_word_code c) s h, quiet-words c s q, quiet-tag c s q)

-- A line that begins with the tag `[MOCK]`, and in whose rest no alternative of the pattern can
-- begin, is not taken for mock output: the boundary `\b` in front of the bracket asks for a word
-- character, and there is none.
pub indicates_mock_fallback_tag :
    (s : Text) → All IsQuiet s → indicates_mock_fallback (some (codes "[MOCK]" ++ s)) ≡ false
unfolding indicates_mock_fallback mock_words mock_tag lower lower_code starts_with is_word_code
    mock_scan
indicates_mock_fallback_tag s h = ground (arith, mock_scan-quiet false s h)
