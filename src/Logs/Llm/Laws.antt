-- ===== src/Logs/Llm/Laws.antt =====
-- What the diagnostics of studio/src/features/graph/llmLog.ts keep of the log.
use mathlib.Core.List.{append_assoc, append-nil}
use reticle.Common.{
  Text, List, [], ◌∷◌, ◌++◌, Option, none, some, false, ◌≡◌, refl, sym, ap, ◌∙◌, Bool-cases,
  Option-cases, inl, inr,
}
use reticle.Json.{Json}
use reticle.EventStore.Records.{LogRecord}
use reticle.Logs.Llm.{
  LlmDiagnostic, parse_llm_log, joins, add_diagnostic, build_from, build_llm_diagnostics,
}

-- All that the diagnostics say, in their order.
abbrev pub said : List LlmDiagnostic → Text
said [] = []
said (d ∷ ds) = d.text ++ said ds

-- All that the records say, each by itself.
unfoldable pub said_by : (Text → Option Json) → List LogRecord → Text
said_by json_parse [] = []
said_by json_parse (r ∷ rs) = elim (parse_llm_log json_parse r.seq r.message) [
  | none ↦ said_by json_parse rs
  | some d ↦ d.text ++ said_by json_parse rs
]

-- No diagnostic continues the one before it.
abbrev pub AreSeparate : List LlmDiagnostic → Type 0
AreSeparate [] = Unit
AreSeparate (p ∷ []) = Unit
AreSeparate (p ∷ q ∷ ps) = (joins p q ≡ false) × AreSeparate (q ∷ ps)

said-add_diagnostic :
    (next : LlmDiagnostic) (ds : List LlmDiagnostic)
    → said (add_diagnostic next ds) ≡ said ds ++ next.text
unfolding add_diagnostic
said-add_diagnostic next [] = append-nil next.text
said-add_diagnostic next (p ∷ []) = elim (Bool-cases (joins p next)) [
  | inl e ↦ rw e (rw (append-nil (p.text ++ next.text), append-nil p.text) refl)
  | inr e ↦ rw e (rw (append-nil next.text, append-nil p.text) refl)
]
said-add_diagnostic next (p ∷ q ∷ ps) =
    ap (λ t. p.text ++ t) (said-add_diagnostic next (q ∷ ps))
    ∙ sym (append_assoc p.text (said (q ∷ ps)) next.text)

said-build_from :
    (json_parse : Text → Option Json) (rs : List LogRecord) (ds : List LlmDiagnostic)
    → said (build_from json_parse rs ds) ≡ said ds ++ said_by json_parse rs
unfolding build_from said_by
said-build_from json_parse [] ds = sym (append-nil (said ds))
said-build_from json_parse (r ∷ rs) ds =
    elim (Option-cases (parse_llm_log json_parse r.seq r.message)) [
      | inl m ↦ rw (m, build_from, said_by) (said-build_from json_parse rs ds)
      | inr (d, m) ↦
          rw (m, build_from, said_by)
            (said-build_from json_parse rs (add_diagnostic d ds)
              ∙ (ap (λ t. t ++ said_by json_parse rs) (said-add_diagnostic d ds)
                  ∙ append_assoc (said ds) d.text (said_by json_parse rs)))
    ]

add_diagnostic-AreSeparate :
    (next : LlmDiagnostic) (ds : List LlmDiagnostic)
    → AreSeparate ds
    → AreSeparate (add_diagnostic next ds)
unfolding add_diagnostic
add_diagnostic-AreSeparate next [] h = tt
add_diagnostic-AreSeparate next (p ∷ []) h = elim (Bool-cases (joins p next)) [
  | inl e ↦ rw e tt
  | inr e ↦ rw e (e, tt)
]
add_diagnostic-AreSeparate next (p ∷ q ∷ []) h = elim (Bool-cases (joins q next)) [
  | inl e ↦ rw e h
  | inr e ↦ rw e (h.0, (e, tt))
]
add_diagnostic-AreSeparate next (p ∷ q ∷ r ∷ ps) h =
    (h.0, add_diagnostic-AreSeparate next (q ∷ r ∷ ps) h.1)

build_from-AreSeparate :
    (json_parse : Text → Option Json) (rs : List LogRecord) (ds : List LlmDiagnostic)
    → AreSeparate ds
    → AreSeparate (build_from json_parse rs ds)
unfolding build_from
build_from-AreSeparate json_parse [] ds h = h
build_from-AreSeparate json_parse (r ∷ rs) ds h =
    elim (Option-cases (parse_llm_log json_parse r.seq r.message)) [
      | inl m ↦ rw (m, build_from) (build_from-AreSeparate json_parse rs ds h)
      | inr (d, m) ↦
          rw (m, build_from)
            (build_from-AreSeparate json_parse rs (add_diagnostic d ds)
              (add_diagnostic-AreSeparate d ds h))
    ]

-- Joining loses no text and moves none: the diagnostics say, in order, what the records say, each
-- parsed by itself; and no diagnostic has the kind and the name of the one before it. This holds
-- whatever `JSON.parse` answers.
pub said-build_llm_diagnostics :
    (json_parse : Text → Option Json) (records : List LogRecord)
    → (said (build_llm_diagnostics json_parse records) ≡ said_by json_parse records)
      × AreSeparate (build_llm_diagnostics json_parse records)
unfolding build_llm_diagnostics
said-build_llm_diagnostics json_parse records =
    (said-build_from json_parse records [], build_from-AreSeparate json_parse records [] tt)
