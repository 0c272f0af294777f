-- ===== src/EventStore/Records/Describe.antt =====
-- `describe` of studio/electron/forge/store.ts: an event in a line.
use reticle.Common.{
  ℕ, Text, codes, same, length, join, decimal, [], ◌∷◌, ◌++◌, map, filter, Option, none, some, Bool,
  true, false, not, if◌then◌else◌, ◌<|>◌,
}
use reticle.Json.{Json, text, array, elements, get, defined, truthy, string_of, string_or}
use reticle.Events.{EventType, type_name}

-- `Array.isArray(value) ? value.length : 0`
abbrev pub array_length : Option Json → ℕ
array_length (some (array vs)) = length (elements vs)
array_length _ = 0

pub data Provisioning : Type 0 where
  installing ready failed : Provisioning

abbrev pub provisioning_title : Provisioning → Bool → Text
provisioning_title installing true = codes "Installing agent dependencies"
provisioning_title installing false = codes "Installing base dependencies"
provisioning_title ready true = codes "Agent dependencies ready"
provisioning_title ready false = codes "Base dependencies ready"
provisioning_title failed true = codes "Agent dependency installation failed"
provisioning_title failed false = codes "Base dependency installation failed"

abbrev pub is_text : Text → Option Json → Bool
is_text s (some (text t)) = same t s
is_text s _ = false

abbrev pub listed : Option Json → Text
listed (some (array vs)) = join (codes " ") (map string_of (elements vs))
listed _ = []

-- A field that is printed if it is truthy.
abbrev pub labelled : Text → Option Json → Text
labelled label v = if truthy v then label ++ string_or [] v else []

abbrev pub boolean_text : Bool → Text
boolean_text true = codes "true"
boolean_text false = codes "false"

unfoldable pub describe_environment : Json → Provisioning → Text
unfolding string_of
describe_environment p status =
    let fields =
      labelled (codes "operation_id: ") (get (codes "operation_id") p)
      ∷ labelled (codes "agent_id: ") (get (codes "agent_id") p)
      ∷ (codes "deps: [" ++ (listed (get (codes "dependencies") p) ++ codes "]"))
      ∷ (codes "using_uv: " ++ boolean_text (truthy (get (codes "using_uv") p)))
      ∷ (codes "cached: " ++ boolean_text (truthy (get (codes "cached") p)))
      ∷ (elim (get (codes "duration_ms") p) [
        | none ↦ []
        | some v ↦ codes "duration_ms: " ++ string_of v
      ])
      ∷ [] in
    provisioning_title status (is_text (codes "agent") (get (codes "scope") p))
    ++ (codes " (" ++ (join (codes ", ") (filter (λ f. not (same f [])) fields) ++ codes ")"))

unfoldable pub describe : EventType → Json → Text
unfolding string_of describe_environment type_name
describe EventType.workflow_started p =
    codes "workflow started: " ++ string_or [] (get (codes "workflow_id") p)
describe EventType.workflow_completed p =
    codes "workflow completed: " ++ string_or [] (get (codes "workflow") p)
describe EventType.workflow_failed p =
    codes "workflow failed at "
    ++ (string_or (codes "?") (get (codes "node_id") p)
        ++ (codes ": " ++ string_or [] (get (codes "reason") p)))
describe EventType.node_ready p = codes "node ready: " ++ string_or [] (get (codes "node_id") p)
describe EventType.task_dispatched p =
    codes "dispatched" ++ labelled (codes " on ") (get (codes "llm_model") p)
describe EventType.worker_started p = codes "worker started"
describe EventType.worker_completed p = codes "worker completed"
describe EventType.worker_files_written p =
    codes "files written: " ++ decimal (array_length (get (codes "files") p))
describe EventType.worker_verification_recorded p =
    codes "verification recorded: "
    ++ (decimal (array_length (get (codes "evidence") p)) ++ codes " check(s)")
describe EventType.task_failed p = codes "task failed: " ++ string_or [] (get (codes "node_id") p)
describe EventType.artifacts_produced p =
    codes "artifact produced: "
    ++ string_or [] (defined (get (codes "name") p) <|> get (codes "id") p)
describe EventType.runtime_started p = codes "runtime started"
describe EventType.runtime_shutdown p = codes "runtime shutdown"
describe EventType.environment_provisioning_started p = describe_environment p installing
describe EventType.environment_provisioning_completed p = describe_environment p ready
describe EventType.environment_provisioning_failed p = describe_environment p failed
describe type p = type_name type
