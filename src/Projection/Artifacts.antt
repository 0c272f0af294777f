-- ===== src/Projection/Artifacts.antt =====
-- The cases of `applyToBatch` (projection.ts) that record an artifact.
use reticle.Common.{
  ℕ, Text, codes, same, starts_with, split, lookup, values, length, List, [], ◌∷◌, find, Option,
  none, some, Bool, true, false, ◌&&◌, ◌||◌, ◌<|>◌, or_else, if◌then◌else◌, is_some, ◌==◌,
  get_elem?,
}
use reticle.Json.{ℤ, pos, negsuc, Json, null, number, text, get, defined, as_text, str}
use reticle.Json.Stringify.{stringify}
use reticle.Ids.{identify_execution}
use reticle.Projection.{parsed, ArtifactRef, RunNode, Run}
use reticle.Projection.Draft.{Batch, draft_run, draft_node, write_node}
use reticle.Projection.Identity.{set_agent}
use reticle.Projection.Workflow.{task_of}

abbrev pub as_number : Option Json → Option ℤ
as_number (some (number n)) = some n
as_number _ = none

-- `JSON.stringify(content).length`, or the length of a text
abbrev pub size_of : Option Json → Option ℕ
size_of none = none
size_of (some null) = none
size_of (some (text s)) = some (length s)
size_of (some v) = some (length (stringify v))

unfoldable pub is_text_artifact : Option Text → Bool
is_text_artifact none = false
is_text_artifact (some type) =
    starts_with type (codes "text/") || starts_with type (codes "document/")

abbrev pub text_of : Option Json → Option Text
text_of v = as_text v

-- `toArtifactRef`, on a payload whose `id` is a text
unfoldable pub to_artifact_ref : Text → Json → ArtifactRef
unfolding is_text_artifact
to_artifact_ref id artifact =
    let content = get (codes "data") artifact in
    let type = as_text (get (codes "type") artifact) in
    record {
      id = id;
      name = as_text (get (codes "name") artifact);
      type = type;
      producer = as_text (get (codes "producer") artifact);
      version = as_number (get (codes "version") artifact);
      created_at = elim (str (get (codes "created_at") artifact)) [
        | none ↦ none
        | some at ↦ some (parsed at)
      ];
      has_data = is_some (defined content);
      data_size = size_of content;
      content = if is_text_artifact type then as_text content else none;
    }

unfoldable pub same_number : ℤ → ℤ → Bool
same_number (pos a) (pos b) = a == b
same_number (negsuc a) (negsuc b) = a == b
same_number _ _ = false

unfoldable pub same_version : Option ℤ → Option ℤ → Bool
unfolding same_number
same_version none none = true
same_version (some a) (some b) = same_number a b
same_version _ _ = false

abbrev pub same_artifact : ArtifactRef → ArtifactRef → Bool
same_artifact a ref = same a.id ref.id && same_version a.version ref.version

-- The first entry with the reference's id and version is replaced; without one it is appended.
unfoldable pub put_artifact : ArtifactRef → List ArtifactRef → List ArtifactRef
put_artifact ref [] = ref ∷ []
put_artifact ref (a ∷ rest) =
    let more = put_artifact ref rest in if same_artifact a ref then ref ∷ rest else a ∷ more

abbrev pub add_artifact : ArtifactRef → RunNode → RunNode
add_artifact ref node = record node { artifacts = put_artifact ref node.artifacts }

-- The node that `task` names: the second part between separators.
unfoldable pub task_node : Option Text → Option Text
task_node none = none
task_node (some task) = elim (get_elem? (split b'|' task) 1) [
  | none ↦ none
  | some [] ↦ none
  | some (c ∷ n) ↦ some (c ∷ n)
]

abbrev pub is_producer : Text → RunNode → Bool
is_producer producer node =
    (elim node.agent_id [ none ↦ false | some a ↦ same a producer ]) || same node.node_id producer

-- The first node of the run that claims the producer.
unfoldable pub producer_node : Option Text → Option Run → Option Text
producer_node (some (c ∷ p)) (some run) = elim (find (is_producer (c ∷ p)) (values run.nodes)) [
  | none ↦ none
  | some node ↦ some node.node_id
]
producer_node _ _ = none

unfoldable pub artifact_execution : Json → Option Text
artifact_execution payload =
    elim (as_text (get (codes "execution") payload) <|> identify_execution payload) [
      | none ↦ none
      | some [] ↦ none
      | some (c ∷ e) ↦ some (c ∷ e)
    ]

-- The artifact is attached to the node that was found; an empty node id is none.
unfoldable pub attach_to : Option Text → Text → Text → Json → Batch → Batch
unfolding to_artifact_ref put_artifact
attach_to none e id payload batch = batch
attach_to (some []) e id payload batch = batch
attach_to (some (c ∷ n)) e id payload batch =
    let task = as_text (get (codes "task") payload) in
    let producer = as_text (get (codes "producer") payload) in
    write_node e (c ∷ n)
      (λ node. add_artifact (to_artifact_ref id payload) (set_agent producer node))
      (draft_node e (c ∷ n) (or_else task (task_of e (c ∷ n))) (draft_run e batch))

unfoldable pub attach : Text → Text → Json → Batch → Batch
unfolding attach_to
attach e id payload batch =
    attach_to
      (task_node (as_text (get (codes "task") payload))
        <|> producer_node (as_text (get (codes "producer") payload)) (lookup e batch.runs))
      e id payload batch

unfoldable pub artifact_stored : Json → Batch → Batch
unfolding artifact_execution attach
artifact_stored payload batch = elim (as_text (get (codes "id") payload)) [
  | none ↦ batch
  | some id ↦ elim (artifact_execution payload) [
    | none ↦ batch
    | some e ↦ attach e id payload batch
  ]
]
