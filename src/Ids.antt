-- ===== src/Ids.antt =====
-- studio/src/shared/ids.ts: the identity that a payload names.
pub mod Signals
pub mod Laws
use reticle.Common.{
  ℕ, suc, Text, codes, same, index_of, take, drop, List, [], ◌∷◌, ◌++◌, Option, none, some, Bool,
  true, false, ◌<|>◌, if◌then◌else◌,
}
use reticle.Json.{Json, get, str, is_object}

abbrev pub task_id_separator : Text
task_id_separator = codes "|"

abbrev pub unknown_exec : Text
unknown_exec = codes "unknown-exec"

pub record NodeIdentity : Type 0 where
  pub exec_id : Text
  pub node_id : Text
  pub task_id : Text
  pub agent_id : Option Text

-- The halves of a composite task id.
pub record TaskHalves : Type 0 where
  pub exec_id : Option Text
  pub node_id : Option Text

unfoldable pub parse_task_id : Option Text → TaskHalves
parse_task_id none = record { exec_id = none; node_id = none }
parse_task_id (some []) = record { exec_id = none; node_id = none }
parse_task_id (some (c ∷ s)) = elim (index_of (c ∷ s) task_id_separator) [
  | none ↦ record { exec_id = some (c ∷ s); node_id = none }
  | some index ↦ record {
    exec_id = some (take index (c ∷ s));
    node_id = some (drop (suc index) (c ∷ s));
  }
]

unfoldable pub make_task_id : Text → Text → Text
make_task_id exec_id node_id = exec_id ++ (task_id_separator ++ node_id)

-- `!id`: an identifier that is absent or empty
abbrev is_absent : Option Text → Bool
is_absent none = true
is_absent (some []) = true
is_absent (some (_ ∷ _)) = false

-- The last steps of `identify`, on the identifiers that were found.
unfoldable pub identity :
    Option Text → Option Text → Option Text → Option Text → Option NodeIdentity
unfolding make_task_id
identity (some (c ∷ exec)) (some (d ∷ node)) raw agent = some (record {
  exec_id = c ∷ exec;
  node_id = d ∷ node;
  task_id = elim raw [ none ↦ make_task_id (c ∷ exec) (d ∷ node) | some t ↦ t ];
  agent_id = agent;
})
identity _ _ raw agent = none

-- `identify` of a payload that is an object.
unfoldable pub identify_object : Json → Option NodeIdentity
unfolding parse_task_id identity
identify_object p =
    let raw_task_id = str (get (codes "task_id") p) <|> str (get (codes "id") p) in
    let from_task = parse_task_id raw_task_id in
    let exec_id =
      str (get (codes "exec_id") p) <|> str (get (codes "execution") p) <|> from_task.exec_id in
    let agent_id =
      str (get (codes "worker_id") p)
      <|> str (get (codes "producer") p)
      <|> str (get (codes "agent_id") p) in
    let node_id = from_task.node_id <|> str (get (codes "node_id") p) <|> agent_id in
    identity exec_id node_id raw_task_id agent_id

unfoldable pub identify : Json → Option NodeIdentity
unfolding identify_object
identify p = if is_object p then identify_object p else none

unfoldable pub identify_execution : Json → Option Text
unfolding parse_task_id
identify_execution p =
    if is_object p
    then str (get (codes "exec_id") p)
      <|> str (get (codes "execution") p)
      <|> (parse_task_id (str (get (codes "task_id") p) <|> str (get (codes "id") p))).exec_id
    else none
