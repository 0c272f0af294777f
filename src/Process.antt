-- ===== src/Process.antt =====
-- studio/electron/forge/process.ts: the runtime as a child process. What the file system and the
-- operating system answer are arguments, and a child is known by its number and its process id.
pub mod Laws
pub mod Chunks
pub mod Output
use reticle.Common.{
  ℕ, suc, ◌+◌, ◌==◌, Text, codes, same, trim, decimal, List, [], ◌∷◌, ◌++◌, Option, none, some,
  Bool, true, false, not, ◌&&◌, ◌||◌, if◌then◌else◌, ◌<|>◌, or_else,
}
use reticle.Common.Lines.{split_lines}

pub data ForgePhase : Type 0 where
  stopped starting running exited error : ForgePhase

-- An exit code of null is none too.
pub record ForgeState : Type 0 where
  pub phase : ForgePhase
  pub pid : Option ℕ
  pub exit_code : Option ℕ
  pub binary_path : Option Text
  pub cwd : Option Text
  pub args : List Text
  pub started_at : Option ℕ
  pub message : Option Text
  pub warning : Option Text

pub record ForgeStartRequest : Type 0 where
  pub native : Option Bool
  pub port : ℕ
  pub batch : Option ℕ
  pub retries : Option ℕ
  pub isolated : Option Bool
  pub fresh : Option Bool
  pub all_models : Option Bool
  pub prompt : Option Text
  pub workspace : Option Text

pub record ForgeSettings : Type 0 where
  pub binary_path : Text
  pub cwd : Text
  pub batch : ℕ
  pub retries : ℕ
  pub isolated : Bool
  pub all_models : Bool
  pub native : Bool
  pub workspace : Option Text

pub data OutputStream : Type 0 where
  stdout stderr : OutputStream

pub record ForgeOutputChunk : Type 0 where
  pub stream : OutputStream
  pub line : Text
  pub at : ℕ

pub record Child : Type 0 where
  pub id : ℕ
  pub pid : Option ℕ

-- `spawned` counts the children that were started.
pub record ForgeProcess : Type 0 where
  pub child : Option Child
  pub state : ForgeState
  pub stdout_tail : Text
  pub stderr_tail : Text
  pub outputs : List ForgeOutputChunk
  pub spawned : ℕ

-- What `spawn` does: a child with a process id, if it has one, or an exception.
pub data Spawn : Type 0 where
  spawns : Option ℕ → Spawn
  fails : Text → Spawn

-- What the platform answers to a start: whether the two paths exist, the warning of a stale binary,
-- the clock, and what `spawn` does.
pub record Platform : Type 0 where
  pub binary_exists : Bool
  pub cwd_exists : Bool
  pub warning : Option Text
  pub now : ℕ
  pub spawn : Spawn

abbrev flag : Bool → Text
flag true = codes "true"
flag false = codes "false"

abbrev when_set : Bool → Text → List Text
when_set true arg = arg ∷ []
when_set false arg = []

-- An argument with a text that is not empty.
abbrev with_text : Text → Option Text → List Text
with_text prefix none = []
with_text prefix (some []) = []
with_text prefix (some (c ∷ s)) = (prefix ++ c ∷ s) ∷ []

abbrev trimmed : Option Text → Option Text
trimmed none = none
trimmed (some s) = some (trim s)

unfoldable pub build_args : ForgeStartRequest → ForgeSettings → List Text
build_args r s =
    (codes "-port=" ++ decimal r.port)
    ∷ (codes "-batch=" ++ decimal (or_else r.batch s.batch))
    ∷ (codes "-retries=" ++ decimal (or_else r.retries s.retries))
    ∷ (codes "-isolated=" ++ flag (or_else r.isolated s.isolated))
    ∷ (when_set (or_else r.native s.native) (codes "-native")
        ++ (when_set (or_else r.all_models s.all_models) (codes "-all-models")
            ++ (when_set (or_else r.fresh false) (codes "-fresh")
                ++ (with_text (codes "-workspace=") (r.workspace <|> s.workspace)
                    ++ with_text [] (trimmed r.prompt)))))

abbrev with_error : Text → ForgeProcess → ForgeProcess
with_error message p = record p { state = record p.state { phase = error; message = some message } }

unfoldable pub binary_missing : Text → Text
binary_missing path =
    if same path []
    then codes "No forge binary configured. Set it in Settings → Forge."
    else codes "forge binary not found at "
      ++ (path ++ codes ". Build it with: cd cmd/forge && go build -o forge.exe")

unfoldable pub cwd_missing : Text → Text
cwd_missing cwd =
    codes "forge working directory not found: "
    ++ ((if same cwd [] then codes "(unset)" else cwd) ++ codes ". It must be <repo>/cmd/forge.")

-- `start` behind its guards.
unfoldable pub launch : Platform → ForgeStartRequest → ForgeSettings → ForgeProcess → ForgeProcess
unfolding build_args
launch env request settings p =
    let starting_state = record p.state {
      phase = starting;
      binary_path = some settings.binary_path;
      cwd = some settings.cwd;
      args = build_args request settings;
      started_at = some env.now;
      exit_code = none;
      message = none;
      warning = env.warning;
    } in
    elim env.spawn [
      | fails message ↦ with_error message (record p { state = starting_state })
      | spawns pid ↦ record p {
        child = some (record { id = p.spawned; pid = pid });
        state = record starting_state { phase = running; pid = pid };
        stdout_tail = [];
        stderr_tail = [];
        spawned = suc p.spawned;
      }
    ]

unfoldable pub start : Platform → ForgeStartRequest → ForgeSettings → ForgeProcess → ForgeProcess
unfolding launch binary_missing cwd_missing
start env request settings p = elim p.child [
  | some _ ↦ p
  | none ↦
      if same settings.binary_path [] || not env.binary_exists
      then with_error (binary_missing settings.binary_path) p
      else if same settings.cwd [] || not env.cwd_exists
      then with_error (cwd_missing settings.cwd) p
      else launch env request settings p
]

unfoldable pub emit_line : ℕ → OutputStream → Text → ForgeProcess → ForgeProcess
emit_line at stream [] p = p
emit_line at stream (c ∷ s) p = record p {
  outputs = p.outputs ++ record { stream = stream; line = c ∷ s; at = at } ∷ [];
}

unfoldable pub emit_lines : ℕ → OutputStream → List Text → ForgeProcess → ForgeProcess
unfolding emit_line
emit_lines at stream [] p = p
emit_lines at stream (l ∷ ls) p = emit_lines at stream ls (emit_line at stream l p)

abbrev pub tail_of : OutputStream → ForgeProcess → Text
tail_of stdout p = p.stdout_tail
tail_of stderr p = p.stderr_tail

abbrev pub set_tail : OutputStream → Text → ForgeProcess → ForgeProcess
set_tail stdout s p = record p { stdout_tail = s }
set_tail stderr s p = record p { stderr_tail = s }

-- `lines.pop() ?? ''`, and what it leaves.
unfoldable pub last_line : List Text → Text
last_line [] = []
last_line (l ∷ []) = l
last_line (l ∷ m ∷ ls) = last_line (m ∷ ls)

unfoldable pub but_last : List Text → List Text
but_last [] = []
but_last (l ∷ []) = []
but_last (l ∷ m ∷ ls) = l ∷ but_last (m ∷ ls)

unfoldable pub consume : ℕ → OutputStream → Text → ForgeProcess → ForgeProcess
unfolding split_lines emit_lines last_line but_last
consume at stream chunk p =
    let lines = split_lines (tail_of stream p ++ chunk) in
    emit_lines at stream (but_last lines) (set_tail stream (last_line lines) p)

abbrev pub is_child : ℕ → ForgeProcess → Bool
is_child id p = elim p.child [ none ↦ false | some c ↦ c.id == id ]

-- The child reports an error. Its message is taken from a child that has been replaced too.
unfoldable pub on_error : ℕ → Text → ForgeProcess → ForgeProcess
on_error id message p = with_error message (if is_child id p then record p { child = none } else p)

unfoldable pub on_close : ℕ → ℕ → Option ℕ → ForgeProcess → ForgeProcess
unfolding emit_line
on_close at id code p =
    if is_child id p
    then (let q = emit_line at stderr p.stderr_tail (emit_line at stdout p.stdout_tail p) in
        record q {
          stdout_tail = [];
          stderr_tail = [];
          child = none;
          state = record p.state { phase = exited; exit_code = code; pid = none };
        })
    else p

-- `stop` asks the child to end; what it sends, to which child.
pub data Signal : Type 0 where
  exit_line interrupt kill kill_tree : Signal

unfoldable pub stop : Bool → ForgeProcess → Option (ℕ × Signal)
stop on_windows p = elim p.child [
  | none ↦ none
  | some c ↦ some (c.id, if on_windows then exit_line else interrupt)
]

abbrev same_pid : Option ℕ → Option ℕ → Bool
same_pid none none = true
same_pid (some a) (some b) = a == b
same_pid _ _ = false

abbrev has_pid : Option ℕ → Bool
has_pid none = false
has_pid (some n) = not (n == 0)

-- The timer of `stop`, four seconds later: a child with the same process id is ended by force.
unfoldable pub escalate : Bool → Option ℕ → ForgeProcess → Option (ℕ × Signal)
escalate on_windows pid p = elim p.child [
  | none ↦ none
  | some c ↦
      if same_pid c.pid pid
      then some (c.id, if on_windows && has_pid pid then kill_tree else kill)
      else none
]

unfoldable pub dispose : ForgeProcess → ForgeProcess
dispose p = record p { child = none }
