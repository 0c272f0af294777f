-- ===== src/Format.antt =====
-- Durations and sizes in words: studio/src/shared/runCompletion.ts, features/hitl/planModel.ts and
-- design/status.ts. Times are whole numbers of milliseconds, so that `Math.round(ms / 1000)` is
-- `(ms + 500) / 1000` and `Math.max(0, …)` changes nothing.
pub mod Laws
use reticle.Common.{
  ℕ, ◌+◌, ◌*◌, ◌/◌, ◌%◌, ◌-◌, Text, codes, List, [], ◌∷◌, ◌++◌, Option, none, some, Bool, true,
  false, ltb, leb, if◌then◌else◌, decimal, length,
}
use reticle.Projection.{NodeStatus, RunStatus}

abbrev pub round_seconds : ℕ → ℕ
round_seconds ms = (ms + 500) / 1000

-- The parts of a duration, before they are printed.
pub data Span : Type 0 where
  seconds : ℕ → Span
  minutes_seconds : ℕ → ℕ → Span
  minutes : ℕ → Span
  hours_minutes : ℕ → ℕ → Span
  days_hours : ℕ → ℕ → Span

abbrev pub print_span : Span → Text
print_span (seconds s) = decimal s ++ codes "s"
print_span (minutes_seconds m s) = decimal m ++ (codes "m " ++ (decimal s ++ codes "s"))
print_span (minutes m) = decimal m ++ codes "m"
print_span (hours_minutes h m) = decimal h ++ (codes "h " ++ (decimal m ++ codes "m"))
print_span (days_hours d h) = decimal d ++ (codes "d " ++ (decimal h ++ codes "h"))

unfoldable pub run_span : ℕ → Span
run_span ms =
    let s = round_seconds ms in
    if ltb s 60
    then seconds s
    else if ltb (s / 60) 60
    then minutes_seconds (s / 60) (s % 60)
    else hours_minutes (s / 60 / 60) (s / 60 % 60)

unfoldable pub format_run_duration : ℕ → Text
unfolding run_span
format_run_duration ms = print_span (run_span ms)

unfoldable pub waiting_span : ℕ → Span
waiting_span ms =
    let s = round_seconds ms in
    let m = s / 60 in
    let h = m / 60 in
    if ltb s 60
    then seconds s
    else if ltb m 60
    then minutes m
    else if ltb h 24
    then hours_minutes h (m % 60)
    else days_hours (h / 24) (h % 24)

unfoldable pub format_waiting : ℕ → Text
unfolding waiting_span
format_waiting ms = print_span (waiting_span ms)

unfoldable pub format_ago : ℕ → Text
format_ago delta =
    if ltb delta 1000
    then codes "now"
    else if ltb delta 60000
    then decimal (delta / 1000) ++ codes "s ago"
    else if ltb delta 3600000
    then decimal (delta / 60000) ++ codes "m ago"
    else if ltb delta 86400000
    then decimal (delta / 3600000) ++ codes "h ago"
    else decimal (delta / 86400000) ++ codes "d ago"

-- `formatRelative`, with the clock's reading as `now`
unfoldable pub format_relative : Option ℕ → ℕ → Text
unfolding format_ago
format_relative none now = codes "—"
format_relative (some at) now = format_ago (now - at)

unfoldable pub duration_var : Option ℕ → Text
duration_var none = codes "var(--color-fg-4)"
duration_var (some ms) =
    if ltb ms 1000
    then codes "var(--color-st-running)"
    else if ltb ms 5000
    then codes "var(--color-fg-2)"
    else codes "var(--color-fg-3)"

unfoldable pub node_status_var : NodeStatus → Text
node_status_var NodeStatus.pending = codes "var(--color-st-idle)"
node_status_var NodeStatus.running = codes "var(--color-st-running)"
node_status_var NodeStatus.done = codes "var(--color-st-done)"
node_status_var NodeStatus.failed = codes "var(--color-st-failed)"
node_status_var NodeStatus.waiting = codes "var(--color-st-waiting)"
node_status_var NodeStatus.blocked = codes "var(--color-st-failed)"
node_status_var NodeStatus.interrupted = codes "var(--color-st-waiting)"

unfoldable pub node_status_weak_var : NodeStatus → Text
node_status_weak_var NodeStatus.pending = codes "var(--color-st-idle-weak)"
node_status_weak_var NodeStatus.running = codes "var(--color-st-running-weak)"
node_status_weak_var NodeStatus.done = codes "var(--color-st-done-weak)"
node_status_weak_var NodeStatus.failed = codes "var(--color-st-failed-weak)"
node_status_weak_var NodeStatus.waiting = codes "var(--color-st-waiting-weak)"
node_status_weak_var NodeStatus.blocked = codes "var(--color-st-failed-weak)"
node_status_weak_var NodeStatus.interrupted = codes "var(--color-st-waiting-weak)"

unfoldable pub node_status_label : NodeStatus → Text
node_status_label NodeStatus.pending = codes "Pending"
node_status_label NodeStatus.running = codes "Running"
node_status_label NodeStatus.done = codes "Done"
node_status_label NodeStatus.failed = codes "Failed"
node_status_label NodeStatus.waiting = codes "Waiting"
node_status_label NodeStatus.blocked = codes "Blocked"
node_status_label NodeStatus.interrupted = codes "Interrupted"

unfoldable pub run_to_node : RunStatus → NodeStatus
run_to_node RunStatus.pending = NodeStatus.pending
run_to_node RunStatus.running = NodeStatus.running
run_to_node RunStatus.completed = NodeStatus.done
run_to_node RunStatus.paused = NodeStatus.waiting
run_to_node RunStatus.cancelled = NodeStatus.failed
run_to_node RunStatus.failed = NodeStatus.failed
run_to_node RunStatus.interrupted = NodeStatus.interrupted

unfoldable pub run_status_var : RunStatus → Text
unfolding node_status_var run_to_node
run_status_var status = node_status_var (run_to_node status)

pub data ExecutionStatus : Type 0 where
  pending running paused completed failed : ExecutionStatus

unfoldable pub execution_to_node : ExecutionStatus → NodeStatus
execution_to_node pending = NodeStatus.pending
execution_to_node running = NodeStatus.running
execution_to_node paused = NodeStatus.waiting
execution_to_node completed = NodeStatus.done
execution_to_node failed = NodeStatus.failed

unfoldable pub execution_status_var : ExecutionStatus → Text
unfolding node_status_var execution_to_node
execution_status_var status = node_status_var (execution_to_node status)

pub data ConnectionPhase : Type 0 where
  idle connecting connected reconnecting error : ConnectionPhase

unfoldable pub connection_var : ConnectionPhase → Text
connection_var connected = codes "var(--color-st-done)"
connection_var connecting = codes "var(--color-st-waiting)"
connection_var reconnecting = codes "var(--color-st-waiting)"
connection_var error = codes "var(--color-st-failed)"
connection_var idle = codes "var(--color-st-idle)"
