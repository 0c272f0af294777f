-- ===== src/Tests/Connection.antt =====
-- The theorems on the client of the event stream at concrete inputs, and a run.
use reticle.Common.{
  ◌+◌, ◌/◌, codes, same, contains, includes, none, some, true, false, ◌≡◌, refl, arith, decimal,
}
use reticle.Format.{reconnecting}
use reticle.Connection.{
  Platform, ForgeClient, Steps, here, next, connects, opens, closes, disconnects, create_client,
  connect, disconnect, on_open, on_close, turn, opened, closed, makes, is_local_host, set_state,
  on_failure, open_socket, connect_target, changes_target, retry_delay, url_of, may_open,
  initial_state,
}
use reticle.Connection.Laws.{IsSound, ready_of, Steps-IsSound, Answers, connect-Answers}
use reticle.Connection.Recovery.{Recovers, awaited, Steps-Recovers}
use reticle.Connection.Sockets.{IsLeft, Ignores, Steps-Ignores}
use reticle.Connection.Emitted.{shown, Steps-IsKnown}

-- JSON.parse refuses every text here, and no date is read.
abbrev platform : Platform
platform = record { json_parse = λ s. none; date_parse = λ s. none; as_rate = λ n. (n + 1) / 2 }

-- A connection is asked for, opens, and is lost.
abbrev asked : ForgeClient
asked = (connect (codes "localhost") 9000 makes create_client).0

abbrev up : ForgeClient
up = on_open 7 0 (turn opened 0 asked)

abbrev lost : ForgeClient
lost = on_close 0 (turn closed 0 up)

asked-Steps : Steps platform create_client asked
asked-Steps = next here (connects (codes "localhost") 9000 makes create_client)

asked-may_open : may_open 0 asked ≡ true
unfolding connect connect_target open_socket set_state is_local_host contains same changes_target
asked-may_open = refl

lost-Steps : Steps platform create_client lost
lost-Steps = next (next asked-Steps (opens 7 0 asked asked-may_open)) (closes 0 up)

lost_retries :
    (lost.state.phase ≡ reconnecting)
    × (lost.reconnect_timer ≡ some 500)
    × (lost.intentionally_closed ≡ false)
unfolding connect connect_target open_socket set_state is_local_host contains same changes_target
    on_open turn on_close on_failure retry_delay
lost_retries = (refl, refl, refl)

asked_url : url_of (codes "::1") 8080 ≡ codes "ws://[::1]:8080/ws"
unfolding url_of includes decimal
asked_url = refl

Steps-IsSound_example : IsSound lost
Steps-IsSound_example = Steps-IsSound platform lost lost-Steps

Steps-Recovers_example : Recovers (awaited (ready_of lost.socket)) lost
Steps-Recovers_example = Steps-Recovers platform lost lost-Steps lost_retries.2 (cc lost_retries.0)

lost-IsLeft : IsLeft 0 lost
unfolding connect connect_target open_socket set_state is_local_host contains same changes_target
    on_open turn on_close on_failure
lost-IsLeft = record { made = omega arith; other = refl }

Steps-Ignores_example : Ignores platform 0 (disconnect lost)
Steps-Ignores_example =
    Steps-Ignores platform 0 lost (disconnect lost) lost-IsLeft (next here (disconnects lost))

lost-listens : lost.listening ≡ true
unfolding connect connect_target open_socket set_state is_local_host contains same changes_target
    on_open turn on_close on_failure
lost-listens = refl

Steps-IsKnown_example : shown initial_state lost.emitted ≡ lost.state
Steps-IsKnown_example = Steps-IsKnown platform lost lost-Steps lost-listens

connect-Answers_example :
    Answers
      (is_local_host (codes "example.org"))
      lost
      (codes "example.org")
      80
      (connect (codes "example.org") 80 makes lost).0
      (connect (codes "example.org") 80 makes lost).1
connect-Answers_example = connect-Answers lost (codes "example.org") 80 makes
