-- ===== src/Connection/Sockets.antt =====
-- The client (Connection) never listens again to a socket that it has left.
use reticle.Common.{ℕ, ◌<◌, Text, Bool, false, ◌≡◌, arith}
use reticle.Json.{Json}
use reticle.Connection.{
  ForgeClient, ReadyState, opened, closing, closed, Opening, Platform, Step, Steps, connects,
  disconnects, sends, opens, receives, fails, starts_closing, closes, retries, samples, disposes,
  here, next, set_state, on_failure, open_socket, connect_target, connect, disconnect, send,
  on_open, on_message, on_error, on_close, on_reconnect, on_sample, dispose, turn, is_current,
}

-- A socket that was made, and that is not the client's own.
pub record IsLeft (id : ℕ) (c : ForgeClient) : Type 0 where
  pub made : id < c.made
  pub other : is_current id c ≡ false

module _ (id : ℕ) (c : ForgeClient) (h : IsLeft id c) where
  open h use {made, other}

  connect-IsLeft : (host : Text) (port : ℕ) (o : Opening) → IsLeft id (connect host port o c).0
  unfolding connect connect_target open_socket on_failure
  connect-IsLeft host port o = ground arith

  disconnect-IsLeft : IsLeft id (disconnect c)
  unfolding disconnect set_state
  disconnect-IsLeft = ground arith

  dispose-IsLeft : IsLeft id (dispose c)
  unfolding dispose
  dispose-IsLeft = ground arith

  send-IsLeft : (command : Json) (accepts : Bool) → IsLeft id (send command accepts c).0
  unfolding send
  send-IsLeft command accepts = ground arith

  turn-IsLeft : (ready : ReadyState) (other_id : ℕ) → IsLeft id (turn ready other_id c)
  unfolding turn
  turn-IsLeft ready other_id = ground arith

  on_open-IsLeft : (now other_id : ℕ) → IsLeft id (on_open now other_id c)
  unfolding on_open set_state
  on_open-IsLeft now other_id = ground arith

  on_message-IsLeft :
      (p : Platform) (now other_id : ℕ) (raw : Text) → IsLeft id (on_message p now other_id raw c)
  unfolding on_message
  on_message-IsLeft p now other_id raw = ground arith

  on_error-IsLeft : (other_id : ℕ) (message : Text) → IsLeft id (on_error other_id message c)
  unfolding on_error set_state
  on_error-IsLeft other_id message = ground arith

  on_close-IsLeft : (other_id : ℕ) → IsLeft id (on_close other_id c)
  unfolding on_close on_failure
  on_close-IsLeft other_id = ground arith

  on_reconnect-IsLeft : (o : Opening) → IsLeft id (on_reconnect o c)
  unfolding on_reconnect open_socket on_failure
  on_reconnect-IsLeft o = ground arith

  on_sample-IsLeft : (p : Platform) → IsLeft id (on_sample p c)
  unfolding on_sample set_state
  on_sample-IsLeft p = ground arith

Step-IsLeft : {p : Platform} {c d : ForgeClient} (id : ℕ) → Step p c d → IsLeft id c → IsLeft id d
Step-IsLeft id (connects host port o c) h = connect-IsLeft id c h host port o
Step-IsLeft id (disconnects c) h = disconnect-IsLeft id c h
Step-IsLeft id (sends command accepts c) h = send-IsLeft id c h command accepts
Step-IsLeft id (opens now other c m) h =
    on_open-IsLeft id (turn opened other c) (turn-IsLeft id c h opened other) now other
Step-IsLeft {p} id (receives now other raw c) h = on_message-IsLeft id c h p now other raw
Step-IsLeft id (fails other message c) h =
    on_error-IsLeft id (turn closing other c) (turn-IsLeft id c h closing other) other message
Step-IsLeft id (starts_closing other c) h = turn-IsLeft id c h closing other
Step-IsLeft id (closes other c) h =
    on_close-IsLeft id (turn closed other c) (turn-IsLeft id c h closed other) other
Step-IsLeft id (retries o delay c t) h = on_reconnect-IsLeft id c h o
Step-IsLeft {p} id (samples c t) h = on_sample-IsLeft id c h p
Step-IsLeft id (disposes c) h = dispose-IsLeft id c h

Steps-IsLeft : {p : Platform} {c d : ForgeClient} (id : ℕ) → Steps p c d → IsLeft id c → IsLeft id d
Steps-IsLeft id here h = h
Steps-IsLeft id (next r s) h = Step-IsLeft id s (Steps-IsLeft id r h)

-- No event of a socket changes the client.
pub record Ignores (p : Platform) (id : ℕ) (d : ForgeClient) : Type 0 where
  pub no_open : (now : ℕ) → on_open now id (turn opened id d) ≡ d
  pub no_message : (now : ℕ) (raw : Text) → on_message p now id raw d ≡ d
  pub no_error : (message : Text) → on_error id message (turn closing id d) ≡ d
  pub no_close : on_close id (turn closed id d) ≡ d

IsLeft-Ignores : (p : Platform) (id : ℕ) (d : ForgeClient) → IsLeft id d → Ignores p id d
unfolding on_open on_message on_error on_close turn
IsLeft-Ignores p id d h = record {
  no_open = λ now. ground arith;
  no_message = λ now raw. ground arith;
  no_error = λ message. ground arith;
  no_close = ground arith;
}

-- Once a socket that was made is not the client's own, no event of it changes the client any more,
-- whatever else is called and happens.
pub Steps-Ignores :
    (p : Platform) (id : ℕ) (c d : ForgeClient) → IsLeft id c → Steps p c d → Ignores p id d
Steps-Ignores p id c d h r = IsLeft-Ignores p id d (Steps-IsLeft id r h)
