-- ===== src/Connection/Laws.antt =====
-- What holds of the client (Connection) after any calls and events.
use reticle.Common.{
  ℕ, suc, ◌-◌, ◌≤◌, same, same_iff, Text, Option, none, some, Bool, true, false, ◌≡◌, refl, arith,
  contains, codes, Bool-cases, ◌≢◌, ◌⊎◌, inl, inr,
}
use native.Mathlib.Nat.{one-le-pow}
use reticle.Json.{Json}
use reticle.Format.{ConnectionPhase, idle, connecting, connected, reconnecting}
use reticle.Connection.{
  ForgeClient, ReadyState, opening, opened, closing, closed, Socket, Opening, Outcome, returned,
  thrown, Platform, Step, connects, disconnects, sends, opens, receives, fails, starts_closing,
  closes, retries, samples, disposes, Steps, here, next, create_client, set_state, on_failure,
  open_socket, connect_target, connect, changes_target, is_local_host, disconnect, send, on_open,
  on_message, on_error, on_close, on_reconnect, on_sample, dispose, turn, retry_delay, may_open,
}

abbrev pub InBounds : ℕ → Type 0
InBounds delay = (500 ≤ delay) × (delay ≤ 15000)

-- The delay of a retry is at least half a second and at most fifteen.
pub retry_delay-InBounds : (attempt : ℕ) → InBounds (retry_delay attempt)
unfolding retry_delay
retry_delay-InBounds attempt = omega (arith, one-le-pow (attempt - 1) 2 (omega arith))

-- A phase, whether a socket lives, is closing or is not there, and the timer of the next attempt.
abbrev pub Fits : ConnectionPhase → Option ReadyState → Option ℕ → Type 0
Fits idle none none = Unit {0}
Fits connecting (some opening) none = Unit {0}
Fits connecting (some closing) none = Unit {0}
Fits connecting (some closed) none = Unit {0}
Fits connected (some opened) none = Unit {0}
Fits connected (some closing) none = Unit {0}
Fits connected (some closed) none = Unit {0}
Fits reconnecting none (some delay) = InBounds delay
Fits reconnecting (some opening) none = Unit {0}
Fits reconnecting (some closing) none = Unit {0}
Fits reconnecting (some closed) none = Unit {0}
Fits reconnecting (some closing) (some delay) = InBounds delay
Fits reconnecting (some closed) (some delay) = InBounds delay
Fits _ _ _ = ⊥

abbrev pub ready_of : Option Socket → Option ReadyState
ready_of none = none
ready_of (some s) = some s.ready

-- A client that was closed on purpose has no socket and no timer; another is where its phase says.
abbrev pub Settled : Bool → ConnectionPhase → Option ReadyState → Option ℕ → Type 0
Settled true phase ready timer = (ready ≡ none) × (timer ≡ none)
Settled false phase ready timer = Fits phase ready timer

pub record IsSound (c : ForgeClient) : Type 0 where
  pub settled : Settled c.intentionally_closed c.state.phase (ready_of c.socket) c.reconnect_timer
  pub local : is_local_host c.state.host ≡ true

module _ (c : ForgeClient) (h : IsSound c) where
  open h use {settled, local}

  disconnect-IsSound : IsSound (disconnect c)
  unfolding disconnect set_state
  disconnect-IsSound = ground arith

  dispose-IsSound : IsSound (dispose c)
  unfolding dispose
  dispose-IsSound = ground arith

  send-IsSound : (command : Json) (accepts : Bool) → IsSound (send command accepts c).0
  unfolding send
  send-IsSound command accepts = ground arith

  on_open-IsSound :
      (now id : ℕ) → may_open id c ≡ true → IsSound (on_open now id (turn opened id c))
  unfolding on_open turn set_state
  on_open-IsSound now id m = ground arith

  on_message-IsSound :
      (p : Platform) (now id : ℕ) (raw : Text) → IsSound (on_message p now id raw c)
  unfolding on_message
  on_message-IsSound p now id raw = ground arith

  turn-IsSound : (id : ℕ) → IsSound (turn closing id c)
  unfolding turn
  turn-IsSound id = ground arith

  on_error-IsSound : (id : ℕ) (message : Text) → IsSound (on_error id message (turn closing id c))
  unfolding on_error turn set_state
  on_error-IsSound id message = ground arith

  on_close-IsSound : (id : ℕ) → IsSound (on_close id (turn closed id c))
  unfolding on_close turn on_failure
  on_close-IsSound id = ground (arith, retry_delay-InBounds (suc c.state.attempt))

  on_reconnect-IsSound :
      (o : Opening) (delay : ℕ) → c.reconnect_timer ≡ some delay → IsSound (on_reconnect o c)
  unfolding on_reconnect open_socket on_failure
  on_reconnect-IsSound o delay t = ground (arith, retry_delay-InBounds (suc c.state.attempt))

  on_sample-IsSound : (p : Platform) → IsSound (on_sample p c)
  unfolding on_sample set_state
  on_sample-IsSound p = ground arith

  connect-IsSound : (host : Text) (port : ℕ) (o : Opening) → IsSound (connect host port o c).0
  unfolding connect connect_target open_socket on_failure
  connect-IsSound host port o = ground (arith, retry_delay-InBounds (suc c.state.attempt))

Step-IsSound : {p : Platform} {c d : ForgeClient} → Step p c d → IsSound c → IsSound d
Step-IsSound (connects host port o c) h = connect-IsSound c h host port o
Step-IsSound (disconnects c) h = disconnect-IsSound c h
Step-IsSound (sends command accepts c) h = send-IsSound c h command accepts
Step-IsSound (opens now id c m) h = on_open-IsSound c h now id m
Step-IsSound {p} (receives now id raw c) h = on_message-IsSound c h p now id raw
Step-IsSound (fails id message c) h = on_error-IsSound c h id message
Step-IsSound (starts_closing id c) h = turn-IsSound c h id
Step-IsSound (closes id c) h = on_close-IsSound c h id
Step-IsSound (retries o delay c t) h = on_reconnect-IsSound c h o delay t
Step-IsSound {p} (samples c t) h = on_sample-IsSound c h p
Step-IsSound (disposes c) h = dispose-IsSound c h

create_client-IsSound : IsSound create_client
unfolding is_local_host contains same
create_client-IsSound = record { settled = tt; local = refl }

-- Whatever is called and whatever the sockets and timers do, a new client keeps to a local host, and
-- is either closed on purpose, with no socket and no retry pending, or where its phase says: idle with
-- neither, connecting with a socket that is not open yet and no retry, connected with a socket that
-- has been opened, or reconnecting with a socket or a retry. A pending retry waits from half a second
-- to fifteen seconds, and none is pending while a socket is open or opening.
pub Steps-IsSound : (p : Platform) (d : ForgeClient) → Steps p create_client d → IsSound d
Steps-IsSound p d here = create_client-IsSound
Steps-IsSound p e (next {d} r s) = Step-IsSound s (Steps-IsSound p d r)

-- What a call to connect does, by whether the host is local.
abbrev pub Answers : Bool → ForgeClient → Text → ℕ → ForgeClient → Outcome → Type 0
Answers false c host port d outcome =
    (d ≡ c) × (outcome ≡ thrown (codes "Only local Forge connections are supported"))
Answers true c host port d outcome =
    (outcome ≡ returned d.state)
    × (d.state.host ≡ host)
    × (d.state.port ≡ port)
    × (d.intentionally_closed ≡ false)
    × ((ready_of d.socket ≢ none) ⊎ (d.reconnect_timer ≢ none))

-- A connection to a host that is not local throws and leaves the client as it is. To another it
-- returns the state of the client, which has the target, is no longer closed on purpose, and has a
-- socket or a pending retry.
pub connect-Answers :
    (c : ForgeClient) (host : Text) (port : ℕ) (o : Opening)
    → Answers (is_local_host host) c host port (connect host port o c).0 (connect host port o c).1
unfolding connect connect_target open_socket on_failure changes_target set_state
connect-Answers c host port o = elim (Bool-cases (is_local_host host)) [
  | inl e ↦ rw e (ground (arith, same_iff host c.state.host))
  | inr e ↦ rw e (refl, refl)
]
