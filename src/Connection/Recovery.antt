-- ===== src/Connection/Recovery.antt =====
-- The client (Connection) comes back by itself: what the runtime and the clock do leads to a connection.
use reticle.Common.{
  ℕ, suc, Text, Option, none, some, true, false, ◌≡◌, ◌≢◌, refl, arith, subst, ◌∙◌,
}
use reticle.Format.{idle, connected}
use reticle.Connection.{
  ForgeClient, ReadyState, opening, opened, closing, closed, Socket, makes, Platform, Steps,
  create_client, set_state, on_failure, open_socket, on_open, on_close, on_reconnect, turn,
  may_open, is_current, url_of, retry_delay,
}
use reticle.Connection.Laws.{Fits, Settled, Steps-IsSound, ready_of}

-- What the runtime and the clock do by themselves: the client's socket opens or closes, or the timer of
-- the next attempt fires and a socket is made.
pub data Event : ForgeClient → ForgeClient → Type 0 where
  opens :
      (now id : ℕ) (c : ForgeClient)
      → is_current id c ≡ true
      → may_open id c ≡ true
      → Event c (on_open now id (turn opened id c))
  closes :
      (id : ℕ) (c : ForgeClient) → is_current id c ≡ true → Event c (on_close id (turn closed id c))
  retries :
      (delay : ℕ) (c : ForgeClient)
      → c.reconnect_timer ≡ some delay
      → Event c (on_reconnect makes c)

-- A number of events, with no call of the client between them.
pub data Events : ℕ → ForgeClient → ForgeClient → Type 0 where
  here : {c : ForgeClient} → Events 0 c c
  next : {n : ℕ} {c d e : ForgeClient} → Event c d → Events n d e → Events (suc n) c e

-- A client that is connected to a host and port.
abbrev pub IsConnected : Text → ℕ → ForgeClient → Type 0
IsConnected host port c =
    (c.state.phase ≡ connected)
    × (ready_of c.socket ≡ some opened)
    × (c.state.host ≡ host)
    × (c.state.port ≡ port)

-- By a number of events, and without a call, to a connection to the same host and port.
abbrev pub Recovers : ℕ → ForgeClient → Type 0
Recovers n c = (d : ForgeClient) × Events n c d × IsConnected c.state.host c.state.port d

after :
    {n : ℕ} {c d : ForgeClient}
    → Event c d
    → d.state.host ≡ c.state.host
    → d.state.port ≡ c.state.port
    → Recovers n d
    → Recovers (suc n) c
after s h k (e, r, (a, b, h', k')) = (e, next s r, (a, b, h' ∙ h, k' ∙ k))

opening-Recovers :
    (c : ForgeClient) (s : Socket) → c.socket ≡ some s → s.ready ≡ opening → Recovers 1 c
unfolding on_open turn set_state
opening-Recovers c s e r =
    let m : may_open s.id c ≡ true = ground arith in
    (
      on_open 0 s.id (turn opened s.id c),
      next (opens 0 s.id c (ground arith) m) here,
      (ground arith, ground arith, ground arith, ground arith),
    )

timer-Recovers :
    (c : ForgeClient) (delay : ℕ)
    → c.reconnect_timer ≡ some delay
    → c.intentionally_closed ≡ false
    → Recovers 2 c
unfolding on_reconnect open_socket
timer-Recovers c delay e k = after (retries delay c e) (ground arith) (ground arith) (
    opening-Recovers (on_reconnect makes c)
      (record { id = c.made; url = url_of c.state.host c.state.port; ready = opening })
      (ground arith) refl)

-- Where a socket is lost, the retry that it leaves brings the client back.
closing-Recovers :
    (c : ForgeClient) (s : Socket)
    → c.socket ≡ some s
    → c.intentionally_closed ≡ false
    → Recovers 3 c
unfolding on_close turn on_failure set_state
closing-Recovers c s e k = after (closes s.id c (ground arith)) (ground arith) (ground arith) (
    timer-Recovers (on_close s.id (turn closed s.id c)) (retry_delay (suc c.state.attempt))
      (ground arith) (ground arith))

-- What is left to happen until the client is connected: its socket opens, its timer fires and the
-- socket that is made opens, or its socket closes first.
abbrev pub awaited : Option ReadyState → ℕ
awaited none = 2
awaited (some opening) = 1
awaited (some _) = 3

socket-Recovers :
    (c : ForgeClient) (id : ℕ) (url : Text) (r : ReadyState)
    → c.socket ≡ some (record { id = id; url = url; ready = r })
    → c.intentionally_closed ≡ false
    → Recovers (awaited (some r)) c
socket-Recovers c id url opening e k = opening-Recovers c _ e refl
socket-Recovers c id url opened e k = closing-Recovers c _ e k
socket-Recovers c id url closing e k = closing-Recovers c _ e k
socket-Recovers c id url closed e k = closing-Recovers c _ e k

Fits-Recovers :
    (c : ForgeClient) (socket : Option Socket) (timer : Option ℕ)
    → c.socket ≡ socket
    → c.reconnect_timer ≡ timer
    → Fits c.state.phase (ready_of socket) timer
    → c.intentionally_closed ≡ false
    → c.state.phase ≢ idle
    → Recovers (awaited (ready_of socket)) c
Fits-Recovers c none (some delay) e t f k n = timer-Recovers c delay t k
Fits-Recovers c none none e t f k n = absurd (ground arith)
Fits-Recovers c (some s) timer e t f k n = socket-Recovers c s.id s.url s.ready e k

-- A client that is not idle and was not closed on purpose comes back after any calls and events, without
-- a call: where its socket is being opened, by the socket's opening; where it has no socket, by the
-- pending retry and the opening of the socket that it makes; and otherwise by these two once its
-- socket has closed. It is then connected to the host and port that it had.
pub Steps-Recovers :
    (p : Platform) (c : ForgeClient)
    → Steps p create_client c
    → c.intentionally_closed ≡ false
    → c.state.phase ≢ idle
    → Recovers (awaited (ready_of c.socket)) c
Steps-Recovers p c r k n =
    let h = Steps-IsSound p c r in
    Fits-Recovers c c.socket c.reconnect_timer refl refl
      (subst (λ b. Settled b c.state.phase (ready_of c.socket) c.reconnect_timer) k h.settled) k n
