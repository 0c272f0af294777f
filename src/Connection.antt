-- ===== src/Connection.antt =====
-- studio/electron/forge/client.ts: the client of the runtime's event stream, with `requireLocalHost`
-- of electron/forge/auth.ts. A socket of the library `ws` is known by its number and its ready state;
-- what its constructor does, and when its events fire, are arguments. A timer is known by whether it
-- is set, and the timer of the next attempt by its delay.
pub mod Laws
pub mod Recovery
pub mod Emitted
pub mod Sockets
use reticle.Common.{
  ℕ, suc, ◌+◌, ◌-◌, ◌*◌, ◌^◌, min, ltb, ◌==◌, Text, codes, same, contains, List, [], ◌∷◌, ◌++◌,
  Option, none, some, Bool, true, false, not, ◌||◌, if◌then◌else◌, includes, decimal, ◌≡◌,
}
use reticle.Json.{Json}
use reticle.Json.Stringify.{stringify}
use reticle.Events.{RuntimeEvent}
use reticle.Events.Decode.{decode_socket_event}
use reticle.Format.{ConnectionPhase, idle, connecting, connected, reconnecting}

pub data ReadyState : Type 0 where
  opening opened closing closed : ReadyState

pub record Socket : Type 0 where
  pub id : ℕ
  pub url : Text
  pub ready : ReadyState

pub record ConnectionState : Type 0 where
  pub phase : ConnectionPhase
  pub host : Text
  pub port : ℕ
  pub message : Option Text
  pub connected_at : Option ℕ
  pub attempt : ℕ
  pub event_rate : ℕ

-- What the client tells its listeners.
pub data Emission : Type 0 where
  event : RuntimeEvent → Emission
  state : ConnectionState → Emission

-- `made` counts the sockets that were made, `sent` lists the frames that were handed to a socket, and
-- `dropped` the sockets that the client has closed.
pub record ForgeClient : Type 0 where
  pub socket : Option Socket
  pub reconnect_timer : Option ℕ
  pub rate_timer : Bool
  pub events_in_window : ℕ
  pub intentionally_closed : Bool
  pub state : ConnectionState
  pub listening : Bool
  pub emitted : List Emission
  pub made : ℕ
  pub sent : List (ℕ × Text)
  pub dropped : List ℕ

abbrev pub initial_state : ConnectionState
initial_state = record {
  phase = idle;
  host = codes "127.0.0.1";
  port = 8080;
  message = none;
  connected_at = none;
  attempt = 0;
  event_rate = 0;
}

abbrev pub create_client : ForgeClient
create_client = record {
  socket = none;
  reconnect_timer = none;
  rate_timer = false;
  events_in_window = 0;
  intentionally_closed = false;
  state = initial_state;
  listening = true;
  emitted = [];
  made = 0;
  sent = [];
  dropped = [];
}

abbrev pub backoff_base_ms : ℕ
backoff_base_ms = 500

abbrev pub backoff_max_ms : ℕ
backoff_max_ms = 15000

-- What the client uses of its platform: JSON.parse, Date.parse, and the events of a window as a rate,
-- Math.round(n / 2000 * 1000), whose fractions are left to it.
pub record Platform : Type 0 where
  pub json_parse : Text → Option Json
  pub date_parse : Text → Option ℕ
  pub as_rate : ℕ → ℕ

-- What `new WebSocket` does.
pub data Opening : Type 0 where
  makes : Opening
  throws : Text → Opening

-- What a call returns: a value, or the message that is thrown.
pub data Outcome : Type 0 where
  returned : ConnectionState → Outcome
  thrown : Text → Outcome

unfoldable pub is_local_host : Text → Bool
is_local_host host = contains host (codes "localhost" ∷ codes "127.0.0.1" ∷ codes "::1" ∷ [])

abbrev emit : Emission → ForgeClient → ForgeClient
emit e c = record c { emitted = if c.listening then c.emitted ++ e ∷ [] else c.emitted }

unfoldable pub set_state : (ConnectionState → ConnectionState) → ForgeClient → ForgeClient
set_state patch c = emit (Emission.state (patch c.state)) (record c { state = patch c.state })

abbrev clear_reconnect : ForgeClient → ForgeClient
clear_reconnect c = record c { reconnect_timer = none }

abbrev stop_rate_sampling : ForgeClient → ForgeClient
stop_rate_sampling c = record c { rate_timer = false }

abbrev start_rate_sampling : ForgeClient → ForgeClient
start_rate_sampling c = record (stop_rate_sampling c) { events_in_window = 0; rate_timer = true }

abbrev teardown_socket : ForgeClient → ForgeClient
teardown_socket c = elim c.socket [
  | none ↦ c
  | some s ↦ record c { socket = none; dropped = c.dropped ++ s.id ∷ [] }
]

unfoldable pub retry_delay : ℕ → ℕ
retry_delay attempt = min (backoff_base_ms * 2 ^ (attempt - 1)) backoff_max_ms

unfoldable pub on_failure : Option Text → ForgeClient → ForgeClient
unfolding set_state
on_failure message c =
    let attempt = suc c.state.attempt in
    let c' =
      set_state
        (λ s. record s {
          phase = reconnecting;
          attempt = attempt;
          message = message;
          event_rate = 0;
          connected_at = none;
        })
        c in
    record c' { reconnect_timer = some (retry_delay attempt) }

unfoldable pub url_of : Text → ℕ → Text
url_of host port =
    codes "ws://"
    ++ ((if includes host (codes ":") then codes "[" ++ (host ++ codes "]") else host)
        ++ (codes ":" ++ (decimal port ++ codes "/ws")))

unfoldable pub open_socket : Opening → ForgeClient → ForgeClient
unfolding on_failure
open_socket (throws message) c = on_failure (some message) c
open_socket makes c = record c {
  socket = some (record { id = c.made; url = url_of c.state.host c.state.port; ready = opening });
  made = suc c.made;
}

abbrev pub is_live : Option Socket → Bool
is_live none = false
is_live (some s) = elim s.ready [
  | opening ↦ true
  | opened ↦ true
  | closing ↦ false
  | closed ↦ false
]

-- `connect` from where a changed target has been left: unless its socket lives, one is opened.
unfoldable pub connect_target : Text → ℕ → Opening → ForgeClient → ForgeClient
unfolding open_socket set_state
connect_target host port o c =
    if is_live c.socket
    then c
    else open_socket o (
        set_state
          (λ s. record s {
            host = host;
            port = port;
            phase = if ltb 0 s.attempt then reconnecting else connecting;
            message = none;
          })
          c)

unfoldable pub changes_target : Text → ℕ → ForgeClient → Bool
changes_target host port c = not (same host c.state.host) || not (port == c.state.port)

unfoldable pub connect : Text → ℕ → Opening → ForgeClient → ForgeClient × Outcome
unfolding connect_target
connect host port o c =
    if is_local_host host
    then (let c1 = clear_reconnect (record c { intentionally_closed = false }) in
        let c2 = if changes_target host port c then teardown_socket c1 else c1 in
        let c3 = connect_target host port o c2 in (c3, returned c3.state))
    else (c, thrown (codes "Only local Forge connections are supported"))

unfoldable pub disconnect : ForgeClient → ForgeClient
unfolding set_state
disconnect c =
    set_state (λ s. record s { phase = idle; attempt = 0; event_rate = 0; connected_at = none })
      (stop_rate_sampling
        (teardown_socket (clear_reconnect (record c { intentionally_closed = true }))))

-- `send`; `accepts` is whether the socket takes the frame without throwing.
unfoldable pub send : Json → Bool → ForgeClient → ForgeClient × Bool
send command accepts c = elim c.socket [
  | none ↦ (c, false)
  | some s ↦ elim s.ready [
    | opened ↦
        if accepts
        then (record c { sent = c.sent ++ (s.id, stringify command) ∷ [] }, true)
        else (c, false)
    | opening ↦ (c, false)
    | closing ↦ (c, false)
    | closed ↦ (c, false)
  ]
]

-- `this.socket === socket`, for the socket that a listener was put on.
abbrev pub is_current : ℕ → ForgeClient → Bool
is_current id c = elim c.socket [ none ↦ false | some s ↦ s.id == id ]

unfoldable pub on_open : ℕ → ℕ → ForgeClient → ForgeClient
unfolding set_state
on_open now id c =
    if is_current id c
    then start_rate_sampling (
        set_state
          (λ s. record s {
            phase = connected;
            attempt = 0;
            connected_at = some now;
            message = none;
          })
          c)
    else c

abbrev receive : Option RuntimeEvent → ForgeClient → ForgeClient
receive none c = c
receive (some e) c = emit (event e) (record c { events_in_window = c.events_in_window + 1 })

unfoldable pub on_message : Platform → ℕ → ℕ → Text → ForgeClient → ForgeClient
on_message p now id raw c =
    if is_current id c then receive (decode_socket_event p.json_parse p.date_parse now raw) c else c

unfoldable pub on_error : ℕ → Text → ForgeClient → ForgeClient
unfolding set_state
on_error id message c =
    if is_current id c then set_state (λ s. record s { message = some message }) c else c

unfoldable pub on_close : ℕ → ForgeClient → ForgeClient
unfolding on_failure
on_close id c =
    if is_current id c
    then (let c' = stop_rate_sampling (record c { socket = none }) in
        if c.intentionally_closed then c' else on_failure c'.state.message c')
    else c

-- The timer of the next attempt fires.
unfoldable pub on_reconnect : Opening → ForgeClient → ForgeClient
unfolding open_socket
on_reconnect o c =
    let c' = clear_reconnect c in if c.intentionally_closed then c' else open_socket o c'

-- The sampling timer fires.
unfoldable pub on_sample : Platform → ForgeClient → ForgeClient
unfolding set_state
on_sample p c =
    let rate = p.as_rate c.events_in_window in
    let c' = record c { events_in_window = 0 } in
    if rate == c.state.event_rate then c' else set_state (λ s. record s { event_rate = rate }) c'

unfoldable pub dispose : ForgeClient → ForgeClient
dispose c =
    record (teardown_socket
      (stop_rate_sampling (clear_reconnect (record c { intentionally_closed = true })))) {
        listening = false;
      }

-- The library turns a socket to another ready state; only that of the current socket is read.
unfoldable pub turn : ReadyState → ℕ → ForgeClient → ForgeClient
turn ready id c = elim c.socket [
  | none ↦ c
  | some s ↦ if s.id == id then record c { socket = some (record s { ready = ready }) } else c
]

-- Whether a socket that is being opened may become open: once only, from its first ready state.
abbrev pub may_open : ℕ → ForgeClient → Bool
may_open id c = elim c.socket [
  | none ↦ true
  | some s ↦
      if s.id == id
      then (elim s.ready [ opening ↦ true | opened ↦ false | closing ↦ false | closed ↦ false ])
      else true
]

-- One call, or one event of the library or of a timer. The library reports an event for any socket
-- that was ever made, opens a socket once, and closes it for good.
pub data Step (p : Platform) : ForgeClient → ForgeClient → Type 0 where
  connects :
      (host : Text) (port : ℕ) (o : Opening) (c : ForgeClient) → Step p c (connect host port o c).0
  disconnects : (c : ForgeClient) → Step p c (disconnect c)
  sends : (command : Json) (accepts : Bool) (c : ForgeClient) → Step p c (send command accepts c).0
  opens :
      (now id : ℕ) (c : ForgeClient)
      → may_open id c ≡ true
      → Step p c (on_open now id (turn opened id c))
  receives : (now id : ℕ) (raw : Text) (c : ForgeClient) → Step p c (on_message p now id raw c)
  fails :
      (id : ℕ) (message : Text) (c : ForgeClient)
      → Step p c (on_error id message (turn closing id c))
  starts_closing : (id : ℕ) (c : ForgeClient) → Step p c (turn closing id c)
  closes : (id : ℕ) (c : ForgeClient) → Step p c (on_close id (turn closed id c))
  retries :
      (o : Opening) (delay : ℕ) (c : ForgeClient)
      → c.reconnect_timer ≡ some delay
      → Step p c (on_reconnect o c)
  samples : (c : ForgeClient) → c.rate_timer ≡ true → Step p c (on_sample p c)
  disposes : (c : ForgeClient) → Step p c (dispose c)

pub data Steps (p : Platform) (c : ForgeClient) : ForgeClient → Type 0 where
  here : Steps p c c
  next : {d e : ForgeClient} → Steps p c d → Step p d e → Steps p c e
