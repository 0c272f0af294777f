-- ===== src/Connection/Emitted.antt =====
-- What the client (Connection) tells its listeners.
use reticle.Common.{
  ℕ, Text, List, [], ◌∷◌, ◌++◌, Bool, true, ◌≡◌, refl, arith, Option-cases, inl, inr,
}
use reticle.Json.{Json}
use reticle.Events.{RuntimeEvent}
use reticle.Events.Decode.{decode_socket_event}
use reticle.Connection.{
  ForgeClient, ConnectionState, Emission, event, state, initial_state, ReadyState, opened, closing,
  closed, Opening, Platform, Step, Steps, connects, disconnects, sends, opens, receives, fails,
  starts_closing, closes, retries, samples, disposes, here, next, create_client, set_state,
  on_failure, open_socket, connect_target, connect, disconnect, send, on_open, on_message, on_error,
  on_close, on_reconnect, on_sample, dispose, turn, makes, throws,
}

-- The state that a listener knows which has started with the first state.
pub shown : ConnectionState → List Emission → ConnectionState
shown s [] = s
shown s (event e ∷ es) = shown s es
shown s (state t ∷ es) = shown t es

shown-append :
    (s : ConnectionState) (es : List Emission) (e : Emission)
    → shown s (es ++ e ∷ []) ≡ shown (shown s es) (e ∷ [])
unfolding shown
shown-append s [] e = refl
shown-append s (event x ∷ es) e = shown-append s es e
shown-append s (state t ∷ es) e = shown-append t es e

-- Until it is disposed, what the client has told is its state.
abbrev pub IsKnown : ForgeClient → Type 0
IsKnown c = c.listening ≡ true → shown initial_state c.emitted ≡ c.state

shown_state :
    (es : List Emission) (t : ConnectionState) → shown initial_state (es ++ state t ∷ []) ≡ t
unfolding shown
shown_state es t = shown-append initial_state es (state t)

shown_event :
    (es : List Emission) (e : RuntimeEvent)
    → shown initial_state (es ++ event e ∷ []) ≡ shown initial_state es
unfolding shown
shown_event es e = shown-append initial_state es (event e)

module _ (c : ForgeClient) (h : IsKnown c) where
  connect-IsKnown : (host : Text) (port : ℕ) (o : Opening) → IsKnown (connect host port o c).0
  unfolding connect connect_target open_socket on_failure set_state
  connect-IsKnown host port makes =
      ground (arith, shown_state c.emitted (connect host port makes c).0.state)
  connect-IsKnown host port (throws m) =
      let told = (connect host port makes c).0.emitted in
      ground (arith, shown_state told (connect host port (throws m) c).0.state)

  disconnect-IsKnown : IsKnown (disconnect c)
  unfolding disconnect set_state
  disconnect-IsKnown = ground (arith, shown_state c.emitted (disconnect c).state)

  send-IsKnown : (command : Json) (accepts : Bool) → IsKnown (send command accepts c).0
  unfolding send
  send-IsKnown command accepts = ground arith

  turn-IsKnown : (ready : ReadyState) (id : ℕ) → IsKnown (turn ready id c)
  unfolding turn
  turn-IsKnown ready id = ground arith

  on_open-IsKnown : (now id : ℕ) → IsKnown (on_open now id c)
  unfolding on_open set_state
  on_open-IsKnown now id = ground (arith, shown_state c.emitted (on_open now id c).state)

  on_message-IsKnown :
      (p : Platform) (now id : ℕ) (raw : Text) → IsKnown (on_message p now id raw c)
  unfolding on_message
  on_message-IsKnown p now id raw =
      elim (Option-cases (decode_socket_event p.json_parse p.date_parse now raw)) [
        | inl e ↦ rw e (ground arith)
        | inr (x, e) ↦ rw e (ground (arith, shown_event c.emitted x))
      ]

  on_error-IsKnown : (id : ℕ) (message : Text) → IsKnown (on_error id message c)
  unfolding on_error set_state
  on_error-IsKnown id message = ground (arith, shown_state c.emitted (on_error id message c).state)

  on_close-IsKnown : (id : ℕ) → IsKnown (on_close id c)
  unfolding on_close on_failure set_state
  on_close-IsKnown id = ground (arith, shown_state c.emitted (on_close id c).state)

  on_reconnect-IsKnown : (o : Opening) → IsKnown (on_reconnect o c)
  unfolding on_reconnect open_socket on_failure set_state
  on_reconnect-IsKnown o = ground (arith, shown_state c.emitted (on_reconnect o c).state)

  on_sample-IsKnown : (p : Platform) → IsKnown (on_sample p c)
  unfolding on_sample set_state
  on_sample-IsKnown p = ground (arith, shown_state c.emitted (on_sample p c).state)

  dispose-IsKnown : IsKnown (dispose c)
  unfolding dispose
  dispose-IsKnown = ground arith

Step-IsKnown : {p : Platform} {c d : ForgeClient} → Step p c d → IsKnown c → IsKnown d
Step-IsKnown (connects host port o c) h = connect-IsKnown c h host port o
Step-IsKnown (disconnects c) h = disconnect-IsKnown c h
Step-IsKnown (sends command accepts c) h = send-IsKnown c h command accepts
Step-IsKnown (opens now id c m) h =
    on_open-IsKnown (turn opened id c) (turn-IsKnown c h opened id) now id
Step-IsKnown {p} (receives now id raw c) h = on_message-IsKnown c h p now id raw
Step-IsKnown (fails id message c) h =
    on_error-IsKnown (turn closing id c) (turn-IsKnown c h closing id) id message
Step-IsKnown (starts_closing id c) h = turn-IsKnown c h closing id
Step-IsKnown (closes id c) h = on_close-IsKnown (turn closed id c) (turn-IsKnown c h closed id) id
Step-IsKnown (retries o delay c t) h = on_reconnect-IsKnown c h o
Step-IsKnown {p} (samples c t) h = on_sample-IsKnown c h p
Step-IsKnown (disposes c) h = dispose-IsKnown c h

Steps-told : {p : Platform} {d : ForgeClient} → Steps p create_client d → IsKnown d
unfolding shown
Steps-told here = λ k. refl
Steps-told (next r s) = Step-IsKnown s (Steps-told r)

-- Until the client is disposed, the last state that it has told its listeners is its state; where it
-- has told none, its state is the first.
pub Steps-IsKnown :
    (p : Platform) (d : ForgeClient)
    → Steps p create_client d
    → d.listening ≡ true
    → shown initial_state d.emitted ≡ d.state
Steps-IsKnown p d r l = Steps-told r l
