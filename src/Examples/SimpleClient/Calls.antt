-- ===== src/Examples/SimpleClient/Calls.antt =====
-- What the callback of examples/simple_client.rs does to the client of websocket/src/sync/client.rs,
-- and that it returns.
use websocket_std.Prelude.{
  ℕ, ◌+◌, ◌≡◌, refl, Option, none, some, length, Bool-cases, inl, inr, ◌^◌, ◌<◌,
}
use websocket_std.Outcome.{WebSocketResult, ok, err, panic, expect}
use websocket_std.Http.Headers.{Text}
use websocket_std.Sync.Deps.{Deps}
use websocket_std.Sync.State.{
  State, WsEvent, on_connect as connect_event, on_text as text_event, on_close as close_event,
}
use websocket_std.Sync.Send.{send, is_closed}
use websocket_std.Examples.SimpleClient.Callback.{greeted, greet_lem, websocket_handler-connect}
use websocket_std.Sync.Moves.{
  stay, Sound, Present, settings, Moved, Calm, quiet, Moved-refl, Moved-continue,
}
use websocket_std.Sync.Moves.Sends.{MovedIfEnds, MovedIfEnds-trans, send-MovedIfEnds}
use websocket_std.Examples.Shared.{left_by}
use websocket_std.Examples.SimpleClient.{
  on_message, greet, hello_world, on_close, on_connect, websocket_handler, callback,
}

-- The callback returns, and does not panic, whatever the event and the state of the connection: on the
-- message sizes that a client can send with, and with the data that the program sets.
pub websocket_handler-returns :
    (deps : Deps) (event : WsEvent) (cell : ℕ) (s : State ℕ)
    → 0 < s.client.message_size
    → s.client.message_size < 2 ^ 64
    → (t : State ℕ) × (websocket_handler deps event (some cell) s ≡ some (ok tt, t))
unfolding websocket_handler on_message on_close
websocket_handler-returns deps (connect_event msg) cell s pos word =
    elim (Bool-cases (is_closed s.client.connection_status)) [
      | inl down ↦ (
        record s { printed = greeted s.client.protocol msg s.printed },
        unfold on_connect send in rw (greet_lem msg s, down),
      )
      | inr live ↦
          let (n, events, runs, shape) =
            websocket_handler-connect deps msg (some cell) s pos word live in
          (_, runs)
    ]
websocket_handler-returns deps (text_event msg) cell s pos word = (_, refl)
websocket_handler-returns deps (close_event reason) cell s pos word = (_, refl)

-- What the callback leaves behind is moved as the call that ended; it ends where the client is sound.
left_by-Moved :
    (s : State ℕ) (o : Option (WebSocketResult (Unit {0}) × State ℕ))
    → MovedIfEnds s o
    → (Sound (settings s.client) → (t : State ℕ) × (o ≡ some (ok tt, t)))
    → Moved s (left_by s o)
left_by-Moved s none h ends = record {
  steps = stay;
  socket = λ p. p;
  same = refl;
  fares = λ sound. let (t, e) = ends sound in absurd (cc e);
}
left_by-Moved s (some (ok _, t)) h ends = h
left_by-Moved s (some (err e, t)) h ends = h
left_by-Moved s (some (panic, t)) h ends = record {
  steps = h.steps;
  socket = h.socket;
  same = h.same;
  fares = λ sound. let (u, e) = ends sound in absurd (cc e);
}

greet-Moved : (msg : Option Text) (s : State ℕ) → Moved s (greet msg s).1
unfolding greet
greet-Moved none s = quiet refl (λ p. p) refl
greet-Moved (some msg) s = quiet refl (λ p. p) refl

module _ (deps : Deps) where
  handler-MovedIfEnds :
      (event : WsEvent) (data_of : Option ℕ) (s : State ℕ)
      → MovedIfEnds s (websocket_handler deps event data_of s)
  unfolding websocket_handler on_connect on_message on_close
  handler-MovedIfEnds (connect_event msg) data_of s =
      MovedIfEnds-trans s (greet msg s).1
        (send deps (length hello_world + 1) hello_world (greet msg s).1) (greet-Moved msg s)
        (send-MovedIfEnds deps (length hello_world + 1) hello_world (greet msg s).1)
  handler-MovedIfEnds (text_event msg) data_of s =
      Moved-continue (expect data_of) _ (Moved-refl s) λ cell. quiet refl (λ p. p) refl
  handler-MovedIfEnds (close_event reason) data_of s = quiet refl (λ p. p) refl

  ends_on :
      (event : WsEvent) (d : Option ℕ) (s : State ℕ)
      → 0 < s.client.message_size
      → s.client.message_size < 2 ^ 64
      → Present d
      → (t : State ℕ) × (websocket_handler deps event d s ≡ some (ok tt, t))
  ends_on event none s pos word there = absurd there
  ends_on event (some cell) s pos word there = websocket_handler-returns deps event cell s pos word

  -- The callback of the program only sends: it moves the client as the client moves itself.
  pub callback-Calm : Calm (callback deps)
  callback-Calm pointer event s =
      left_by-Moved s (websocket_handler deps event s.client.cb_data s)
        (handler-MovedIfEnds event s.client.cb_data s)
        λ sound. ends_on event s.client.cb_data s sound.0 sound.1 sound.2
