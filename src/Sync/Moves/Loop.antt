-- ===== src/Sync/Moves/Loop.antt =====
-- What `WSClient::event_loop` and `drop` (websocket/src/sync/client.rs) keep, and that the loop of
-- `drop` ends.
use websocket_std.Prelude.{
  ℕ, zero, suc, ◌+◌, ◌≤◌, ◌<◌, ◌≡◌, refl, sym, subst, ap, Option, none, some, Bool, true, false,
  not, ◌||◌, le→leb, if◌then◌else◌, Bool-cases, inl, inr, arith,
}
use websocket_std.Outcome.{WebSocketResult, ok, err, panic}
use websocket_std.Sync.Deps.{Deps}
use websocket_std.Sync.State.{
  State, Event, websocket_data, http_response, http_request, no_data, EventIo, input, output, React,
  ConnectionStatus, not_init, start_init, handshake, opened, client_wants_to_close,
  server_wants_to_close, closed,
}
use websocket_std.Sync.Input.{read_bytes_from_socket, insert_input_event}
use websocket_std.Sync.Output.{pop_output_event}
use websocket_std.Sync.EventLoop.{
  handle_event, handle_some, pop_input_event, run_once, loop_at, event_loop,
}
use websocket_std.Sync.Drop.{is_down, is_some, start_close, finish_close, drop_loop, drop}
use websocket_std.Sync.Send.{is_closed}
use websocket_std.Sync.Moves.{Settings, Moved, Keeps, Calm, Moved-refl, Keeps-bind}
use websocket_std.Sync.Moves.Handlers.{
  read_bytes_from_socket-Keeps, insert_input_event-Keeps, pop_input_event-Keeps,
  pop_output_event-Keeps, connect-Keeps, handle_recv_http_response-Keeps,
}
use websocket_std.Sync.Moves.Frames.{
  handle_recv_frame-Keeps, handle_send_frame-Keeps, handle_send_http_request-Keeps,
}

right_false : (b : Bool) {c : Bool} → (b || c) ≡ false → c ≡ false
right_false true h = cc
right_false false h = h

module _ {T : Type 0} (deps : Deps) (react : React T) (calm : Calm react) where
  handle_event-Keeps : (event : Event) (io : EventIo) → Keeps (handle_event deps react event io)
  unfolding handle_event
  handle_event-Keeps (websocket_data frame) input s =
      handle_recv_frame-Keeps deps react calm frame s
  handle_event-Keeps (http_response response) input s =
      handle_recv_http_response-Keeps deps react calm response s
  handle_event-Keeps (http_request request) input s = Moved-refl s
  handle_event-Keeps no_data input s = Moved-refl s
  handle_event-Keeps (websocket_data frame) output s =
      handle_send_frame-Keeps deps react calm frame s
  handle_event-Keeps (http_request request) output s =
      handle_send_http_request-Keeps deps react calm request s
  handle_event-Keeps (http_response response) output s = Moved-refl s
  handle_event-Keeps no_data output s = Moved-refl s

  handle_some-Keeps : (io : EventIo) (o : Option Event) → Keeps (handle_some deps react io o)
  unfolding handle_some
  handle_some-Keeps io none s = Moved-refl s
  handle_some-Keeps io (some event) s = handle_event-Keeps event io s

  run_once-Keeps : Keeps (run_once deps react)
  unfolding run_once
  run_once-Keeps s =
      Keeps-bind (read_bytes_from_socket deps) _ (read_bytes_from_socket-Keeps deps)
        (λ event. Keeps-bind (insert_input_event event) _ (insert_input_event-Keeps event) λ done.
          Keeps-bind pop_input_event _ pop_input_event-Keeps λ in_event.
            Keeps-bind pop_output_event _ pop_output_event-Keeps λ out_event.
              Keeps-bind (handle_some deps react input in_event) _
                (handle_some-Keeps input in_event) λ done2. handle_some-Keeps output out_event)
        s

  loop_at-Keeps :
      (st : ConnectionStatus) (s : State T)
      → s.client.connection_status ≡ st
      → Moved s (loop_at deps react st s).1
  unfolding loop_at
  loop_at-Keeps not_init s e = Moved-refl s
  loop_at-Keeps start_init s e = connect-Keeps deps s e
  loop_at-Keeps handshake s e = run_once-Keeps s
  loop_at-Keeps opened s e = run_once-Keeps s
  loop_at-Keeps client_wants_to_close s e = run_once-Keeps s
  loop_at-Keeps server_wants_to_close s e = run_once-Keeps s
  loop_at-Keeps closed s e = Moved-refl s

  -- A call of `event_loop` takes the connection along the steps of the state machine only, keeps a
  -- socket there while the client reads and writes, and leaves the settings alone, however it ends; on
  -- a client that can send, and whose callback has its data, the callbacks in it return. The callback,
  -- if it changes the client at all, does that in the same way, and returns on such a client.
  pub event_loop-Moved : (s : State T) → Moved s (event_loop deps react s).1
  unfolding event_loop
  event_loop-Moved s = loop_at-Keeps s.client.connection_status s refl

  Ends : Option (WebSocketResult (Unit {0}) × State T) → Type 0
  Ends o = (r : WebSocketResult (Unit {0}) × State T) × (o ≡ some r)

  timeout_kept : (s : State T) → (event_loop deps react s).1.client.timeout ≡ s.client.timeout
  timeout_kept s = ap (λ (x : Settings T). x.4) (event_loop-Moved s).same

  -- A round, given that the rounds behind it end.
  round-Ends :
      (elapsed : ℕ → ℕ) (fuel n : ℕ) (b : Bool) (s : State T) (r : WebSocketResult (Unit {0}))
      (t : State T)
      → (b ≡ false → Ends (drop_loop deps react elapsed fuel (n + 1) t))
      → Ends (
          if b then some (finish_close deps react s) else elim r [
            | ok _ ↦ drop_loop deps react elapsed fuel (n + 1) t
            | err e ↦ some (finish_close deps react t)
            | panic ↦ some (panic, t)
          ])
  unfolding Ends
  round-Ends elapsed fuel n true s r t rest = (finish_close deps react s, refl)
  round-Ends elapsed fuel n false s (ok _) t rest = rest refl
  round-Ends elapsed fuel n false s (err e) t rest = (finish_close deps react t, refl)
  round-Ends elapsed fuel n false s panic t rest = ((panic, t), refl)

  drop_loop-Ends :
      (elapsed : ℕ → ℕ) (fuel n k : ℕ) (s : State T)
      → s.client.timeout ≤ elapsed (n + k)
      → k < fuel
      → Ends (drop_loop deps react elapsed fuel n s)
  unfolding drop_loop
  drop_loop-Ends elapsed zero n k s late more = absurd (omega arith)
  drop_loop-Ends elapsed (suc fuel) n zero s late more =
      round-Ends elapsed fuel n _ s (event_loop deps react s).0 (event_loop deps react s).1 λ early.
        (let now : s.client.timeout ≤ elapsed n =
            subst (λ m. s.client.timeout ≤ elapsed m) (omega arith) late in
          cc (
            right_false (is_closed s.client.connection_status) early,
            le→leb s.client.timeout (elapsed n) now,
          ))
  drop_loop-Ends elapsed (suc fuel) n (suc k) s late more =
      round-Ends elapsed fuel n _ s (event_loop deps react s).0 (event_loop deps react s).1 λ early.
        drop_loop-Ends elapsed fuel (n + 1) k (event_loop deps react s).1
          (subst (λ t. t ≤ elapsed (n + 1 + k)) (sym (timeout_kept s))
            (subst (λ m. s.client.timeout ≤ elapsed m) (omega arith) late))
          (omega arith)

  -- The loop of `drop` ends, if the clock reaches the timeout of the client: if that has passed when
  -- the loop is run for the k-th time (from 0), fuel for k + 1 rounds is enough, whatever the server
  -- sends. The callback moves the client as `event_loop` itself does, if at all.
  pub drop-ends :
      (elapsed : ℕ → ℕ) (fuel k : ℕ) (s : State T)
      → s.client.timeout ≤ elapsed k
      → k < fuel
      → (r : WebSocketResult (Unit {0}) × State T) × (drop deps react elapsed fuel s ≡ some r)
  unfolding drop start_close Ends
  drop-ends elapsed fuel k s late more =
      elim (Bool-cases (is_down s.client.connection_status || not (is_some s.client.stream))) [
        | inl down ↦ ((ok tt, s), rw down refl)
        | inr up ↦
            let (r, e) =
              drop_loop-Ends elapsed fuel 0 k (start_close deps react s).1
                (subst (λ m. s.client.timeout ≤ elapsed m) (omega arith) late) more in
            (r, rw up e)
      ]
