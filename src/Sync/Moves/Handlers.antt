-- ===== src/Sync/Moves/Handlers.antt =====
-- What each handler of the client (websocket/src/sync/client.rs) keeps.
use websocket_std.Prelude.{
  ℕ, ◌≡◌, refl, List, [], ◌∷◌, Option, none, some, Bool, true, false, ◌&&◌, Bool-cases, inl, inr,
}
use websocket_std.Outcome.{WebSocketResult, Outcome, ok, err, panic, hand_shake}
use websocket_std.Http.Headers.{Text}
use websocket_std.Http.Response
use websocket_std.Http.Response.{Response}
use websocket_std.WsBasic.Frame.{Frame, bytes_to_frame, kind}
use websocket_std.Sync.Deps.{Deps, gen_key, verify_key}
use websocket_std.Sync.Tcp.{TcpStream}
use websocket_std.Sync.State.{
  State, Connect, refused, connected, Event, websocket_data, http_response, http_request, no_data,
  is_websocket_data, on_connect, React, ConnectionStatus, not_init, start_init, handshake, opened,
  client_wants_to_close, server_wants_to_close, closed,
}
use websocket_std.Sync.Exec.{fail}
use websocket_std.Sync.Connect.{
  is_switching, base_headers, add_protocols, set_stream, open_stream, connect_with,
  start_init as connect, open_connection, accept_response, handle_response_at,
  handle_recv_http_response,
}
use websocket_std.Sync.Input.{
  take_frame, handle_recv_bytes_frame, take_response, handle_recv_bytes_http_response, read_event,
  read_socket, read_bytes_from_socket, insert_input_event,
}
use websocket_std.Sync.Output.{
  is_control, is_handshake, pop_from, with_stream, try_write, shutdown_stream, pop_output_event,
}
use websocket_std.Sync.EventLoop.{pop_input_event}
use websocket_std.Sync.Moves.{
  connects, opens, Moved, Keeps, Calm, quiet, Moved-refl, Moved-trans, advance_from, socket_at,
  Moved-if, Moved-continue, notify-Keeps,
}

module _ {T : Type 0} where
  pub with_stream-Keeps :
      {A : Type 0} (o : Option TcpStream) (f : TcpStream → WebSocketResult A × TcpStream)
      → (s : State T) → s.client.stream ≡ o
      → Moved s (with_stream o f s).1
  with_stream-Keeps none f s e = Moved-refl s
  with_stream-Keeps (some t) f s e = quiet refl (λ _. tt) refl

  pub try_write-Keeps : (bytes : List ℕ) → Keeps {T = T} (try_write bytes)
  unfolding try_write
  try_write-Keeps bytes s = with_stream-Keeps s.client.stream _ s refl

  pub shutdown_stream-Keeps : Keeps {T = T} shutdown_stream
  unfolding shutdown_stream
  shutdown_stream-Keeps s = with_stream-Keeps s.client.stream _ s refl

  with_stream-status :
      {A : Type 0} (o : Option TcpStream) (f : TcpStream → WebSocketResult A × TcpStream)
      (s : State T)
      → (with_stream o f s).1.client.connection_status ≡ s.client.connection_status
  with_stream-status none f s = refl
  with_stream-status (some t) f s = refl

  pub shutdown_stream-status :
      (s : State T) → (shutdown_stream s).1.client.connection_status ≡ s.client.connection_status
  unfolding shutdown_stream
  shutdown_stream-status s = with_stream-status s.client.stream _ s

  take_frame-Keeps :
      (deps : Deps) (taken : Option (Frame × ℕ)) → Keeps {T = T} (take_frame deps taken)
  unfolding take_frame
  take_frame-Keeps deps none s = Moved-refl s
  take_frame-Keeps deps (some (frame, offset)) s = quiet refl (λ p. p) refl

  read_socket-Keeps : (deps : Deps) → Keeps {T = T} (read_socket deps)
  unfolding read_socket
  read_socket-Keeps deps s = with_stream-Keeps s.client.stream _ s refl

  pub insert_input_event-Keeps : (event : Event) → Keeps {T = T} (insert_input_event event)
  unfolding insert_input_event
  insert_input_event-Keeps (websocket_data frame) s = elim (Bool-cases (is_control (kind frame))) [
    | inl c ↦ rw c (quiet refl (λ p. p) refl)
    | inr c ↦ rw c (quiet refl (λ p. p) refl)
  ]
  insert_input_event-Keeps (http_response response) s = quiet refl (λ p. p) refl
  insert_input_event-Keeps (http_request request) s = Moved-refl s
  insert_input_event-Keeps no_data s = Moved-refl s

  pop_from-Moved :
      (s : State T) (events : List Event)
      → Moved s (record s { client = (pop_from events s.client).1 })
  pop_from-Moved s [] = Moved-refl s
  pop_from-Moved s (event ∷ events) =
      elim (Bool-cases (is_handshake s.client.connection_status && is_websocket_data event)) [
        | inl c ↦ rw c (Moved-refl s)
        | inr c ↦ rw c (quiet refl (λ p. p) refl)
      ]

  pub pop_output_event-Keeps : Keeps {T = T} pop_output_event
  unfolding pop_output_event
  pop_output_event-Keeps s = pop_from-Moved s s.client.output_events

  pub pop_input_event-Keeps : Keeps {T = T} pop_input_event
  unfolding pop_input_event
  pop_input_event-Keeps s = quiet refl (λ p. p) refl

module _ {T : Type 0} (deps : Deps) where
  handle_recv_bytes_frame-Keeps : Keeps {T = T} (handle_recv_bytes_frame deps)
  unfolding handle_recv_bytes_frame
  handle_recv_bytes_frame-Keeps s =
      Moved-continue (bytes_to_frame deps.bitflags s.client.recv_storage) (take_frame deps)
        (Moved-refl s) λ taken. take_frame-Keeps deps taken s

  take_response-Keeps :
      (r : Outcome Response.ParseError Response) → Keeps {T = T} (take_response deps r)
  unfolding take_response
  take_response-Keeps (err e) s = Moved-refl s
  take_response-Keeps panic s = Moved-refl s
  take_response-Keeps (ok response) s = quiet refl (λ p. p) refl

  read_event-Keeps : (st : ConnectionStatus) (bs : List ℕ) → Keeps {T = T} (read_event deps st bs)
  unfolding read_event handle_recv_bytes_http_response
  read_event-Keeps st [] s = Moved-refl s
  read_event-Keeps handshake (b ∷ bs) s =
      take_response-Keeps (Response.parse deps.to_lowercase s.client.recv_storage) s
  read_event-Keeps opened (b ∷ bs) s = handle_recv_bytes_frame-Keeps s
  read_event-Keeps client_wants_to_close (b ∷ bs) s = handle_recv_bytes_frame-Keeps s
  read_event-Keeps server_wants_to_close (b ∷ bs) s = handle_recv_bytes_frame-Keeps s
  read_event-Keeps not_init (b ∷ bs) s = Moved-refl s
  read_event-Keeps start_init (b ∷ bs) s = Moved-refl s
  read_event-Keeps closed (b ∷ bs) s = Moved-refl s

  pub read_bytes_from_socket-Keeps : Keeps {T = T} (read_bytes_from_socket deps)
  unfolding read_bytes_from_socket
  read_bytes_from_socket-Keeps s =
      Moved-continue (read_socket deps s).0 _ (read_socket-Keeps deps s)
        λ bytes. Moved-trans (quiet refl (λ p. p) refl) (read_event-Keeps _ _ _)

  set_stream-Keeps :
      (stream : TcpStream) (b : Bool) (s : State T)
      → s.client.connection_status ≡ start_init
      → Moved s (set_stream deps stream b s).1
  unfolding set_stream
  set_stream-Keeps stream false s e = Moved-refl s
  set_stream-Keeps stream true s e = advance_from e connects (λ _ _. tt) refl

  open_stream-Keeps :
      (stream : TcpStream) (b : Bool) (s : State T)
      → s.client.connection_status ≡ start_init
      → Moved s (open_stream deps stream b s).1
  unfolding open_stream
  open_stream-Keeps stream b s e =
      Moved-continue
        (add_protocols s.client.acceptable_protocols (base_headers (gen_key deps s.draws).0)) _
        (quiet refl (λ p. p) refl)
        λ headers. Moved-trans (quiet refl (λ p. p) refl) (set_stream-Keeps stream b _ e)

  connect_with-Keeps :
      (c : Connect) (s : State T)
      → s.client.connection_status ≡ start_init
      → Moved s (connect_with deps c s).1
  unfolding connect_with
  connect_with-Keeps refused s e = Moved-refl s
  connect_with-Keeps (connected stream b) s e = open_stream-Keeps stream b s e

  pub connect-Keeps :
      (s : State T) → s.client.connection_status ≡ start_init → Moved s (connect deps s).1
  unfolding connect
  connect-Keeps s e = Moved-trans (quiet refl (λ p. p) refl) (connect_with-Keeps _ _ e)

module _ {T : Type 0} (deps : Deps) (react : React T) (calm : Calm react) where
  open_connection-Keeps :
      (response : Response) (s : State T)
      → s.client.connection_status ≡ handshake
      → Moved s (open_connection deps react response s).1
  unfolding open_connection
  open_connection-Keeps response s e =
      Moved-trans (advance_from e opens (λ h _. socket_at s e tt h) refl)
        (notify-Keeps react calm (on_connect response.body) _)

  accept_response-Keeps :
      (response : Response) (accept : Option Text) (s : State T)
      → s.client.connection_status ≡ handshake
      → Moved s (accept_response deps react response accept s).1
  unfolding accept_response
  accept_response-Keeps response none s e = Moved-refl s
  accept_response-Keeps response (some accept) s e =
      Moved-if (verify_key deps s.client.websocket_key accept && is_switching response)
        (open_connection deps react response) (fail hand_shake) s
        (open_connection-Keeps response s e) (Moved-refl s)

  handle_response_at-Keeps :
      (st : ConnectionStatus) (response : Response) (s : State T)
      → s.client.connection_status ≡ st
      → Moved s (handle_response_at deps st react response s).1
  unfolding handle_response_at
  handle_response_at-Keeps handshake response s e = accept_response-Keeps response _ s e
  handle_response_at-Keeps not_init response s e = Moved-refl s
  handle_response_at-Keeps start_init response s e = Moved-refl s
  handle_response_at-Keeps opened response s e = Moved-refl s
  handle_response_at-Keeps client_wants_to_close response s e = Moved-refl s
  handle_response_at-Keeps server_wants_to_close response s e = Moved-refl s
  handle_response_at-Keeps closed response s e = Moved-refl s

  pub handle_recv_http_response-Keeps :
      (response : Response) → Keeps (handle_recv_http_response deps react response)
  unfolding handle_recv_http_response
  handle_recv_http_response-Keeps response s =
      handle_response_at-Keeps s.client.connection_status response s refl
