-- ===== src/Sync/Input.antt =====
-- What the client receives (websocket/src/sync/client.rs): `read_bytes_from_socket` and what it
-- calls, `insert_input_event`, `handle_recv_frame` and `handle_control_frame`.
pub mod Status
pub mod Closing
pub mod TextFrames
pub mod Reading
use websocket_std.Prelude.{
  ℕ, ◌<◌, List, [], ◌∷◌, ◌++◌, drop, length, Option, none, some, Bool, true, false, not, ◌==◌, ltb,
  if◌then◌else◌,
}
use websocket_std.Outcome.{
  WebSocketResult, WebSocketError, Outcome, ok, err, panic, slice, invalid_frame,
  decoding_from_utf8, expect,
}
use websocket_std.Core.Binary.{bytes_to_u16}
use websocket_std.Core.Net.{read_into_buffer}
use websocket_std.Std.Utf8.{from_utf8}
use websocket_std.Http.Headers.{Text}
use websocket_std.Http.Response
use websocket_std.Http.Response.{Response}
use websocket_std.WsBasic.Bitflags.{Bitflags}
use websocket_std.WsBasic.StatusCode.{
  ws_status_from_bits, evaulate_status_code, protocol_error, expected_status_code,
}
use websocket_std.WsBasic.Header.{fin, close, ping, pong}
use websocket_std.WsBasic.Header
use websocket_std.WsBasic.Frame.{
  get_status_code, Frame, ControlFrame, control_frame, data_frame, FrameKind, data_kind, control,
  not_define, kind, get_data, get_header, new_control, bytes_to_frame,
}
use websocket_std.Sync.Deps.{Deps}
use websocket_std.Sync.State.{
  State, WsClient, Event, websocket_data, http_response, http_request, no_data, WsEvent, on_text,
  on_close, client_close, React, ConnectionStatus, not_init, start_init, handshake, opened,
  client_wants_to_close, server_wants_to_close, closed,
}
use websocket_std.Sync.Exec.{
  Exec, continue, notify_with, pure, fail, lift, gets, ◌>>=◌, ◌>>◌, modify, set_status,
  push_front_output, notify,
}
use websocket_std.Sync.Send.{draw_mask}
use websocket_std.Sync.Output.{is_control, with_stream, shutdown_stream}
use websocket_std.Sync.Tcp.{TcpStream, read}

-- `String::from_utf8`, or the error.
unfoldable pub decode : List ℕ → WebSocketResult Text
decode bytes = elim (from_utf8 bytes) [ none ↦ err decoding_from_utf8 | some msg ↦ ok msg ]

abbrev known_status : Option ℕ → ℕ
known_status none = protocol_error
known_status (some status) = status

-- The status of the answer to a close frame with this status.
unfoldable pub answer_status : Deps → ℕ → ℕ
unfolding ws_status_from_bits evaulate_status_code
answer_status deps status_code =
    let status = known_status (ws_status_from_bits deps.bitflags status_code) in
    if (evaulate_status_code status).0 then protocol_error else status

abbrev sent_status : {E : Type 0} → Outcome E ℕ → ℕ
sent_status (ok n) = n
sent_status _ = expected_status_code

module _ {T : Type 0} (deps : Deps) where
  -- Once a frame is there, its bytes are drained from the storage.
  unfoldable pub take_frame : Option (Frame × ℕ) → Exec T Event
  take_frame none = pure no_data
  take_frame (some (frame, offset)) = do
    modify (λ c. record c { recv_storage = drop offset c.recv_storage })
    pure (websocket_data frame)

  unfoldable pub handle_recv_bytes_frame : Exec T Event
  handle_recv_bytes_frame s =
      continue (bytes_to_frame deps.bitflags s.client.recv_storage) take_frame s

  unfoldable pub take_response : Outcome Response.ParseError Response → Exec T Event
  take_response (err e) = pure no_data
  take_response panic = lift panic
  take_response (ok response) = do
    modify (λ c. record c { recv_storage = [] })
    pure (http_response response)

  unfoldable pub handle_recv_bytes_http_response : Exec T Event
  handle_recv_bytes_http_response s =
      take_response (Response.parse deps.to_lowercase s.client.recv_storage) s

  -- By the state of the connection, when there are bytes.
  unfoldable pub read_event : ConnectionStatus → List ℕ → Exec T Event
  read_event status [] = pure no_data
  read_event handshake (b ∷ bs) = handle_recv_bytes_http_response
  read_event opened (b ∷ bs) = handle_recv_bytes_frame
  read_event client_wants_to_close (b ∷ bs) = handle_recv_bytes_frame
  read_event server_wants_to_close (b ∷ bs) = handle_recv_bytes_frame
  read_event _ (b ∷ bs) = pure no_data

  -- The buffer holds 1024 bytes.
  unfoldable pub read_socket : Exec T (List ℕ)
  read_socket s =
      with_stream s.client.stream (λ t. (read_into_buffer (read 1024 t).0, (read 1024 t).1)) s

  unfoldable pub read_bytes_from_socket : Exec T Event
  read_bytes_from_socket = do
    bytes ← read_socket
    modify (λ c. record c { recv_storage = c.recv_storage ++ bytes })
    λ s. read_event s.client.connection_status s.client.recv_storage s

module _ {T : Type 0} where
  -- Control frames overtake what was received before.
  abbrev insert_frame : Bool → Frame → WsClient T → WsClient T
  insert_frame true frame c = record c { input_events = websocket_data frame ∷ c.input_events }
  insert_frame false frame c = record c {
    input_events = c.input_events ++ websocket_data frame ∷ [];
  }

  unfoldable pub insert_input_event : Event → Exec T (Unit {0})
  insert_input_event (websocket_data frame) = modify (insert_frame (is_control (kind frame)) frame)
  insert_input_event (http_response response) =
      modify λ c. record c { input_events = c.input_events ++ http_response response ∷ [] }
  insert_input_event (http_request request) = pure tt
  insert_input_event no_data = pure tt

  -- A text whose frames are joined.
  unfoldable pub deliver : React T → List ℕ → Text → Exec T (Unit {0})
  deliver react [] msg = notify react (on_text msg)
  deliver react (b ∷ previous) msg = do
    completed ← lift (decode (b ∷ previous))
    notify react (on_text (completed ++ msg))
    modify (λ c. record c { recv_data = [] })

  unfoldable pub decode_data : React T → Option ℕ → Frame → Exec T (Unit {0})
  decode_data react none frame = pure tt
  decode_data react (some pointer) frame = do
    msg ← lift (decode (get_data frame))
    λ s. deliver react s.client.recv_data msg s

  unfoldable pub handle_data_frame : React T → Frame → Exec T (Unit {0})
  handle_data_frame react frame = do
    modify (λ c. record c {
      recv_data =
          if Header.get_flag (get_header frame) == fin
          then c.recv_data
          else c.recv_data ++ get_data frame;
    })
    λ s. decode_data react s.client.callback frame s

module _ {T : Type 0} (deps : Deps) where
  -- The server asks to close: the answer is all that is left to send.
  unfoldable pub answer_close : ℕ → List ℕ → Exec T (Unit {0})
  answer_close status_code payload = do
    reason ← lift (slice 2 (length payload) payload)
    modify (λ c. record c { output_events = []; input_events = [] })
    mask ← draw_mask deps
    push_front_output (
        websocket_data (
          control_frame
            (new_control fin close (some (answer_status deps status_code)) reason true none mask)))
    set_status server_wants_to_close

  -- The status is unwrapped for a callback only.
  unfoldable pub close_notify : React T → Option ℕ → Option ℕ → Exec T (Unit {0})
  close_notify react status none = pure tt
  close_notify react status (some pointer) = do
    code ← lift (expect status)
    notify_with react (on_close (client_close code)) (some pointer)

  -- The server has answered our close frame.
  unfoldable pub close_answered : React T → Option ℕ → Exec T (Unit {0})
  close_answered react status = do
    set_status closed
    shutdown_stream
    λ s. close_notify react status s.client.callback s

  unfoldable pub handle_close_at : ConnectionStatus → React T → ControlFrame → ℕ → Exec T (Unit {0})
  handle_close_at opened react frame status_code = answer_close status_code frame.payload
  handle_close_at client_wants_to_close react frame status_code =
      close_answered react (get_status_code frame)
  handle_close_at _ react frame status_code = pure tt

  unfoldable pub handle_close : React T → ControlFrame → Exec T (Unit {0})
  handle_close react frame = do
    status_code ← lift (slice 0 2 frame.payload)
    λ s.
        handle_close_at s.client.connection_status react frame
          (sent_status (bytes_to_u16 status_code)) s

  unfoldable pub handle_ping : ControlFrame → Exec T (Unit {0})
  handle_ping frame = do
    mask ← draw_mask deps
    push_front_output
        (websocket_data (control_frame (new_control fin pong none frame.payload true none mask)))

  -- A pong is a `todo!`.
  unfoldable pub handle_control_frame : React T → ControlFrame → Exec T (Unit {0})
  handle_control_frame react frame =
      if Header.get_opcode frame.header == ping
      then handle_ping frame
      else if Header.get_opcode frame.header == pong
      then lift panic
      else if Header.get_opcode frame.header == close
      then handle_close react frame
      else fail invalid_frame

  -- `downcast_ref::<ControlFrame>().unwrap()`.
  unfoldable pub control_of : React T → Frame → Exec T (Unit {0})
  control_of react (data_frame f) = lift panic
  control_of react (control_frame f) = handle_control_frame react f

  unfoldable pub recv_by_kind : FrameKind → React T → Frame → Exec T (Unit {0})
  recv_by_kind data_kind react frame = handle_data_frame react frame
  recv_by_kind control react frame = control_of react frame
  recv_by_kind not_define react frame = fail invalid_frame

  unfoldable pub handle_recv_frame : React T → Frame → Exec T (Unit {0})
  handle_recv_frame react frame = recv_by_kind (kind frame) react frame
