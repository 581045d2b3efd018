-- ===== src/Sync/Output.antt =====
-- What the client sends (websocket/src/sync/client.rs): `try_write`, `handle_send_frame`,
-- `handle_send_http_request` and `pop_output_event`.
pub mod Sending
pub mod Queue
use websocket_std.Prelude.{
  ℕ, List, [], ◌∷◌, ◌++◌, Option, none, some, Bool, true, false, ◌&&◌, if◌then◌else◌,
}
use websocket_std.Outcome.Display.{from_io_error, io}
use websocket_std.Outcome.{WebSocketResult, ok, err, panic, io_error}
use websocket_std.Http.Request
use websocket_std.Http.Request.{Request}
use websocket_std.WsBasic.Frame
use websocket_std.WsBasic.Frame.{
  get_status_code, Frame, data_frame, control_frame, FrameKind, data_kind, control, not_define,
  kind,
}
use websocket_std.Sync.Deps.{Deps}
use websocket_std.Sync.State.{
  State, WsClient, Event, websocket_data, http_request, is_websocket_data, on_close, server_close,
  React, ConnectionStatus, handshake, server_wants_to_close, closed,
}
use websocket_std.Sync.Exec.{
  Exec, pure, fail, lift, gets, ◌>>=◌, ◌>>◌, modify, set_status, push_front_output, notify,
}
use websocket_std.Sync.Tcp.{TcpStream, WriteResult, accepted, blocked, broken, write_all, shutdown}

-- The status of a control frame: `downcast_ref::<ControlFrame>().unwrap()` and `get_status_code`.
abbrev pub frame_status : FrameKind → Frame → WebSocketResult (Option ℕ)
frame_status control (data_frame f) = panic
frame_status control (control_frame f) = ok (get_status_code f)
frame_status data_kind frame = ok none
frame_status not_define frame = ok none

-- `unwrap_or(0)`.
abbrev pub or_zero : Option ℕ → ℕ
or_zero none = 0
or_zero (some n) = n

abbrev pub is_control : FrameKind → Bool
is_control control = true
is_control _ = false

abbrev pub is_server_wants_to_close : ConnectionStatus → Bool
is_server_wants_to_close server_wants_to_close = true
is_server_wants_to_close _ = false

abbrev pub is_handshake : ConnectionStatus → Bool
is_handshake handshake = true
is_handshake _ = false

-- A write that would block is tried again later.
abbrev written : WriteResult → WebSocketResult Bool
written accepted = ok true
written (blocked n) = ok false
written (broken n) = err io_error

abbrev shut_down : Bool → WebSocketResult (Unit {0})
shut_down true = ok tt
shut_down false = err (from_io_error io)

abbrev with_socket : Option TcpStream → List TcpStream → List TcpStream
with_socket none streams = streams
with_socket (some stream) streams = streams ++ stream ∷ []

module _ {T : Type 0} where
  -- `self.stream.as_mut().unwrap()`, and an operation on it.
  abbrev pub with_stream :
      {A : Type 0} → Option TcpStream → (TcpStream → WebSocketResult A × TcpStream) → Exec T A
  with_stream none f s = (panic, s)
  with_stream (some stream) f s =
      ((f stream).0, record s { client = record s.client { stream = some (f stream).1 } })

  unfoldable pub try_write : List ℕ → Exec T Bool
  try_write bytes s =
      with_stream s.client.stream (λ t. (written (write_all bytes t).0, (write_all bytes t).1)) s

  unfoldable pub shutdown_stream : Exec T (Unit {0})
  shutdown_stream s =
      with_stream s.client.stream (λ t. (shut_down (shutdown t).0, (shutdown t).1)) s

  -- The socket is dropped.
  unfoldable pub give_up : Exec T (Unit {0})
  give_up s = (
    ok tt,
    record s {
      given_up = with_socket s.client.stream s.given_up;
      client = record s.client { stream = none };
    },
  )

  -- The close frame, or whatever control frame went out, ends the close handshake of the server.
  unfoldable pub close_sent : React T → Option ℕ → Exec T (Unit {0})
  close_sent react status = do
    set_status closed
    shutdown_stream
    give_up
    notify react (on_close (server_close (or_zero status)))

  -- What is done once the write has ended.
  unfoldable pub after_send : React T → Frame → Bool → Option ℕ → Exec T (Unit {0})
  after_send react frame false status s = push_front_output (websocket_data frame) s
  after_send react frame true status s =
      if is_control (kind frame) && is_server_wants_to_close s.client.connection_status
      then close_sent react status s
      else (ok tt, s)

  unfoldable pub finish_send : React T → Frame → Bool → Exec T (Unit {0})
  finish_send react frame sent =
      lift (frame_status (kind frame) frame) >>= after_send react frame sent

  unfoldable pub handle_send_frame : React T → Frame → Exec T (Unit {0})
  handle_send_frame react frame = try_write (Frame.serialize frame) >>= finish_send react frame

  abbrev pub again : Event → Bool → Exec T (Unit {0})
  again event false = push_front_output event
  again event true = pure tt

  unfoldable pub handle_send_http_request : Deps → Request → Exec T (Unit {0})
  handle_send_http_request deps request =
      try_write (Request.serialize deps.order request) >>= again (http_request request)

  -- A frame is not taken while the handshake lasts.
  abbrev pub pop_from : List Event → WsClient T → Option Event × WsClient T
  pop_from [] c = (none, c)
  pop_from (event ∷ events) c =
      if is_handshake c.connection_status && is_websocket_data event
      then (none, c)
      else (some event, record c { output_events = events })

  unfoldable pub pop_output_event : Exec T (Option Event)
  unfolding is_websocket_data
  pop_output_event s = (
    ok (pop_from s.client.output_events s.client).0,
    record s { client = (pop_from s.client.output_events s.client).1 },
  )
