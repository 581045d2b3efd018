-- ===== src/Sync/EventLoop.antt =====
-- `WSClient::event_loop` and `WSClient::handle_event` (websocket/src/sync/client.rs): one input and
-- one output at a call.
pub mod CloseHandshake
pub mod CloseFrames
pub mod CloseAnswers
pub mod Closing
pub mod Ping
pub mod Delivery
pub mod Opening
pub mod Asking
pub mod Handshake
pub mod Transmission
pub mod Drained
use websocket_std.Prelude.{List, [], ◌∷◌, Option, none, some}
use websocket_std.Outcome.{ok, connection_close}
use websocket_std.Sync.Deps.{Deps}
use websocket_std.Sync.State.{
  Event, websocket_data, http_response, http_request, no_data, EventIo, input, output, React,
  ConnectionStatus, not_init, start_init, closed,
}
use websocket_std.Sync.Exec.{Exec, pure, fail, ◌>>=◌, ◌>>◌}
use websocket_std.Sync.Connect.{start_init as connect, handle_recv_http_response}
use websocket_std.Sync.Input.{read_bytes_from_socket, insert_input_event, handle_recv_frame}
use websocket_std.Sync.Output.{handle_send_frame, handle_send_http_request, pop_output_event}

abbrev front : List Event → Option Event
front [] = none
front (event ∷ events) = some event

abbrev behind : List Event → List Event
behind [] = []
behind (event ∷ events) = events

module _ {T : Type 0} where
  -- `self.input_events.pop_front()`.
  unfoldable pub pop_input_event : Exec T (Option Event)
  pop_input_event s = (
    ok (front s.client.input_events),
    record s { client = record s.client { input_events = behind s.client.input_events } },
  )

module _ {T : Type 0} (deps : Deps) (react : React T) where
  unfoldable pub handle_event : Event → EventIo → Exec T (Unit {0})
  handle_event (websocket_data frame) input = handle_recv_frame deps react frame
  handle_event (http_response response) input = handle_recv_http_response deps react response
  handle_event (http_request request) input = pure tt
  handle_event no_data input = pure tt
  handle_event (websocket_data frame) output = handle_send_frame react frame
  handle_event (http_request request) output = handle_send_http_request deps request
  handle_event (http_response response) output = pure tt
  handle_event no_data output = pure tt

  unfoldable pub handle_some : EventIo → Option Event → Exec T (Unit {0})
  handle_some io none = pure tt
  handle_some io (some event) = handle_event event io

  unfoldable pub run_once : Exec T (Unit {0})
  run_once = do
    event ← read_bytes_from_socket deps
    insert_input_event event
    in_event ← pop_input_event
    out_event ← pop_output_event
    handle_some input in_event
    handle_some output out_event

  unfoldable pub loop_at : ConnectionStatus → Exec T (Unit {0})
  loop_at not_init = pure tt
  loop_at start_init = connect deps
  loop_at closed = fail connection_close
  loop_at _ = run_once

  unfoldable pub event_loop : Exec T (Unit {0})
  event_loop s = loop_at s.client.connection_status s
