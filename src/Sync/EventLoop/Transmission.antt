-- ===== src/Sync/EventLoop/Transmission.antt =====
-- `WSClient::event_loop` (websocket/src/sync/client.rs) from the queue of frames to the socket.
use websocket_std.Prelude.{◌≡◌, refl, ap, ◌∙◌, List, [], ◌∷◌, ◌++◌, some}
use websocket_std.Outcome.{ok}
use websocket_std.Core.Net.{ReadResult, would_block, read_into_buffer}
use websocket_std.WsBasic.Frame
use websocket_std.WsBasic.Frame.{Frame, kind, data_kind}
use websocket_std.Sync.Deps.{Deps}
use websocket_std.Sync.Tcp.{TcpStream, WriteResult, accepted, read}
use websocket_std.Sync.State.{
  State, Event, websocket_data, no_data, React, ConnectionStatus, opened,
}
use websocket_std.Sync.Input.{read_bytes_from_socket, read_socket, read_event, insert_input_event}
use websocket_std.Sync.Output.{pop_output_event, handle_send_frame}
use websocket_std.Sync.Output.Sending.{handle_send_frame-data}
use websocket_std.Sync.EventLoop.{
  event_loop, loop_at, run_once, pop_input_event, handle_some, handle_event,
}

module _ {T : Type 0} (deps : Deps) (react : React T) (s : State T) (stream : TcpStream)
    (later : List ReadResult) (has : s.client.stream ≡ some stream) where
  -- The socket has been asked for bytes.
  abbrev asked : State T
  asked = record s {
    client = record s.client { stream = some (record stream { incoming = later }) };
  }

  read_bytes_from_socket-nothing :
      stream.incoming ≡ would_block ∷ later
      → s.client.recv_storage ≡ []
      → read_bytes_from_socket deps s ≡ (ok no_data, asked)
  unfolding read_bytes_from_socket read_socket read read_into_buffer read_event
  read_bytes_from_socket-nothing quiet storage = rw (has, quiet, storage)

  pub run_once-output :
      (f : Frame) (events : List Event)
      → stream.incoming ≡ would_block ∷ later
      → s.client.recv_storage ≡ []
      → s.client.connection_status ≡ opened
      → s.client.input_events ≡ []
      → s.client.output_events ≡ websocket_data f ∷ events
      → run_once deps react s
        ≡ handle_send_frame react f
            (record asked { client = record asked.client { output_events = events } })
  unfolding run_once insert_input_event pop_input_event pop_output_event handle_some handle_event
  run_once-output f events quiet storage st ins outs =
      rw (read_bytes_from_socket-nothing quiet storage, ins, outs, st)

-- A data frame at the head of the queue of an open connection, with nothing to read: one turn of the
-- loop puts the whole frame on the socket, behind what has gone out before, and takes it from the
-- queue, if the socket takes it.
pub event_loop-sends :
    {T : Type 0} (deps : Deps) (react : React T) (s : State T) (stream : TcpStream)
    (later : List ReadResult) (writes : List WriteResult) (f : Frame) (events : List Event)
    → s.client.stream ≡ some stream
    → stream.incoming ≡ would_block ∷ later
    → stream.writes ≡ accepted ∷ writes
    → s.client.recv_storage ≡ []
    → s.client.connection_status ≡ opened
    → s.client.input_events ≡ []
    → s.client.output_events ≡ websocket_data f ∷ events
    → kind f ≡ data_kind
    → event_loop deps react s ≡ (
      ok tt,
      record s {
        client = record s.client {
          output_events = events;
          stream = some (record stream {
            incoming = later;
            writes = writes;
            sent = stream.sent ++ Frame.serialize f;
          });
        };
      },
    )
unfolding event_loop loop_at
event_loop-sends deps react s stream later writes f events has quiet w storage st ins outs k =
    ap (λ (at : ConnectionStatus). loop_at deps react at s) st
    ∙ run_once-output deps react s stream later has f events quiet storage st ins outs
    ∙ handle_send_frame-data react f
        (record s {
          client = record s.client {
            output_events = events;
            stream = some (record stream { incoming = later });
          };
        })
        (record stream { incoming = later }) refl writes k w
