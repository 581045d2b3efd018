-- ===== src/Sync/Output/Sending.antt =====
-- `WSClient::handle_send_frame` (websocket/src/sync/client.rs) on a socket that takes a frame, or part
-- of it.
use websocket_std.Prelude.{ℕ, ◌≡◌, refl, List, [], ◌∷◌, ◌++◌, take, none, some, Bool, true}
use websocket_std.Outcome.{ok}
use websocket_std.WsBasic.Frame
use websocket_std.WsBasic.Frame.{
  Frame, ControlFrame, control_frame, FrameKind, data_kind, control, kind,
}
use websocket_std.Sync.Tcp.{TcpStream, WriteResult, accepted, blocked, write_all, shutdown}
use websocket_std.Sync.State.{
  State, websocket_data, on_close, server_close, React, opened, server_wants_to_close, closed,
}
use websocket_std.Sync.Exec.{notify}
use websocket_std.Sync.Output.{
  or_zero, try_write, shutdown_stream, give_up, close_sent, finish_send, after_send,
  handle_send_frame, pop_output_event,
}

module _ {T : Type 0} (react : React T) (frame : Frame) (s : State T) (stream : TcpStream)
    (open_socket : s.client.stream ≡ some stream) (later : List WriteResult) where
  -- Part of the frame goes out and the rest would block: the frame waits at the head of the queue.
  abbrev pub waiting : ℕ → State T
  waiting n = record s {
    client = record s.client {
      stream =
          some (record stream {
            writes = later;
            sent = stream.sent ++ take n (Frame.serialize frame);
          });
      output_events = websocket_data frame ∷ s.client.output_events;
    };
  }

  pub handle_send_frame-blocked :
      (n : ℕ)
      → kind frame ≡ data_kind
      → stream.writes ≡ blocked n ∷ later
      → handle_send_frame react frame s ≡ (ok tt, waiting n)
  unfolding handle_send_frame try_write write_all finish_send after_send
  handle_send_frame-blocked n k w = rw (open_socket, w, k)

  -- The whole frame has gone out.
  abbrev pub gone : State T
  gone = record s {
    client = record s.client {
      stream = some (record stream { writes = later; sent = stream.sent ++ Frame.serialize frame });
    };
  }

  pub handle_send_frame-data :
      kind frame ≡ data_kind
      → stream.writes ≡ accepted ∷ later
      → handle_send_frame react frame s ≡ (ok tt, gone)
  unfolding handle_send_frame try_write write_all finish_send after_send
  handle_send_frame-data k w = rw (open_socket, w, k, k)

-- On an open connection a control frame goes out as a data frame does.
pub handle_send_frame-control :
    {T : Type 0} (react : React T) (f : ControlFrame) (s : State T) (stream : TcpStream)
    (open_socket : s.client.stream ≡ some stream) (later : List WriteResult)
    → kind (control_frame f) ≡ control
    → s.client.connection_status ≡ opened
    → stream.writes ≡ accepted ∷ later
    → handle_send_frame react (control_frame f) s
      ≡ (ok tt, gone react (control_frame f) s stream open_socket later)
unfolding handle_send_frame try_write write_all finish_send after_send
handle_send_frame-control react f s stream open_socket later k st w = rw (open_socket, w, k, k, st)

module _ {T : Type 0} (react : React T) (frame : Frame) (s : State T) (stream : TcpStream)
    (open_socket : s.client.stream ≡ some stream) (later : List WriteResult) where
  -- A data frame of an open connection whose write blocks after n bytes is taken from the queue at
  -- the next turn and written from its start, if the socket takes it then: the server gets the first
  -- n bytes and then the whole frame.
  pub handle_send_frame-resends :
      (n : ℕ)
      → kind frame ≡ data_kind
      → s.client.connection_status ≡ opened
      → stream.writes ≡ blocked n ∷ accepted ∷ later
      → let queued = pop_output_event (handle_send_frame react frame s).1 in
        let bytes = Frame.serialize frame in
        (queued.0 ≡ ok (some (websocket_data frame)))
        × (handle_send_frame react frame queued.1 ≡ (
          ok tt,
          record s {
            client = record s.client {
              stream =
                  some (record stream {
                    writes = later;
                    sent = (stream.sent ++ take n bytes) ++ bytes;
                  });
            };
          },
        ))
  unfolding pop_output_event
  handle_send_frame-resends n k st w =
      let again : TcpStream = record stream {
        writes = accepted ∷ later;
        sent = stream.sent ++ take n (Frame.serialize frame);
      } in
      rw (handle_send_frame-blocked react frame s stream open_socket (accepted ∷ later) n k w, st)
        (
          refl,
          handle_send_frame-data react frame
              (record s {
                client = record s.client { connection_status = opened; stream = some again };
              })
              again refl later k refl,
        )

-- While the server waits for the answer to its close frame, whichever control frame goes out whole
-- ends the connection: also a pong, with the close frame still in the queue. The socket, which can
-- be shut down, is given up, and the callback is told the status of the frame, 0 for a frame without
-- one.
pub handle_send_frame-closes :
    {T : Type 0} (react : React T) (f : ControlFrame) (s : State T) (stream : TcpStream)
    (later : List WriteResult) (more : List Bool)
    → s.client.stream ≡ some stream
    → kind (control_frame f) ≡ control
    → s.client.connection_status ≡ server_wants_to_close
    → stream.writes ≡ accepted ∷ later
    → stream.shutdowns ≡ true ∷ more
    → handle_send_frame react (control_frame f) s
      ≡ notify react (on_close (server_close (or_zero f.status_code))) (record s {
        client = record s.client { stream = none; connection_status = closed };
        given_up =
            s.given_up
            ++ record stream {
              writes = later;
              shutdowns = more;
              sent = stream.sent ++ Frame.serialize (control_frame f);
            }
              ∷ [];
      })
unfolding handle_send_frame try_write write_all finish_send after_send close_sent shutdown_stream
    shutdown give_up
handle_send_frame-closes react f s stream later more open_socket k st w sh =
    rw (open_socket, w, k, k, st, sh)
