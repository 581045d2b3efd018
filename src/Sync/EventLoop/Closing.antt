-- ===== src/Sync/EventLoop/Closing.antt =====
-- The closing handshake through `WSClient::event_loop` (websocket/src/sync/client.rs): from the bytes of
-- the server's close frame to the closed connection.
use websocket_std.Prelude.{
  ℕ, ◌+◌, ◌/◌, ◌%◌, ◌^◌, ◌<◌, ◌≤◌, ◌≡◌, refl, ap, ◌∙◌, List, [], ◌∷◌, ◌++◌, length, some, none,
  Bool, true, if◌then◌else◌, All, map,
}
use websocket_std.Outcome.{WebSocketResult, ok}
use websocket_std.Core.Net.{ReadResult, got, would_block}
use websocket_std.WsBasic.StatusCode.{protocol_error}
use websocket_std.WsBasic.Header.{close}
use websocket_std.WsBasic.Frame
use websocket_std.WsBasic.Frame.{
  Frame, ControlFrame, control_frame, data_kind, control, new_control, kind, bytes_to_frame,
}
use websocket_std.Sync.Deps.{Deps}
use websocket_std.Sync.Tcp.{TcpStream, WriteResult, accepted}
use websocket_std.Sync.State.{
  State, websocket_data, on_close, server_close, client_close, React, ConnectionStatus, opened,
  client_wants_to_close, closed, output,
}
use websocket_std.Sync.Exec.{continue}
use websocket_std.Sync.Input.{handle_recv_frame, recv_by_kind, control_of}
use websocket_std.Sync.Input.Status.{is_harmless}
use websocket_std.Sync.EventLoop.CloseHandshake.{answer_control, answer, kind-close, client_closes}
use websocket_std.Sync.EventLoop.Delivery.{run_once-frame}
use websocket_std.Sync.EventLoop.Drained.{turns}
use websocket_std.Sync.EventLoop.{event_loop, loop_at, handle_some}
use websocket_std.Sync.EventLoop.CloseFrames.{close_control, server_control_payload, leaving_turn}
use websocket_std.Sync.EventLoop.CloseAnswers.{first_bytes, left, read_close, event_loop-answers}

-- The server closes an open connection, with a frame of a status and a reason of fewer than 123 bytes
-- that comes in pieces while data frames are still queued. The turn that reads the last piece leaves
-- the answer as the only thing to send, whatever was queued: the same reason, and the status again if it
-- is harmless (1000, 1001 or 1004) and 1002 otherwise. The next turn sends it: the socket, which is shut
-- down and given up, has got the frame that was the first in the queue, if there was one, and the answer.
-- The connection is closed, and the callback is told the status of the answer. The socket takes two
-- frames, can be shut down, and has nothing more for the client to read.
pub turns-server_close :
    {T : Type 0} (deps : Deps) (react : React T) (status : ℕ) (reason : List ℕ) (fs : List Frame)
    (c : ℕ) (cs : List ℕ) (stream : TcpStream) (later : List ReadResult) (writes : List WriteResult)
    (more : List Bool) (pointer : ℕ) (s : State T)
    → status < 2 ^ 16
    → length reason < 123
    → s.client.connection_status ≡ opened
    → s.client.stream ≡ some stream
    → stream.incoming ≡ got (c ∷ cs) ∷ would_block ∷ later
    → stream.writes ≡ accepted ∷ accepted ∷ writes
    → stream.shutdowns ≡ true ∷ more
    → length (c ∷ cs) ≤ 1024
    → s.client.recv_storage ++ c ∷ cs
      ≡ Frame.serialize (control_frame (close_control status reason))
    → s.client.input_events ≡ []
    → s.client.output_events ≡ map websocket_data fs
    → All (λ f. kind f ≡ data_kind) fs
    → s.client.callback ≡ some pointer
    → ((event_loop deps react s).1.client.output_events
        ≡ websocket_data (answer deps s status reason) ∷ [])
      × (turns deps react 2 s
          ≡ react pointer
              (on_close (server_close (if is_harmless status then status else protocol_error)))
              s.client.cb_data
              (record s {
                draws = s.draws + 1;
                client = record s.client {
                  recv_storage = [];
                  output_events = [];
                  input_events = [];
                  stream = none;
                  connection_status = closed;
                };
                given_up =
                    s.given_up
                    ++ record {
                      incoming = later;
                      writes = left fs writes;
                      shutdowns = more;
                      sent =
                          (stream.sent ++ first_bytes fs)
                          ++ Frame.serialize (answer deps s status reason);
                    }
                      ∷ [];
              }))
unfolding new_control
turns-server_close deps react status reason fs c cs stream later writes more pointer s small short
      st has comes takes shuts fits whole ins outs frames cb =
    let (kept, first, reads, sends, ends, sent) =
      event_loop-answers deps react status reason small short fs c cs stream (would_block ∷ later)
        writes (true ∷ more) s st has comes takes shuts fits whole ins outs frames in
    (
      ap (λ r. r.1.client.output_events) first,
      ap (λ r. (event_loop deps react r.1).1) first
          ∙ ap (λ r. r.1)
              (leaving_turn deps react (answer_control deps s status reason) kept later
                (left fs writes) more (stream.sent ++ first_bytes fs)
                (record s { draws = s.draws + 1 }) (kind-close _ _ _) reads sends ends sent)
          ∙ rw cb,
    )

-- The client has asked to close, and the close frame of the server comes, in pieces, with a status and
-- a reason of fewer than 123 bytes: the turn that reads the last piece shuts the socket down, closes
-- the connection and tells the callback the status that the server sent. Nothing else is queued, and
-- the socket can be shut down.
pub event_loop-client_close :
    {T : Type 0} (deps : Deps) (react : React T) (status : ℕ) (reason : List ℕ) (c : ℕ)
    (cs : List ℕ) (stream : TcpStream) (later : List ReadResult) (more : List Bool) (pointer : ℕ)
    (s : State T)
    → status < 2 ^ 16
    → length reason < 123
    → s.client.connection_status ≡ client_wants_to_close
    → s.client.stream ≡ some stream
    → stream.incoming ≡ got (c ∷ cs) ∷ later
    → stream.shutdowns ≡ true ∷ more
    → length (c ∷ cs) ≤ 1024
    → s.client.recv_storage ++ c ∷ cs
      ≡ Frame.serialize (control_frame (close_control status reason))
    → s.client.input_events ≡ []
    → s.client.output_events ≡ []
    → s.client.callback ≡ some pointer
    → event_loop deps react s ≡ (
      ok tt,
      react pointer (on_close (client_close status)) s.client.cb_data (record s {
        client = record s.client {
          recv_storage = [];
          stream = some (record stream { incoming = later; shutdowns = more });
          connection_status = closed;
        };
      }),
    )
unfolding event_loop loop_at handle_some handle_recv_frame recv_by_kind control_of kind new_control
event_loop-client_close {T} deps react status reason c cs stream later more pointer s small short st
      has comes shuts fits whole ins outs cb =
    let asked : TcpStream = record stream { incoming = later } in
    let t : State T = record s {
      client = record s.client { recv_storage = []; stream = some asked };
    } in
    let f : ControlFrame = close_control status reason in
    let heard : handle_recv_frame deps react (control_frame f) t ≡ (
      ok tt,
      react pointer (on_close (client_close status)) t.client.cb_data (record t {
        client = record t.client {
          stream = some (record asked { shutdowns = more });
          connection_status = closed;
        };
      }),
    ) =
      client_closes deps react f t (status / 256 % 256) (status % 256) reason asked asked.writes
        more refl (server_control_payload close status reason short) refl status st shuts refl
      ∙ rw cb refl in
    ap (λ (at : ConnectionStatus). loop_at deps react at s) st
    ∙ run_once-frame deps react (control_frame f) s t
        (read_close deps react status reason small short client_wants_to_close c cs stream later s
          tt st has comes fits whole)
        ins outs
    ∙ ap
        (λ (r : WebSocketResult (Unit {0}) × State T).
          continue r.0 (λ done. handle_some deps react output none) r.1)
        heard
