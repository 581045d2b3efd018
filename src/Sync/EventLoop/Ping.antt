-- ===== src/Sync/EventLoop/Ping.antt =====
-- A ping of the server through `WSClient::event_loop` (websocket/src/sync/client.rs): from its bytes to the
-- pong on the socket.
use websocket_std.Prelude.{
  ℕ, ◌+◌, ◌^◌, ◌<◌, ◌≤◌, ◌≡◌, refl, sym, ap, ◌∙◌, List, [], ◌∷◌, ◌++◌, append-nil, length, some,
  none, true, arith,
}
use websocket_std.Outcome.{WebSocketResult, ok}
use websocket_std.Core.Net.{ReadResult, got, would_block}
use websocket_std.WsBasic.Mask.{gen_mask}
use websocket_std.WsBasic.Header.{fin, ping, pong}
use websocket_std.WsBasic.Frame
use websocket_std.WsBasic.Frame.{
  Frame, ControlFrame, control_frame, data_kind, control, new_control, kind,
}
use websocket_std.Sync.Deps.{Deps}
use websocket_std.Sync.Tcp.{TcpStream, WriteResult, accepted}
use websocket_std.Sync.State.{State, Event, websocket_data, React, ConnectionStatus, opened}
use websocket_std.Sync.Exec.{continue}
use websocket_std.Sync.Input.{handle_recv_frame, recv_by_kind, control_of}
use websocket_std.Sync.Input.Reading.{read_bytes_from_socket-parsed}
use websocket_std.Sync.Input.Closing.{handle_control_frame-ping}
use websocket_std.Sync.Output.{handle_send_frame}
use websocket_std.Sync.Output.Sending.{handle_send_frame-data, handle_send_frame-control}
use websocket_std.Sync.EventLoop.{event_loop, loop_at}
use websocket_std.Sync.EventLoop.Drained.{turns}
use websocket_std.Sync.EventLoop.Transmission.{run_once-output}
use websocket_std.Sync.EventLoop.CloseFrames.{
  server_control, bytes_to_frame-server_control, run_once-between,
}

-- The pong to a payload.
abbrev pub pong_control : {T : Type 0} → Deps → State T → List ℕ → ControlFrame
pong_control deps s payload =
    new_control fin pong none payload true none (gen_mask deps.rand s.draws).0

module _ {T : Type 0} (deps : Deps) (react : React T) (n : ℕ) (body : List ℕ) (g : Frame)
    (events : List Event) where
  abbrev asked : ControlFrame
  asked = server_control ping n body

  -- The ping has been read and answered, with this socket.
  abbrev answered : TcpStream → State T → State T
  answered stream s = record s {
    draws = s.draws + 1;
    client = record s.client {
      recv_storage = [];
      output_events = websocket_data (control_frame (pong_control deps s asked.payload)) ∷ events;
      stream = some stream;
    };
  }

  abbrev reading : TcpStream → List Event → State T → State T
  reading stream waiting s = record s {
    client = record s.client { recv_storage = []; output_events = waiting; stream = some stream };
  }

  handle_recv_frame-ping :
      (stream : TcpStream) (s : State T)
      → handle_recv_frame deps react (control_frame asked) (reading stream events s)
        ≡ (ok tt, answered stream s)
  unfolding handle_recv_frame recv_by_kind control_of kind new_control
  handle_recv_frame-ping stream s =
      handle_control_frame-ping deps react asked (reading stream events s) refl

  event_loop-pings :
      (c : ℕ) (cs : List ℕ) (stream : TcpStream) (later : List ReadResult)
      (writes : List WriteResult) (s : State T)
      → n < 2 ^ 16
      → length body < 123
      → s.client.connection_status ≡ opened
      → s.client.stream ≡ some stream
      → stream.incoming ≡ got (c ∷ cs) ∷ later
      → stream.writes ≡ accepted ∷ writes
      → length (c ∷ cs) ≤ 1024
      → s.client.recv_storage ++ c ∷ cs ≡ Frame.serialize (control_frame asked)
      → s.client.input_events ≡ []
      → s.client.output_events ≡ websocket_data g ∷ events
      → kind g ≡ data_kind
      → event_loop deps react s ≡ (
        ok tt,
        answered
            (record stream {
              incoming = later;
              writes = writes;
              sent = stream.sent ++ Frame.serialize g;
            })
            s,
      )
  unfolding event_loop loop_at
  event_loop-pings c cs stream later writes s small short st has comes takes fits whole ins outs k =
      let read : TcpStream = record stream { incoming = later } in
      ap (λ (at : ConnectionStatus). loop_at deps react at s) st
      ∙ run_once-between deps react (control_frame asked) g events s
          (reading read s.client.output_events s)
          (read_bytes_from_socket-parsed deps opened (control_frame asked) [] c cs stream later s tt
            st has comes fits (whole ∙ sym (append-nil (Frame.serialize (control_frame asked))))
            (bytes_to_frame-server_control deps.bitflags ping n body [] refl refl (omega arith)
              small short))
          ins outs st
      ∙ ap
          (λ (r : WebSocketResult (Unit {0}) × State T).
            continue r.0 (λ done. handle_send_frame react g) r.1)
          (handle_recv_frame-ping read s)
      ∙ handle_send_frame-data react g _ read refl writes k takes

  event_loop-pongs :
      (stream : TcpStream) (later : List ReadResult) (writes : List WriteResult) (s : State T)
      → s.client.connection_status ≡ opened
      → s.client.input_events ≡ []
      → stream.incoming ≡ would_block ∷ later
      → stream.writes ≡ accepted ∷ writes
      → event_loop deps react (answered stream s) ≡ (
        ok tt,
        record s {
          draws = s.draws + 1;
          client = record s.client {
            recv_storage = [];
            output_events = events;
            stream = some (record stream {
              incoming = later;
              writes = writes;
              sent =
                  stream.sent
                  ++ Frame.serialize (control_frame (pong_control deps s asked.payload));
            });
          };
        },
      )
  unfolding event_loop loop_at kind new_control
  event_loop-pongs stream later writes s st ins quiet takes =
      let answer : ControlFrame = pong_control deps s asked.payload in
      let t : State T = answered stream s in
      ap (λ (at : ConnectionStatus). loop_at deps react at t) st
      ∙ run_once-output deps react t stream later refl (control_frame answer) events quiet refl st
          ins refl
      ∙ handle_send_frame-control react answer _ (record stream { incoming = later }) refl writes
          refl st takes

-- A ping of the server, with a payload of 2 to 124 bytes, comes in pieces on an open connection while
-- a data frame is the next to send. The turn that reads the last piece sends that frame, and the next
-- turn sends a pong with the payload of the ping, before whatever else is queued, which stays as it is.
-- The socket takes two frames and has nothing more for the client to read.
pub turns-ping :
    {T : Type 0} (deps : Deps) (react : React T) (n : ℕ) (body : List ℕ) (g : Frame)
    (events : List Event) (c : ℕ) (cs : List ℕ) (stream : TcpStream) (later : List ReadResult)
    (writes : List WriteResult) (s : State T)
    → n < 2 ^ 16
    → length body < 123
    → s.client.connection_status ≡ opened
    → s.client.stream ≡ some stream
    → stream.incoming ≡ got (c ∷ cs) ∷ would_block ∷ later
    → stream.writes ≡ accepted ∷ accepted ∷ writes
    → length (c ∷ cs) ≤ 1024
    → s.client.recv_storage ++ c ∷ cs ≡ Frame.serialize (control_frame (server_control ping n body))
    → s.client.input_events ≡ []
    → s.client.output_events ≡ websocket_data g ∷ events
    → kind g ≡ data_kind
    → let answer = pong_control deps s (server_control ping n body).payload in
      turns deps react 2 s ≡ record s {
        draws = s.draws + 1;
        client = record s.client {
          recv_storage = [];
          output_events = events;
          stream = some (record stream {
            incoming = later;
            writes = writes;
            sent = (stream.sent ++ Frame.serialize g) ++ Frame.serialize (control_frame answer);
          });
        };
      }
turns-ping deps react n body g events c cs stream later writes s small short st has comes takes fits
      whole ins outs k =
    ap (λ r. (event_loop deps react r.1).1)
      (event_loop-pings deps react n body g events c cs stream (would_block ∷ later)
        (accepted ∷ writes) s small short st has comes takes fits whole ins outs k)
    ∙ ap (λ r. r.1)
        (event_loop-pongs deps react n body g events
          (record stream {
            incoming = would_block ∷ later;
            writes = accepted ∷ writes;
            sent = stream.sent ++ Frame.serialize g;
          })
          later writes s st ins refl refl)
