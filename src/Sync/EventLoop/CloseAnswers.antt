-- ===== src/Sync/EventLoop/CloseAnswers.antt =====
-- The turn of `WSClient::event_loop` (websocket/src/sync/client.rs) that reads the server's close frame.
use websocket_std.Prelude.{
  ℕ, ◌+◌, ◌*◌, ◌/◌, ◌%◌, ◌^◌, ◌<◌, ◌≤◌, ◌≡◌, refl, sym, ap, ◌∙◌, List, [], ◌∷◌, ◌++◌, append-nil,
  length, some, none, Bool, All, map, arith,
}
use websocket_std.Outcome.{WebSocketResult, ok}
use websocket_std.Core.Net.{ReadResult, got}
use websocket_std.WsBasic.Header.{close}
use websocket_std.WsBasic.Frame
use websocket_std.WsBasic.Frame.{
  Frame, ControlFrame, control_frame, data_kind, control, new_control, kind, bytes_to_frame,
}
use websocket_std.Sync.Deps.{Deps}
use websocket_std.Sync.Tcp.{TcpStream, WriteResult, accepted}
use websocket_std.Sync.State.{State, Event, websocket_data, React, ConnectionStatus, opened, output}
use websocket_std.Sync.Exec.{continue}
use websocket_std.Sync.Input.{read_bytes_from_socket, handle_recv_frame, recv_by_kind, control_of}
use websocket_std.Sync.Output.{handle_send_frame}
use websocket_std.Sync.Output.Sending.{handle_send_frame-data}
use websocket_std.Sync.Input.Reading.{Reads, read_bytes_from_socket-parsed}
use websocket_std.Sync.Input.Closing.{handle_control_frame-close_opened}
use websocket_std.Sync.EventLoop.CloseHandshake.{answer_control}
use websocket_std.Sync.EventLoop.Delivery.{run_once-frame}
use websocket_std.Sync.EventLoop.{event_loop, loop_at, handle_some}
use websocket_std.Sync.EventLoop.CloseFrames.{
  close_control, server_control_payload, bytes_to_frame-server_control, leaving, run_once-between,
}

-- The frame that still goes out of a queue, and what the socket will take when that has been written.
abbrev pub first_bytes : List Frame → List ℕ
first_bytes [] = []
first_bytes (g ∷ fs) = Frame.serialize g

abbrev pub left : List Frame → List WriteResult → List WriteResult
left [] writes = accepted ∷ writes
left (g ∷ fs) writes = writes

module _ {T : Type 0} (deps : Deps) (react : React T) (status : ℕ) (reason : List ℕ)
    (small : status < 2 ^ 16) (short : length reason < 123) where
  abbrev pub frame : Frame
  frame = control_frame (close_control status reason)

  -- The frame has been read, with these events left to send.
  abbrev pub reading : TcpStream → List Event → State T → State T
  reading stream events s = record s {
    client = record s.client { recv_storage = []; output_events = events; stream = some stream };
  }

  abbrev pub drawn : State T → State T
  drawn s = record s { draws = s.draws + 1 }

  handle_recv_frame-close :
      (stream : TcpStream) (events : List Event) (s : State T)
      → s.client.connection_status ≡ opened
      → handle_recv_frame deps react frame (reading stream events s)
        ≡ (ok tt, leaving deps react (answer_control deps s status reason) stream (drawn s))
  unfolding handle_recv_frame recv_by_kind control_of kind new_control
  handle_recv_frame-close stream events s st =
      let value : status / 256 % 256 * 256 + status % 256 ≡ status = omega arith in
      handle_control_frame-close_opened deps react (close_control status reason)
        (reading stream events s) (status / 256 % 256) (status % 256) reason refl
        (server_control_payload close status reason short) st
      ∙ rw value

  pub read_close :
      (at : ConnectionStatus) (c : ℕ) (cs : List ℕ) (stream : TcpStream) (later : List ReadResult)
      (s : State T)
      → Reads at
      → s.client.connection_status ≡ at
      → s.client.stream ≡ some stream
      → stream.incoming ≡ got (c ∷ cs) ∷ later
      → length (c ∷ cs) ≤ 1024
      → s.client.recv_storage ++ c ∷ cs ≡ Frame.serialize frame
      → read_bytes_from_socket deps s ≡ (
        ok (websocket_data frame),
        reading (record stream { incoming = later }) s.client.output_events s,
      )
  read_close at c cs stream later s live st has comes fits whole =
      read_bytes_from_socket-parsed deps at frame [] c cs stream later s live st has comes fits
        (whole ∙ sym (append-nil (Frame.serialize frame)))
        (bytes_to_frame-server_control deps.bitflags close status reason [] refl refl (omega arith)
          small short)

  -- The turn that reads the frame leaves the answer as the only thing to send.
  abbrev pub Answered :
      List Frame → State T → TcpStream → List ReadResult → List WriteResult → List Bool → Type 0
  Answered fs s stream later writes more =
      (kept : TcpStream) × (event_loop deps react s
        ≡ (ok tt, leaving deps react (answer_control deps s status reason) kept (drawn s)))
      × (kept.incoming ≡ later)
      × (kept.writes ≡ accepted ∷ left fs writes)
      × (kept.shutdowns ≡ more)
      × (kept.sent ≡ stream.sent ++ first_bytes fs)

  pub event_loop-answers :
      (fs : List Frame) (c : ℕ) (cs : List ℕ) (stream : TcpStream) (later : List ReadResult)
      (writes : List WriteResult) (more : List Bool) (s : State T)
      → s.client.connection_status ≡ opened
      → s.client.stream ≡ some stream
      → stream.incoming ≡ got (c ∷ cs) ∷ later
      → stream.writes ≡ accepted ∷ accepted ∷ writes
      → stream.shutdowns ≡ more
      → length (c ∷ cs) ≤ 1024
      → s.client.recv_storage ++ c ∷ cs ≡ Frame.serialize frame
      → s.client.input_events ≡ []
      → s.client.output_events ≡ map websocket_data fs
      → All (λ f. kind f ≡ data_kind) fs
      → Answered fs s stream later writes more
  unfolding event_loop loop_at handle_some
  event_loop-answers [] c cs stream later writes more s st has comes takes shuts fits whole ins outs
        frames =
      (
        record stream { incoming = later },
        ap (λ (at : ConnectionStatus). loop_at deps react at s) st
            ∙ run_once-frame deps react frame s (reading (record stream { incoming = later }) [] s)
                (read_close opened c cs stream later s tt st has comes fits whole
                  ∙ ap
                      (λ (events : List Event). (
                        ok (websocket_data frame),
                        reading (record stream { incoming = later }) events s,
                      ))
                      outs)
                ins refl
            ∙ ap
                (λ (r : WebSocketResult (Unit {0}) × State T).
                  continue r.0 (λ done. handle_some deps react output none) r.1)
                (handle_recv_frame-close (record stream { incoming = later }) [] s st),
        refl,
        takes,
        shuts,
        sym (append-nil stream.sent),
      )
  event_loop-answers (g ∷ fs) c cs stream later writes more s st has comes takes shuts fits whole
        ins outs frames =
      let read : TcpStream = record stream { incoming = later } in
      (
        record read { writes = accepted ∷ writes; sent = stream.sent ++ Frame.serialize g },
        ap (λ (at : ConnectionStatus). loop_at deps react at s) st
            ∙ run_once-between deps react frame g (map websocket_data fs) s
                (reading read s.client.output_events s)
                (read_close opened c cs stream later s tt st has comes fits whole) ins outs st
            ∙ ap
                (λ (r : WebSocketResult (Unit {0}) × State T).
                  continue r.0 (λ done. handle_send_frame react g) r.1)
                (handle_recv_frame-close read (map websocket_data fs) s st)
            ∙ handle_send_frame-data react g _ read refl (accepted ∷ writes) frames.0 takes,
        refl,
        refl,
        shuts,
        refl,
      )
