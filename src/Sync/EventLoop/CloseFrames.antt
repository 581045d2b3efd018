-- ===== src/Sync/EventLoop/CloseFrames.antt =====
-- Control frames in turns of `WSClient::event_loop` (websocket/src/sync/client.rs): how the
-- server's are parsed, how they are read while others wait, and how the answer to a close frame goes out.
use websocket_std.Prelude.{
  ℕ, ◌/◌, ◌%◌, ◌^◌, ◌<◌, ◌≡◌, refl, ap, ◌∙◌, List, [], ◌∷◌, ◌++◌, length, some, none, Bool, true,
  false, arith, lt→ltb, Bool-cases, inl, inr,
}
use websocket_std.Outcome.{ok}
use websocket_std.Core.Binary.{to_be_bytes}
use websocket_std.Core.Net.{ReadResult, would_block, read_into_buffer}
use websocket_std.WsBasic.Bitflags.{Bitflags}
use websocket_std.WsBasic.Header.{fin, close}
use websocket_std.WsBasic.Header.Codes.{is_known}
use websocket_std.WsBasic.Frame
use websocket_std.WsBasic.Frame.{
  Frame, ControlFrame, control_frame, data_kind, control, new_control, kind, bytes_to_frame,
  is_data,
}
use websocket_std.WsBasic.Frame.ControlRoundTrip.{
  bytes_to_frame-serialize_control, new_control-short,
}
use websocket_std.Sync.Deps.{Deps}
use websocket_std.Sync.Tcp.{TcpStream, WriteResult, accepted, read}
use websocket_std.Sync.State.{
  State, Event, websocket_data, on_close, server_close, React, opened, server_wants_to_close,
  closed,
}
use websocket_std.Sync.Exec.{continue, notify}
use websocket_std.Sync.Input.{
  read_bytes_from_socket, read_socket, read_event, insert_input_event, handle_recv_frame,
}
use websocket_std.Sync.Output.{pop_output_event, is_control, handle_send_frame, or_zero}
use websocket_std.Sync.Output.Sending.{handle_send_frame-closes}
use websocket_std.Sync.EventLoop.{
  event_loop, loop_at, run_once, pop_input_event, handle_some, handle_event,
}

-- A control frame of the server with a status, which it does not mask.
abbrev pub server_control : ℕ → ℕ → List ℕ → ControlFrame
server_control code status reason = new_control fin code (some status) reason false none []

abbrev pub close_control : ℕ → List ℕ → ControlFrame
close_control = server_control close

pub server_control_payload :
    (code status : ℕ) (reason : List ℕ)
    → length reason < 123
    → (server_control code status reason).payload ≡ status / 256 % 256 ∷ status % 256 ∷ reason
unfolding to_be_bytes
server_control_payload code status reason short =
    ap (λ (f : ControlFrame). f.payload) (new_control-short fin code status reason (omega arith))

pub bytes_to_frame-server_control :
    (bf : Bitflags) (code status : ℕ) (reason rest : List ℕ)
    → is_data code ≡ false
    → is_known code ≡ true
    → code < 16
    → status < 2 ^ 16
    → length reason < 123
    → let f = control_frame (server_control code status reason) in
      bytes_to_frame bf (Frame.serialize f ++ rest) ≡ ok (some (f, length (Frame.serialize f)))
bytes_to_frame-server_control bf code status reason rest d k lt small short =
    bytes_to_frame-serialize_control bf fin code (omega arith, refl) status reason rest d k lt small
      (omega arith)
    ∙ rw (lt→ltb (length reason) 123 short)

module _ {T : Type 0} (deps : Deps) (react : React T) where
  -- With this frame as the only thing left to send.
  abbrev pub leaving : ControlFrame → TcpStream → State T → State T
  leaving f stream s = record s {
    client = record s.client {
      recv_storage = [];
      output_events = websocket_data (control_frame f) ∷ [];
      input_events = [];
      stream = some stream;
      connection_status = server_wants_to_close;
    };
  }

  leaving_turn_reads :
      (f : ControlFrame) (stream : TcpStream) (later : List ReadResult) (s : State T)
      → stream.incoming ≡ would_block ∷ later
      → event_loop deps react (leaving f stream s)
        ≡ handle_send_frame react (control_frame f) (record (leaving f stream s) {
          client = record (leaving f stream s).client {
            output_events = [];
            stream = some (record stream { incoming = later });
          };
        })
  unfolding event_loop loop_at run_once read_bytes_from_socket read_socket read read_into_buffer
      read_event insert_input_event pop_input_event pop_output_event handle_some handle_event
  leaving_turn_reads f stream later s quiet = rw quiet

  pub leaving_turn :
      (f : ControlFrame) (stream : TcpStream) (later : List ReadResult) (writes : List WriteResult)
      (more : List Bool) (before : List ℕ) (s : State T)
      → kind (control_frame f) ≡ control
      → stream.incoming ≡ would_block ∷ later
      → stream.writes ≡ accepted ∷ writes
      → stream.shutdowns ≡ true ∷ more
      → stream.sent ≡ before
      → event_loop deps react (leaving f stream s)
        ≡ notify react (on_close (server_close (or_zero f.status_code))) (record s {
          client = record s.client {
            recv_storage = [];
            output_events = [];
            input_events = [];
            stream = none;
            connection_status = closed;
          };
          given_up =
              s.given_up
              ++ record {
                incoming = later;
                writes = writes;
                shutdowns = more;
                sent = before ++ Frame.serialize (control_frame f);
              }
                ∷ [];
        })
  leaving_turn f stream later writes more before s k quiet takes shuts sent = rw (← sent) (
      leaving_turn_reads f stream later s quiet
      ∙ handle_send_frame-closes react f _ (record stream { incoming = later }) writes more refl k
          refl takes shuts)

  -- A turn of an open connection that reads a frame while others wait: the first of them is taken
  -- before the frame is handled, and sent after.
  pub run_once-between :
      (f g : Frame) (events : List Event) (s t : State T)
      → read_bytes_from_socket deps s ≡ (ok (websocket_data f), t)
      → t.client.input_events ≡ []
      → t.client.output_events ≡ websocket_data g ∷ events
      → t.client.connection_status ≡ opened
      → let taken = record t { client = record t.client { output_events = events } } in
        run_once deps react s
        ≡ continue
            (handle_recv_frame deps react f taken).0
            (λ done. handle_send_frame react g)
            (handle_recv_frame deps react f taken).1
  unfolding run_once insert_input_event pop_input_event pop_output_event handle_some handle_event
  run_once-between f g events s t r ins outs st = elim (Bool-cases (is_control (kind f))) [
    | inl overtakes ↦ rw (r, overtakes, ins, outs, st)
    | inr waits ↦ rw (r, waits, ins, outs, st)
  ]
