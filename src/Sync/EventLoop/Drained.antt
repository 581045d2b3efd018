-- ===== src/Sync/EventLoop/Drained.antt =====
-- Turns of `WSClient::event_loop` (websocket/src/sync/client.rs) that put a queue of frames on the
-- socket.
use websocket_std.Prelude.{
  ℕ, zero, suc, ◌≡◌, refl, ap, ◌∙◌, List, [], ◌∷◌, ◌++◌, append-nil, append_assoc, length, some,
  All, map,
}
use websocket_std.Outcome.{ok}
use websocket_std.Core.Net.{read_into_buffer}
use websocket_std.WsBasic.Frame
use websocket_std.WsBasic.Frame.{Frame, kind, data_kind}
use websocket_std.WsBasic.Frame.Messages.{all_bytes}
use websocket_std.Sync.Deps.{Deps}
use websocket_std.Sync.Tcp.{TcpStream, read, write_all}
use websocket_std.Sync.State.{State, websocket_data, React, opened}
use websocket_std.Sync.Input.{read_bytes_from_socket, read_socket, read_event, insert_input_event}
use websocket_std.Sync.Output.{
  pop_output_event, handle_send_frame, try_write, finish_send, after_send,
}
use websocket_std.Sync.EventLoop.{
  event_loop, loop_at, run_once, pop_input_event, handle_some, handle_event,
}

-- So many turns of the loop.
abbrev pub turns : {T : Type 0} → Deps → React T → ℕ → State T → State T
turns deps react zero s = s
turns deps react (suc n) s = turns deps react n (event_loop deps react s).1

module _ {T : Type 0} (deps : Deps) (react : React T) where
  -- With these frames queued and these bytes gone out.
  abbrev pub sending : List Frame → List ℕ → TcpStream → State T → State T
  sending fs bytes stream s = record s {
    client = record s.client {
      connection_status = opened;
      recv_storage = [];
      input_events = [];
      output_events = map websocket_data fs;
      stream = some (record stream { incoming = []; writes = []; sent = bytes });
    };
  }

  pub turn_lem :
      (f : Frame) (fs : List Frame) (bytes : List ℕ) (stream : TcpStream) (s : State T)
      → kind f ≡ data_kind
      → event_loop deps react (sending (f ∷ fs) bytes stream s)
        ≡ (ok tt, sending fs (bytes ++ Frame.serialize f) stream s)
  unfolding event_loop loop_at run_once read_bytes_from_socket read_socket read read_into_buffer
      read_event insert_input_event pop_input_event pop_output_event handle_some handle_event
      handle_send_frame try_write write_all finish_send after_send
  turn_lem f fs bytes stream s k = rw (k, k)

  pub idle_turn_lem :
      (bytes : List ℕ) (stream : TcpStream) (s : State T)
      → event_loop deps react (sending [] bytes stream s) ≡ (ok tt, sending [] bytes stream s)
  unfolding event_loop loop_at run_once read_bytes_from_socket read_socket read read_into_buffer
      read_event insert_input_event pop_input_event pop_output_event handle_some
  idle_turn_lem bytes stream s = refl

  -- On an open connection with nothing to read and a socket that takes all it is given, as many turns
  -- of the loop as there are data frames in the queue put all of them on the socket, whole and in
  -- their order, behind what has gone out before, and nothing is left in the queue.
  pub turns-sending :
      (fs : List Frame) (bytes : List ℕ) (stream : TcpStream) (s : State T)
      → All (λ f. kind f ≡ data_kind) fs
      → turns deps react (length fs) (sending fs bytes stream s)
        ≡ sending [] (bytes ++ all_bytes fs) stream s
  turns-sending [] bytes stream s k = rw (append-nil bytes)
  turns-sending (f ∷ fs) bytes stream s k =
      ap (turns deps react (length fs)) (ap (λ r. r.1) (turn_lem f fs bytes stream s k.0))
      ∙ turns-sending fs (bytes ++ Frame.serialize f) stream s k.1
      ∙ ap (λ (sent : List ℕ). sending [] sent stream s)
          (append_assoc bytes (Frame.serialize f) (all_bytes fs))
