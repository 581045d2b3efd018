-- ===== src/Sync/EventLoop/Delivery.antt =====
-- `WSClient::event_loop` (websocket/src/sync/client.rs) from the bytes of a text frame to the callback.
use websocket_std.Prelude.{
  ℕ, ◌≡◌, ◌≤◌, refl, ap, ◌∙◌, List, [], ◌∷◌, ◌++◌, length, none, some, true, false, arith,
  Bool-cases, inl, inr,
}
use websocket_std.Outcome.{WebSocketResult, ok}
use websocket_std.Core.Binary.{IsVec}
use websocket_std.Core.Net.{ReadResult, got}
use websocket_std.Std.Utf8.{is_utf8}
use websocket_std.WsBasic.Header.{fin}
use websocket_std.WsBasic.Frame
use websocket_std.WsBasic.Frame.{Frame, data_frame, new_data, is_data, kind, data_kind}
use websocket_std.Sync.Deps.{Deps}
use websocket_std.Sync.Tcp.{TcpStream}
use websocket_std.Sync.State.{
  State, websocket_data, on_text, React, ConnectionStatus, opened, output,
}
use websocket_std.Sync.Exec.{continue}
use websocket_std.Sync.Input.{read_bytes_from_socket, insert_input_event, handle_recv_frame}
use websocket_std.Sync.Input.Reading.{read_bytes_from_socket-frame}
use websocket_std.Sync.Input.TextFrames.{handle_recv_frame-fin}
use websocket_std.Sync.Output.{pop_output_event, is_control}
use websocket_std.Sync.EventLoop.{
  event_loop, loop_at, run_once, pop_input_event, handle_some, handle_event,
}

kind-new_data :
    (flag code : ℕ) (payload : List ℕ)
    → is_data code ≡ true
    → kind (data_frame (new_data flag code payload false none [])) ≡ data_kind
unfolding kind new_data
kind-new_data flag code payload d = ground (arith, d)

module _ {T : Type 0} (deps : Deps) (react : React T) where
  -- A turn of the loop that reads a frame while nothing else is queued.
  pub run_once-frame :
      (f : Frame) (s t : State T)
      → read_bytes_from_socket deps s ≡ (ok (websocket_data f), t)
      → t.client.input_events ≡ []
      → t.client.output_events ≡ []
      → run_once deps react s
        ≡ continue
            (handle_recv_frame deps react f t).0
            (λ done. handle_some deps react output none)
            (handle_recv_frame deps react f t).1
  unfolding run_once insert_input_event pop_input_event pop_output_event handle_some handle_event
  run_once-frame f s t r i o = elim (Bool-cases (is_control (kind f))) [
    | inl overtakes ↦ rw (r, overtakes, i, o)
    | inr waits ↦ rw (r, waits, i, o)
  ]

-- A text of valid UTF-8, in one frame that has come in pieces: the turn of the loop that reads the last
-- of them on an open connection hands the text to the callback, with the socket read and what came
-- behind the frame kept. Nothing else is queued and no message is half received. The last read is not
-- empty and fits the buffer.
pub event_loop-text :
    {T : Type 0} (deps : Deps) (react : React T) (code : ℕ) (payload rest : List ℕ) (c : ℕ)
    (cs : List ℕ) (stream : TcpStream) (later : List ReadResult) (pointer : ℕ) (s : State T)
    → is_data code ≡ true
    → IsVec payload
    → is_utf8 payload ≡ true
    → s.client.connection_status ≡ opened
    → s.client.stream ≡ some stream
    → stream.incoming ≡ got (c ∷ cs) ∷ later
    → length (c ∷ cs) ≤ 1024
    → s.client.recv_storage ++ c ∷ cs
      ≡ Frame.serialize (data_frame (new_data fin code payload false none [])) ++ rest
    → s.client.callback ≡ some pointer
    → s.client.recv_data ≡ []
    → s.client.input_events ≡ []
    → s.client.output_events ≡ []
    → event_loop deps react s ≡ (
      ok tt,
      react pointer (on_text payload) s.client.cb_data (record s {
        client = record s.client {
          recv_storage = rest;
          stream = some (record stream { incoming = later });
        };
      }),
    )
unfolding event_loop loop_at handle_some new_data
event_loop-text {T} deps react code payload rest c cs stream later pointer s d v utf st has comes
      fits whole cb empty ins outs =
    let f : Frame = data_frame (new_data fin code payload false none []) in
    let t : State T = record s {
      client = record s.client {
        recv_storage = rest;
        stream = some (record stream { incoming = later });
      };
    } in
    let k : kind f ≡ data_kind = kind-new_data fin code payload d in
    let heard : handle_recv_frame deps react f t
        ≡ (ok tt, react pointer (on_text payload) s.client.cb_data t) =
      handle_recv_frame-fin deps react f t k pointer cb refl empty ∙ rw utf in
    ap (λ (at : ConnectionStatus). loop_at deps react at s) st
    ∙ run_once-frame deps react f s t
        (read_bytes_from_socket-frame deps fin code payload rest c cs stream later s
          (omega arith, refl) d v st has comes fits whole)
        ins outs
    ∙ ap
        (λ (r : WebSocketResult (Unit {0}) × State T).
          continue r.0 (λ done. handle_some deps react output none) r.1)
        heard
