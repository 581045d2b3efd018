-- ===== src/Sync/Moves/Frames.antt =====
-- What the handlers of frames, received and sent, and of requests (websocket/src/sync/client.rs)
-- keep.
use websocket_std.Prelude.{
  ℕ, ◌≡◌, refl, List, [], ◌∷◌, ◌++◌, length, Option, none, some, Bool, true, false, ◌&&◌, ◌==◌,
  if◌then◌else◌,
}
use websocket_std.Outcome.{ok, panic, slice, expect, invalid_frame}
use websocket_std.Http.Headers.{Text}
use websocket_std.Http.Request
use websocket_std.Http.Request.{Request}
use websocket_std.WsBasic.Header.{close, ping, pong}
use websocket_std.WsBasic.Frame
use websocket_std.WsBasic.Frame.{
  Frame, ControlFrame, get_data, control_frame, data_frame, FrameKind, data_kind, control,
  not_define, kind,
}
use websocket_std.Sync.Deps.{Deps}
use websocket_std.Sync.State.{
  State, Event, http_request, on_text, on_close, server_close, client_close, React,
  ConnectionStatus, not_init, start_init, handshake, opened, client_wants_to_close,
  server_wants_to_close, closed,
}
use websocket_std.Sync.Exec.{fail, lift, notify, modify, ◌>>◌}
use websocket_std.Sync.Input.{
  decode, deliver, decode_data, handle_data_frame, answer_close, close_notify, close_answered,
  handle_close_at, handle_close, handle_ping, handle_control_frame, control_of, recv_by_kind,
  handle_recv_frame,
}
use websocket_std.Sync.Output.{
  frame_status, or_zero, is_control, is_server_wants_to_close, again, try_write, shutdown_stream,
  give_up, close_sent, after_send, finish_send, handle_send_frame, handle_send_http_request,
}
use websocket_std.Sync.Moves.Handlers.{
  shutdown_stream-status, shutdown_stream-Keeps, try_write-Keeps,
}
use websocket_std.Sync.Moves.{
  server_closes, server_closed, client_closed, Moved, Keeps, Calm, quiet, without_socket,
  Moved-refl, Moved-trans, advance_from, socket_at, Moved-if, Moved-continue, notify_with-Keeps,
  notify-Keeps,
}

module _ {T : Type 0} (deps : Deps) (react : React T) (calm : Calm react) where
  deliver-Keeps : (previous : List ℕ) (msg : Text) → Keeps (deliver react previous msg)
  unfolding deliver
  deliver-Keeps [] msg s = notify-Keeps react calm (on_text msg) s
  deliver-Keeps (b ∷ previous) msg s =
      Moved-continue (decode (b ∷ previous)) _ (Moved-refl s) λ completed.
        Moved-continue (notify react (on_text (completed ++ msg)) s).0
          (λ _. modify (λ c. record c { recv_data = [] }))
          (notify-Keeps react calm (on_text (completed ++ msg)) s) λ told. quiet refl (λ p. p) refl

  decode_data-Keeps : (c : Option ℕ) (frame : Frame) → Keeps (decode_data react c frame)
  unfolding decode_data
  decode_data-Keeps none frame s = Moved-refl s
  decode_data-Keeps (some pointer) frame s =
      Moved-continue (decode (get_data frame)) _ (Moved-refl s) λ msg. deliver-Keeps _ msg s

  handle_data_frame-Keeps : (frame : Frame) → Keeps (handle_data_frame react frame)
  unfolding handle_data_frame
  handle_data_frame-Keeps frame s =
      Moved-trans (quiet refl (λ p. p) refl) (decode_data-Keeps _ frame _)

  answer_close-Keeps :
      (status : ℕ) (payload : List ℕ) (s : State T)
      → s.client.connection_status ≡ opened
      → Moved s (answer_close deps status payload s).1
  unfolding answer_close
  answer_close-Keeps status payload s e =
      Moved-continue (slice 2 (length payload) payload) _ (Moved-refl s)
        λ reason. advance_from e server_closes (λ h _. socket_at s e tt h) refl

  close_notify-Keeps : (status c : Option ℕ) → Keeps (close_notify deps react status c)
  unfolding close_notify
  close_notify-Keeps status none s = Moved-refl s
  close_notify-Keeps status (some pointer) s =
      Moved-continue (expect status) _ (Moved-refl s)
        λ code. notify_with-Keeps react calm (on_close (client_close code)) (some pointer) s

  close_answered-Keeps :
      (status : Option ℕ) (s : State T)
      → s.client.connection_status ≡ client_wants_to_close
      → Moved s (close_answered deps react status s).1
  unfolding close_answered
  close_answered-Keeps status s e =
      let shut : State T = record s { client = record s.client { connection_status = closed } } in
      Moved-trans (advance_from e client_closed (λ h live. absurd live) refl) (
        Moved-continue (shutdown_stream shut).0
          (λ _ t. close_notify deps react status t.client.callback t) (shutdown_stream-Keeps shut)
          λ done. close_notify-Keeps status _ _)

  handle_close_at-Keeps :
      (st : ConnectionStatus) (f : ControlFrame) (status : ℕ) (s : State T)
      → s.client.connection_status ≡ st
      → Moved s (handle_close_at deps st react f status s).1
  unfolding handle_close_at
  handle_close_at-Keeps opened f status s e = answer_close-Keeps status f.payload s e
  handle_close_at-Keeps client_wants_to_close f status s e = close_answered-Keeps f.status_code s e
  handle_close_at-Keeps not_init f status s e = Moved-refl s
  handle_close_at-Keeps start_init f status s e = Moved-refl s
  handle_close_at-Keeps handshake f status s e = Moved-refl s
  handle_close_at-Keeps server_wants_to_close f status s e = Moved-refl s
  handle_close_at-Keeps closed f status s e = Moved-refl s

  handle_close-Keeps : (f : ControlFrame) → Keeps (handle_close deps react f)
  unfolding handle_close
  handle_close-Keeps f s =
      Moved-continue (slice 0 2 f.payload) _ (Moved-refl s)
        λ two. handle_close_at-Keeps s.client.connection_status f _ s refl

  handle_ping-Keeps : (f : ControlFrame) → Keeps {T = T} (handle_ping deps f)
  unfolding handle_ping
  handle_ping-Keeps f s = quiet refl (λ p. p) refl

  handle_control_frame-Keeps : (f : ControlFrame) → Keeps (handle_control_frame deps react f)
  unfolding handle_control_frame
  handle_control_frame-Keeps f s =
      Moved-if (f.header.code == ping) (handle_ping deps f) _ s (handle_ping-Keeps f s) (
        Moved-if (f.header.code == pong) (lift panic) _ s (Moved-refl s) (
          Moved-if (f.header.code == close) (handle_close deps react f) (fail invalid_frame) s
            (handle_close-Keeps f s) (Moved-refl s)))

  control_of-Keeps : (frame : Frame) → Keeps (control_of deps react frame)
  unfolding control_of
  control_of-Keeps (data_frame f) s = Moved-refl s
  control_of-Keeps (control_frame f) s = handle_control_frame-Keeps f s

  recv_by_kind-Keeps : (k : FrameKind) (frame : Frame) → Keeps (recv_by_kind deps k react frame)
  unfolding recv_by_kind
  recv_by_kind-Keeps data_kind frame s = handle_data_frame-Keeps frame s
  recv_by_kind-Keeps control frame s = control_of-Keeps frame s
  recv_by_kind-Keeps not_define frame s = Moved-refl s

  pub handle_recv_frame-Keeps : (frame : Frame) → Keeps (handle_recv_frame deps react frame)
  unfolding handle_recv_frame
  handle_recv_frame-Keeps frame s = recv_by_kind-Keeps (kind frame) frame s

  close_sent-Keeps :
      (status : Option ℕ) (s : State T)
      → s.client.connection_status ≡ server_wants_to_close
      → Moved s (close_sent react status s).1
  unfolding close_sent give_up
  close_sent-Keeps status s e =
      let shut : State T = record s { client = record s.client { connection_status = closed } } in
      Moved-trans (advance_from e server_closed (λ h live. absurd live) refl) (
        Moved-continue (shutdown_stream shut).0
          (λ _. give_up >> notify react (on_close (server_close (or_zero status))))
          (shutdown_stream-Keeps shut)
          λ done.
            Moved-trans (without_socket refl (shutdown_stream-status shut) refl)
              (notify-Keeps react calm (on_close (server_close (or_zero status))) _))

  finish_close-Keeps :
      (st : ConnectionStatus) (b : Bool) (status : Option ℕ) (s : State T)
      → s.client.connection_status ≡ st
      → Moved s
          (if b && is_server_wants_to_close st then close_sent react status s else (ok tt, s)).1
  finish_close-Keeps server_wants_to_close true status s e = close_sent-Keeps status s e
  finish_close-Keeps not_init true status s e = Moved-refl s
  finish_close-Keeps start_init true status s e = Moved-refl s
  finish_close-Keeps handshake true status s e = Moved-refl s
  finish_close-Keeps opened true status s e = Moved-refl s
  finish_close-Keeps client_wants_to_close true status s e = Moved-refl s
  finish_close-Keeps closed true status s e = Moved-refl s
  finish_close-Keeps st false status s e = Moved-refl s

  after_send-Keeps :
      (frame : Frame) (b : Bool) (status : Option ℕ) → Keeps (after_send react frame b status)
  unfolding after_send
  after_send-Keeps frame false status s = quiet refl (λ p. p) refl
  after_send-Keeps frame true status s =
      finish_close-Keeps s.client.connection_status (is_control (kind frame)) status s refl

  finish_send-Keeps : (frame : Frame) (b : Bool) → Keeps (finish_send react frame b)
  unfolding finish_send
  finish_send-Keeps frame b s =
      Moved-continue (frame_status (kind frame) frame) (after_send react frame b) (Moved-refl s)
        λ status. after_send-Keeps frame b status s

  pub handle_send_frame-Keeps : (frame : Frame) → Keeps (handle_send_frame react frame)
  unfolding handle_send_frame
  handle_send_frame-Keeps frame s =
      Moved-continue (try_write (Frame.serialize frame) s).0 (finish_send react frame)
        (try_write-Keeps (Frame.serialize frame) s) λ sent. finish_send-Keeps frame sent _

  again-Keeps : (event : Event) (b : Bool) → Keeps {T = T} (again event b)
  again-Keeps event true s = Moved-refl s
  again-Keeps event false s = quiet refl (λ p. p) refl

  pub handle_send_http_request-Keeps :
      (request : Request) → Keeps {T = T} (handle_send_http_request deps request)
  unfolding handle_send_http_request
  handle_send_http_request-Keeps request s =
      Moved-continue (try_write (Request.serialize deps.order request) s).0
        (again (http_request request)) (try_write-Keeps (Request.serialize deps.order request) s)
        λ sent. again-Keeps (http_request request) sent _
