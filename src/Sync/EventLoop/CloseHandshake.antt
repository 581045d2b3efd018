-- ===== src/Sync/EventLoop/CloseHandshake.antt =====
-- The closing handshake (`WSClient::handle_control_frame`, `pop_output_event` and
-- `handle_send_frame`, websocket/src/sync/client.rs), from the first close frame to the end.
use websocket_std.Prelude.{
  ℕ, ◌+◌, ◌*◌, ◌≡◌, refl, ap, ◌∙◌, List, [], ◌∷◌, ◌++◌, Option, none, some, Bool, true,
  if◌then◌else◌,
}
use websocket_std.Outcome.{ok}
use websocket_std.WsBasic.StatusCode.{protocol_error}
use websocket_std.WsBasic.Mask.{gen_mask}
use websocket_std.WsBasic.Header.{fin, close}
use websocket_std.WsBasic.Frame
use websocket_std.WsBasic.Frame.{Frame, ControlFrame, control_frame, control, new_control, kind}
use websocket_std.Sync.Deps.{Deps}
use websocket_std.Sync.Tcp.{TcpStream, WriteResult, accepted, shutdown}
use websocket_std.Sync.State.{
  State, websocket_data, on_close, server_close, client_close, React, ConnectionStatus, opened,
  client_wants_to_close, server_wants_to_close, closed,
}
use websocket_std.Sync.Exec.{notify, notify_with}
use websocket_std.Sync.Input.{handle_control_frame, handle_close_at, close_answered, close_notify}
use websocket_std.Sync.Input.Status.{is_harmless}
use websocket_std.Sync.Input.Closing.{
  handle_control_frame-close_opened, handle_close_lem, dispatch_close,
}
use websocket_std.Sync.Output.{handle_send_frame, pop_output_event, shutdown_stream}
use websocket_std.Sync.Output.Sending.{handle_send_frame-closes}

-- The frame that answers a close frame with the status `n` and the reason.
abbrev pub answer_control : {T : Type 0} → Deps → State T → ℕ → List ℕ → ControlFrame
answer_control deps s n reason =
    let status = if is_harmless n then n else protocol_error in
    new_control fin close (some status) reason true none (gen_mask deps.rand s.draws).0

abbrev pub answer : {T : Type 0} → Deps → State T → ℕ → List ℕ → Frame
answer deps s n reason = control_frame (answer_control deps s n reason)

pub kind-close :
    (status : ℕ) (reason mask : List ℕ)
    → kind (control_frame (new_control fin close (some status) reason true none mask)) ≡ control
unfolding kind new_control
kind-close status reason mask = refl

close_notify-some :
    {T : Type 0} (deps : Deps) (react : React T) (status : ℕ) (c : Option ℕ) (s : State T)
    → close_notify deps react (some status) c s
      ≡ notify_with react (on_close (client_close status)) c s
unfolding close_notify
close_notify-some deps react status none s = refl
close_notify-some deps react status (some pointer) s = refl

module _ {T : Type 0} (deps : Deps) (react : React T) (f : ControlFrame) (s : State T) (hi lo : ℕ)
    (reason : List ℕ) (stream : TcpStream) (later : List WriteResult) (more : List Bool)
    (code : f.header.code ≡ close) (payload : f.payload ≡ hi ∷ lo ∷ reason)
    (open_socket : s.client.stream ≡ some stream) where
  -- The server closes an open connection, with a close frame that has a status: whatever was queued
  -- is dropped, the answer to the close frame is what the client takes to send next, and when the
  -- socket takes it whole and can be shut down, the connection is closed, with nothing left to send,
  -- and the callback is told the status of the answer, if there is one.
  pub server_closes :
      s.client.connection_status ≡ opened
      → stream.writes ≡ accepted ∷ later
      → stream.shutdowns ≡ true ∷ more
      → let n = hi * 256 + lo in
        let status = if is_harmless n then n else protocol_error in
        let popped = pop_output_event (handle_control_frame deps react f s).1 in
        (popped.0 ≡ ok (some (websocket_data (answer deps s n reason))))
        × (handle_send_frame react (answer deps s n reason) popped.1
            ≡ notify react (on_close (server_close status)) (record s {
              draws = s.draws + 1;
              client = record s.client {
                output_events = [];
                input_events = [];
                stream = none;
                connection_status = closed;
              };
              given_up =
                  s.given_up
                  ++ record stream {
                    writes = later;
                    shutdowns = more;
                    sent = stream.sent ++ Frame.serialize (answer deps s n reason);
                  }
                    ∷ [];
            }))
  unfolding pop_output_event new_control
  server_closes status w sh =
      rw (handle_control_frame-close_opened deps react f s hi lo reason code payload status) (
        refl,
        handle_send_frame-closes react (answer_control deps s (hi * 256 + lo) reason)
            (record s {
              draws = s.draws + 1;
              client = record s.client {
                output_events = [];
                input_events = [];
                connection_status = server_wants_to_close;
              };
            })
            stream later more open_socket (kind-close _ _ _) refl w sh,
      )

  -- The server answers the close frame of the client, with a close frame that has a status, and the
  -- socket can be shut down: the connection is closed, and the callback is told the status that the
  -- server sent, if there is one.
  pub client_closes :
      (status : ℕ)
      → s.client.connection_status ≡ client_wants_to_close
      → stream.shutdowns ≡ true ∷ more
      → f.status_code ≡ some status
      → handle_control_frame deps react f s
        ≡ notify react (on_close (client_close status)) (record s {
          client = record s.client {
            stream = some (record stream { shutdowns = more });
            connection_status = closed;
          };
        })
  unfolding handle_close_at close_answered shutdown_stream shutdown
  client_closes status st sh has =
      dispatch_close deps react f s code
      ∙ handle_close_lem deps react f s hi lo reason payload
      ∙ ap (λ (at : ConnectionStatus). handle_close_at deps at react f (hi * 256 + lo) s) st
      ∙ ap (λ (code : Option ℕ). close_answered deps react code s) has
      ∙ rw (open_socket, sh) (close_notify-some deps react status s.client.callback _)
