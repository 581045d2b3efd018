-- ===== src/Sync/Input/Closing.antt =====
-- `WSClient::handle_control_frame` (websocket/src/sync/client.rs), case by case.
use websocket_std.Prelude.{
  ℕ, suc, ◌+◌, ◌-◌, ◌*◌, ◌<◌, ◌≡◌, ap, ◌∙◌, List, [], ◌∷◌, length, none, some, true, if◌then◌else◌,
  arith, take_all, inr,
}
use websocket_std.Outcome.{WebSocketError, WebSocketResult, ok, panic, slice-ok, slice-panic}
use websocket_std.Core.Binary.{bytes_to_u16}
use websocket_std.WsBasic.StatusCode.{protocol_error}
use websocket_std.WsBasic.Mask.{gen_mask}
use websocket_std.WsBasic.Header.{fin, close, ping, pong}
use websocket_std.WsBasic.Frame.{ControlFrame, control_frame, new_control}
use websocket_std.Sync.Deps.{Deps}
use websocket_std.Sync.State.{
  State, Event, websocket_data, React, ConnectionStatus, opened, server_wants_to_close,
}
use websocket_std.Sync.Input.{
  handle_control_frame, handle_close, handle_close_at, answer_close, handle_ping, answer_status,
}
use websocket_std.Sync.Input.Status.{is_harmless, answer_status_lem}

-- The close frame that answers the server's, with a fresh mask.
abbrev pub answer_frame : {T : Type 0} → Deps → State T → ℕ → List ℕ → Event
answer_frame deps s status reason = websocket_data (
    control_frame
      (new_control fin close (some status) reason true none (gen_mask deps.rand s.draws).0))

-- What that leaves.
abbrev answered : {T : Type 0} → Deps → State T → ℕ → List ℕ → WebSocketResult (Unit {0}) × State T
answered deps s status reason = (
  ok tt,
  record s {
    draws = s.draws + 1;
    client = record s.client {
      output_events = answer_frame deps s status reason ∷ [];
      input_events = [];
      connection_status = server_wants_to_close;
    };
  },
)

module _ {T : Type 0} (deps : Deps) (react : React T) where
  pub handle_close_lem :
      (f : ControlFrame) (s : State T) (hi lo : ℕ) (reason : List ℕ)
      → f.payload ≡ hi ∷ lo ∷ reason
      → handle_close deps react f s
        ≡ handle_close_at deps s.client.connection_status react f (hi * 256 + lo) s
  unfolding handle_close bytes_to_u16
  handle_close_lem f s hi lo reason e =
      let two = slice-ok WebSocketError 0 2 (hi ∷ lo ∷ reason) (omega arith) (omega arith) in
      let value : (0 * 256 + hi) * 256 + lo ≡ hi * 256 + lo = omega arith in rw (e, two, value)

  answer_close_lem :
      (s : State T) (status hi lo : ℕ) (reason : List ℕ)
      → answer_close deps status (hi ∷ lo ∷ reason) s ≡ (
        ok tt,
        record s {
          draws = s.draws + 1;
          client = record s.client {
            output_events = answer_frame deps s (answer_status deps status) reason ∷ [];
            input_events = [];
            connection_status = server_wants_to_close;
          };
        },
      )
  unfolding answer_close gen_mask
  answer_close_lem s status hi lo reason =
      let size : suc (suc (length reason)) - 2 ≡ length reason = omega arith in
      let rest =
        slice-ok WebSocketError 2 (suc (suc (length reason))) (hi ∷ lo ∷ reason) (omega arith)
          (omega arith) in
      rw (rest, size, take_all (length reason) reason (omega arith))

  pub dispatch_close :
      (f : ControlFrame) (s : State T)
      → f.header.code ≡ close
      → handle_control_frame deps react f s ≡ handle_close deps react f s
  unfolding handle_control_frame
  dispatch_close f s code = ground arith

  -- A close frame of the server, with a status, on an open connection: whatever was queued is
  -- dropped, the only thing left to send is the answer, with the same reason and with the status
  -- repeated if it is harmless (1000, 1001 or 1004) and 1002 otherwise, and the server is known to
  -- close.
  pub handle_control_frame-close_opened :
      (f : ControlFrame) (s : State T) (hi lo : ℕ) (reason : List ℕ)
      → f.header.code ≡ close
      → f.payload ≡ hi ∷ lo ∷ reason
      → s.client.connection_status ≡ opened
      → let n = hi * 256 + lo in
        let status = if is_harmless n then n else protocol_error in
        handle_control_frame deps react f s ≡ (
          ok tt,
          record s {
            draws = s.draws + 1;
            client = record s.client {
              output_events = answer_frame deps s status reason ∷ [];
              input_events = [];
              connection_status = server_wants_to_close;
            };
          },
        )
  unfolding handle_close_at
  handle_control_frame-close_opened f s hi lo reason code payload status =
      let n : ℕ = hi * 256 + lo in
      dispatch_close f s code
      ∙ handle_close_lem f s hi lo reason payload
      ∙ ap (λ (st : ConnectionStatus). handle_close_at deps st react f n s) status
      ∙ ap (λ (bs : List ℕ). answer_close deps n bs s) payload
      ∙ answer_close_lem s n hi lo reason
      ∙ ap (λ (answer : ℕ). answered deps s answer reason) (answer_status_lem deps n)

  -- A close frame whose payload has no status of two bytes is a panic, in every state.
  pub handle_control_frame-close_short :
      (f : ControlFrame) (s : State T)
      → f.header.code ≡ close
      → length f.payload < 2
      → handle_control_frame deps react f s ≡ (panic, s)
  unfolding handle_close
  handle_control_frame-close_short f s code short =
      dispatch_close f s code ∙ rw (slice-panic WebSocketError 0 2 f.payload (inr short))

  -- A pong of the server, in every state, is a panic: its handling is a `todo!`.
  pub handle_control_frame-pong :
      (f : ControlFrame) (s : State T)
      → f.header.code ≡ pong
      → handle_control_frame deps react f s ≡ (panic, s)
  unfolding handle_control_frame
  handle_control_frame-pong f s code = rw code

  -- A ping is answered in front of all that is queued, and nothing else changes.
  pub handle_control_frame-ping :
      (f : ControlFrame) (s : State T)
      → f.header.code ≡ ping
      → let answer = new_control fin pong none f.payload true none (gen_mask deps.rand s.draws).0 in
        handle_control_frame deps react f s ≡ (
          ok tt,
          record s {
            draws = s.draws + 1;
            client = record s.client {
              output_events = websocket_data (control_frame answer) ∷ s.client.output_events;
            };
          },
        )
  unfolding handle_control_frame handle_ping gen_mask
  handle_control_frame-ping f s code = rw code
